-- ===== src/Tests/Policies.antt =====
-- Runs of the recovery and the custody policies.
use verdant.Base.{
  ◌↔◌, true, list_partial_eq, ℕ, ◌≡◌, false, some, List, [], ◌∷◌, String, string_partial_eq,
  nat_partial_eq, refl,
}
use verdant.Action.Journal.{Admitted, set}
use verdant.Action.Journal.Writer.{Preview}
use verdant.Action.Custody.{CustodyHold, active}
use verdant.Tests.Walls.{intent}
use verdant.Accept.Effective.{SourceKind, EffectiveConfig, get, impact_from, provenance_of}
use verdant.Action.Publication.{assess_target_impact, is_preserved}
use verdant.Action.Publication.Impact.{Agrees, assess_target_impact-Agrees_iff}

abbrev site : String
site = "site-a"

abbrev other : String
other = "site-b"

abbrev holds : List CustodyHold
holds = record { scope = "site-a"; kind = active; reason = "belt" } ∷ []

abbrev restored : ℕ
restored = 3

abbrev slot_priority : ℕ
slot_priority = 8

abbrev successor : Preview
successor = record {
  scope = "site-a";
  equipment = "ahu-1";
  binding_revision = 3;
  accepted_revision = 4;
  wire_bits = 7;
  release_admitted = false;
  release_target = "none";
  canonical_bytes = "x";
  apdu_retries = 0;
  duration_secs = 900;
  deadline_secs = 5;
  rate_per_hour = 6;
}

abbrev obligation : Admitted
obligation = record intent {
  wire_bits = some 7;
  action_kind = some set;
  release_admitted = some false;
  release_target = some "none";
}

abbrev Config : Type 0
Config = EffectiveConfig String ℕ ℕ

-- Two targets, of which the second is bound to `second` and described by `label`.
abbrev configured : ℕ → String → Config
configured second label = record {
  scope = "campus";
  binding_revision = 4;
  bootstrap_reason = "first boot";
  entries =
      ("ahu-1", record { key = "ahu-1"; label = "fan"; binding = 7; source = SourceKind.domain })
      ∷ (
        "ahu-2",
        record { key = "ahu-2"; label = label; binding = second; source = SourceKind.domain },
      )
      ∷ [];
  facts = [];
}

rebound_is_blocked :
    is_preserved
      (assess_target_impact (impact_from (configured 9 "coil") (configured 8 "coil")) "ahu-2")
    ≡ false
unfolding assess_target_impact impact_from verdant.Accept.Effective.new_entries
    verdant.Accept.Effective.old_keys verdant.Accept.Effective.provenance_of
rebound_is_blocked = refl

abbrev coil_target : String
coil_target = "ahu-2"

assess_target_impact-Agrees_iff_example :
    (is_preserved (
        assess_target_impact (impact_from (configured 8 "valve") (configured 8 "coil")) coil_target)
      ≡ true)
    ↔ Agrees (configured 8 "valve") (configured 8 "coil") coil_target
unfolding get
assess_target_impact-Agrees_iff_example =
    assess_target_impact-Agrees_iff (configured 8 "valve") (configured 8 "coil") coil_target
      (refl, (refl, tt))
