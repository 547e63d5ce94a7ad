-- ===== src/Accept/Effective.antt =====
-- src/accept/effective.rs: what one effective configuration changes of another. Bindings and facts are
-- types that it only compares; a map is its entries by key, a set its elements.
use verdant.Base.{
  ℕ, String, Bool, true, false, not, ◌||◌, Option, none, some, List, [], ◌∷◌, if◌then◌else◌, ◌==◌,
  PartialEq, string_partial_eq, nat_partial_eq, any,
}

pub data SourceKind : Type 0 where
  bootstrap domain temporary_intent observed_fact : SourceKind

abbrev pub source_eq : SourceKind → SourceKind → Bool
source_eq bootstrap bootstrap = true
source_eq domain domain = true
source_eq temporary_intent temporary_intent = true
source_eq observed_fact observed_fact = true
source_eq _ _ = false

pub record Entry (Binding : Type 0) : Type 0 where
  pub key : String
  pub label : String
  pub binding : Binding
  pub source : SourceKind

abbrev pub Entries : Type 0 → Type 0
Entries B = List (String × Entry B)

pub record EffectiveConfig (Scope Binding Fact : Type 0) : Type 0 where
  pub scope : Scope
  pub binding_revision : ℕ
  pub bootstrap_reason : String
  pub entries : Entries Binding
  pub facts : List Fact

pub record ImpactDiff : Type 0 where
  pub added : List String
  pub removed : List String
  pub invalidated : List String
  pub preserved : List String
  pub cosmetic : List String
  pub provenance_changed : Bool

abbrev pub contains : String → List String → Bool
contains target keys = any (λ k. k == target) keys

abbrev pub no_impact : ImpactDiff
no_impact = record {
  added = [];
  removed = [];
  invalidated = [];
  preserved = [];
  cosmetic = [];
  provenance_changed = false;
}

module _ {B : Type 0} where
  unfoldable pub get : String → Entries B → Option (Entry B)
  get key [] = none
  get key ((k, e) ∷ es) = let rest = get key es in if k == key then some e else rest

  abbrev gone : Option (Entry B) → String → List String → List String
  gone none key removed = key ∷ removed
  gone (some e) key removed = removed

  unfoldable pub old_keys : Entries B → Entries B → List String → List String
  unfolding get
  old_keys [] new removed = removed
  old_keys ((key, entry) ∷ es) new removed = old_keys es new (gone (get key new) key removed)

module _ {B : Type 0} ⦃binding_eq : PartialEq B⦄ where
  -- One round of the loop over the new entries.
  unfoldable pub noted : String → Entry B → Option (Entry B) → ImpactDiff → ImpactDiff
  noted key entry none diff = record diff { added = key ∷ diff.added }
  noted key entry (some previous) diff =
      if entry.binding == previous.binding
      then record diff {
        preserved = key ∷ diff.preserved;
        cosmetic = if entry.label == previous.label then diff.cosmetic else key ∷ diff.cosmetic;
      }
      else record diff { invalidated = key ∷ diff.invalidated }

  unfoldable pub new_entries : Entries B → Entries B → ImpactDiff → ImpactDiff
  unfolding noted get
  new_entries [] old diff = diff
  new_entries ((key, entry) ∷ es) old diff = new_entries es old (noted key entry (get key old) diff)

  abbrev pub other_source : Entry B → Option (Entry B) → Bool
  other_source e none = false
  other_source e (some p) = not (source_eq p.source e.source)

  unfoldable pub provenance_of :
      {S F : Type 0} ⦃facts_eq : PartialEq (List F)⦄
      → EffectiveConfig S B F
      → EffectiveConfig S B F
      → Bool
  unfolding get
  provenance_of ⦃facts_eq⦄ self old =
      not (self.bootstrap_reason == old.bootstrap_reason)
      || not (self.facts == old.facts)
      || not (self.binding_revision == old.binding_revision)
      || any (λ (k, e). other_source e (get k old.entries)) self.entries

  unfoldable pub impact_from :
      {S F : Type 0} ⦃facts_eq : PartialEq (List F)⦄
      → EffectiveConfig S B F
      → EffectiveConfig S B F
      → ImpactDiff
  impact_from ⦃facts_eq⦄ self old =
      let entered = new_entries self.entries old.entries no_impact in
      record entered {
        removed = old_keys old.entries self.entries [];
        provenance_changed = provenance_of self old;
      }
