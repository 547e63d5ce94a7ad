-- ===== src/Action/Publication.antt =====
-- src/action_publication/policy.rs: the pure decisions before a handoff. A detail that the source formats
-- for people is left out.
pub mod Impact
use Prim.Native.String.{◌++◌ as text_append}
use verdant.Base.{
  ℕ, ◌≡◌, String, Bool, true, false, not, ◌&&◌, ◌||◌, Option, none, some, List, [], ◌∷◌, len, ltb,
  nat_eq, all, any, if◌then◌else◌, ◌==◌, string_partial_eq, nat_partial_eq, Result, ok, err, ◌>>=◌,
  ◌>>◌, refuse_if, ensure, ok_or, checked_add, u32_max, is_control,
}
use verdant.Domain.Ids.{codes, is_id_char}
use verdant.Accept.Effective.{ImpactDiff, contains}

-- The refusals of these decisions.
pub data PublicationError : Type 0 where
  invalid : String → PublicationError
  invalid_detail : String → String → PublicationError
  excluded revoked blocked pinned : PublicationError

pub data ImpactGate : Type 0 where
  preserved blocked_gate : ImpactGate

abbrev pub is_preserved : ImpactGate → Bool
is_preserved preserved = true
is_preserved blocked_gate = false

unfoldable pub require_preserved : ImpactGate → Result PublicationError (Unit {0})
require_preserved preserved = ok tt
require_preserved blocked_gate = err blocked

abbrev is_empty : List String → Bool
is_empty [] = true
is_empty (k ∷ ks) = false

unfoldable pub assess_impact : ImpactDiff → ImpactGate
assess_impact diff =
    if is_empty diff.added
      && is_empty diff.removed
      && is_empty diff.invalidated
      && not diff.provenance_changed
    then preserved
    else blocked_gate

unfoldable pub assess_target_impact : ImpactDiff → String → ImpactGate
assess_target_impact diff target =
    if target == ""
    then blocked_gate
    else if contains target diff.added
        || contains target diff.removed
        || contains target diff.invalidated
        || diff.provenance_changed
    then blocked_gate
    else if contains target diff.preserved
    then preserved
    else blocked_gate

pub record OldWriterExclusion : Type 0 where
  pub operator : String
  pub excluded_actor : String
  pub reason : String

unfoldable pub check_token : String → String → Result PublicationError String
check_token what raw = do
  refuse_if (raw == "" || ltb 128 (len raw)) (invalid_detail what "expects 1..=128 chars")
  ensure (all is_id_char (codes raw)) (invalid_detail what "alphanumeric plus -_./: only")
  refuse_if (any (λ c. nat_eq c 0x1f || nat_eq c b'\n' || nat_eq c b'\r') (codes raw))
      (invalid_detail what "framing characters refused")
  refuse_if (raw == "VERDANT_BEGIN" || raw == "VERDANT_DATA" || raw == "VERDANT_END")
      (invalid_detail what "sentinel refused")
  ok raw

unfoldable pub exclude : String → String → String → Result PublicationError OldWriterExclusion
unfolding check_token
exclude operator excluded_actor reason = do
  operator' ← check_token "operator" operator
  actor ← check_token "excluded actor" excluded_actor
  refuse_if (reason == "" || ltb 256 (len reason)) (invalid "exclusion reason 1..=256")
  refuse_if (any is_control (codes reason)) (invalid "exclusion reason control")
  ok (record { operator = operator'; excluded_actor = actor; reason = reason })

unfoldable pub excludes : OldWriterExclusion → String → Bool
excludes self actor = self.excluded_actor == actor

unfoldable pub check_not_excluded :
    Option OldWriterExclusion → String → Result PublicationError (Unit {0})
check_not_excluded none actor = ok tt
check_not_excluded (some gate) actor = refuse_if (excludes gate actor) excluded

unfoldable pub check_pre_handoff_not_revoked : Bool → Result PublicationError (Unit {0})
check_pre_handoff_not_revoked is_revoked = refuse_if is_revoked revoked

unfoldable pub require_same_equipment : String → String → Result PublicationError (Unit {0})
require_same_equipment admitted attempted = do
  refuse_if (admitted == "" || attempted == "") (invalid "equipment identity")
  ensure (admitted == attempted) pinned

unfoldable pub check_replacement_gate : Bool → Bool → ℕ → ℕ → Result PublicationError (Unit {0})
check_replacement_gate is_retired needs_reassessment admitted current =
    if is_retired || needs_reassessment then err pinned else ensure (admitted == current) blocked

unfoldable pub next_generation : ℕ → Result PublicationError ℕ
next_generation expected =
    ok_or (checked_add u32_max expected 1) (invalid "target generation overflow")

unfoldable pub target_scope_key : String → String → Result PublicationError String
target_scope_key scope equipment = do
  refuse_if (scope == "" || equipment == "") (invalid "scope/equipment identity")
  refuse_if (ltb 128 (len scope) || ltb 128 (len equipment)) (invalid "scope/equipment length")
  ok (text_append scope (text_append "\u{1f}" equipment))

unfoldable pub is_unrelated_target : String → String → Bool
is_unrelated_target first second = not (first == second)
