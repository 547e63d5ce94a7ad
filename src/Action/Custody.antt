-- ===== src/Action/Custody.antt =====
-- src/action_custody/policy.rs: scoped holds, transfers and constrained cleanup. The tree map of the
-- holds is a list of them, one for each scope.
use verdant.Base.{
  ℕ, Bool, true, false, not, ◌&&◌, ◌||◌, Option, none, some, List, [], ◌∷◌, String, len, ltb, leb,
  nat_eq, bool_eq, min, max, ◌==◌, string_partial_eq, if◌then◌else◌, length, any, all, find, keep,
  checked_add, u32_max, Result, ok, err, ◌>>=◌, ◌>>◌, ensure, refuse_if, ok_or, is_control,
}
use verdant.Domain.Ids.{codes, is_id_char}
use verdant.Action.Journal.{Admitted, ActionKind, kind_eq}
use verdant.Action.Journal.Writer.{Preview, kind_from_preview}
pub mod Holds
pub mod Transfers

-- src/action_custody/mod.rs `CustodyError`, the variants of the policy; of a formatted detail, what
-- it is about.
pub data CustodyError : Type 0 where
  invalid invalid_detail held_scope revoked transfer constrained blocked : String → CustodyError

pub data HoldKind : Type 0 where
  active masked : HoldKind

pub record CustodyHold : Type 0 where
  pub scope : String
  pub kind : HoldKind
  pub reason : String

-- The framing characters that the source refuses next are not in the alphabet.
unfoldable pub check_scope_token : String → Result CustodyError String
check_scope_token raw = do
  refuse_if (raw == "" || ltb 128 (len raw)) (invalid_detail "hold scope")
  ensure (all is_id_char (codes raw)) (invalid_detail "hold scope")
  refuse_if (any (λ c. nat_eq c 0x1f || nat_eq c 0x0a || nat_eq c 0x0d) (codes raw))
      (invalid_detail "hold scope")
  refuse_if (raw == "VERDANT_BEGIN" || raw == "VERDANT_DATA" || raw == "VERDANT_END")
      (invalid_detail "hold scope")
  ok raw

unfoldable pub new_hold : String → HoldKind → String → Result CustodyError CustodyHold
unfolding check_scope_token
new_hold scope kind reason = do
  scope' ← check_scope_token scope
  refuse_if (reason == "" || ltb 256 (len reason)) (invalid "hold reason 1..=256")
  refuse_if (any is_control (codes reason)) (invalid "hold reason control")
  ok (record { scope = scope'; kind = kind; reason = reason })

abbrev pub is_of : String → CustodyHold → Bool
is_of scope h = h.scope == scope

-- `BTreeMap::insert`, `remove`, `contains_key` and `get` by the scope.
unfoldable pub insert : CustodyHold → List CustodyHold → List CustodyHold
insert h [] = h ∷ []
insert h (x ∷ xs) = if is_of h.scope x then h ∷ xs else x ∷ insert h xs

unfoldable pub inserted :
    List CustodyHold
    → Result CustodyError CustodyHold
    → Result CustodyError (Unit {0}) × List CustodyHold
unfolding insert
inserted held (err e) = (err e, held)
inserted held (ok h) = (ok tt, insert h held)

unfoldable pub hold :
    List CustodyHold
    → String
    → HoldKind
    → String
    → Result CustodyError (Unit {0}) × List CustodyHold
unfolding new_hold
hold held scope kind reason = inserted held (new_hold scope kind reason)

unfoldable pub release :
    List CustodyHold → String → Result CustodyError (Unit {0}) × List CustodyHold
release held scope =
    if scope == "" || ltb 128 (len scope)
    then (err (invalid "release scope 1..=128"), held)
    else (ok tt, keep (λ h. not (is_of scope h)) held)

unfoldable pub is_held : List CustodyHold → String → Bool
is_held held scope = any (is_of scope) held

unfoldable pub check_not_held : List CustodyHold → String → Result CustodyError (Unit {0})
check_not_held held scope = elim (find (is_of scope) held) [
  | none ↦ ok tt
  | some h ↦ err (held_scope scope)
]

unfoldable pub inspection_visible : String → String → Bool
inspection_visible row_scope query_scope = row_scope == query_scope

unfoldable pub check_transfer_narrow :
    String → String → String → String → Bool → Bool → Result CustodyError (Unit {0})
check_transfer_narrow old_operation new_operation old_actor new_actor old_excluded
      new_is_permitted =
    do
      refuse_if (old_operation == "" || new_operation == "" || old_actor == "" || new_actor == "")
          (invalid "transfer identities non-empty")
      refuse_if (ltb 128 (len old_operation) || ltb 128 (len new_operation))
          (invalid "transfer operation length")
      refuse_if (ltb 128 (len old_actor) || ltb 128 (len new_actor))
          (invalid "transfer actor length")
      refuse_if (old_operation == new_operation) (
          transfer
            "transfer requires a NEW admission OperationId; never rewrite operation in place")
      refuse_if (old_actor == new_actor)
          (transfer "transfer requires a distinct active actor; never rewrite actor in place")
      ensure old_excluded (
          transfer
            "transfer requires exclusion of the old actor; old obligations keep old IDs until excluded")
      ensure new_is_permitted (
          transfer
            "transfer requires an active permitted role; never broaden authority automatically, never orphan without owner")

unfoldable pub authorize_constrained_cleanup : String → Result CustodyError (Unit {0})
authorize_constrained_cleanup request =
    if request == "cancel-unattempted" || request == "admitted-null-release"
    then ok tt
    else if request == "loto"
        || request == "emergency-stop"
        || request == "all-slot-reset"
        || request == "delete-actor-history"
        || request == "broad-grant"
        || request == "notify-bypass"
        || request == "work-bypass"
        || request == "mcp-bypass"
    then err (constrained request)
    else err (invalid "unknown cleanup request")

unfoldable pub next_generation : ℕ → Result CustodyError ℕ
next_generation expected =
    ok_or (checked_add u32_max expected 1) (invalid "target generation overflow")

abbrev pub option_is {ℓ} : {A : Type ℓ} → (A → A → Bool) → Option A → A → Bool
option_is eq none b = false
option_is eq (some a) b = eq a b

-- The priority of a preview's slot is the last argument.
unfoldable pub check_transfer_equivalence : Admitted → Preview → ℕ → Result CustodyError (Unit {0})
unfolding kind_from_preview
check_transfer_equivalence old p priority = do
  ensure (old.equipment == p.equipment)
      (transfer "transfer equivalence refuses equipment change; separate authorized SET required")
  ensure (nat_eq old.binding_revision p.binding_revision) (
      transfer
        "transfer equivalence refuses binding-revision change; separate authorized SET required")
  ensure (nat_eq old.accepted_revision p.accepted_revision) (
      transfer
        "transfer equivalence refuses accepted-revision change; separate authorized SET required")
  old_bits ← ok_or old.wire_bits (
      transfer
        "transfer equivalence refuses legacy rounded payload; re-admit with lossless identity")
  ensure (nat_eq old_bits p.wire_bits) (
      transfer
        "transfer equivalence refuses value/wire_bits change; separate authorized SET required")
  ensure (option_is kind_eq old.action_kind (kind_from_preview p))
      (transfer "transfer equivalence refuses kind change; SET cannot become release via transfer")
  ensure (option_is bool_eq old.release_admitted p.release_admitted) (
      transfer
        "transfer equivalence refuses release-admission change; separate authorized SET required")
  ensure (option_is (λ a b. a == b) old.release_target p.release_target) (
      transfer
        "transfer equivalence refuses release-target change; release cannot migrate hardware")
  ensure (nat_eq priority 8)
      (transfer "transfer equivalence refuses slot change; separate authorized SET required")

abbrev pub is_cleanup : String → Bool
is_cleanup c = c == "cancel-unattempted" || c == "admitted-null-release"

unfoldable pub check_held_for_cleanup :
    List CustodyHold → String → String → Bool → Result CustodyError (Unit {0})
unfolding is_held check_not_held
check_held_for_cleanup held scope cleanup is_original_target =
    if not (is_held held scope)
    then ok tt
    else if cleanup == "set"
    then check_not_held held scope
    else if is_cleanup cleanup && is_original_target
    then ok tt
    else if is_cleanup cleanup
    then err (blocked cleanup)
    else check_not_held held scope

unfoldable pub clamp_page_limit : ℕ → ℕ → ℕ
clamp_page_limit requested most = max (min requested most) 1
