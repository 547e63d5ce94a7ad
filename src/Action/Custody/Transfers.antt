-- ===== src/Action/Custody/Transfers.antt =====
-- The equivalence of a transfer with the old obligation (src/action_custody/policy.rs).
use verdant.Base.{
  ℕ, Bool, true, ◌≡◌, refl, ap, ◌↔◌, none, some, some_injective, ◌==◌, string_partial_eq, bool_eq,
  Option, arith, eq_iff, is_ok,
}
use verdant.Action.Journal.{Admitted, ActionKind, set, release, kind_eq}
use verdant.Action.Journal.Writer.{Preview, kind_from_preview}
use verdant.Action.Custody.{option_is, check_transfer_equivalence}

kind_eq_iff : (a b : ActionKind) → (kind_eq a b ≡ true) ↔ (a ≡ b)
kind_eq_iff set set = ((λ h. refl), (λ h. refl))
kind_eq_iff set release = ((λ h. absurd (cc)), (λ h. absurd (cc)))
kind_eq_iff release set = ((λ h. absurd (cc)), (λ h. absurd (cc)))
kind_eq_iff release release = ((λ h. refl), (λ h. refl))

bool_eq_iff : (a b : Bool) → (bool_eq a b ≡ true) ↔ (a ≡ b)
bool_eq_iff a b = ((λ h. ground arith), (λ h. ground arith))

option_is_iff :
    {A : Type 0} (eq : A → A → Bool)
    → ((a b : A) → (eq a b ≡ true) ↔ (a ≡ b))
    → (o : Option A) (b : A) → (option_is eq o b ≡ true) ↔ (o ≡ some b)
option_is_iff eq decides none b = ((λ h. absurd (cc)), (λ h. absurd (cc)))
option_is_iff eq decides (some a) b =
    ((λ h. ap some ((decides a b).0 h)), (λ h. (decides a b).1 (some_injective h)))

-- A transfer is equivalent exactly when the successor keeps the obligation's equipment, revisions, bits,
-- kind, release admission and release target, and the frozen priority 8.
pub check_transfer_equivalence_iff :
    (old : Admitted) (p : Preview) (priority : ℕ)
    → (is_ok (check_transfer_equivalence old p priority) ≡ true) ↔ (
        (old.equipment ≡ p.equipment)
        × (old.binding_revision ≡ p.binding_revision)
        × (old.accepted_revision ≡ p.accepted_revision)
        × (old.wire_bits ≡ some p.wire_bits)
        × (old.action_kind ≡ some (kind_from_preview p))
        × (old.release_admitted ≡ some p.release_admitted)
        × (old.release_target ≡ some p.release_target)
        × (priority ≡ 8))
unfolding check_transfer_equivalence
check_transfer_equivalence_iff old p priority =
    let kinds = option_is_iff kind_eq kind_eq_iff old.action_kind (kind_from_preview p) in
    let admissions = option_is_iff bool_eq bool_eq_iff old.release_admitted p.release_admitted in
    let targets = option_is_iff (λ a b. a == b) eq_iff old.release_target p.release_target in
    let equipments = eq_iff old.equipment p.equipment in
    (
      (λ h. (
        ground (arith, equipments),
        ground arith,
        ground arith,
        ground arith,
        kinds.0 (ground arith),
        admissions.0 (ground arith),
        targets.0 (ground arith),
        ground arith,
      )),
      (λ (a, b, c, d, k, r, t, q).
          ground (arith, equipments, kinds.1 k, admissions.1 r, targets.1 t)),
    )
