-- ===== src/Runtime/Admission/Accounting.antt =====
-- The runtime's budget as its callers use it: reservations are taken, refused and dropped in any
-- order (src/runtime/admission.rs), each dropped at most once since its owner is moved.
use verdant.Base.{
  ℕ, zero, suc, ◌+◌, ◌≤◌, ◌<◌, ◌≡◌, refl, ap, ◌↔◌, Bool, true, false, Option, none, some, List, [],
  ◌∷◌, arith, inl, inr, Bool-cases, if◌then◌else◌, Result, ok, err, is_ok, bool_eq, ◌&&◌, get_elem?,
}
use verdant.Runtime.Admission.{
  AdmissionError, WorkClass, current_sensing, reconciliation, optional_discovery, index, class_eq,
  Slots, slot, with_slot, Budget, Reservation, new_budget, queue_slots, running_slots,
  wrapping_pred, bounds, counts, reserve, drop_reservation, held, is_of, slot-with_slot,
}

-- The budget and the reservations that are held.
pub record Pool : Type 0 where
  pub budget : Budget
  pub live : List Reservation

abbrev pub new_pool : Pool
new_pool = record { budget = new_budget; live = [] }

pub data Use : Type 0 where
  reserves : WorkClass → Bool → Use
  drops : ℕ → Use

abbrev pub remove : List Reservation → ℕ → List Reservation
remove [] i = []
remove (r ∷ rs) zero = rs
remove (r ∷ rs) (suc i) = r ∷ remove rs i

abbrev after_reserve : Pool → Result AdmissionError (Budget × Reservation) → Pool
after_reserve p (err e) = p
after_reserve p (ok (b, r)) = record { budget = b; live = r ∷ p.live }

abbrev drop_found : Pool → ℕ → Option Reservation → Pool
drop_found p i none = p
drop_found p i (some r) = record { budget = drop_reservation p.budget r; live = remove p.live i }

unfoldable pub step : Pool → Use → Pool
unfolding drop_reservation reserve
step p (reserves class running) = after_reserve p (reserve p.budget class running)
step p (drops i) = drop_found p i (get_elem? p.live i)

unfoldable pub run : Pool → List Use → Pool
run p [] = p
run p (u ∷ us) = run (step p u) us

-- Every counter is the number of live reservations of its class and mode, and within its bound.
pub record IsAccounted (p : Pool) : Type 0 where
  pub exact : (c : WorkClass) (m : Bool) → slot (counts p.budget m) c ≡ held p.live c m
  pub bounded : (c : WorkClass) (m : Bool) → slot (counts p.budget m) c ≤ slot (bounds m) c

abbrev pub one_if : Bool → ℕ
one_if b = if b then 1 else 0

held-remove :
    (rs : List Reservation) (i : ℕ) (r : Reservation) (c : WorkClass) (m : Bool)
    → get_elem? rs i ≡ some r
    → held rs c m ≡ held (remove rs i) c m + one_if (is_of c m r)
unfolding held
held-remove [] i r c m h = absurd (cc)
held-remove (x ∷ rs) zero r c m h = ground arith
held-remove (x ∷ rs) (suc i) r c m h = ground (arith, held-remove rs i r c m h)

class_eq_sound : (d c : WorkClass) → class_eq d c ≡ true → d ≡ c
unfolding index
class_eq_sound current_sensing current_sensing h = refl
class_eq_sound current_sensing reconciliation h = absurd (cc)
class_eq_sound current_sensing optional_discovery h = absurd (cc)
class_eq_sound reconciliation current_sensing h = absurd (cc)
class_eq_sound reconciliation reconciliation h = refl
class_eq_sound reconciliation optional_discovery h = absurd (cc)
class_eq_sound optional_discovery current_sensing h = absurd (cc)
class_eq_sound optional_discovery reconciliation h = absurd (cc)
class_eq_sound optional_discovery optional_discovery h = refl

-- What a reservation changes: one counter, below its bound.
raised_slot :
    (s most : Slots) (c d : WorkClass)
    → slot s c < slot most c
    → (slot (with_slot s c (slot s c + 1)) d ≡ slot s d + one_if (class_eq d c))
      × (slot s d ≤ slot most d → slot (with_slot s c (slot s c + 1)) d ≤ slot most d)
raised_slot s most c d h = elim (Bool-cases (class_eq d c)) [
  | inr e ↦ ground (arith, slot-with_slot s c d (slot s c + 1))
  | inl e ↦ ground (
    arith,
    slot-with_slot s c d (slot s c + 1),
    ap (slot s) (class_eq_sound d c e),
    ap (slot most) (class_eq_sound d c e),
  )
]

lowered_slot :
    (s : Slots) (c d : WorkClass)
    → 1 ≤ slot s c
    → slot s d ≡ slot (with_slot s c (wrapping_pred (slot s c))) d + one_if (class_eq d c)
lowered_slot s c d h = elim (Bool-cases (class_eq d c)) [
  | inr e ↦ ground (arith, slot-with_slot s c d (wrapping_pred (slot s c)))
  | inl e ↦
      ground
        (arith, slot-with_slot s c d (wrapping_pred (slot s c)), ap (slot s) (class_eq_sound d c e))
]

-- A reservation that is given adds one to its own counter, which was below its bound, and to no other.
pub reserve-slot :
    (b : Budget) (c : WorkClass) (m : Bool) (b' : Budget) (r : Reservation)
    → reserve b c m ≡ ok (b', r)
    → (d : WorkClass) (n : Bool)
    → (slot (counts b' n) d ≡ slot (counts b n) d + one_if (is_of d n r))
      × (slot (counts b n) d ≤ slot (bounds n) d → slot (counts b' n) d ≤ slot (bounds n) d)
unfolding reserve
reserve-slot b c true b' r h d true = ground (arith, raised_slot b.running running_slots c d)
reserve-slot b c true b' r h d false = ground arith
reserve-slot b c false b' r h d true = ground arith
reserve-slot b c false b' r h d false = ground (arith, raised_slot b.queued queue_slots c d)

dropped_slot :
    (b : Budget) (c : WorkClass) (m : Bool) (d : WorkClass) (n : Bool)
    → 1 ≤ slot (counts b m) c
    → slot (counts b n) d
      ≡ slot (counts (drop_reservation b (record { class = c; running = m })) n) d
        + one_if (class_eq d c && bool_eq n m)
unfolding drop_reservation
dropped_slot b c true d true h = ground (arith, lowered_slot b.running c d h)
dropped_slot b c true d false h = ground arith
dropped_slot b c false d true h = ground arith
dropped_slot b c false d false h = ground (arith, lowered_slot b.queued c d h)

is_of_refl : (r : Reservation) → is_of r.class r.running r ≡ true
unfolding index
is_of_refl r = ground arith

after_reserve-IsAccounted :
    (p : Pool) (c : WorkClass) (m : Bool) (res : Result AdmissionError (Budget × Reservation))
    → reserve p.budget c m ≡ res
    → IsAccounted p
    → IsAccounted (after_reserve p res)
unfolding held
after_reserve-IsAccounted p c m (err e) h before = before
after_reserve-IsAccounted p c m (ok (b, r)) h before = record {
  exact = λ d n. ground (arith, reserve-slot p.budget c m b r h d n, before.exact d n);
  bounded = λ d n. (reserve-slot p.budget c m b r h d n).1 (before.bounded d n);
}

drop_found-IsAccounted :
    (p : Pool) (i : ℕ) (o : Option Reservation)
    → get_elem? p.live i ≡ o
    → IsAccounted p
    → IsAccounted (drop_found p i o)
drop_found-IsAccounted p i none h before = before
drop_found-IsAccounted p i (some r) h before =
    let at_least_one : 1 ≤ slot (counts p.budget r.running) r.class = ground (
      arith,
      before.exact r.class r.running,
      held-remove p.live i r r.class r.running h,
      is_of_refl r,
    ) in
    record {
      exact = λ d n. omega (
        arith,
        dropped_slot p.budget r.class r.running d n at_least_one,
        before.exact d n,
        held-remove p.live i r d n h,
      );
      bounded = λ d n.
          omega
            (arith, dropped_slot p.budget r.class r.running d n at_least_one, before.bounded d n);
    }

step-IsAccounted : (p : Pool) (u : Use) → IsAccounted p → IsAccounted (step p u)
unfolding step
step-IsAccounted p (reserves c m) before = after_reserve-IsAccounted p c m _ refl before
step-IsAccounted p (drops i) before = drop_found-IsAccounted p i _ refl before

run_from : (p : Pool) (us : List Use) → IsAccounted p → IsAccounted (run p us)
unfolding run
run_from p [] h = h
run_from p (u ∷ us) h = run_from (step p u) us (step-IsAccounted p u h)

new_pool-IsAccounted : IsAccounted new_pool
unfolding slot held
new_pool-IsAccounted = record { exact = new_exact; bounded = new_bounded }
  where
    new_exact : (c : WorkClass) (m : Bool) → slot (counts new_budget m) c ≡ 0
    new_exact current_sensing true = refl
    new_exact current_sensing false = refl
    new_exact reconciliation true = refl
    new_exact reconciliation false = refl
    new_exact optional_discovery true = refl
    new_exact optional_discovery false = refl

    new_bounded : (c : WorkClass) (m : Bool) → slot (counts new_budget m) c ≤ slot (bounds m) c
    new_bounded current_sensing true = omega arith
    new_bounded current_sensing false = omega arith
    new_bounded reconciliation true = omega arith
    new_bounded reconciliation false = omega arith
    new_bounded optional_discovery true = omega arith
    new_bounded optional_discovery false = omega arith

-- After any sequence of reservations, refused or not, and drops from the empty budget, each counter of
-- the budget is exactly the number of reservations of that class and mode still held, and it is
-- within the bound of that class and mode.
pub run-IsAccounted : (us : List Use) → IsAccounted (run new_pool us)
run-IsAccounted us = run_from new_pool us new_pool-IsAccounted

-- From any history, a class is given a reservation of a mode exactly when fewer than its own bound of
-- its own reservations of that mode are held: no other class can take its slots, nor lend it one.
pub reserve_iff :
    (us : List Use) (c : WorkClass) (m : Bool)
    → (is_ok (reserve (run new_pool us).budget c m) ≡ true)
      ↔ (held (run new_pool us).live c m < slot (bounds m) c)
unfolding reserve
reserve_iff us c m =
    let exact = (run-IsAccounted us).exact c m in
    ((λ h. ground (arith, exact)), (λ h. ground (arith, exact)))
