-- ===== src/Runtime/Quarantine/Bounds.antt =====
-- The bounds of the candidate table (src/runtime/bacnet/quarantine.rs) along every history.
use verdant.Base.{
  ℕ, ◌≤◌, ◌≡◌, refl, ap, subst, suc, Bool, false, Option, none, some, List, [], ◌∷◌, ◌++◌, arith,
  nat_eq, ◌≢◌, inl, inr, Bool-cases, length, length-append, length-set, All, All-append, All-set,
  All-get, get_elem?, map, Result, ok, err, Result-cases,
}
use verdant.Runtime.Admission.{Reservation, WorkClass, optional_discovery, Budget, reserve}
use verdant.Runtime.Quarantine.{
  Advertisement, HeldCandidate, Quarantine, QuarantineError, max_candidates, max_conflicts, age,
  first_candidate, revise, admit, revise_at, revise_found, observe_at, observe, snapshot, clear,
}

pub data Event : Type 0 where
  observes : Advertisement → ℕ → Event
  snapshots : ℕ → Event
  clears : Event

unfoldable pub step : Quarantine → Event → Quarantine
unfolding observe snapshot clear
step q (observes a now) = (observe q a now).1
step q (snapshots now) = (snapshot q now).1
step q clears = clear q

unfoldable pub run : Quarantine → List Event → Quarantine
run q [] = q
run q (e ∷ es) = run (step q e) es

-- One to four advertisements, all kept under a retained slot of optional discovery.
abbrev pub IsHeld : HeldCandidate → Type 0
IsHeld e =
    (1 ≤ length e.candidate.advertisements)
    × (length e.candidate.advertisements ≤ max_conflicts)
    × (e.reservation ≡ record { class = optional_discovery; running = false })

abbrev pub IsBounded : Quarantine → Type 0
IsBounded q = (length q.entries ≤ max_candidates) × All IsHeld q.entries

revise-IsHeld :
    (a : Advertisement) (now : ℕ) (e e' : HeldCandidate)
    → IsHeld e
    → revise a now e ≡ ok e'
    → IsHeld e'
unfolding revise
revise-IsHeld a now e e' h k = ground (arith, length-append e.candidate.advertisements (a ∷ []))

reserved :
    (b : Budget) (c : WorkClass) (m : Bool) (b' : Budget) (r : Reservation)
    → reserve b c m ≡ ok (b', r)
    → r ≡ record { class = c; running = m }
unfolding reserve
reserved b c m b' r h = ground arith

admitted-IsBounded :
    (q : Quarantine) (a : Advertisement) (now : ℕ) (b : Budget) (r : Reservation)
    → IsBounded q
    → reserve q.budget optional_discovery false ≡ ok (b, r)
    → length q.entries ≢ max_candidates
    → IsBounded (record { budget = b; entries = q.entries ++ first_candidate a now r ∷ [] })
admitted-IsBounded q a now b r h given room = (
  omega (arith, h.0, room, length-append q.entries (first_candidate a now r ∷ [])),
  All-append IsHeld q.entries (first_candidate a now r ∷ []) h.1
      ((omega arith, omega arith, reserved q.budget optional_discovery false b r given), tt),
)

admit-IsBounded :
    (q : Quarantine) (a : Advertisement) (now : ℕ) → IsBounded q → IsBounded (admit q a now).1
unfolding admit
admit-IsBounded q a now h = elim (Bool-cases (nat_eq (length q.entries) max_candidates)) [
  | inl full ↦ let same : q ≡ (admit q a now).1 = ground arith in subst IsBounded same h
  | inr room ↦ elim (Result-cases (reserve q.budget optional_discovery false)) [
    | inr (e, refused) ↦ let same : q ≡ (admit q a now).1 = ground arith in subst IsBounded same h
    | inl ((b, r), given) ↦
        let pushed : Quarantine = record {
          budget = b;
          entries = q.entries ++ first_candidate a now r ∷ [];
        } in
        let same : pushed ≡ (admit q a now).1 = ground arith in
        subst IsBounded same (admitted-IsBounded q a now b r h given (ground arith))
  ]
]

revised-IsBounded :
    (q : Quarantine) (i : ℕ) (a : Advertisement) (now : ℕ) (e : HeldCandidate)
    (res : Result QuarantineError HeldCandidate)
    → IsBounded q
    → IsHeld e
    → revise a now e ≡ res
    → IsBounded (revise_at q i res).1
revised-IsBounded q i a now e (err x) h k r = h
revised-IsBounded q i a now e (ok e') h k r = (
  omega (arith, h.0, length-set q.entries i e'),
  All-set IsHeld q.entries i e' h.1 (revise-IsHeld a now e e' k r),
)

found-IsBounded :
    (q : Quarantine) (a : Advertisement) (now i : ℕ) (o : Option HeldCandidate)
    → IsBounded q
    → get_elem? q.entries i ≡ o
    → IsBounded (revise_found q a now i o).1
unfolding revise_found
found-IsBounded q a now i none h k = admit-IsBounded q a now h
found-IsBounded q a now i (some e) h k =
    revised-IsBounded q i a now e _ h (All-get IsHeld q.entries i e h.1 k) refl

observe_at-IsBounded :
    (q : Quarantine) (a : Advertisement) (now : ℕ) (o : Option ℕ)
    → IsBounded q
    → IsBounded (observe_at q a now o).1
unfolding observe_at
observe_at-IsBounded q a now none h = admit-IsBounded q a now h
observe_at-IsBounded q a now (some i) h = found-IsBounded q a now i _ h refl

aged :
    (now : ℕ) (es : List HeldCandidate)
    → (length (map (age now) es) ≡ length es) × (All IsHeld es → All IsHeld (map (age now) es))
aged now [] = (refl, λ h. h)
aged now (e ∷ es) = let rest = aged now es in (ap suc rest.0, λ h. (h.0, rest.1 h.1))

step-IsBounded : (q : Quarantine) (e : Event) → IsBounded q → IsBounded (step q e)
unfolding step
step-IsBounded q (observes a now) h = observe_at-IsBounded q a now _ h
step-IsBounded q (snapshots now) h =
    (omega (arith, h.0, (aged now q.entries).0), (aged now q.entries).1 h.1)
step-IsBounded q clears h = (omega arith, tt)

run_from : (q : Quarantine) (es : List Event) → IsBounded q → IsBounded (run q es)
unfolding run
run_from q [] h = h
run_from q (e ∷ es) h = run_from (step q e) es (step-IsBounded q e h)

-- After any history of observations, snapshots and clears, from an empty table over any budget: at most
-- sixteen candidates are held, each has one to four advertisements, and each keeps a retained slot
-- of optional discovery, the class that sensing and reconciliation do not share.
pub run-IsBounded :
    (b : Budget) (es : List Event) → IsBounded (run (record { budget = b; entries = [] }) es)
run-IsBounded b es = run_from (record { budget = b; entries = [] }) es (omega arith, tt)
