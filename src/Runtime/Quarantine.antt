-- ===== src/Runtime/Quarantine.antt =====
-- src/runtime/bacnet/quarantine.rs: advertisements kept as candidates. An `Instant` is a number of
-- nanoseconds.
use verdant.Base.{
  ℕ, ◌-◌, Bool, true, false, not, ◌&&◌, ◌||◌, Option, none, some, List, [], ◌∷◌, ◌++◌, String, leb,
  nat_eq, ◌==◌, string_partial_eq, if◌then◌else◌, length, get_elem?, set, any, map, position,
  Result, ok, err,
}
use verdant.Runtime.Admission.{Budget, Reservation, optional_discovery, reserve, drop_reservation}
pub mod Bounds

-- `DirectTarget`: a realm and the six octets of a BACnet/IP address.
pub record DirectTarget : Type 0 where
  pub realm : String
  pub mac : List ℕ

pub record Advertisement : Type 0 where
  pub target : DirectTarget
  pub instance_number : ℕ
  pub max_apdu : ℕ
  pub segmentation : ℕ
  pub vendor : ℕ

pub record Candidate : Type 0 where
  pub advertisements : List Advertisement
  pub last_receipt : ℕ
  pub expired : Bool

pub record HeldCandidate : Type 0 where
  pub candidate : Candidate
  pub reservation : Reservation

pub data QuarantineError : Type 0 where
  quarantine_full budget_refused : QuarantineError

abbrev pub max_candidates : ℕ
max_candidates = 16

abbrev pub max_conflicts : ℕ
max_conflicts = 4

-- 30 s.
abbrev pub candidate_ttl : ℕ
candidate_ttl = 30_000_000_000

abbrev octets_eq : List ℕ → List ℕ → Bool
octets_eq [] [] = true
octets_eq [] (y ∷ ys) = false
octets_eq (x ∷ xs) [] = false
octets_eq (x ∷ xs) (y ∷ ys) = nat_eq x y && octets_eq xs ys

abbrev pub advertisement_eq : Advertisement → Advertisement → Bool
advertisement_eq a b =
    a.target.realm == b.target.realm
    && octets_eq a.target.mac b.target.mac
    && nat_eq a.instance_number b.instance_number
    && nat_eq a.max_apdu b.max_apdu
    && nat_eq a.segmentation b.segmentation
    && nat_eq a.vendor b.vendor

unfoldable pub conflicted : Candidate → Bool
conflicted c = not (leb (length c.advertisements) 1)

-- The same device instance in the same realm, by the candidate's first advertisement. The source
-- indexes it; every held candidate has one.
abbrev pub is_prior : Advertisement → List Advertisement → Bool
is_prior a [] = false
is_prior a (prior ∷ rest) =
    nat_eq prior.instance_number a.instance_number && prior.target.realm == a.target.realm

abbrev pub is_same_device : Advertisement → HeldCandidate → Bool
is_same_device a e = is_prior a e.candidate.advertisements

abbrev pub refresh : List Advertisement → ℕ → HeldCandidate → HeldCandidate
refresh advertisements now e = record e {
  candidate = record { advertisements = advertisements; last_receipt = now; expired = false };
}

-- What a further advertisement makes of the entry that it belongs to.
unfoldable pub revise : Advertisement → ℕ → HeldCandidate → Result QuarantineError HeldCandidate
revise a now e =
    if any (advertisement_eq a) e.candidate.advertisements
    then ok (refresh e.candidate.advertisements now e)
    else if nat_eq (length e.candidate.advertisements) max_conflicts
    then err quarantine_full
    else ok (refresh (e.candidate.advertisements ++ a ∷ []) now e)

-- The table with the budget that it shares.
pub record Quarantine : Type 0 where
  pub budget : Budget
  pub entries : List HeldCandidate

-- `entries.push` of a first advertisement.
abbrev pub first_candidate : Advertisement → ℕ → Reservation → HeldCandidate
first_candidate a now r = record {
  candidate = record { advertisements = a ∷ []; last_receipt = now; expired = false };
  reservation = r;
}

abbrev pub admit : Quarantine → Advertisement → ℕ → Result QuarantineError (Unit {0}) × Quarantine
unfolding reserve
admit q a now =
    if nat_eq (length q.entries) max_candidates
    then (err quarantine_full, q)
    else elim (reserve q.budget optional_discovery false) [
      | err _ ↦ (err budget_refused, q)
      | ok (b, r) ↦
          (ok tt, record { budget = b; entries = q.entries ++ first_candidate a now r ∷ [] })
    ]

abbrev pub revise_at :
    Quarantine
    → ℕ
    → Result QuarantineError HeldCandidate
    → Result QuarantineError (Unit {0}) × Quarantine
revise_at q i (err e) = (err e, q)
revise_at q i (ok e) = (ok tt, record q { entries = set q.entries i e })

abbrev pub revise_found :
    Quarantine
    → Advertisement
    → ℕ
    → ℕ
    → Option HeldCandidate
    → Result QuarantineError (Unit {0}) × Quarantine
unfolding revise
revise_found q a now i none = admit q a now
revise_found q a now i (some e) = revise_at q i (revise a now e)

abbrev pub observe_at :
    Quarantine → Advertisement → ℕ → Option ℕ → Result QuarantineError (Unit {0}) × Quarantine
observe_at q a now none = admit q a now
observe_at q a now (some i) = revise_found q a now i (get_elem? q.entries i)

unfoldable pub observe :
    Quarantine → Advertisement → ℕ → Result QuarantineError (Unit {0}) × Quarantine
observe q a now = observe_at q a now (position (is_same_device a) q.entries)

-- `saturating_duration_since` stops at 0, as the subtraction here does.
abbrev pub age : ℕ → HeldCandidate → HeldCandidate
age now e = record e {
  candidate = record e.candidate { expired = leb candidate_ttl (now - e.candidate.last_receipt) };
}

unfoldable pub snapshot : Quarantine → ℕ → List Candidate × Quarantine
snapshot q now =
    let entries = map (age now) q.entries in
    (map (λ e. e.candidate) entries, record q { entries = entries })

-- Clearing drops every entry and with it its reservation.
abbrev pub drop_all : Budget → List HeldCandidate → Budget
unfolding drop_reservation
drop_all b [] = b
drop_all b (e ∷ es) = drop_all (drop_reservation b e.reservation) es

unfoldable pub clear : Quarantine → Quarantine
clear q = record { budget = drop_all q.budget q.entries; entries = [] }
