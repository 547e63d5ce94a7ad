-- ===== src/Runtime/Admission.antt =====
-- src/runtime/admission.rs: the one budget of the runtime, partitioned by work class. The atomic
-- counters are numbers here, and a `fetch_update` is one step.
use verdant.Base.{
  ℕ, ◌+◌, ◌-◌, ◌≡◌, refl, Bool, true, false, ltb, nat_eq, if◌then◌else◌, u64_max, Result, ok, err,
  bool_eq, ◌&&◌, List, length, keep,
}
pub mod Accounting

pub data WorkClass : Type 0 where
  current_sensing reconciliation optional_discovery : WorkClass

unfoldable pub index : WorkClass → ℕ
index current_sensing = 0
index reconciliation = 1
index optional_discovery = 2

abbrev pub class_eq : WorkClass → WorkClass → Bool
class_eq a b = nat_eq (index a) (index b)

-- `[usize; 3]`, read and written at the index of a class.
pub record Slots : Type 0 where
  pub current_sensing_slots : ℕ
  pub reconciliation_slots : ℕ
  pub optional_discovery_slots : ℕ

unfoldable pub slot : Slots → WorkClass → ℕ
slot s current_sensing = s.current_sensing_slots
slot s reconciliation = s.reconciliation_slots
slot s optional_discovery = s.optional_discovery_slots

unfoldable pub with_slot : Slots → WorkClass → ℕ → Slots
with_slot s current_sensing n = record s { current_sensing_slots = n }
with_slot s reconciliation n = record s { reconciliation_slots = n }
with_slot s optional_discovery n = record s { optional_discovery_slots = n }

abbrev pub no_slots : Slots
no_slots = record {
  current_sensing_slots = 0;
  reconciliation_slots = 0;
  optional_discovery_slots = 0;
}

abbrev pub queue_slots : Slots
queue_slots = record {
  current_sensing_slots = 2;
  reconciliation_slots = 2;
  optional_discovery_slots = 60;
}

abbrev pub running_slots : Slots
running_slots = record {
  current_sensing_slots = 1;
  reconciliation_slots = 1;
  optional_discovery_slots = 2;
}

pub record Budget : Type 0 where
  pub queued : Slots
  pub running : Slots

abbrev pub new_budget : Budget
new_budget = record { queued = no_slots; running = no_slots }

pub record Reservation : Type 0 where
  pub class : WorkClass
  pub running : Bool

-- `Error::Saturated { class, running }`.
pub data AdmissionError : Type 0 where
  saturated : WorkClass → Bool → AdmissionError

abbrev pub bounds : Bool → Slots
bounds true = running_slots
bounds false = queue_slots

abbrev pub counts : Budget → Bool → Slots
counts b true = b.running
counts b false = b.queued

abbrev pub with_counts : Budget → Bool → Slots → Budget
with_counts b true s = record b { running = s }
with_counts b false s = record b { queued = s }

unfoldable pub can_run : Budget → WorkClass → Bool
unfolding slot
can_run b class = ltb (slot b.running class) (slot running_slots class)

unfoldable pub reserve : Budget → WorkClass → Bool → Result AdmissionError (Budget × Reservation)
unfolding slot with_slot
reserve b class running =
    if ltb (slot (counts b running) class) (slot (bounds running) class)
    then ok (
      with_counts b running
          (with_slot (counts b running) class (slot (counts b running) class + 1)),
      record { class = class; running = running },
    )
    else err (saturated class running)

-- `fetch_sub(1)` of an atomic `usize`, which wraps at zero.
abbrev pub wrapping_pred : ℕ → ℕ
wrapping_pred n = if nat_eq n 0 then u64_max else n - 1

-- `Drop for Reservation`.
unfoldable pub drop_reservation : Budget → Reservation → Budget
unfolding slot with_slot
drop_reservation b r =
    with_counts b r.running
      (with_slot (counts b r.running) r.class (wrapping_pred (slot (counts b r.running) r.class)))

-- How many of the live reservations are of a class and a mode.
abbrev pub is_of : WorkClass → Bool → Reservation → Bool
is_of class running r = class_eq class r.class && bool_eq running r.running

unfoldable pub held : List Reservation → WorkClass → Bool → ℕ
unfolding index
held live class running = length (keep (is_of class running) live)

pub slot-with_slot :
    (s : Slots) (c d : WorkClass) (n : ℕ)
    → slot (with_slot s c n) d ≡ (if class_eq d c then n else slot s d)
unfolding slot with_slot index
slot-with_slot s current_sensing current_sensing n = refl
slot-with_slot s current_sensing reconciliation n = refl
slot-with_slot s current_sensing optional_discovery n = refl
slot-with_slot s reconciliation current_sensing n = refl
slot-with_slot s reconciliation reconciliation n = refl
slot-with_slot s reconciliation optional_discovery n = refl
slot-with_slot s optional_discovery current_sensing n = refl
slot-with_slot s optional_discovery reconciliation n = refl
slot-with_slot s optional_discovery optional_discovery n = refl
