-- ===== src/Tests/Devices.antt =====
-- Runs of the runtime's budget, the candidate table and the Modbus maps.
use verdant.Base.{ℕ, ◌≡◌, refl, true, false, List, [], ◌∷◌}
use verdant.Base.Int.{pos}
use verdant.Runtime.Admission.{current_sensing, optional_discovery, new_budget}
use verdant.Runtime.Admission.Accounting.{
  Use, reserves, drops, new_pool, run, IsAccounted, run-IsAccounted,
}
use verdant.Runtime.Quarantine.{Advertisement}
use verdant.Runtime.Quarantine.Bounds as Bounds
use verdant.Runtime.Subscription.{Subscription, Attempt, Poll, open_subscription, subscribe}
use verdant.Runtime.Subscription.Coverage as Coverage
use verdant.Runtime.Modbus.{input_registers}
use verdant.Runtime.Mapping.{Map, known, i32, little, low_first}

abbrev uses : List Use
uses =
    reserves current_sensing false
    ∷ reserves optional_discovery true
    ∷ reserves current_sensing false
    ∷ reserves current_sensing false
    ∷ drops 1
    ∷ []

run-IsAccounted_example : IsAccounted (run new_pool uses)
run-IsAccounted_example = run-IsAccounted uses

abbrev advertised : ℕ → Advertisement
advertised vendor = record {
  target = record { realm = "site-a"; mac = 10 ∷ 0 ∷ 0 ∷ 7 ∷ 186 ∷ 192 ∷ [] };
  instance_number = 12;
  max_apdu = 480;
  segmentation = 3;
  vendor = vendor;
}

abbrev sightings : List Bounds.Event
sightings =
    Bounds.observes (advertised 8) 100
    ∷ Bounds.observes (advertised 9) 200
    ∷ Bounds.snapshots 31_000_000_000
    ∷ []

run-IsBounded_example :
    Bounds.IsBounded (Bounds.run (record { budget = new_budget; entries = [] }) sightings)
run-IsBounded_example = Bounds.run-IsBounded new_budget sightings

abbrev device_unit : ℕ
device_unit = 7

abbrev meter : Map
meter = record {
  revision = "r1";
  source_role = "meter";
  target = record { ip = 127 ∷ 0 ∷ 0 ∷ 1 ∷ []; port = 40_000; unit = 7 };
  read = record { function = input_registers; address = 4; quantity = 2 };
  encoding = i32;
  byte_order = little;
  word_order = low_first;
  scale = record { numerator = pos 5; offset = pos 1; places = 2 };
  unit = known "kW";
}

abbrev fresh_subscription : Subscription
fresh_subscription = open_subscription (record { lifetime = 30; margin = 5_000_000_000 }) 0

abbrev granted_attempt : Attempt
granted_attempt = record {
  slot = true;
  receives = true;
  started = 1_000;
  answered = true;
  slot_after = true;
  finished = 2_000;
}

abbrev failed_attempt : Attempt
failed_attempt = record granted_attempt { answered = false }

abbrev good_poll : Poll
good_poll = record {
  slot = true;
  receives = true;
  began = 9_000_000_000;
  answered = true;
  slot_after = true;
  matches = true;
  finished = 9_000_000_500;
}

run-HasGap_example :
    (Coverage.run (subscribe fresh_subscription failed_attempt).1 (
      Coverage.subscribes granted_attempt
      ∷ Coverage.revalidates good_poll
      ∷ [])).coverage.unobserved_interval
    ≡ true
unfolding subscribe open_subscription
run-HasGap_example =
    Coverage.run-HasGap (subscribe fresh_subscription failed_attempt).1
      (Coverage.subscribes granted_attempt ∷ Coverage.revalidates good_poll ∷ []) refl
