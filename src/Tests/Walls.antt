-- ===== src/Tests/Walls.antt =====
-- An intent that the tests of the journal and of the deadline walls share.
use verdant.Base.{none, false}
use verdant.Base.Int.{pos}
use verdant.Action.Journal.{Admitted, admitted}

abbrev pub intent : Admitted
intent = record {
  operation = "op-1";
  scope = "site-a";
  equipment = "ahu-1";
  binding_revision = 3;
  accepted_revision = 4;
  expected_generation = 0;
  target_generation = 1;
  payload = "x";
  deadline_secs = 5;
  ceiling = 2;
  actor = "alice";
  attempt = "op-1";
  reconciled = false;
  wire_bits = none;
  action_kind = none;
  release_admitted = none;
  release_target = none;
  lifecycle = admitted;
  predecessor = none;
  created_secs = pos 1000;
}
