-- ===== src/Tests/Journal.antt =====
-- Runs of the journal's writer and of its pages.
use verdant.Base.{
  ℕ, ◌+◌, ◌≤◌, ◌≡◌, refl, ◌≢◌, true, false, none, some, List, [], ◌∷◌, String, find, Result, ok,
  err,
}
use verdant.Base.Int.{pos}
use verdant.Action.Journal.{
  WriterError, terminal, dispatched, admitted, set, invalid, owned_rate_max_per_hour, Admitted,
  check_actor,
}
use verdant.Action.Journal.Tables.{
  JournalRow, Tables, current_generation, in_rate_window, is_rate_row, rate_used, upsert_target,
  admission_body,
}
use verdant.Action.Journal.Rows.{decode_row, read_row, is_row}
use verdant.Action.Journal.Writer.{
  Journal, DatabaseTimes, PendingAdmission, absent, commits, announce, announce_admitted, row_of,
  require_identical, submit,
}
use verdant.Action.Journal.Steps.{Call, submits, moves, run}
use verdant.Action.Journal.Rate.{sets_in_hour, rate_bounded}
use verdant.Action.Journal.Order.{IsSound, run-IsSound}
use verdant.Action.Journal.Final.{state_at, terminal_final, row_kept}
use verdant.Action.Journal.Answers.{IsDurable, submit-IsDurable, decode_row_never_partial}
use verdant.Action.Journal.Pages.{outstanding_page, cleanup_obligations_with_now}

abbrev pending : String → ℕ → PendingAdmission
pending operation expected = record {
  operation = operation;
  scope = "site-a";
  equipment = "ahu-1";
  binding_revision = 3;
  accepted_revision = 4;
  expected_generation = expected;
  target_generation = expected + 1;
  payload = "{\"value\":21.5}";
  wire_bits = 0x41ac_0000;
  kind = set;
  release_admitted = false;
  release_target = "none";
  deadline_secs = 5;
  ceiling = 2;
  actor = "alice";
  predecessor = none;
}

abbrev empty_tables : Tables
empty_tables = record { journal = []; targets = []; lifecycle = [] }

abbrev start : Journal
start = record {
  tables = empty_tables;
  essential = record { capacity = 1; queued = []; connected = true; announced = 0; refusals = 0 };
  history = record { capacity = 1; queued = []; connected = true; announced = 0; refusals = 0 };
  max_replay_rows = 64;
}

abbrev at : ℕ → DatabaseTimes
at now = record { checked = pos now; inserted = pos now; reported = pos now }

-- What a handle that read between the first two calls saw.
abbrev seen_admitted : Tables
unfolding run
seen_admitted = (run start (submits (pending "op-1" 0) (at 1000) absent commits ∷ [])).tables

abbrev history_calls : List Call
history_calls =
    submits (pending "op-1" 0) (at 1000) absent commits
    ∷ moves seen_admitted "op-1" "site-a" terminal commits
    ∷ submits (pending "op-2" 1) (at 1001) absent commits
    ∷ []

-- The journal after the first admission and its terminal mark.
abbrev finished_row : JournalRow
unfolding row_of
finished_row = row_of (pending "op-1" 0) (pos 1000)

abbrev live_row : JournalRow
unfolding row_of
live_row = row_of (pending "op-2" 1) (pos 1001)

abbrev worked : Journal
worked = record start {
  tables = record {
    journal = live_row ∷ finished_row ∷ [];
    targets = record { scope = "site-a"; equipment = "ahu-1"; current_generation = 2 } ∷ [];
    lifecycle =
        record { operation = "op-2"; attempt = "op-2"; state = admitted; predecessor = none }
        ∷ record { operation = "op-1"; attempt = "op-1"; state = terminal; predecessor = none }
        ∷ [];
  };
}

abbrev later_calls : List Call
later_calls =
    moves worked.tables "op-1" "site-a" dispatched commits
    ∷ submits (pending "op-3" 2) (at 1002) absent commits
    ∷ []

-- A handle that read the row before it was terminal overwrites the state.
revives :
    state_at
      (run worked (moves seen_admitted "op-1" "site-a" dispatched commits ∷ [])).tables.lifecycle
      "op-1"
    ≡ dispatched
unfolding run seen_admitted verdant.Action.Journal.Steps.step
    verdant.Action.Journal.Writer.transition read_row submit admission_body row_of decode_row
    check_actor verdant.Domain.Ids.is_id_char require_identical announce_admitted
    verdant.Action.Journal.is_terminal verdant.Action.Journal.Tables.transition_body
    verdant.Action.Journal.Tables.upsert_lifecycle
revives = refl

abbrev answers : Result WriterError (List Admitted) → List Admitted
answers (ok found) = found
answers (err e) = []

abbrev shown : Journal → List Admitted
shown j = answers (outstanding_page j "site-a" 10 0)

abbrev due : Journal → List Admitted
due j = answers (cleanup_obligations_with_now j "site-a" 10 0 (pos 1100))

rate_bounded_example :
    sets_in_hour (run start history_calls).tables.journal "site-a" "ahu-1" (pos 0)
    ≤ owned_rate_max_per_hour
rate_bounded_example =
    rate_bounded start history_calls "site-a" "ahu-1" (pos 0) (refl, (tt, (refl, tt))) tt

run-IsSound_example : IsSound (run start history_calls).tables
run-IsSound_example = run-IsSound start history_calls (record { ordered = tt; under = tt })

terminal_final_example : state_at (run worked later_calls).tables.lifecycle "op-1" ≡ terminal
unfolding worked finished_row live_row
terminal_final_example = terminal_final "op-1" worked later_calls ((λ _. refl), (tt, tt)) refl

row_kept_example :
    find (is_row "op-1" "site-a") (run worked history_calls).tables.journal ≡ some finished_row
unfolding worked finished_row live_row
row_kept_example = row_kept "op-1" "site-a" finished_row worked history_calls refl

abbrev first_answer : Admitted
first_answer = record {
  operation = "op-1";
  scope = "site-a";
  equipment = "ahu-1";
  binding_revision = 3;
  accepted_revision = 4;
  expected_generation = 0;
  target_generation = 1;
  payload = "{\"value\":21.5}";
  deadline_secs = 5;
  ceiling = 2;
  actor = "alice";
  attempt = "op-1";
  reconciled = false;
  wire_bits = some 0x41ac_0000;
  action_kind = some set;
  release_admitted = some false;
  release_target = some "none";
  lifecycle = admitted;
  predecessor = none;
  created_secs = pos 1000;
}

submit-IsDurable_example :
    IsDurable
      (submit start (at 1000) (pending "op-1" 0) absent commits).1.tables
      (pending "op-1" 0)
      first_answer
unfolding submit admission_body current_generation rate_used is_rate_row in_rate_window
    upsert_target row_of read_row decode_row check_actor require_identical announce_admitted
    announce verdant.Domain.Ids.is_id_char
submit-IsDurable_example =
    submit-IsDurable start (at 1000) (pending "op-1" 0) absent commits first_answer refl

decode_row_never_partial_example :
    decode_row (record live_row { wire_bits = none }) none "site-a"
    ≢ err (invalid "journal identity partial")
decode_row_never_partial_example =
    decode_row_never_partial (record live_row { wire_bits = none }) none "site-a"
