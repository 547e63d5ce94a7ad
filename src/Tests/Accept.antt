-- ===== src/Tests/Accept.antt =====
-- Runs of the chains of accepted and active revisions.
use verdant.Base.{ℕ, ◌≡◌, ◌⊎◌, String, none, some, [], ◌∷◌, List, ok, err, refl, true, false}
use verdant.Accept.Store.{ActivationRequest, superseded, stale_generation}
use verdant.Accept.Tickets.{Moment, commits, loses, AcceptanceDatabase}
use verdant.Accept.Acceptance.{Answers, Sealed, Submission}
use verdant.Accept.Activation.{Activated, active_revision}
use verdant.Accept.Activate.{ActivationSubmission, activate, reconcile_activation}
use verdant.Accept.Histories.{Call, accept, move, move_now, run, empty_database}
use verdant.Accept.Recovery.{activate-reconcile}
use verdant.Accept.Chains.Order.{IsReadable, run-IsReadable, Rises, run-no_rollback}

abbrev calm : Moment
calm = record { skipped = 2; guard_holds = true; fate = commits }

-- A moment whose COMMIT applies and whose answer is lost.
abbrev lossy : Moment
lossy = record { skipped = 0; guard_holds = true; fate = loses true "broken pipe" }

abbrev answers : Answers
answers = record {
  environment = ok tt;
  registry = ok tt;
  verified = ok tt;
  authority = ok ("capability=publisher-1", "unchanged");
}

abbrev publication : String → Sealed
publication digest = record {
  identity = digest;
  staged_operation = "accept-stage-1";
  scope = "scope-a";
  guard = "sealed";
}

abbrev calmly : Moment → Submission
calmly moment = record {
  environment = ok tt;
  first = none;
  verified = ok tt;
  moment = moment;
  last = none;
}

abbrev simple : Moment → ActivationSubmission
simple moment = record {
  environment = ok tt;
  first = none;
  verified = ok tt;
  moment = moment;
  last = none;
}

abbrev ask : String → ℕ → String → ActivationRequest
ask operation expected digest = record {
  operation = operation;
  expected = expected;
  acceptance = record {
    operation = digest;
    expected = expected;
    scope = "scope-a";
    staged_operation = "accept-stage-1";
    seal = digest;
  };
}

-- Two revisions, each made active; the answer to the second activation is lost.
abbrev first_calls : List Call
first_calls =
    accept 0 answers "digest-1" 0 (publication "digest-1") (calmly calm)
    ∷ move_now none (ok "sealed") (simple calm) (ask "move-1" 0 "digest-1")
    ∷ []

abbrev later_calls : List Call
later_calls =
    accept 1 answers "digest-2" 1 (publication "digest-2") (calmly calm)
    ∷ move 2 1 (ok tt) (ok "sealed") (ask "move-2" 1 "digest-2") (simple lossy)
    ∷ []

abbrev first_active : Activated
first_active = record {
  row_id = 6;
  generation = 1;
  revision = 1;
  request = ask "move-1" 0 "digest-1";
  reconciled = false;
}

reads_first :
    active_revision "scope-a"
      (run empty_database first_calls).accepts
      (run empty_database first_calls).actives
    ≡ ok (some first_active)
unfolding active_revision run
reads_first = refl

abbrev second_active : Activated
second_active = record {
  row_id = 10;
  generation = 2;
  revision = 2;
  request = ask "move-2" 1 "digest-2";
  reconciled = false;
}

abbrev both_moves : AcceptanceDatabase
both_moves = run (run empty_database first_calls) later_calls

reads_second :
    active_revision "scope-a" both_moves.accepts both_moves.actives ≡ ok (some second_active)
unfolding active_revision run
reads_second = refl

-- The first activation cannot be repeated under another operation, nor the second one.
refuses_old :
    (activate none
      (ok "sealed")
      (simple calm)
      (record (ask "move-3" 0 "digest-1") { expected = 2 })
      both_moves).1
    ≡ err (superseded 1 2)
unfolding activate run
refuses_old = refl

refuses_stale :
    (activate none (ok "sealed") (simple calm) (ask "move-3" 1 "digest-2") both_moves).1
    ≡ err (stale_generation 1 2)
unfolding activate run
refuses_stale = refl

-- The activation whose answer was lost is found again, and nothing is added.
repeats :
    activate none (ok "sealed") (simple calm) (ask "move-2" 1 "digest-2") both_moves
    ≡ (both_moves, ok (record second_active { reconciled = true }))
unfolding activate run
repeats = refl

run-IsReadable_example : IsReadable (run empty_database first_calls) "scope-a"
run-IsReadable_example = run-IsReadable first_calls "scope-a"

run-no_rollback_example :
    (b : Activated) × (active_revision "scope-a" both_moves.accepts both_moves.actives
      ≡ ok (some b))
    × ((b ≡ first_active) ⊎ Rises first_active b)
run-no_rollback_example = run-no_rollback first_calls later_calls "scope-a" first_active reads_first

abbrev one_accepted : AcceptanceDatabase
one_accepted =
    run empty_database (accept 0 answers "digest-1" 0 (publication "digest-1") (calmly calm) ∷ [])

-- The COMMIT applies and its answer is lost, so that `activate` reads the row itself.
abbrev found_active : Activated
found_active = record first_active { row_id = 4; reconciled = true }

finds_lost :
    (activate none (ok "sealed") (simple lossy) (ask "move-1" 0 "digest-1") one_accepted).1
    ≡ ok found_active
unfolding activate run
finds_lost = refl

activate-reconcile_example :
    reconcile_activation none
      (ask "move-1" 0 "digest-1")
      (activate none (ok "sealed") (simple lossy) (ask "move-1" 0 "digest-1") one_accepted).0
    ≡ ok (some (record found_active { reconciled = true }))
activate-reconcile_example =
    activate-reconcile none (ok "sealed") (simple lossy) (ask "move-1" 0 "digest-1") one_accepted
      found_active finds_lost
