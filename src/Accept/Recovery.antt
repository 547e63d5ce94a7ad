-- ===== src/Accept/Recovery.antt =====
-- Recovering the answer of an activation of src/accept/activation.rs from the store alone.
mod Remembering
mod Kept
use verdant.Base.{
  ℕ, ◌≡◌, refl, ◌∙◌, ap, sym, inl, inr, String, Bool, true, false, Option, none, some, find, Result,
  ok, err, arith, Result-cases, Option-cases, Bool-cases, ◌==◌, string_partial_eq, ==_refl, nat_eq,
  ◌>>◌, ◌⊎◌, map_err,
}
use verdant.Storage.Mutation.{StorageError}
use verdant.Accept.Store.{Error, ActivationRequest, max_accepted}
use verdant.Accept.Tickets.{
  AcceptanceDatabase, Moment, Ticket, Receipt, Check, activation_generation, activation_acceptance,
  activation_publication, guard_unchanged, expected_changed, Outcome, committed, check_failed,
  not_committed, clashed, uncertain, CommitFate, commits, refuses, loses, answered_ticket,
  accepting, activating, submit_ticket, run_body, is_receipt, replayed, reconcile_ticket,
  reconcile_operation, committed_row, is_absent, Body,
}
use verdant.Accept.Acceptance.{settled}
use verdant.Accept.Activation.{Activated, active_revision, check_activation_order}
use verdant.Accept.Activate.{
  ActivationSubmission, activate, submit_activation, prepare_activation, reconcile_activation,
  read_activation_commit, activation_row, map_blocked, replay_activation,
}
use verdant.Accept.Recovery.Kept.{IsKept, IsKept-reconcile, submit-IsKept, known-IsKept}

prepare_activation-operation :
    (environment : Result Error (Unit {0})) (seal : Result Error String)
    (request : ActivationRequest) (db : AcceptanceDatabase) (t : Ticket)
    → prepare_activation environment seal request db.accepts db.actives ≡ ok t
    → t.operation ≡ request.operation
unfolding prepare_activation
prepare_activation-operation environment seal request db t h = ground arith

abbrev checked_again :
    Result Error String
    → ActivationRequest
    → AcceptanceDatabase
    → Activated
    → Result Error Activated
checked_again seal request db read = do
  check_activation_order request (some read.row_id) db.accepts db.actives
  map_err (map_blocked request) seal
  ok read

checked_again-same :
    (seal : Result Error String) (request : ActivationRequest) (db : AcceptanceDatabase)
    (read found : Activated)
    → checked_again seal request db read ≡ ok found
    → read ≡ found
checked_again-same seal request db read found h = ground arith

activate-IsKept :
    (fault : Option String) (seal : Result Error String) (s : ActivationSubmission)
    (request : ActivationRequest) (db : AcceptanceDatabase) (found : Activated)
    → (activate fault seal s request db).1 ≡ ok found
    → IsKept request (activate fault seal s request db).0 found
unfolding activate
activate-IsKept fault seal s request db found h =
    elim (Result-cases (s.environment >> reconcile_activation fault request db)) [
      | inr (e, refused) ↦
          let same : activate fault seal s request db ≡ (db, err e) = rw (refused, activate) refl in
          absurd (cc (sym (ap (λ r. r.1) same) ∙ h))
      | inl (some read, known) ↦
          let same : activate fault seal s request db ≡ (db, checked_again seal request db read) =
            rw (known, activate) refl in
          let stored : reconcile_activation fault request db ≡ ok (some read) =
            ground (arith, known) in
          rw same (
            known-IsKept fault request db found (
              stored
              ∙ ap (λ a. ok (some a))
                  (checked_again-same seal request db read found (ap (λ r. r.1) (sym same) ∙ h))))
      | inl (none, absent) ↦
          elim (Result-cases
            (prepare_activation s.environment seal request db.accepts db.actives)) [
              | inr (e, refused) ↦
                  let same : activate fault seal s request db ≡ (db, err e) =
                    rw (absent, refused, activate) refl in
                  absurd (cc (sym (ap (λ r. r.1) same) ∙ h))
              | inl (t, done) ↦
                  let same : activate fault seal s request db ≡ submit_activation s request t db =
                    rw (absent, done, activate) refl in
                  rw same (
                    submit-IsKept s request t db found
                      (prepare_activation-operation s.environment seal request db t done)
                      (ap (λ r. r.1) (sym same) ∙ h))
            ]
    ]

-- Whatever the state of the store, and whatever was lost on the way: an activation that `activate` answers is
-- found again from its request and the store that it leaves, the same but that it is marked as reconciled.
pub activate-reconcile :
    (fault : Option String) (seal : Result Error String) (s : ActivationSubmission)
    (request : ActivationRequest) (db : AcceptanceDatabase) (found : Activated)
    → (activate fault seal s request db).1 ≡ ok found
    → reconcile_activation none request (activate fault seal s request db).0
      ≡ ok (some (record found { reconciled = true }))
activate-reconcile fault seal s request db found h =
    IsKept-reconcile request (activate fault seal s request db).0 found
      (activate-IsKept fault seal s request db found h)
