-- ===== src/Accept/Histories.antt =====
-- Any sequence of the calls of accept/store.rs and accept/activation.rs that write, on one store. What a
-- caller prepared may rest on older rows than those that its submit meets: rows are only added.
use verdant.Base.{ℕ, String, Option, List, [], ◌∷◌, take, Result, ok, err}
use verdant.Accept.Store.{ActivationRequest, Error}
use verdant.Accept.Tickets.{AcceptanceDatabase}
use verdant.Accept.Acceptance.{Answers, Sealed, Submission, prepare, submit}
use verdant.Accept.Activate.{ActivationSubmission, activate, prepare_activation, submit_activation}

-- `prepare` and `submit`, `prepare_activation` and `submit_activation`, and `activate`.
pub data Call : Type 0 where
  accept : ℕ → Answers → String → ℕ → Sealed → Submission → Call
  move :
      ℕ
      → ℕ
      → Result Error (Unit {0})
      → Result Error String
      → ActivationRequest
      → ActivationSubmission
      → Call
  move_now : Option String → Result Error String → ActivationSubmission → ActivationRequest → Call

unfoldable pub step : AcceptanceDatabase → Call → AcceptanceDatabase
unfolding prepare submit prepare_activation submit_activation activate
step db (accept seen answers operation expected source s) =
    elim (prepare answers operation expected source (take seen db.accepts)) [
      | err e ↦ db
      | ok p ↦ (submit s p db).0
    ]
step db (move accepts actives environment seal request s) =
    elim (prepare_activation environment seal request (take accepts db.accepts)
      (take actives db.actives)) [
        | err e ↦ db
        | ok ticket ↦ (submit_activation s request ticket db).0
      ]
step db (move_now fault seal s request) = (activate fault seal s request db).0

unfoldable pub run : AcceptanceDatabase → List Call → AcceptanceDatabase
unfolding step
run db [] = db
run db (c ∷ calls) = run (step db c) calls

abbrev pub empty_database : AcceptanceDatabase
empty_database = record { accepts = []; actives = []; receipts = []; last_id = 0 }
