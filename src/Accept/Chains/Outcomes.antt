-- ===== src/Accept/Chains/Outcomes.antt =====
-- What a submit of accept/store.rs or accept/activation.rs does to the tables: nothing, or the batch of its ticket.
use verdant.Base.{
  ◌≡◌, refl, ◌∙◌, ◌⊎◌, inl, inr, String, true, false, Option, none, find, Result, ok, err,
  Result-cases, Option-cases, Bool-cases,
}
use verdant.Accept.Store.{AcceptanceRequest, ActivationRequest}
use verdant.Accept.Tickets.{
  Check, CommitFate, AcceptanceDatabase, Moment, Outcome, Ticket, answered_ticket, commits,
  committed, clashed, check_failed, is_absent, is_receipt, loses, not_committed, reconcile_ticket,
  refuses, run_body, submit_ticket, uncertain,
}
use verdant.Accept.Acceptance.{Submission, settled, submit}
use verdant.Accept.Activation.{check_activation_order}
use verdant.Accept.Activate.{ActivationSubmission, submit_activation}

answered-cases :
    (fate : CommitFate) (t : Ticket) (db : AcceptanceDatabase)
    (result : Result Check AcceptanceDatabase)
    → ((answered_ticket fate t db result).0 ≡ db)
      ⊎ (result ≡ ok (answered_ticket fate t db result).0)
answered-cases (refuses e) t db result = inl refl
answered-cases commits t db (ok next) = inr refl
answered-cases commits t db (err c) = inl refl
answered-cases (loses true detail) t db (ok next) = inr refl
answered-cases (loses true detail) t db (err c) = inl refl
answered-cases (loses false detail) t db (ok next) = inl refl
answered-cases (loses false detail) t db (err c) = inl refl

settled_lem :
    (fault : Option String) (t : Ticket) (db : AcceptanceDatabase) (o : Outcome)
    → (settled fault t (db, o)).0 ≡ db
settled_lem fault t db (committed row) = refl
settled_lem fault t db (check_failed c) = refl
settled_lem fault t db (not_committed e) = refl
settled_lem fault t db (clashed detail) = refl
settled_lem fault t db (uncertain operation detail) = refl

-- `next` is what the batch of a ticket without a receipt makes of `db`.
pub record Runs (db : AcceptanceDatabase) (t : Ticket) (next : AcceptanceDatabase) : Type 0 where
  pub moment : Moment
  pub fresh : find (is_receipt t.operation) db.receipts ≡ none
  pub ran : run_body moment t t.body db ≡ ok next

submit_ticket-cases :
    (m : Moment) (t : Ticket) (db : AcceptanceDatabase)
    → ((submit_ticket m t db).0 ≡ db) ⊎ Runs db t (submit_ticket m t db).0
unfolding submit_ticket
submit_ticket-cases m t db = elim (Option-cases (find (is_receipt t.operation) db.receipts)) [
  | inr (r, e) ↦ inl (rw (e, submit_ticket) refl)
  | inl e ↦ elim (answered-cases m.fate t db (run_body m t t.body db)) [
    | inl same ↦ inl (rw (e, submit_ticket) same)
    | inr done ↦ inr (record { moment = m; fresh = e; ran = rw (e, submit_ticket) done })
  ]
]

settled-cases :
    (fault : Option String) (m : Moment) (t : Ticket) (db : AcceptanceDatabase)
    → ((settled fault t (submit_ticket m t db)).0 ≡ db)
      ⊎ Runs db t (settled fault t (submit_ticket m t db)).0
settled-cases fault m t db =
    let same = settled_lem fault t (submit_ticket m t db).0 (submit_ticket m t db).1 in
    elim (submit_ticket-cases m t db) [ inl e ↦ inl (same ∙ e) | inr runs ↦ inr (rw same runs) ]

pub submit-cases :
    (s : Submission) (request : AcceptanceRequest) (t : Ticket) (db : AcceptanceDatabase)
    → ((submit s (request, t) db).0 ≡ db) ⊎ Runs db t (submit s (request, t) db).0
unfolding submit
submit-cases s request t db = elim (Result-cases s.environment) [
  | inr (e, refused) ↦ inl (rw refused refl)
  | inl (u, clear) ↦ elim (Bool-cases (is_absent (reconcile_ticket s.first t db))) [
    | inr known ↦ inl (rw (clear, known) refl)
    | inl absent ↦ elim (Result-cases s.verified) [
      | inr (e, refused) ↦ inl (rw (clear, absent, refused) refl)
      | inl (v, verified) ↦ rw (clear, absent, verified) (settled-cases s.last s.moment t db)
    ]
  ]
]

pub submit_activation-cases :
    (s : ActivationSubmission) (request : ActivationRequest) (t : Ticket) (db : AcceptanceDatabase)
    → ((submit_activation s request t db).0 ≡ db) ⊎ Runs db t (submit_activation s request t db).0
unfolding submit_activation
submit_activation-cases s request t db = elim (Result-cases s.environment) [
  | inr (e, refused) ↦ inl (rw refused refl)
  | inl (u, clear) ↦ elim (Bool-cases (is_absent (reconcile_ticket s.first t db))) [
    | inr known ↦ inl (rw (clear, known) refl)
    | inl absent ↦ elim (Result-cases (check_activation_order request none db.accepts db.actives)) [
      | inr (e, stale) ↦ inl (rw (clear, absent, stale) refl)
      | inl (target, order) ↦ elim (Result-cases s.verified) [
        | inr (e, refused) ↦ inl (rw (clear, absent, order, refused) refl)
        | inl (v, verified) ↦
            rw (clear, absent, order, verified) (settled-cases s.last s.moment t db)
      ]
    ]
  ]
]
