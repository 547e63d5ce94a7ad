-- ===== src/Accept/Recovery/Remembering.antt =====
-- The rows that the receipts of src/accept/store.rs name, by operation.
use verdant.Base.{
  ℕ, ◌≡◌, refl, ◌∙◌, ap, sym, inl, inr, String, true, false, Option, none, some, find, Result, ok,
  err, arith, Option-cases, string_partial_eq, ==_refl,
}
use verdant.Accept.Store.{ActivationRequest}
use verdant.Accept.Tickets.{
  AcceptanceDatabase, Moment, Ticket, Check, activation_generation, activation_acceptance,
  activation_publication, guard_unchanged, expected_changed, Outcome, committed, check_failed,
  not_committed, clashed, uncertain, CommitFate, commits, refuses, loses, answered_ticket,
  accepting, activating, submit_ticket, run_body, is_receipt, reconcile_ticket, reconcile_operation,
  committed_row, Body,
}
use verdant.Accept.Acceptance.{settled}
use verdant.Accept.Activate.{activation_row}

pub committed_row-ok : (o : Outcome) (row : ℕ) → committed_row o ≡ ok row → o ≡ committed row
unfolding committed_row
committed_row-ok (committed n) row h = ground arith
committed_row-ok (check_failed expected_changed) row h = absurd (cc)
committed_row-ok (check_failed guard_unchanged) row h = absurd (cc)
committed_row-ok (check_failed activation_generation) row h = absurd (cc)
committed_row-ok (check_failed activation_acceptance) row h = absurd (cc)
committed_row-ok (check_failed activation_publication) row h = absurd (cc)
committed_row-ok (not_committed e) row h = absurd (cc)
committed_row-ok (clashed detail) row h = absurd (cc)
committed_row-ok (uncertain operation detail) row h = absurd (cc)

pub activation_row-ok :
    (request : ActivationRequest) (db : AcceptanceDatabase) (o : Outcome) (row : ℕ)
    → activation_row request db o ≡ ok row
    → committed_row o ≡ ok row
unfolding activation_row
activation_row-ok request db (committed n) row h = h
activation_row-ok request db (check_failed expected_changed) row h = h
activation_row-ok request db (check_failed guard_unchanged) row h = h
activation_row-ok request db (check_failed activation_generation) row h = ground arith
activation_row-ok request db (check_failed activation_acceptance) row h = ground arith
activation_row-ok request db (check_failed activation_publication) row h = ground arith
activation_row-ok request db (not_committed e) row h = h
activation_row-ok request db (clashed detail) row h = h
activation_row-ok request db (uncertain operation detail) row h = h

-- The store remembers that the operation committed this row.
abbrev pub Remembers : AcceptanceDatabase → String → ℕ → Type 0
Remembers db operation row = reconcile_operation none operation db ≡ committed row

pub reconcile_ticket-Remembers :
    (fault : Option String) (t : Ticket) (db : AcceptanceDatabase) (row : ℕ)
    → reconcile_ticket fault t db ≡ committed row
    → Remembers db t.operation row
unfolding reconcile_ticket reconcile_operation
reconcile_ticket-Remembers (some fault) t db row h = absurd (cc)
reconcile_ticket-Remembers none t db row h =
    elim (Option-cases (find (is_receipt t.operation) db.receipts)) [
      | inl e ↦ ground arith
      | inr (r, e) ↦ ground arith
    ]

run_body-Remembers :
    (m : Moment) (t : Ticket) (body : Body) (db next : AcceptanceDatabase)
    → run_body m t body db ≡ ok next
    → Remembers next t.operation next.last_id
unfolding run_body reconcile_operation
run_body-Remembers m t (accepting request actor) db next h = ground (arith, ==_refl t.operation)
run_body-Remembers m t (activating request target) db next h = ground (arith, ==_refl t.operation)

answered-Remembers :
    (fate : CommitFate) (m : Moment) (t : Ticket) (db : AcceptanceDatabase)
    (result : Result Check AcceptanceDatabase) (row : ℕ)
    → result ≡ run_body m t t.body db
    → (answered_ticket fate t db result).1 ≡ committed row
    → Remembers (answered_ticket fate t db result).0 t.operation row
answered-Remembers (refuses e) m t db result row ran h = absurd (cc)
answered-Remembers commits m t db (err c) row ran h = absurd (cc)
answered-Remembers commits m t db (ok next) row ran h =
    let last : next.last_id ≡ row = ground (arith, h) in
    run_body-Remembers m t t.body db next (sym ran) ∙ ap committed last
answered-Remembers (loses applied detail) m t db (err c) row ran h = absurd (cc)
answered-Remembers (loses true detail) m t db (ok next) row ran h = absurd (cc)
answered-Remembers (loses false detail) m t db (ok next) row ran h = absurd (cc)

pub submit_ticket-Remembers :
    (m : Moment) (t : Ticket) (db : AcceptanceDatabase) (row : ℕ)
    → (submit_ticket m t db).1 ≡ committed row
    → Remembers (submit_ticket m t db).0 t.operation row
unfolding submit_ticket reconcile_operation
submit_ticket-Remembers m t db row h =
    elim (Option-cases (find (is_receipt t.operation) db.receipts)) [
      | inl e ↦
          rw (e, submit_ticket)
            (answered-Remembers m.fate m t db (run_body m t t.body db) row refl
              (rw (e, submit_ticket) at h))
      | inr (r, e) ↦ ground (arith, e, h)
    ]

pub settled-Remembers :
    (fault : Option String) (t : Ticket) (db : AcceptanceDatabase) (o : Outcome) (row : ℕ)
    → (o ≡ committed row → Remembers db t.operation row)
    → (settled fault t (db, o)).1.0 ≡ committed row
    → Remembers (settled fault t (db, o)).0 t.operation row
settled-Remembers fault t db (committed n) row known h = known h
settled-Remembers fault t db (check_failed c) row known h = absurd (cc)
settled-Remembers fault t db (not_committed e) row known h = absurd (cc)
settled-Remembers fault t db (clashed detail) row known h = absurd (cc)
settled-Remembers fault t db (uncertain operation detail) row known h =
    reconcile_ticket-Remembers fault t db row h

pub reconcile_operation-Remembers :
    (fault : Option String) (operation : String) (db : AcceptanceDatabase) (row : ℕ)
    → reconcile_operation fault operation db ≡ committed row
    → Remembers db operation row
unfolding reconcile_operation
reconcile_operation-Remembers (some fault) operation db row h = absurd (cc)
reconcile_operation-Remembers none operation db row h = h
