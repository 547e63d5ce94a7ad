-- ===== src/Accept/Recovery/Kept.antt =====
-- Activations of src/accept/activation.rs that can be read back: what each of its calls leaves.
use verdant.Base.{
  ℕ, ◌≡◌, refl, ◌∙◌, ap, sym, inl, inr, String, Bool, true, Option, none, some, ok, arith,
  Result-cases, Bool-cases, string_partial_eq,
}
use verdant.Accept.Store.{ActivationRequest}
use verdant.Accept.Tickets.{
  AcceptanceDatabase, Moment, Ticket, committed, submit_ticket, reconcile_ticket,
  reconcile_operation, committed_row, is_absent,
}
use verdant.Accept.Acceptance.{settled}
use verdant.Accept.Activation.{Activated, check_activation_order}
use verdant.Accept.Activate.{
  ActivationSubmission, submit_activation, reconcile_activation, read_activation_commit,
  activation_row, replay_activation,
}
use verdant.Accept.Recovery.Remembering.{
  Remembers, committed_row-ok, activation_row-ok, reconcile_ticket-Remembers,
  submit_ticket-Remembers, settled-Remembers, reconcile_operation-Remembers,
}

-- An answer that can be read back: the operation's row is remembered, and is the activation answered.
pub record IsKept (request : ActivationRequest) (db : AcceptanceDatabase) (found : Activated)
    : Type 0 where
  pub row : ℕ
  pub reconciled : Bool
  pub remembered : Remembers db request.operation row
  pub positive : committed_row (committed row) ≡ ok row
  pub reads : read_activation_commit request row reconciled db ≡ ok found

read_again :
    (request : ActivationRequest) (row : ℕ) (reconciled : Bool) (db : AcceptanceDatabase)
    (found : Activated)
    → read_activation_commit request row reconciled db ≡ ok found
    → read_activation_commit request row true db ≡ ok (record found { reconciled = true })
unfolding read_activation_commit
read_again request row reconciled db found h = ground arith

pub IsKept-reconcile :
    (request : ActivationRequest) (db : AcceptanceDatabase) (found : Activated)
    → IsKept request db found
    → reconcile_activation none request db ≡ ok (some (record found { reconciled = true }))
unfolding reconcile_activation
IsKept-reconcile request db found k =
    rw (k.remembered, k.positive, read_again request k.row k.reconciled db found k.reads) refl

replay-IsKept :
    (s : ActivationSubmission) (request : ActivationRequest) (t : Ticket) (db : AcceptanceDatabase)
    (found : Activated)
    → t.operation ≡ request.operation
    → replay_activation s request (reconcile_ticket s.first t db) db ≡ ok found
    → IsKept request db found
replay-IsKept s request t db found same h =
    let before = reconcile_ticket s.first t db in
    elim (Result-cases (committed_row before)) [
      | inr (e, p) ↦ absurd (cc (rw p at h))
      | inl (row, p) ↦ elim (Result-cases (read_activation_commit request row true db)) [
        | inr (e, q) ↦ absurd (cc (rw (p, q) at h))
        | inl (read, q) ↦
            let is_row = committed_row-ok before row p in
            let is_found : read ≡ found = ground (arith, rw (p, q) at h) in
            record {
              row = row;
              reconciled = true;
              remembered =
                  ap (λ o. reconcile_operation none o db) (sym same)
                  ∙ reconcile_ticket-Remembers s.first t db row is_row;
              positive = ap committed_row (sym is_row) ∙ p;
              reads = q ∙ ap ok is_found;
            }
      ]
    ]

landed-IsKept :
    (fault : Option String) (m : Moment) (request : ActivationRequest) (t : Ticket)
    (db : AcceptanceDatabase) (row : ℕ) (found : Activated)
    → t.operation ≡ request.operation
    → activation_row request
        (settled fault t (submit_ticket m t db)).0
        (settled fault t (submit_ticket m t db)).1.0
      ≡ ok row
    → read_activation_commit request row
        (settled fault t (submit_ticket m t db)).1.1
        (settled fault t (submit_ticket m t db)).0
      ≡ ok found
    → IsKept request (settled fault t (submit_ticket m t db)).0 found
landed-IsKept fault m request t db row found same p q =
    let landed = settled fault t (submit_ticket m t db) in
    let is_ok = activation_row-ok request landed.0 landed.1.0 row p in
    let is_row = committed_row-ok landed.1.0 row is_ok in
    record {
      row = row;
      reconciled = landed.1.1;
      remembered =
          ap (λ o. reconcile_operation none o landed.0) (sym same)
          ∙ settled-Remembers fault t (submit_ticket m t db).0 (submit_ticket m t db).1 row
              (submit_ticket-Remembers m t db row) is_row;
      positive = ap committed_row (sym is_row) ∙ is_ok;
      reads = q;
    }

pub submit-IsKept :
    (s : ActivationSubmission) (request : ActivationRequest) (t : Ticket) (db : AcceptanceDatabase)
    (found : Activated)
    → t.operation ≡ request.operation
    → (submit_activation s request t db).1 ≡ ok found
    → IsKept request (submit_activation s request t db).0 found
unfolding submit_activation
submit-IsKept s request t db found same h = elim (Result-cases s.environment) [
  | inr (e, refused) ↦ absurd (cc (rw refused at h))
  | inl (u, clear) ↦ elim (Bool-cases (is_absent (reconcile_ticket s.first t db))) [
    | inr known ↦
        rw (clear, known) (replay-IsKept s request t db found same (rw (clear, known) at h))
    | inl absent ↦ elim (Result-cases (check_activation_order request none db.accepts db.actives)) [
      | inr (e, stale) ↦ absurd (cc (rw (clear, absent, stale) at h))
      | inl (target, order) ↦ elim (Result-cases s.verified) [
        | inr (e, refused) ↦ absurd (cc (rw (clear, absent, order, refused) at h))
        | inl (v, verified) ↦
            let landed = settled s.last t (submit_ticket s.moment t db) in
            let answer = rw (clear, absent, order, verified) at h in
            elim (Result-cases (activation_row request landed.0 landed.1.0)) [
              | inr (e, p) ↦ absurd (cc (rw p at answer))
              | inl (row, p) ↦
                  elim (Result-cases (read_activation_commit request row landed.1.1 landed.0)) [
                    | inr (e, q) ↦ absurd (cc (rw (p, q) at answer))
                    | inl (read, q) ↦
                        let is_found : read ≡ found = ground (arith, rw (p, q) at answer) in
                        rw (clear, absent, order, verified)
                          (landed-IsKept s.last s.moment request t db row found same p
                            (q ∙ ap ok is_found))
                  ]
            ]
      ]
    ]
  ]
]

pub known-IsKept :
    (fault : Option String) (request : ActivationRequest) (db : AcceptanceDatabase)
    (found : Activated)
    → reconcile_activation fault request db ≡ ok (some found)
    → IsKept request db found
unfolding reconcile_activation
known-IsKept fault request db found h =
    let outcome = reconcile_operation fault request.operation db in
    elim (Bool-cases (is_absent outcome)) [
      | inl absent ↦ absurd (cc (rw absent at h))
      | inr present ↦ elim (Result-cases (committed_row outcome)) [
        | inr (e, p) ↦ absurd (cc (rw (present, p) at h))
        | inl (row, p) ↦ elim (Result-cases (read_activation_commit request row true db)) [
          | inr (e, q) ↦ absurd (cc (rw (present, p, q) at h))
          | inl (read, q) ↦
              let is_row = committed_row-ok outcome row p in
              let is_found : read ≡ found = ground (arith, rw (present, p, q) at h) in
              record {
                row = row;
                reconciled = true;
                remembered = reconcile_operation-Remembers fault request.operation db row is_row;
                positive = ap committed_row (sym is_row) ∙ p;
                reads = q ∙ ap ok is_found;
              }
        ]
      ]
    ]
