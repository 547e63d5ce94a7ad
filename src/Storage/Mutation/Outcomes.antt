-- ===== src/Storage/Mutation/Outcomes.antt =====
-- What the outcomes of `submit` in src/storage/sqlite/mutation.rs mean.
use verdant.Base.{
  ◌≡◌, refl, sym, ap, ◌∙◌, ◌⊎◌, inl, inr, Bool, true, false, Option, none, some, Option-cases, List,
  String, arith, eq_iff, find, Result, ok, err, Result-cases, subst, Bool-cases, string_partial_eq,
  ◌==◌,
}
use verdant.Storage.Mutation.{
  StorageError, Rows, Shape, insert, rows, change, shape_eq, PreparedMutation, request, request_eq,
  Receipt, records, committed, not_committed, CommitAnswer, acknowledged, lost, Environment, Inner,
  Database, outcome, replay, execute, failed, committed_or_lost, after_execute, submit_staged,
  receipt, submit, mark_attempted,
}
use verdant.Storage.Mutation.Receipts.{execute_lem, run, run-receipt_kept}

shape_eq_refl : (s : Shape) → shape_eq s s ≡ true
shape_eq_refl insert = refl
shape_eq_refl rows = refl
shape_eq_refl change = refl

request_eq_refl : (p : PreparedMutation) → request_eq (request p) (request p) ≡ true
request_eq_refl p =
    ground (arith, shape_eq_refl p.shape, eq_iff p.store p.store, eq_iff p.body p.body)

module _ {D : Type 0} (exec : String → D → Result StorageError (Rows × D))
    (decode_row : List String → Result StorageError (Unit {0})) (inner : Inner) where
  -- A receipt of the ticket's own request, whose rows the ticket's outcome reports.
  abbrev pub Holds : Database D → PreparedMutation → Rows → Type 0
  Holds db p body_rows =
      (r : Receipt) × (find (records p.operation) db.receipts ≡ some r)
      × (replay exec decode_row p r ≡ ok body_rows)
      × (outcome p.shape p.operation body_rows ≡ committed p.operation body_rows)

  pub execute-replay :
      (db : Database D) (env : Environment) (p : PreparedMutation) (staged : Rows × Database D)
      → execute exec decode_row inner db env p ≡ ok staged
      → (r : Receipt) × (find (records p.operation) staged.1.receipts ≡ some r)
        × (replay exec decode_row p r ≡ ok staged.0)
  unfolding execute replay
  execute-replay db env p staged h =
      let made = execute_lem exec decode_row inner db env p staged h in
      (
        record { operation = p.operation; request = request p; response = staged.0 },
        ap (find (records p.operation)) made.1 ∙ ground (arith, eq_iff p.operation p.operation),
        ground (arith, request_eq_refl p),
      )

  outcome-rows :
      (s : Shape) (operation : String) (found body_rows : Rows)
      → outcome s operation found ≡ committed operation body_rows
      → found ≡ body_rows
  unfolding outcome
  outcome-rows s operation found body_rows h = ground arith

  failed_not_committed :
      (absent : Bool) (operation : String) (e : StorageError) (body_rows : Rows)
      → failed exec decode_row absent operation e ≡ committed operation body_rows
      → ⊥
  unfolding failed
  failed_not_committed absent operation e body_rows h = ground arith

  acknowledged_only :
      (a : CommitAnswer) (db : Database D) (staged : Rows × Database D) (p : PreparedMutation)
      (body_rows : Rows)
      → (committed_or_lost exec decode_row a db staged p).0 ≡ committed p.operation body_rows
      → ((committed_or_lost exec decode_row a db staged p).1 ≡ staged.1)
        × (outcome p.shape p.operation staged.0 ≡ committed p.operation body_rows)
  unfolding committed_or_lost
  acknowledged_only acknowledged db staged p body_rows h = (refl, h)
  acknowledged_only (lost b e) db staged p body_rows h = absurd (ground arith)

  committed-execute :
      (db : Database D) (env : Environment) (p : PreparedMutation) (body_rows : Rows)
      (res : Result StorageError (Rows × Database D))
      → execute exec decode_row inner db env p ≡ res
      → (after_execute exec decode_row env p db res).0 ≡ committed p.operation body_rows
      → Holds (after_execute exec decode_row env p db res).1 p body_rows
  unfolding after_execute outcome
  committed-execute db env p body_rows (err e) ran h =
      absurd (failed_not_committed true p.operation e body_rows h)
  committed-execute db env p body_rows (ok staged) ran h =
      let (r, found, replayed) = execute-replay db env p staged ran in
      let (same, reported) = acknowledged_only env.commit db staged p body_rows h in
      let same_rows = outcome-rows p.shape p.operation staged.0 body_rows reported in
      (
        r,
        ap (λ d. find (records p.operation) d.receipts) same ∙ found,
        replayed ∙ ap ok same_rows,
        ap (outcome p.shape p.operation) (sym same_rows) ∙ reported,
      )

  committed_staged :
      (db : Database D) (env : Environment) (p : PreparedMutation) (body_rows : Rows)
      (o : Result StorageError (Option Receipt))
      → receipt exec decode_row db env p.operation ≡ o
      → (submit_staged exec decode_row inner db env p o).0 ≡ committed p.operation body_rows
      → Holds (submit_staged exec decode_row inner db env p o).1 p body_rows
  unfolding submit_staged after_execute receipt outcome
  committed_staged db env p body_rows (err e) looked h =
      absurd (failed_not_committed false p.operation e body_rows h)
  committed_staged db env p body_rows (ok (some r)) looked h =
      elim (Result-cases (replay exec decode_row p r)) [
        | inl (rs, e) ↦ (r, ground arith, ground arith, ground arith)
        | inr (e, f) ↦ absurd (ground (arith, failed_not_committed false p.operation e body_rows))
      ]
  committed_staged db env p body_rows (ok none) looked h =
      committed-execute db env p body_rows (execute exec decode_row inner db env p) refl h

  submit-committed :
      (db : Database D) (env : Environment) (p : PreparedMutation) (body_rows : Rows)
      → (submit exec decode_row inner db env p).0 ≡ committed p.operation body_rows
      → ((p.store == inner.identity) ≡ true)
        × Holds (submit exec decode_row inner db env p).1 p body_rows
  unfolding submit
  submit-committed db env p body_rows h = elim (Bool-cases (p.store == inner.identity)) [
    | inr foreign ↦ absurd (ground arith)
    | inl own ↦ elim (Option-cases env.admission) [
      | inr (e, refused) ↦ absurd (ground arith)
      | inl admitted ↦
          let done : submit exec decode_row inner db env p
              ≡ submit_staged exec decode_row inner db env p
                  (receipt exec decode_row db env p.operation) =
            ground arith in
          (
            own,
            subst (λ r. Holds r.1 p body_rows) (sym done)
                (committed_staged db env p body_rows (receipt exec decode_row db env p.operation)
                  refl (ap (λ r. r.0) (sym done) ∙ h)),
          )
    ]
  ]

  looked_up :
      (db : Database D) (env : Environment) (operation : String)
      → env.lookup ≡ none
      → receipt exec decode_row db env operation ≡ ok (find (records operation) db.receipts)
  unfolding receipt
  looked_up db env operation h = ground arith

  replayed_staged :
      (db : Database D) (env : Environment) (p : PreparedMutation) (r : Receipt) (body_rows : Rows)
      → replay exec decode_row p r ≡ ok body_rows
      → outcome p.shape p.operation body_rows ≡ committed p.operation body_rows
      → submit_staged exec decode_row inner db env (mark_attempted p) (ok (some r))
        ≡ (committed p.operation body_rows, db)
  unfolding submit_staged mark_attempted replay
  replayed_staged db env p r body_rows replayed reported = ground arith

  -- A ticket whose receipt is there is answered from it, on any admitted connection.
  submit_held :
      (db : Database D) (env : Environment) (p : PreparedMutation) (body_rows : Rows)
      → (p.store == inner.identity) ≡ true
      → Holds db p body_rows
      → env.admission ≡ none
      → env.lookup ≡ none
      → submit exec decode_row inner db env (mark_attempted p)
        ≡ (committed p.operation body_rows, db)
  unfolding submit mark_attempted
  submit_held db env p body_rows own (r, found, replayed, reported) admitted looked = ground (
    arith,
    looked_up db env p.operation looked,
    replayed_staged db env p r body_rows replayed reported,
  )

  -- A ticket that was answered `Committed` is answered the same, with nothing changed, whenever it is
  -- submitted again: after any other submits, on any connection that is admitted and can read its receipt.
  pub submit_idempotent :
      (db : Database D) (env : Environment) (p : PreparedMutation) (body_rows : Rows)
      (calls : List (Environment × PreparedMutation)) (env' : Environment)
      → (submit exec decode_row inner db env p).0 ≡ committed p.operation body_rows
      → env'.admission ≡ none
      → env'.lookup ≡ none
      → submit exec decode_row inner
          (run exec decode_row inner (submit exec decode_row inner db env p).1 calls)
          env'
          (mark_attempted p)
        ≡ (
          committed p.operation body_rows,
          run exec decode_row inner (submit exec decode_row inner db env p).1 calls,
        )
  submit_idempotent db env p body_rows calls env' h admitted looked =
      let (own, (r, found, replayed, reported)) = submit-committed db env p body_rows h in
      submit_held _ env' p body_rows own
        (
          r,
          run-receipt_kept exec decode_row inner (submit exec decode_row inner db env p).1 calls
              p.operation r found,
          replayed,
          reported,
        )
        admitted looked

  not_committed_answered :
      (a : CommitAnswer) (db : Database D) (staged : Rows × Database D) (p : PreparedMutation)
      (e : StorageError)
      → (committed_or_lost exec decode_row a db staged p).0 ≡ not_committed p.operation e
      → ⊥
  unfolding committed_or_lost outcome
  not_committed_answered acknowledged db staged p e h = ground arith
  not_committed_answered (lost b x) db staged p e h = ground arith

  not_committed_staged :
      (db : Database D) (env : Environment) (p : PreparedMutation) (e : StorageError)
      (o : Result StorageError (Option Receipt)) (res : Result StorageError (Rows × Database D))
      → execute exec decode_row inner db env p ≡ res
      → (submit_staged exec decode_row inner db env p o).0 ≡ not_committed p.operation e
      → ((submit_staged exec decode_row inner db env p o).1 ≡ db) × (o ≡ ok none)
  unfolding submit_staged after_execute outcome failed
  not_committed_staged db env p e (err x) res ran h = absurd (ground arith)
  not_committed_staged db env p e (ok (some r)) res ran h = absurd (ground arith)
  not_committed_staged db env p e (ok none) (err x) ran h = ground arith
  not_committed_staged db env p e (ok none) (ok staged) ran h =
      absurd (ground (arith, not_committed_answered env.commit db staged p e))

  -- `NotCommitted` is true: nothing was changed, and the ticket has no receipt or was never dispatched
  -- before.
  pub submit-not_committed :
      (db : Database D) (env : Environment) (p : PreparedMutation) (e : StorageError)
      → (submit exec decode_row inner db env p).0 ≡ not_committed p.operation e
      → ((submit exec decode_row inner db env p).1 ≡ db)
        × ((find (records p.operation) db.receipts ≡ none) ⊎ (p.attempted ≡ false))
  unfolding submit receipt
  submit-not_committed db env p e h =
      ground
        (arith, not_committed_staged db env p e (receipt exec decode_row db env p.operation) _ refl)
