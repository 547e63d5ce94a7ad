-- ===== src/Storage/Mutation/Reconcile.antt =====
-- What the answers of `reconcile` in src/storage/sqlite/mutation.rs mean after a submit.
use verdant.Base.{
  ◌≡◌, refl, ap, ◌∙◌, inl, inr, Option, none, some, List, String, arith, find, Result, ok,
  string_partial_eq,
}
use verdant.Storage.Mutation.{
  StorageError, Rows, PreparedMutation, Receipt, records, committed, not_committed, Environment,
  Inner, Database, outcome, replay, receipt, submit, reconcile, reconciled,
}
use verdant.Storage.Mutation.Receipts.{submit-database, execute_lem}
use verdant.Storage.Mutation.Outcomes.{execute-replay}

module _ {D : Type 0} (exec : String → D → Result StorageError (Rows × D))
    (decode_row : List String → Result StorageError (Unit {0})) (inner : Inner) where
  replay-response :
      (p : PreparedMutation) (r : Receipt) (body_rows : Rows)
      → replay exec decode_row p r ≡ ok body_rows
      → r.response ≡ body_rows
  unfolding replay
  replay-response p r body_rows h = ground arith

  reconcile_found :
      (db : Database D) (env : Environment) (p : PreparedMutation) (o : Option Receipt)
      → find (records p.operation) db.receipts ≡ o
      → ((body_rows : Rows)
          → reconcile exec decode_row inner db env p ≡ committed p.operation body_rows
          → (r : Receipt) × (o ≡ some r) × (r.response ≡ body_rows))
        × ((e : StorageError)
            → reconcile exec decode_row inner db env p ≡ not_committed p.operation e
            → o ≡ none)
  unfolding reconcile receipt reconciled outcome
  reconcile_found db env p none found = ((λ body_rows h. absurd (ground arith)), (λ e h. refl))
  reconcile_found db env p (some r) found =
      ((λ body_rows h. (r, refl, ground arith)), (λ e h. absurd (ground arith)))

  reconcile_after :
      (db : Database D) (env env' : Environment) (p : PreparedMutation)
      → find (records p.operation) db.receipts ≡ none
      → ((body_rows : Rows)
          → reconcile exec decode_row inner (submit exec decode_row inner db env p).1 env' p
            ≡ committed p.operation body_rows
          → exec p.body db.tables
            ≡ ok (body_rows, (submit exec decode_row inner db env p).1.tables))
        × ((e : StorageError)
            → reconcile exec decode_row inner (submit exec decode_row inner db env p).1 env' p
              ≡ not_committed p.operation e
            → (submit exec decode_row inner db env p).1 ≡ db)
  reconcile_after db env env' p fresh = elim (submit-database exec decode_row inner db env p) [
    | inl same ↦
        let kept = ap (λ d. find (records p.operation) d.receipts) same ∙ fresh in
        (
          (λ body_rows h.
              absurd (ground (arith, (reconcile_found _ env' p none kept).0 body_rows h))),
          (λ e h. same),
        )
    | inr (rs, absent, done) ↦
        let made = execute_lem exec decode_row inner db env p (rs, _) done in
        let (r, found, replayed) = execute-replay exec decode_row inner db env p (rs, _) done in
        let decided = reconcile_found _ env' p (some r) found in
        (
          (λ body_rows h.
              let reported = decided.0 body_rows h in
              made.0
              ∙ ap (λ x. ok (x, (submit exec decode_row inner db env p).1.tables)) {x = rs}
                  {y = body_rows} (ground (arith, replay-response p r rs replayed, reported))),
          (λ e h. absurd (ground (arith, decided.1 e h))),
        )
  ]

  -- A reconcile decides a lost answer: if a submit of a ticket that had no receipt ended in any way, and a
  -- reconcile then says `Committed`, the tables are those that the body made, with these rows.
  pub reconcile-committed :
      (db : Database D) (env env' : Environment) (p : PreparedMutation) (body_rows : Rows)
      → find (records p.operation) db.receipts ≡ none
      → reconcile exec decode_row inner (submit exec decode_row inner db env p).1 env' p
        ≡ committed p.operation body_rows
      → exec p.body db.tables ≡ ok (body_rows, (submit exec decode_row inner db env p).1.tables)
  reconcile-committed db env env' p body_rows fresh h =
      (reconcile_after db env env' p fresh).0 body_rows h

  -- If a submit of a ticket that had no receipt ended in any way, and a reconcile then says `NotCommitted`,
  -- the submit changed nothing.
  pub reconcile-not_committed :
      (db : Database D) (env env' : Environment) (p : PreparedMutation) (e : StorageError)
      → find (records p.operation) db.receipts ≡ none
      → reconcile exec decode_row inner (submit exec decode_row inner db env p).1 env' p
        ≡ not_committed p.operation e
      → (submit exec decode_row inner db env p).1 ≡ db
  reconcile-not_committed db env env' p e fresh h = (reconcile_after db env env' p fresh).1 e h
