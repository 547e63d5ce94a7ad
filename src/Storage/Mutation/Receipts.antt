-- ===== src/Storage/Mutation/Receipts.antt =====
-- Histories of submits (src/storage/sqlite/mutation.rs), under any faults: what the receipts say of
-- the tables.
use verdant.Base.{
  true, ◌≡◌, refl, sym, ap, ◌∙◌, subst, ◌⊎◌, inl, inr, Bool, false, Option, none, some, List, [],
  ◌∷◌, String, arith, eq_iff, find, any, Result, ok, err, string_partial_eq,
}
use verdant.Storage.Mutation.{
  StorageError, Rows, PreparedMutation, Receipt, records, CommitAnswer, acknowledged, lost,
  Environment, Inner, Database, execute, committed_or_lost, after_execute, submit_staged, receipt,
  submit,
}

nothing_found : {A : Type 0} (p : A → Bool) (l : List A) → find p l ≡ none → any p l ≡ false
nothing_found p [] h = refl
nothing_found p (x ∷ xs) h = ground (arith, nothing_found p xs)

find_other :
    (new : Receipt) (rs : List Receipt) (taken operation : String) (r : Receipt)
    → new.operation ≡ taken
    → find (records taken) rs ≡ none
    → find (records operation) rs ≡ some r
    → find (records operation) (new ∷ rs) ≡ some r
find_other new rs taken operation r named absent h = ground (
  arith,
  eq_iff taken operation,
  eq_iff new.operation operation,
  ap (λ o. find (records o) rs) {x = taken} {y = operation},
)

module _ {D : Type 0} (exec : String → D → Result StorageError (Rows × D))
    (decode_row : List String → Result StorageError (Unit {0})) (inner : Inner) where
  -- The tables `d` are what the requests of the receipts make of `start`, each run once, in the order
  -- of the receipts and with the response recorded, under operations all different.
  abbrev pub IsReplay : D → List Receipt → D → Type 0
  IsReplay start [] d = d ≡ start
  IsReplay start (r ∷ rs) d' =
      (d : D) × IsReplay start rs d
      × (any (records r.operation) rs ≡ false)
      × (exec r.request.body d ≡ ok (r.response, d'))

  -- What one execution adds: the tables that the body makes and the ticket's receipt.
  pub execute_lem :
      (db : Database D) (env : Environment) (p : PreparedMutation) (staged : Rows × Database D)
      → execute exec decode_row inner db env p ≡ ok staged
      → (exec p.body db.tables ≡ ok (staged.0, staged.1.tables))
        × (staged.1.receipts
            ≡ record {
              operation = p.operation;
              request = record { shape = p.shape; store = p.store; body = p.body };
              response = staged.0;
            }
              ∷ db.receipts)
  unfolding execute
  execute_lem db env p staged h = ground arith

  answered-database :
      (a : CommitAnswer) (db : Database D) (staged : Rows × Database D) (p : PreparedMutation)
      → ((committed_or_lost exec decode_row a db staged p).1 ≡ db)
        ⊎ ((committed_or_lost exec decode_row a db staged p).1 ≡ staged.1)
  unfolding committed_or_lost
  answered-database acknowledged db staged p = inr refl
  answered-database (lost true e) db staged p = inr refl
  answered-database (lost false e) db staged p = inl refl

  executed-database :
      (db : Database D) (env : Environment) (p : PreparedMutation)
      (res : Result StorageError (Rows × Database D))
      → ((after_execute exec decode_row env p db res).1 ≡ db)
        ⊎ ((body_rows : Rows) × (res
              ≡ ok (body_rows, (after_execute exec decode_row env p db res).1)))
  unfolding after_execute
  executed-database db env p (err e) = inl refl
  executed-database db env p (ok staged) = elim (answered-database env.commit db staged p) [
    | inl same ↦ inl same
    | inr applied ↦ inr (staged.0, ap (λ d. ok (staged.0, d)) (sym applied))
  ]

  staged-database :
      (db : Database D) (env : Environment) (p : PreparedMutation)
      (o : Result StorageError (Option Receipt))
      → ((submit_staged exec decode_row inner db env p o).1 ≡ db)
        ⊎ ((body_rows : Rows) × (o ≡ ok none)
            × (execute exec decode_row inner db env p
                ≡ ok (body_rows, (submit_staged exec decode_row inner db env p o).1)))
  unfolding submit_staged after_execute
  staged-database db env p (err e) = inl refl
  staged-database db env p (ok (some r)) = ground arith
  staged-database db env p (ok none) =
      elim (executed-database db env p (execute exec decode_row inner db env p)) [
        | inl same ↦ inl same
        | inr (body_rows, e) ↦ inr (body_rows, refl, e)
      ]

  -- A submit leaves the database alone or commits the execution of its own ticket, which had no receipt.
  pub submit-database :
      (db : Database D) (env : Environment) (p : PreparedMutation)
      → ((submit exec decode_row inner db env p).1 ≡ db)
        ⊎ ((body_rows : Rows) × (find (records p.operation) db.receipts ≡ none)
            × (execute exec decode_row inner db env p
                ≡ ok (body_rows, (submit exec decode_row inner db env p).1)))
  unfolding submit receipt
  submit-database db env p =
      ground (arith, staged-database db env p (receipt exec decode_row db env p.operation))

  unfoldable pub run : Database D → List (Environment × PreparedMutation) → Database D
  run db [] = db
  run db ((env, p) ∷ calls) = run (submit exec decode_row inner db env p).1 calls

  submit-IsReplay :
      (start : D) (db : Database D) (env : Environment) (p : PreparedMutation)
      → IsReplay start db.receipts db.tables
      → IsReplay start
          (submit exec decode_row inner db env p).1.receipts
          (submit exec decode_row inner db env p).1.tables
  submit-IsReplay start db env p h = elim (submit-database db env p) [
    | inl same ↦ subst (λ d. IsReplay start d.receipts d.tables) (sym same) h
    | inr (body_rows, absent, done) ↦
        let made = execute_lem db env p (body_rows, _) done in
        subst (λ rs. IsReplay start rs (submit exec decode_row inner db env p).1.tables)
          (sym made.1)
          (db.tables, h, nothing_found (records p.operation) db.receipts absent, made.0)
  ]

  run_from :
      (start : D) (db : Database D) (cs : List (Environment × PreparedMutation))
      → IsReplay start db.receipts db.tables
      → IsReplay start (run db cs).receipts (run db cs).tables
  unfolding run
  run_from start db [] h = h
  run_from start db ((env, p) ∷ cs) h =
      run_from start (submit exec decode_row inner db env p).1 cs (submit-IsReplay start db env p h)

  -- After any history of submits, with any failed admissions, rolled back batches and lost answers,
  -- from a store with no receipts: the tables are exactly what the receipts' requests make of the
  -- first tables, each run once and in order, with the recorded responses, and no two receipts are of one
  -- operation.
  pub run-IsReplay :
      (start : D) (calls : List (Environment × PreparedMutation))
      → IsReplay start
          (run (record { tables = start; receipts = [] }) calls).receipts
          (run (record { tables = start; receipts = [] }) calls).tables
  run-IsReplay start calls = run_from start (record { tables = start; receipts = [] }) calls refl

  -- A receipt that is there stays there.
  pub submit-receipt_kept :
      (db : Database D) (env : Environment) (p : PreparedMutation) (operation : String)
      (r : Receipt)
      → find (records operation) db.receipts ≡ some r
      → find (records operation) (submit exec decode_row inner db env p).1.receipts ≡ some r
  submit-receipt_kept db env p operation r h = elim (submit-database db env p) [
    | inl same ↦ ap (λ d. find (records operation) d.receipts) same ∙ h
    | inr (body_rows, absent, done) ↦
        let made = execute_lem db env p (body_rows, _) done in
        ap (find (records operation)) made.1
        ∙ find_other _ db.receipts p.operation operation r refl absent h
  ]

  pub run-receipt_kept :
      (db : Database D) (calls : List (Environment × PreparedMutation)) (operation : String)
      (r : Receipt)
      → find (records operation) db.receipts ≡ some r
      → find (records operation) (run db calls).receipts ≡ some r
  unfolding run
  run-receipt_kept db [] operation r h = h
  run-receipt_kept db ((env, p) ∷ cs) operation r h =
      run-receipt_kept (submit exec decode_row inner db env p).1 cs operation r
        (submit-receipt_kept db env p operation r h)
