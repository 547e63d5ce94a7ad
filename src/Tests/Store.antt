-- ===== src/Tests/Store.antt =====
-- Runs of the store: its application tables are a list of texts, and each body adds one.
use verdant.Base.{◌≡◌, refl, ◌⊎◌, true, false, none, some, List, [], ◌∷◌, String, find, Result, ok}
use verdant.Storage.Mutation.{
  StorageError, space_exhausted, sqlite_failure, Rows, change, insert, PreparedMutation,
  mark_attempted, Receipt, records, committed, not_committed, acknowledged, lost, Environment,
  Inner, Database, submit, reconcile, validate_rows, outcome, parses_positive,
}
use verdant.Storage.Mutation.Receipts.{IsReplay, run, run-IsReplay}
use verdant.Storage.Mutation.Outcomes.{submit_idempotent, submit-not_committed}
use verdant.Storage.Mutation.Reconcile.{reconcile-committed, reconcile-not_committed}

-- A concrete SQLite: a body is appended to the tables and answers one changed row.
abbrev exec : String → List String → Result StorageError (Rows × List String)
exec body tables = ok ((("1" ∷ []) ∷ []), body ∷ tables)

abbrev decode_any_row : List String → Result StorageError (Unit {0})
decode_any_row columns = ok tt

abbrev inner : Inner
inner = record { identity = "store-1"; max_value_bytes = 64; max_db_bytes = 4096 }

abbrev calm : Environment
calm = record {
  admission = none;
  lookup = none;
  maintenance_reason = none;
  db_size_bytes = 100;
  recording = none;
  commit = acknowledged;
}

-- The commit took effect, and its answer was lost.
abbrev answer_lost : Environment
answer_lost = record calm { commit = lost true (sqlite_failure "eof") }

abbrev full : Environment
full = record calm { recording = some (space_exhausted "disk") }

abbrev ticket : String → String → PreparedMutation
ticket operation body = record {
  operation = operation;
  store = "store-1";
  body = body;
  shape = change;
  payload_bytes = 0;
  attempted = false;
}

abbrev empty_store : Database (List String)
empty_store = record { tables = []; receipts = [] }

abbrev one_row : Rows
one_row = ("1" ∷ []) ∷ []

abbrev faults : List (Environment × PreparedMutation)
faults =
    (answer_lost, ticket "op-1" "UPDATE a")
    ∷ (full, ticket "op-2" "UPDATE b")
    ∷ (calm, ticket "op-1" "UPDATE a")
    ∷ (calm, ticket "op-3" "UPDATE c")
    ∷ []

run-IsReplay_example :
    IsReplay exec decode_any_row inner []
      (run exec decode_any_row inner empty_store faults).receipts
      (run exec decode_any_row inner empty_store faults).tables
run-IsReplay_example = run-IsReplay exec decode_any_row inner [] faults

submit_idempotent_example :
    submit exec decode_any_row inner
      (run exec decode_any_row inner
        (submit exec decode_any_row inner empty_store calm (ticket "op-1" "UPDATE a")).1
        faults)
      calm
      (mark_attempted (ticket "op-1" "UPDATE a"))
    ≡ (
      committed "op-1" one_row,
      run exec decode_any_row inner
          (submit exec decode_any_row inner empty_store calm (ticket "op-1" "UPDATE a")).1
          faults,
    )
unfolding submit verdant.Storage.Mutation.submit_staged verdant.Storage.Mutation.after_execute
submit_idempotent_example =
    submit_idempotent exec decode_any_row inner empty_store calm (ticket "op-1" "UPDATE a") one_row
      faults calm refl refl refl

submit-not_committed_example :
    ((submit exec decode_any_row inner empty_store full (ticket "op-2" "UPDATE b")).1 ≡ empty_store)
    × ((find (records "op-2") empty_store.receipts ≡ none)
        ⊎ ((ticket "op-2" "UPDATE b").attempted ≡ false))
unfolding submit verdant.Storage.Mutation.submit_staged verdant.Storage.Mutation.after_execute
submit-not_committed_example =
    submit-not_committed exec decode_any_row inner empty_store full (ticket "op-2" "UPDATE b")
      (space_exhausted "disk") refl

reconcile-committed_example :
    exec "UPDATE a" []
    ≡ ok (
      one_row,
      (submit exec decode_any_row inner empty_store answer_lost
          (ticket "op-1" "UPDATE a")).1.tables,
    )
unfolding submit reconcile verdant.Storage.Mutation.reconciled
    verdant.Storage.Mutation.submit_staged verdant.Storage.Mutation.after_execute
reconcile-committed_example =
    reconcile-committed exec decode_any_row inner empty_store answer_lost calm
      (ticket "op-1" "UPDATE a") one_row refl refl

reconcile-not_committed_example :
    (submit exec decode_any_row inner empty_store full (ticket "op-2" "UPDATE b")).1 ≡ empty_store
unfolding submit reconcile verdant.Storage.Mutation.reconciled
    verdant.Storage.Mutation.submit_staged verdant.Storage.Mutation.after_execute
reconcile-not_committed_example =
    reconcile-not_committed exec decode_any_row inner empty_store full calm
      (ticket "op-2" "UPDATE b") (sqlite_failure "no receipt at writer barrier") refl refl
