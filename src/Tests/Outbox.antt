-- ===== src/Tests/Outbox.antt =====
-- Runs of the outbox and of the texts of the store.
use verdant.Base.{ℕ, ◌≡◌, ◌≢◌, ◌↔◌, refl, some, none, List, [], ◌∷◌, ◌++◌, String, ok}
use mathlib.Core.List.{cons-ne-nil, Perm}
use mathlib.Core.List.Perm
use verdant.Base.Bytes.{Bytes}
use verdant.Base.Int.{pos}
use verdant.Domain.Ids.{codes}
use verdant.Storage.Encoding.{decode_response, encode_response, unquote_text, sql_quote}
use verdant.Storage.Encoding.RoundTrip.{decode_response_iff, unquote_text-sql_quote}
use verdant.Storage.Outbox.{
  Outbox, OutboxRow, queued, StoreBounds, Sizes, answered, lost, sqlite_failure,
}
use verdant.Storage.Outbox.Claims.{waiting, ids}
use verdant.Storage.Outbox.Queue
use verdant.Storage.Outbox.Queue.{
  Call, inserts, claims, acknowledges, recalculates, all_taken, all_added, run-fifo, Rearranges,
  joined_batches,
}
use verdant.Storage.Outbox.Lifecycle.{Event, calls, requeues, IsAdvance, run, run-IsAdvance}

abbrev store_bounds : StoreBounds
store_bounds = record {
  max_value_bytes = 100;
  max_replay_rows = 64;
  max_wal_bytes = 1000;
  max_db_bytes = 1000;
}

abbrev sizes : Sizes
sizes = record { wal_size_bytes = 0; capacity_bytes = 10 }

abbrev operation : String
operation = "op-1"

abbrev entity : String
entity = "ahu-1"

abbrev token : String
token = "worker-1"

-- The order in which the second row comes first.
abbrev swapped : List OutboxRow → List OutboxRow
swapped (a ∷ b ∷ rows) = b ∷ a ∷ rows
swapped (a ∷ []) = a ∷ []
swapped [] = []

swapped-Perm : (rows : List OutboxRow) → Perm (swapped rows) rows
swapped-Perm (a ∷ b ∷ rows) = Perm.swap a b rows
swapped-Perm (a ∷ []) = Perm.refl (a ∷ [])
swapped-Perm [] = Perm.refl []

abbrev insertion : Call
insertion =
    inserts store_bounds sizes answered operation entity entity "7" "degC"
      (record { source = pos 1; receipt = pos 2; ingestion = pos 3 })
      (record { generation = operation; seq = 0 })

abbrev calls_made : List Call
calls_made =
    insertion
    ∷ insertion
    ∷ claims swapped store_bounds (lost (sqlite_failure token)) 2 token
    ∷ acknowledges answered 1 token
    ∷ recalculates answered entity 1
    ∷ []

abbrev no_rows : Outbox
no_rows = record { rows = []; last_id = 0; marks = [] }

abbrev filled : Outbox
filled = record {
  rows =
      record {
        id = 1;
        operation = operation;
        entity = entity;
        sensor = entity;
        value_json = "7";
        unit = "degC";
        times = record { source = pos 1; receipt = pos 2; ingestion = pos 3 };
        record_identity = record { generation = operation; seq = 0 };
        status = queued;
        claimed_by = none;
      }
      ∷ [];
  last_id = 1;
  marks = [];
}

run-fifo_example :
    (batches : List (List ℕ)) × Rearranges (all_taken no_rows calls_made) batches
    × (joined_batches batches ++ ids (waiting (Queue.run no_rows calls_made).rows)
        ≡ ids (waiting no_rows.rows) ++ all_added no_rows calls_made)
run-fifo_example = run-fifo no_rows calls_made (swapped-Perm, tt)

abbrev events : List Event
events =
    calls insertion
    ∷ calls (claims swapped store_bounds answered 1 token)
    ∷ requeues answered 1 token
    ∷ []

run-IsAdvance_example : IsAdvance filled.rows (run filled events).rows
run-IsAdvance_example = run-IsAdvance filled events

abbrev cells : List (List Bytes)
cells = (codes "a;b" ∷ [] ∷ []) ∷ (codes "7" ∷ []) ∷ []

decode_response_iff_example :
    (decode_response (encode_response cells) ≡ ok cells) ↔ (cells ≢ ([] ∷ []) ∷ [])
unfolding verdant.Base.Bytes.is_utf8
decode_response_iff_example =
    decode_response_iff cells
      (((cons-ne-nil _ _), (refl, (refl, tt))), (((cons-ne-nil _ _), (refl, tt)), tt))

unquote_text-sql_quote_example : unquote_text (sql_quote (codes "it's")) ≡ ok (some (codes "it's"))
unquote_text-sql_quote_example = unquote_text-sql_quote (codes "it's")
