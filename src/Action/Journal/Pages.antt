-- ===== src/Action/Journal/Pages.antt =====
-- The bounded pages of src/action_journal: `outstanding_page` of mod.rs with its SQL of lifecycle.rs, and
-- `cleanup_obligations_with_now`. SQLite's ORDER BY on the operation is an insertion sort by the
-- order of texts.
use Prim.Native.String.{compare}
use Prim.Native.Nat.{Ordering}
use verdant.Base.{
  ℕ, Bool, true, false, not, ◌&&◌, ◌||◌, Option, none, some, List, [], ◌∷◌, String, max, min, ◌==◌,
  string_partial_eq, if◌then◌else◌, find, keep, map, take, drop, Result, ok, err, ◌>>=◌, ◌>>◌,
  ensure, i64_max,
}
use verdant.Base.Int.{ℤ, pos, negsuc, ltb_ℤ, checked_sub_i64}
use verdant.Action.Journal.{
  WriterError, scope_denied, is_terminal, ActionKind, set, kind_eq, Admitted, cleanup_horizon_secs,
  is_cleanup_due,
}
use verdant.Action.Journal.Tables.{JournalRow, LifecycleRow, Tables, tracks, is_set}
use verdant.Action.Journal.Rows.{state_of, read_row}
use verdant.Action.Journal.Writer.{Journal, reconcile}
pub mod Sound

abbrev pub precedes : String → String → Bool
precedes a b = elim (compare a b) [ Ordering.gt ↦ false | _ ↦ true ]

abbrev pub insert_sorted : JournalRow → List JournalRow → List JournalRow
insert_sorted r [] = r ∷ []
insert_sorted r (x ∷ xs) =
    let rest = insert_sorted r xs in
    if precedes r.operation x.operation then r ∷ x ∷ xs else x ∷ rest

abbrev pub order_by_operation : List JournalRow → List JournalRow
order_by_operation [] = []
order_by_operation (r ∷ rs) = insert_sorted r (order_by_operation rs)

-- `WHERE j.scope=… AND COALESCE(l.state, 'admitted') != 'terminal'`
abbrev pub is_outstanding_row : Tables → String → JournalRow → Bool
is_outstanding_row t scope r =
    r.scope == scope && not (is_terminal (state_of (find (tracks r.operation) t.lifecycle)))

abbrev pub page : (JournalRow → Bool) → List JournalRow → ℕ → ℕ → List String
page p rows limit offset =
    map (λ r. r.operation) (take (max limit 1) (drop offset (order_by_operation (keep p rows))))

unfoldable pub outstanding_page_sql : Tables → String → ℕ → ℕ → List String
outstanding_page_sql t scope limit offset = page (is_outstanding_row t scope) t.journal limit offset

abbrev pub read_all : Tables → String → List String → Result WriterError (List Admitted)
read_all t scope [] = ok []
read_all t scope (o ∷ os) = do a ← read_row t o scope; rest ← read_all t scope os; ok (a ∷ rest)

abbrev pub bound_of : Journal → ℕ → ℕ
bound_of j limit = max (min limit j.max_replay_rows) 1

unfoldable pub outstanding_page : Journal → String → ℕ → ℕ → Result WriterError (List Admitted)
unfolding outstanding_page_sql
outstanding_page j scope limit offset =
    read_all j.tables scope (outstanding_page_sql j.tables scope (bound_of j limit) offset)

abbrev cutoff_of : Option ℤ → ℤ
cutoff_of none = negsuc i64_max
cutoff_of (some z) = z

abbrev pub has_terminal_row : Option LifecycleRow → Bool
has_terminal_row none = false
has_terminal_row (some l) = is_terminal l.state

-- The WHERE clause of `cleanup_obligations_sql`; the join wants a lifecycle row.
abbrev pub is_obligation_row : Tables → String → ℤ → JournalRow → Bool
is_obligation_row t scope now r =
    r.scope == scope
    && has_terminal_row (find (tracks r.operation) t.lifecycle)
    && is_set r.action_kind
    && not (ltb_ℤ now r.created)
    && ltb_ℤ (cutoff_of (checked_sub_i64 now (pos cleanup_horizon_secs))) r.created

unfoldable pub cleanup_obligations_sql : Tables → String → ℕ → ℕ → ℤ → List String
cleanup_obligations_sql t scope limit offset now =
    page (is_obligation_row t scope now) t.journal limit offset

abbrev pub is_kind_set : Option ActionKind → Bool
is_kind_set none = false
is_kind_set (some k) = kind_eq k set

-- The checks in Rust that follow the SQL; a row that fails the first three is skipped.
abbrev pub is_obligation : ℤ → Admitted → Bool
is_obligation now a =
    is_terminal a.lifecycle
    && is_kind_set a.action_kind
    && is_cleanup_due a.created_secs now cleanup_horizon_secs

unfoldable pub collect : Journal → String → ℤ → List String → Result WriterError (List Admitted)
unfolding reconcile
collect j scope now [] = ok []
collect j scope now (o ∷ os) = do
  a ← reconcile j o scope
  ensure (not (is_obligation now a) || a.scope == scope) (scope_denied scope a.scope)
  rest ← collect j scope now os
  ok (if is_obligation now a then a ∷ rest else rest)

unfoldable pub cleanup_obligations_with_now :
    Journal → String → ℕ → ℕ → ℤ → Result WriterError (List Admitted)
unfolding cleanup_obligations_sql collect
cleanup_obligations_with_now j scope limit offset now =
    collect j scope now (cleanup_obligations_sql j.tables scope (bound_of j limit) offset now)
