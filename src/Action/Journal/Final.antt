-- ===== src/Action/Journal/Final.antt =====
-- Terminal states and admitted rows (src/action_journal/lifecycle.rs) along the journal's histories.
use verdant.Base.{
  ◌≡◌, sym, ap, subst, ◌∙◌, inl, inr, true, false, Option, some, List, [], ◌∷◌, String, arith,
  eq_iff, ◌==◌, string_partial_eq, if◌then◌else◌, find, any, find_sound, any_of_find, ok,
  Option-cases, Bool-cases,
}
use verdant.Base.Int.{ℤ}
use verdant.Action.Journal.{LifecycleState, terminal, is_terminal, Admitted}
use verdant.Action.Journal.Tables.{
  JournalRow, LifecycleRow, Tables, tracks, journals, upsert_lifecycle, admission_body,
  transition_body,
}
use verdant.Action.Journal.Rows.{state_of, is_row, decode_row, read_row}
use verdant.Action.Journal.Writer.{Journal, row_of}
use verdant.Action.Journal.Steps.{Call, submits, moves, run, Each, run-kept, run-invariant}

-- The durable state of an operation, admitted where no lifecycle row exists.
abbrev pub state_at : List LifecycleRow → String → LifecycleState
state_at ls operation = state_of (find (tracks operation) ls)

pub state_at-upsert :
    (o o' attempt : String) (s : LifecycleState) (ls : List LifecycleRow)
    → state_at (upsert_lifecycle o attempt s ls) o' ≡ (if o == o' then s else state_at ls o')
unfolding upsert_lifecycle
state_at-upsert o o' attempt s [] = ground arith
state_at-upsert o o' attempt s (l ∷ ls) = ground (
  arith,
  eq_iff o o',
  eq_iff l.operation o,
  eq_iff l.operation o',
  state_at-upsert o o' attempt s ls,
)

tracked_of_terminal :
    (o : String) (ls : List LifecycleRow) → state_at ls o ≡ terminal → any (tracks o) ls ≡ true
tracked_of_terminal o ls h = elim (Option-cases (find (tracks o) ls)) [
  | inl e ↦ ground arith
  | inr (l, e) ↦ any_of_find (tracks o) ls l e
]

decode_row-lifecycle :
    (r : JournalRow) (l : Option LifecycleRow) (scope : String) (a : Admitted)
    → decode_row r l scope ≡ ok a
    → a.lifecycle ≡ state_of l
unfolding decode_row
decode_row-lifecycle r l scope a h = ground arith

-- A read reports the durable state of the operation it was asked for.
pub read_row-lifecycle :
    (t : Tables) (operation scope : String) (a : Admitted)
    → read_row t operation scope ≡ ok a
    → a.lifecycle ≡ state_at t.lifecycle operation
unfolding read_row
read_row-lifecycle t operation scope a h =
    elim (Option-cases (find (is_row operation scope) t.journal)) [
      | inl e ↦ absurd (ground arith)
      | inr (r, e) ↦
          let is = find_sound (is_row operation scope) t.journal r e in
          let named : r.operation ≡ operation = ground (arith, eq_iff r.operation operation) in
          decode_row-lifecycle r (find (tracks r.operation) t.lifecycle) scope a (ground arith)
          ∙ ap (state_at t.lifecycle) named
    ]

abbrev pub IsTerminalAt : String → Tables → Type 0
IsTerminalAt operation t = state_at t.lifecycle operation ≡ terminal

admission_body-terminal :
    (t t' : Tables) (checked : ℤ) (row : JournalRow) (predecessor : Option String)
    (operation : String)
    → IsTerminalAt operation t
    → admission_body t checked row predecessor ≡ ok t'
    → IsTerminalAt operation t'
unfolding admission_body
admission_body-terminal t t' checked row predecessor operation h b = ground (
  arith,
  eq_iff row.operation operation,
  ap (λ o. any (tracks o) t.lifecycle) {x = row.operation} {y = operation},
  tracked_of_terminal operation t.lifecycle h,
)

transition_body-terminal :
    (t t' : Tables) (o operation : String) (state : LifecycleState)
    → (o == operation) ≡ false
    → IsTerminalAt operation t
    → transition_body t o state ≡ ok t'
    → IsTerminalAt operation t'
unfolding transition_body
transition_body-terminal t t' o operation state ne h b =
    elim (Option-cases (find (journals o) t.journal)) [
      | inl e ↦ absurd (ground arith)
      | inr (r, e) ↦ ground (arith, state_at-upsert o operation r.attempt state t.lifecycle)
    ]

-- A transition of `operation` that has read it as terminal.
abbrev pub ReadsTerminal : String → Call → Type 0
ReadsTerminal operation (submits p now r f) = Unit {0}
ReadsTerminal operation (moves seen o scope state f) =
    o ≡ operation → state_at seen.lifecycle operation ≡ terminal

-- A transition that goes through on such a read is of another operation.
reads_other :
    (seen : Tables) (o operation scope : String) (a : Admitted)
    → (o ≡ operation → state_at seen.lifecycle operation ≡ terminal)
    → read_row seen o scope ≡ ok a
    → is_terminal a.lifecycle ≡ false
    → (o == operation) ≡ false
unfolding is_terminal
reads_other seen o operation scope a q read live = elim (Bool-cases (o == operation)) [
  | inr differ ↦ differ
  | inl same ↦
      let is : o ≡ operation = ground (arith, eq_iff o operation) in
      let ended = read_row-lifecycle seen o scope a read ∙ ap (state_at seen.lifecycle) is ∙ q is in
      absurd (cc (rw ended at live))
]

-- A terminal operation stays terminal along every history of submits and transitions, whatever the store
-- answers, in which each transition of it, by any handle, has read it as terminal. A transition that
-- read it before can still overwrite the state.
pub terminal_final :
    (operation : String) (j : Journal) (cs : List Call)
    → Each (ReadsTerminal operation) cs
    → state_at j.tables.lifecycle operation ≡ terminal
    → state_at (run j cs).tables.lifecycle operation ≡ terminal
unfolding is_terminal
terminal_final operation =
    run-kept (ReadsTerminal operation) (IsTerminalAt operation)
      (λ t t' p now r f q h b.
        admission_body-terminal t t' now.checked (row_of p now.inserted) p.predecessor operation h
          b)
      λ seen t t' o scope state f a q h read live b.
        transition_body-terminal t t' o operation state
          (reads_other seen o operation scope a q read live) h b

abbrev pub HasRow : String → String → JournalRow → Tables → Type 0
HasRow operation scope r t = find (is_row operation scope) t.journal ≡ some r

taken_of_row :
    (operation scope : String) (rows : List JournalRow) (r : JournalRow)
    → find (is_row operation scope) rows ≡ some r
    → any (journals operation) rows ≡ true
taken_of_row operation scope [] r h = cc
taken_of_row operation scope (x ∷ rows) r h = ground (arith, taken_of_row operation scope rows r)

admission_body-HasRow :
    (t t' : Tables) (checked : ℤ) (row : JournalRow) (predecessor : Option String)
    (operation scope : String) (r : JournalRow)
    → HasRow operation scope r t
    → admission_body t checked row predecessor ≡ ok t'
    → HasRow operation scope r t'
unfolding admission_body
admission_body-HasRow t t' checked row predecessor operation scope r h b = ground (
  arith,
  eq_iff row.operation operation,
  ap (λ o. any (journals o) t.journal) {x = row.operation} {y = operation},
  taken_of_row operation scope t.journal r h,
)

pub transition_body-journal :
    (t t' : Tables) (operation : String) (state : LifecycleState)
    → transition_body t operation state ≡ ok t'
    → t'.journal ≡ t.journal
unfolding transition_body
transition_body-journal t t' operation state h = ground arith

-- The row of an admission is found unchanged after every later history.
pub row_kept :
    (operation scope : String) (r : JournalRow) (j : Journal) (cs : List Call)
    → find (is_row operation scope) j.tables.journal ≡ some r
    → find (is_row operation scope) (run j cs).tables.journal ≡ some r
row_kept operation scope r =
    run-invariant (HasRow operation scope r)
      (λ t t' p now h b.
        admission_body-HasRow t t' now.checked (row_of p now.inserted) p.predecessor operation scope
          r h b)
      λ t t' o state h b.
        subst (λ rows. find (is_row operation scope) rows ≡ some r)
          (sym (transition_body-journal t t' o state b)) h
