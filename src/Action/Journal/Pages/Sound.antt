-- ===== src/Action/Journal/Pages/Sound.antt =====
-- What the pages of the journal show (src/action_journal/mod.rs and lifecycle.rs).
use verdant.Base.{
  ℕ, ◌≤◌, ◌≡◌, refl, subst, ap, inl, inr, Bool, true, false, List, [], ◌∷◌, String, arith, eq_iff,
  string_partial_eq, if◌then◌else◌, length, All, keep, map, take, drop, max, min, zero, suc, find,
  Option, none, some, Option-cases, ok, Result-cases,
}
use verdant.Base.Int.{ℤ}
use verdant.Action.Journal.{
  ActionKind, set, release, Admitted, is_terminal, cleanup_horizon_secs, is_cleanup_due,
}
use verdant.Action.Journal.Tables.{JournalRow, LifecycleRow, Tables, tracks}
use verdant.Action.Journal.Rows.{read_row, decode_row, is_row}
use verdant.Action.Journal.Writer.{Journal, reconcile}
use verdant.Action.Journal.Final.{state_at, read_row-lifecycle}
use verdant.Action.Journal.Pages.{
  precedes, insert_sorted, order_by_operation, page, read_all, is_outstanding_row,
  outstanding_page_sql, bound_of, outstanding_page, is_kind_set, is_obligation, collect,
  cleanup_obligations_sql, cleanup_obligations_with_now,
}

All-if :
    {A : Type 0} (P : A → Type 0) (b : Bool) (xs ys : List A)
    → (b ≡ true → All P xs)
    → (b ≡ false → All P ys)
    → All P (if b then xs else ys)
All-if P true xs ys h k = h refl
All-if P false xs ys h k = k refl

All-take : {A : Type 0} (P : A → Type 0) (n : ℕ) (xs : List A) → All P xs → All P (take n xs)
All-take P zero xs h = tt
All-take P (suc n) [] h = tt
All-take P (suc n) (x ∷ xs) h = (h.0, All-take P n xs h.1)

All-drop : {A : Type 0} (P : A → Type 0) (n : ℕ) (xs : List A) → All P xs → All P (drop n xs)
All-drop P zero xs h = h
All-drop P (suc n) [] h = tt
All-drop P (suc n) (x ∷ xs) h = All-drop P n xs h.1

length-take_map : {A B : Type 0} (f : A → B) (n : ℕ) (xs : List A) → length (map f (take n xs)) ≤ n
length-take_map f zero xs = omega arith
length-take_map f (suc n) [] = omega arith
length-take_map f (suc n) (x ∷ xs) = omega (arith, length-take_map f n xs)

-- A page names rows that its WHERE clause takes, and at most `max limit 1` of them.
module _ (p : JournalRow → Bool) where
  abbrev Taken : JournalRow → Type 0
  Taken r = p r ≡ true

  abbrev Named : String → Type 0
  Named o = (r : JournalRow) × (r.operation ≡ o) × (p r ≡ true)

  keep-Taken : (rs : List JournalRow) → All Taken (keep p rs)
  keep-Taken [] = tt
  keep-Taken (r ∷ rs) =
      All-if Taken (p r) (r ∷ keep p rs) (keep p rs) (λ h. (h, keep-Taken rs)) (λ h. keep-Taken rs)

  insert-Taken :
      (r : JournalRow) (rs : List JournalRow)
      → Taken r
      → All Taken rs
      → All Taken (insert_sorted r rs)
  insert-Taken r [] h k = (h, tt)
  insert-Taken r (x ∷ xs) h k =
      All-if Taken (precedes r.operation x.operation) (r ∷ x ∷ xs) (x ∷ insert_sorted r xs)
        (λ e. (h, k)) (λ e. (k.0, insert-Taken r xs h k.1))

  order-Taken : (rs : List JournalRow) → All Taken rs → All Taken (order_by_operation rs)
  order-Taken [] h = tt
  order-Taken (r ∷ rs) h = insert-Taken r (order_by_operation rs) h.0 (order-Taken rs h.1)

  map-Named : (rs : List JournalRow) → All Taken rs → All Named (map (λ r. r.operation) rs)
  map-Named [] h = tt
  map-Named (r ∷ rs) h = ((r, refl, h.0), map-Named rs h.1)

  page-Named : (rows : List JournalRow) (limit offset : ℕ) → All Named (page p rows limit offset)
  page-Named rows limit offset = map-Named _ (
      All-take Taken (max limit 1) (drop offset (order_by_operation (keep p rows))) (
        All-drop Taken offset (order_by_operation (keep p rows))
          (order-Taken (keep p rows) (keep-Taken rows))))

  length-page :
      (rows : List JournalRow) (limit offset : ℕ) → length (page p rows limit offset) ≤ max limit 1
  length-page rows limit offset =
      length-take_map (λ r. r.operation) (max limit 1)
        (drop offset (order_by_operation (keep p rows)))

decode_row-scope :
    (r : JournalRow) (l : Option LifecycleRow) (scope : String) (a : Admitted)
    → decode_row r l scope ≡ ok a
    → a.scope ≡ scope
unfolding decode_row
decode_row-scope r l scope a h = ground arith

read_row-scope :
    (t : Tables) (operation scope : String) (a : Admitted)
    → read_row t operation scope ≡ ok a
    → a.scope ≡ scope
unfolding read_row
read_row-scope t operation scope a h =
    elim (Option-cases (find (is_row operation scope) t.journal)) [
      | inl e ↦ absurd (ground arith)
      | inr (r, e) ↦
          decode_row-scope r (find (tracks r.operation) t.lifecycle) scope a (ground arith)
    ]

-- What an outstanding page promises of a row.
abbrev pub IsOutstanding : String → Admitted → Type 0
IsOutstanding scope a = (a.scope ≡ scope) × (is_terminal a.lifecycle ≡ false)

row_live :
    (t : Tables) (o scope : String) (a : Admitted)
    → Named (is_outstanding_row t scope) o
    → read_row t o scope ≡ ok a
    → is_terminal a.lifecycle ≡ false
row_live t o scope a (r, named, taken) h =
    ground (arith, read_row-lifecycle t o scope a h, ap (state_at t.lifecycle) named)

read_all-IsOutstanding :
    (t : Tables) (scope : String) (os : List String) (found : List Admitted)
    → All (Named (is_outstanding_row t scope)) os
    → read_all t scope os ≡ ok found
    → All (IsOutstanding scope) found × (length found ≤ length os)
read_all-IsOutstanding t scope [] found h e =
    let same : [] ≡ found = ground arith in
    subst (λ l. All (IsOutstanding scope) l × (length l ≤ 0)) same (tt, omega arith)
read_all-IsOutstanding t scope (o ∷ os) found h e = elim (Result-cases (read_row t o scope)) [
  | inr (x, r) ↦ absurd (ground arith)
  | inl (a, r) ↦ elim (Result-cases (read_all t scope os)) [
    | inr (x, k) ↦ absurd (ground arith)
    | inl (rest, k) ↦
        let same : (a ∷ rest) ≡ found = ground arith in
        let shown = read_all-IsOutstanding t scope os rest h.1 k in
        subst (λ l. All (IsOutstanding scope) l × (length l ≤ suc (length os))) same
          (
            ((read_row-scope t o scope a r, row_live t o scope a h.0 r), shown.0),
            omega (arith, shown.1),
          )
  ]
]

-- A page of outstanding rows that is read shows rows of the queried scope that are not terminal, and no
-- more of them than the limit, clamped to the store's horizon.
outstanding_page-All :
    (j : Journal) (scope : String) (limit offset : ℕ) (found : List Admitted)
    → outstanding_page j scope limit offset ≡ ok found
    → All (IsOutstanding scope) found × (length found ≤ max (min limit j.max_replay_rows) 1)
unfolding outstanding_page outstanding_page_sql
outstanding_page-All j scope limit offset found h =
    let shown =
      read_all-IsOutstanding j.tables scope
        (page (is_outstanding_row j.tables scope) j.tables.journal (bound_of j limit) offset) found
        (page-Named (is_outstanding_row j.tables scope) j.tables.journal (bound_of j limit) offset)
        h in
    (
      shown.0,
      omega (
        arith,
        shown.1,
        length-page (is_outstanding_row j.tables scope) j.tables.journal (bound_of j limit) offset,
      ),
    )

-- What a cleanup page promises of a row, at the second `now`.
abbrev pub IsObligation : String → ℤ → Admitted → Type 0
IsObligation scope now a =
    (a.scope ≡ scope)
    × (is_terminal a.lifecycle ≡ true)
    × (a.action_kind ≡ some set)
    × (is_cleanup_due a.created_secs now cleanup_horizon_secs ≡ true)

is_kind_set-set : (k : Option ActionKind) → is_kind_set k ≡ true → k ≡ some set
is_kind_set-set none h = absurd (cc)
is_kind_set-set (some set) h = refl
is_kind_set-set (some release) h = absurd (cc)

obligation :
    (now : ℤ) (scope : String) (a : Admitted)
    → is_obligation now a ≡ true
    → a.scope ≡ scope
    → IsObligation scope now a
obligation now scope a h k =
    (k, ground arith, is_kind_set-set a.action_kind (ground arith), ground arith)

collect-IsObligation :
    (j : Journal) (scope : String) (now : ℤ) (os : List String) (found : List Admitted)
    → collect j scope now os ≡ ok found
    → All (IsObligation scope now) found
unfolding collect
collect-IsObligation j scope now [] found e =
    let same : [] ≡ found = ground arith in subst (All (IsObligation scope now)) same tt
collect-IsObligation j scope now (o ∷ os) found e = elim (Result-cases (reconcile j o scope)) [
  | inr (x, r) ↦ absurd (ground arith)
  | inl (a, r) ↦ elim (Result-cases (collect j scope now os)) [
    | inr (x, k) ↦ absurd (ground arith)
    | inl (rest, k) ↦
        let same : (if is_obligation now a then a ∷ rest else rest) ≡ found = ground arith in
        let shown = collect-IsObligation j scope now os rest k in
        subst (All (IsObligation scope now)) same (
          All-if (IsObligation scope now) (is_obligation now a) (a ∷ rest) rest
            (λ due. (obligation now scope a due (ground (arith, eq_iff a.scope scope)), shown))
            (λ skipped. shown))
  ]
]

-- A cleanup page that is read shows terminal SETs of the queried scope that are due within the cleanup
-- horizon at `now`, and nothing else.
pub cleanup_obligations-All :
    (j : Journal) (scope : String) (limit offset : ℕ) (now : ℤ) (found : List Admitted)
    → cleanup_obligations_with_now j scope limit offset now ≡ ok found
    → All (IsObligation scope now) found
unfolding cleanup_obligations_with_now
cleanup_obligations-All j scope limit offset now found h =
    collect-IsObligation j scope now
      (cleanup_obligations_sql j.tables scope (bound_of j limit) offset now) found h
