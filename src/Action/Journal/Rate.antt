-- ===== src/Action/Journal/Rate.antt =====
-- The owned rate of SETs of one target (src/action_journal/rate.rs) along the journal's histories.
use verdant.Base.{
  ℕ, ◌≤◌, ◌<◌, ◌≡◌, refl, sym, ap, subst, ◌⊎◌, inl, inr, Bool, true, false, not, ◌&&◌, Option, some,
  List, [], ◌∷◌, String, arith, eq_iff, ◌==◌, string_partial_eq, length, keep, ok,
}
use verdant.Base.Int.{ℤ, pos, ◌-ℤ◌, ◌+ℤ◌, ltb_ℤ}
use verdant.Action.Journal.{ActionKind, set, release, owned_rate_max_per_hour, rate_window_secs}
use verdant.Action.Journal.Tables.{
  JournalRow, Tables, counts_as_set, in_rate_window, is_rate_row, rate_used, admission_body,
}
use verdant.Action.Journal.Writer.{Journal, PendingAdmission, row_of}
use verdant.Action.Journal.Steps.{Call, submits, moves, run, Each, run-kept}
use verdant.Action.Journal.Final.{transition_body-journal}

-- `first <= created <= first + 3600`.
abbrev pub in_hour_from : ℤ → ℤ → Bool
in_hour_from first created =
    not (ltb_ℤ created first) && not (ltb_ℤ (first +ℤ pos rate_window_secs) created)

abbrev pub is_hour_row : String → String → ℤ → JournalRow → Bool
is_hour_row scope equipment first r =
    r.scope == scope
    && r.equipment == equipment
    && in_hour_from first r.created
    && counts_as_set r.action_kind

-- The SETs of one target admitted in the hour from `first`.
abbrev pub sets_in_hour : List JournalRow → String → String → ℤ → ℕ
sets_in_hour rows scope equipment first = length (keep (is_hour_row scope equipment first) rows)

-- Every SET of the journal, newest first, was admitted under the limit.
abbrev pub IsRated : List JournalRow → Type 0
IsRated [] = Unit {0}
IsRated (r ∷ rs) =
    ((counts_as_set r.action_kind ≡ false)
      ⊎ (rate_used rs r.scope r.equipment r.created < owned_rate_max_per_hour))
    × IsRated rs

hour_of_window :
    (first now created : ℤ)
    → in_hour_from first now ≡ true
    → in_hour_from first created ≡ true
    → in_rate_window created now ≡ true
unfolding in_rate_window ◌-ℤ◌ ◌+ℤ◌
hour_of_window first now created h k = ground arith

sets_in_hour-le :
    (scope equipment : String) (first now : ℤ) (rows : List JournalRow)
    → in_hour_from first now ≡ true
    → sets_in_hour rows scope equipment first ≤ rate_used rows scope equipment now
unfolding rate_used is_rate_row
sets_in_hour-le scope equipment first now [] h = omega arith
sets_in_hour-le scope equipment first now (r ∷ rows) h =
    ground (
      arith,
      hour_of_window first now r.created h,
      sets_in_hour-le scope equipment first now rows h,
    )

newest_in_hour :
    (scope equipment : String) (first : ℤ) (r : JournalRow) (rows : List JournalRow)
    → r.scope ≡ scope
    → r.equipment ≡ equipment
    → in_hour_from first r.created ≡ true
    → rate_used rows r.scope r.equipment r.created < owned_rate_max_per_hour
    → sets_in_hour rows scope equipment first < owned_rate_max_per_hour
newest_in_hour scope equipment first r rows p q h k = omega (
  arith,
  sets_in_hour-le scope equipment first r.created rows h,
  ap (λ s. rate_used rows s r.equipment r.created) p,
  ap (λ e. rate_used rows scope e r.created) q,
)

-- Six at most, in every hour, for a journal whose SETs were each admitted under the limit.
sets_in_hour_bound :
    (scope equipment : String) (first : ℤ) (rows : List JournalRow)
    → IsRated rows
    → sets_in_hour rows scope equipment first ≤ owned_rate_max_per_hour
sets_in_hour_bound scope equipment first [] v = omega arith
sets_in_hour_bound scope equipment first (r ∷ rows) v = ground (
  arith,
  eq_iff r.scope scope,
  eq_iff r.equipment equipment,
  newest_in_hour scope equipment first r rows,
  sets_in_hour_bound scope equipment first rows v.1,
)

row_of-kind : (p : PendingAdmission) (now : ℤ) → (row_of p now).action_kind ≡ some p.kind
unfolding row_of
row_of-kind p now = refl

-- A later clock counts no more rows.
rate_used-later :
    (scope equipment : String) (earlier later : ℤ) (rows : List JournalRow)
    → ltb_ℤ later earlier ≡ false
    → rate_used rows scope equipment later ≤ rate_used rows scope equipment earlier
unfolding rate_used is_rate_row in_rate_window ◌-ℤ◌
rate_used-later scope equipment earlier later [] h = omega arith
rate_used-later scope equipment earlier later (r ∷ rows) h =
    ground (arith, h, rate_used-later scope equipment earlier later rows h)

admission_body-IsRated :
    (t t' : Tables) (checked : ℤ) (row : JournalRow) (predecessor : Option String)
    (kind : ActionKind)
    → ltb_ℤ row.created checked ≡ false
    → row.action_kind ≡ some kind
    → IsRated t.journal
    → admission_body t checked row predecessor ≡ ok t'
    → IsRated t'.journal
unfolding admission_body
admission_body-IsRated t t' checked row predecessor kind steady k v h =
    let rows : t'.journal ≡ row ∷ t.journal = ground arith in
    subst IsRated (sym rows) (under_limit kind k, v)
  where
    under_limit :
        (kd : ActionKind)
        → row.action_kind ≡ some kd
        → (counts_as_set row.action_kind ≡ false)
          ⊎ (rate_used t.journal row.scope row.equipment row.created < owned_rate_max_per_hour)
    under_limit set e = inr (
        ground
          (arith, rate_used-later row.scope row.equipment checked row.created t.journal steady))
    under_limit release e = inl (ground arith)

-- The clock does not step back between the guard and the insert of one submit.
abbrev pub IsSteady : Call → Type 0
IsSteady (submits p now r f) = ltb_ℤ now.inserted now.checked ≡ false
IsSteady (moves seen o scope state f) = Unit {0}

-- From a journal in which each SET was admitted under the rate, however submits and transitions follow one
-- another, whatever the store answers and whichever way the database clock jumps from one submit to the
-- next, no span of an hour holds more than six SETs of one target, provided that the clock does not
-- step back inside a submit, from the guard's reading to the insert's.
pub rate_bounded :
    (j : Journal) (cs : List Call) (scope equipment : String) (first : ℤ)
    → Each IsSteady cs
    → IsRated j.tables.journal
    → sets_in_hour (run j cs).tables.journal scope equipment first ≤ owned_rate_max_per_hour
unfolding row_of
rate_bounded j cs scope equipment first steady v =
    sets_in_hour_bound scope equipment first (run j cs).tables.journal (
      run-kept IsSteady (λ t. IsRated t.journal)
        (λ t t' p now r f q h b.
          admission_body-IsRated t t' now.checked (row_of p now.inserted) p.predecessor p.kind q
            (row_of-kind p now.inserted) h b)
        (λ seen t t' o s state f a q h read live b.
          subst IsRated (sym (transition_body-journal t t' o state b)) h)
        j cs steady v)
