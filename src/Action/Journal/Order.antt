-- ===== src/Action/Journal/Order.antt =====
-- The order of generations of one target (src/action_journal/identity.rs) along the journal's histories.
use verdant.Base.{
  ℕ, ◌≤◌, ◌<◌, ◌≡◌, sym, subst, ◌⊎◌, false, ◌&&◌, Option, List, [], ◌∷◌, String, arith, eq_iff,
  ◌==◌, string_partial_eq, if◌then◌else◌, All, All-mono, ok,
}
use verdant.Base.Int.{ℤ}
use verdant.Action.Journal.{LifecycleState}
use verdant.Action.Journal.Tables.{
  JournalRow, TargetRow, Tables, current_generation, upsert_target, admission_body, transition_body,
}
use verdant.Action.Journal.Writer.{Journal, row_of}
use verdant.Action.Journal.Steps.{Call, run, run-invariant}

pub current_generation-upsert :
    (s s' e e' : String) (g : ℕ) (ts : List TargetRow)
    → current_generation (upsert_target s e g ts) s' e'
      ≡ (if s == s' && e == e' then g else current_generation ts s' e')
unfolding current_generation upsert_target
current_generation-upsert s s' e e' g [] = ground arith
current_generation-upsert s s' e e' g (t ∷ ts) = ground (
  arith,
  eq_iff s s',
  eq_iff e e',
  eq_iff t.scope s,
  eq_iff t.equipment e,
  eq_iff t.scope s',
  eq_iff t.equipment e',
  current_generation-upsert s s' e e' g ts,
)

-- `q` was admitted before `r`: another target, or a smaller generation.
abbrev pub Earlier : JournalRow → JournalRow → Type 0
Earlier r q =
    ((q.scope == r.scope && q.equipment == r.equipment) ≡ false)
    ⊎ (q.target_generation < r.target_generation)

-- Newest first, the generations of one target fall.
abbrev pub IsOrdered : List JournalRow → Type 0
IsOrdered [] = Unit {0}
IsOrdered (r ∷ rs) = All (Earlier r) rs × IsOrdered rs

abbrev pub Under : List TargetRow → JournalRow → Type 0
Under targets r = r.target_generation ≤ current_generation targets r.scope r.equipment

-- Generations fall from the newest row on, and none is over its target's watermark.
pub record IsSound (t : Tables) : Type 0 where
  pub ordered : IsOrdered t.journal
  pub under : All (Under t.targets) t.journal

-- What a committed admission batch did.
pub record Admits (t : Tables) (row : JournalRow) (t' : Tables) : Type 0 where
  pub current : current_generation t.targets row.scope row.equipment ≡ row.expected_generation
  pub rises : row.expected_generation < row.target_generation
  pub journal : t'.journal ≡ row ∷ t.journal
  pub targets : t'.targets ≡ upsert_target row.scope row.equipment row.target_generation t.targets

pub admission_body-Admits :
    (t t' : Tables) (checked : ℤ) (row : JournalRow) (predecessor : Option String)
    → admission_body t checked row predecessor ≡ ok t'
    → Admits t row t'
unfolding admission_body
admission_body-Admits t t' checked row predecessor h = record {
  current = ground arith;
  rises = ground arith;
  journal = ground arith;
  targets = ground arith;
}

Earlier-Under :
    (t : Tables) (row q : JournalRow)
    → current_generation t.targets row.scope row.equipment ≡ row.expected_generation
    → row.expected_generation < row.target_generation
    → Under t.targets q
    → Earlier row q
Earlier-Under t row q current rises u =
    ground (arith, eq_iff q.scope row.scope, eq_iff q.equipment row.equipment)

Under-after :
    (t : Tables) (row q : JournalRow)
    → current_generation t.targets row.scope row.equipment ≡ row.expected_generation
    → row.expected_generation < row.target_generation
    → Under t.targets q
    → Under (upsert_target row.scope row.equipment row.target_generation t.targets) q
Under-after t row q current rises u = ground (
  arith,
  eq_iff row.scope q.scope,
  eq_iff row.equipment q.equipment,
  current_generation-upsert row.scope q.scope row.equipment q.equipment row.target_generation
      t.targets,
)

Under-self :
    (row : JournalRow) (ts : List TargetRow)
    → Under (upsert_target row.scope row.equipment row.target_generation ts) row
Under-self row ts = ground (
  arith,
  eq_iff row.scope row.scope,
  eq_iff row.equipment row.equipment,
  current_generation-upsert row.scope row.scope row.equipment row.equipment row.target_generation
      ts,
)

pub admission_body-IsSound :
    (t t' : Tables) (checked : ℤ) (row : JournalRow) (predecessor : Option String)
    → IsSound t
    → admission_body t checked row predecessor ≡ ok t'
    → IsSound t'
admission_body-IsSound t t' checked row predecessor v h =
    let a = admission_body-Admits t t' checked row predecessor h in
    record {
      ordered =
          subst IsOrdered (sym a.journal)
            (All-mono (λ q. Earlier-Under t row q a.current a.rises) t.journal v.under, v.ordered);
      under =
          subst (λ rows. All (Under t'.targets) rows) (sym a.journal)
            (subst (λ ts. All (Under ts) (row ∷ t.journal)) (sym a.targets)
              (
                Under-self row t.targets,
                All-mono (λ q. Under-after t row q a.current a.rises) t.journal v.under,
              ));
    }

transition_body-same :
    (t t' : Tables) (operation : String) (state : LifecycleState)
    → transition_body t operation state ≡ ok t'
    → (t'.journal ≡ t.journal) × (t'.targets ≡ t.targets)
unfolding transition_body
transition_body-same t t' operation state h = ground arith

-- If the generations of each target strictly rise along the journal and none is above the target's
-- watermark, then this holds after every history of submits and transitions, whatever the store
-- answered.
pub run-IsSound : (j : Journal) (cs : List Call) → IsSound j.tables → IsSound (run j cs).tables
run-IsSound j cs v =
    run-invariant IsSound
      (λ t t' p now s h.
        admission_body-IsSound t t' now.checked (row_of p now.inserted) p.predecessor s h)
      (λ t t' operation state s h.
        let (same_journal, same_targets) = transition_body-same t t' operation state h in
        record {
          ordered = subst IsOrdered (sym same_journal) s.ordered;
          under =
              subst (λ rows. All (Under t'.targets) rows) (sym same_journal)
                (subst (λ ts. All (Under ts) t.journal) (sym same_targets) s.under);
        })
      j cs v
