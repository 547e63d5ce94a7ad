-- ===== src/Action/Journal/Steps.antt =====
-- Histories of the writer: any sequence of submits and transitions, with any store outcomes
-- (src/action_journal/mod.rs).
use verdant.Base.{
  ◌≡◌, refl, sym, subst, ◌⊎◌, inl, inr, false, List, [], ◌∷◌, String, arith, ok, Result-cases,
}
use verdant.Action.Journal.{Admitted, LifecycleState, is_terminal}
use verdant.Action.Journal.Tables.{Tables, admission_body, transition_body}
use verdant.Action.Journal.Rows.{read_row}
use verdant.Action.Journal.Writer.{
  Journal, DatabaseTimes, PendingAdmission, Receipt, recorded, absent, mismatched, unreadable, Fate,
  row_of, submit, transition, announce_admitted,
}

pub data Call : Type 0 where
  submits : PendingAdmission → DatabaseTimes → Receipt → Fate → Call
  moves : Tables → String → String → LifecycleState → Fate → Call

unfoldable pub step : Journal → Call → Journal
step j (submits p now receipt fate) = (submit j now p receipt fate).1
step j (moves seen operation scope state fate) = (transition seen j operation scope state fate).1

unfoldable pub run : Journal → List Call → Journal
run j [] = j
run j (c ∷ cs) = run (step j c) cs

announce_admitted-tables : (j : Journal) (a : Admitted) → (announce_admitted j a).tables ≡ j.tables
unfolding announce_admitted
announce_admitted-tables j a = refl

-- A submit commits its own admission batch or leaves the tables as they were.
pub submit-tables :
    (j : Journal) (now : DatabaseTimes) (p : PendingAdmission) (r : Receipt) (f : Fate)
    → ((submit j now p r f).1.tables ≡ j.tables)
      ⊎ (admission_body j.tables now.checked (row_of p now.inserted) p.predecessor
          ≡ ok (submit j now p r f).1.tables)
unfolding submit announce_admitted
submit-tables j now p recorded f = inl refl
submit-tables j now p (mismatched d) f = inl refl
submit-tables j now p (unreadable d) f = inl refl
submit-tables j now p absent f = ground arith

transition_read :
    (seen : Tables) (j : Journal) (operation scope : String) (state : LifecycleState) (f : Fate)
    (a : Admitted)
    → read_row seen operation scope ≡ ok a
    → ((transition seen j operation scope state f).1.tables ≡ j.tables)
      ⊎ ((is_terminal a.lifecycle ≡ false)
          × (transition_body j.tables operation state
              ≡ ok (transition seen j operation scope state f).1.tables))
unfolding transition is_terminal
transition_read seen j operation scope state f a e = ground arith

-- A transition commits its batch on a row that it has read, which was not terminal then, or leaves the
-- tables as they were.
pub transition-tables :
    (seen : Tables) (j : Journal) (operation scope : String) (state : LifecycleState) (f : Fate)
    → ((transition seen j operation scope state f).1.tables ≡ j.tables)
      ⊎ ((a : Admitted) × (read_row seen operation scope ≡ ok a)
          × (is_terminal a.lifecycle ≡ false)
          × (transition_body j.tables operation state
              ≡ ok (transition seen j operation scope state f).1.tables))
unfolding transition
transition-tables seen j operation scope state f =
    elim (Result-cases (read_row seen operation scope)) [
      | inr (e, h) ↦ inl (ground arith)
      | inl (a, h) ↦ elim (transition_read seen j operation scope state f a h) [
        | inl kept ↦ inl kept
        | inr (live, body) ↦ inr (a, h, live, body)
      ]
    ]

-- What every call of a history satisfies.
abbrev pub Each {ℓ} : (Call → Type ℓ) → List Call → Type ℓ
Each Q [] = Unit {ℓ}
Each Q (c ∷ cs) = Q c × Each Q cs

-- A property of the tables that both batches of the calls that satisfy `Q` keep holds along every history
-- of such calls.
pub run-kept {ℓ} :
    (Q : Call → Type 0) (P : Tables → Type ℓ)
    → ((t t' : Tables) (p : PendingAdmission) (now : DatabaseTimes) (r : Receipt) (f : Fate)
        → Q (submits p now r f)
        → P t
        → admission_body t now.checked (row_of p now.inserted) p.predecessor ≡ ok t'
        → P t')
    → ((seen t t' : Tables) (operation scope : String) (state : LifecycleState) (f : Fate)
          (a : Admitted)
        → Q (moves seen operation scope state f)
        → P t
        → read_row seen operation scope ≡ ok a
        → is_terminal a.lifecycle ≡ false
        → transition_body t operation state ≡ ok t'
        → P t')
    → (j : Journal) (cs : List Call) → Each Q cs
    → P j.tables
    → P (run j cs).tables
unfolding run step
run-kept Q P admits moved j [] q h = h
run-kept Q P admits moved j (submits p now r f ∷ cs) q h =
    run-kept Q P admits moved (submit j now p r f).1 cs q.1 (elim (submit-tables j now p r f) [
      | inl same ↦ subst P (sym same) h
      | inr body ↦ admits j.tables _ p now r f q.0 h body
    ])
run-kept Q P admits moved j (moves seen operation scope state f ∷ cs) q h =
    run-kept Q P admits moved (transition seen j operation scope state f).1 cs q.1
      (elim (transition-tables seen j operation scope state f) [
        | inl same ↦ subst P (sym same) h
        | inr (a, read, live, body) ↦
            moved seen j.tables _ operation scope state f a q.0 h read live body
      ])

Each-any : (cs : List Call) → Each (λ _. Unit {0}) cs
Each-any [] = tt
Each-any (c ∷ cs) = (tt, Each-any cs)

-- A property of the tables that both batches keep holds along every history.
pub run-invariant {ℓ} :
    (P : Tables → Type ℓ)
    → ((t t' : Tables) (p : PendingAdmission) (now : DatabaseTimes)
        → P t
        → admission_body t now.checked (row_of p now.inserted) p.predecessor ≡ ok t'
        → P t')
    → ((t t' : Tables) (operation : String) (state : LifecycleState)
        → P t
        → transition_body t operation state ≡ ok t'
        → P t')
    → (j : Journal) (cs : List Call) → P j.tables
    → P (run j cs).tables
run-invariant P admits moved j cs =
    run-kept (λ _. Unit {0}) P (λ t t' p now r f q h b. admits t t' p now h b)
      (λ seen t t' operation scope state f a q h read live b. moved t t' operation state h b) j cs
      (Each-any cs)
