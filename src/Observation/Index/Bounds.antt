-- ===== src/Observation/Index/Bounds.antt =====
-- The capacity of the receiver's tables (src/observation/index.rs) over every history, and what becomes
-- of its records.
use verdant.Base.{
  ℕ, ◌≤◌, ◌≡◌, List, [], ◌∷◌, ◌++◌, length, PartialEq, map, String, subst, Option, sym, ok, some,
  arith, length-set, length-append, refl, none, ap, get_elem?, inl, set, inr, suc, ◌∙◌, zero,
}
use verdant.Observation.Records.{BindingContext, NormalizedObservation}
use verdant.Observation.Receiver.{SyntheticReceiver, Stored, Ledger, new_receiver}
use verdant.Observation.Index.Histories.{
  Event, step, run, run_keeps, starts, resumes, selects, emits, reads_current, reopens, after_keeps,
  start_lem, reopen_lem, new_lem, resume_lem, after_select_keeps, select_lem, after_emit_keeps,
  emit_lem, current_lem,
}
use verdant.Observation.Index.{reopen, advance, refreshed}
use mathlib.Core.List.{append_assoc, append-nil}

length-advance :
    (ps : List Ledger) (i next : ℕ) (o : Option Ledger) → length (advance ps i next o) ≡ length ps
length-advance ps i next none = refl
length-advance ps i next (some p) = length-set ps i _

module _ {E P O : Type 0} where
  -- The tables are within the receiver's limit.
  abbrev pub IsWithin : ℕ → SyntheticReceiver E P O → Type 0
  IsWithin limit s =
      (s.limit ≡ limit)
      × (length s.producers ≤ limit)
      × (length s.records ≤ limit)
      × (length s.bindings ≤ limit)

  abbrev pub observations : SyntheticReceiver E P O → List (NormalizedObservation E P O)
  observations s = map (λ r. r.observation) s.records

module _ {E P O : Type 0} ⦃context_eq : PartialEq (BindingContext E P)⦄ where
  reopen-IsWithin :
      (limit : ℕ) (s : SyntheticReceiver E P O) → IsWithin limit s → IsWithin limit (reopen s)
  reopen-IsWithin limit s h = subst (IsWithin limit) (sym (reopen_lem s)) h

  step-IsWithin :
      (limit : ℕ) (s : SyntheticReceiver E P O) (e : Event E P O)
      → IsWithin limit s
      → IsWithin limit (step s e)
  unfolding step reopen
  step-IsWithin limit s (starts review scope producer incarnation) (lim, ps, rs, bs) =
      after_keeps (IsWithin limit) s _
        (λ p s' e.
          let (made, _, _, _, _, room) = start_lem review s scope producer incarnation p s' e in
          subst (IsWithin limit) (sym made)
            (lim, omega (arith, room, lim, length-append s.producers (_ ∷ [])), rs, bs))
        (lim, ps, rs, bs)
  step-IsWithin limit s (resumes review restored incarnation) (lim, ps, rs, bs) =
      after_keeps (IsWithin limit) s _
        (λ p s' e.
          let (i, _, made, _, _, _) = resume_lem review s restored incarnation p s' e in
          subst (IsWithin limit) (sym made)
            (lim, omega (arith, ps, length-set s.producers i _), rs, bs))
        (lim, ps, rs, bs)
  step-IsWithin limit s (selects review expected selected) (lim, ps, rs, bs) =
      after_select_keeps (IsWithin limit) s _
        (λ s' e. elim (select_lem review s expected selected s' e) [
          | inl same ↦ subst (IsWithin limit) (sym same) (lim, ps, rs, bs)
          | inr (chosen, few, made) ↦ subst (IsWithin limit) (sym made) (
              reopen-IsWithin limit (record s { bindings = chosen })
                (lim, ps, rs, omega (arith, lim, few (omega (arith, lim, bs)))))
        ])
        (lim, ps, rs, bs)
  step-IsWithin limit s (emits review producer pending) (lim, ps, rs, bs) =
      after_emit_keeps (IsWithin limit) s _
        (λ o p s' e.
          let (i, _, made, _, room) = emit_lem review s producer pending o p s' e in
          subst (IsWithin limit) (sym made) (
            lim,
            omega (arith, ps, length-advance s.producers i _ (get_elem? s.producers i)),
            omega (arith, room, lim, length-append s.records (_ ∷ [])),
            bs,
          ))
        (lim, ps, rs, bs)
  step-IsWithin limit s (reads_current review scope key now) (lim, ps, rs, bs) =
      after_keeps (IsWithin limit) s _
        (λ v s' e. elim (current_lem review s scope key now v s' e) [
          | inl same ↦ subst (IsWithin limit) (sym same) (lim, ps, rs, bs)
          | inr (j, stored, _, made) ↦
              subst (IsWithin limit) (sym made)
                (lim, ps, omega (arith, rs, length-set s.records j _), bs)
        ])
        (lim, ps, rs, bs)
  step-IsWithin limit s reopens h = reopen-IsWithin limit s h

  -- From a new receiver, over any history: the producers, the records and the selected bindings are
  -- each at most `limit` in number.
  pub run-IsWithin :
      (namespace : String) (limit : ℕ) (s : SyntheticReceiver E P O) (events : List (Event E P O))
      → new_receiver namespace limit ≡ ok s
      → IsWithin limit (run s events)
  run-IsWithin namespace limit s events h =
      run_keeps (IsWithin limit) (step-IsWithin limit) s events (
        subst (IsWithin limit) (sym (new_lem namespace limit s h))
          (refl, omega arith, omega arith, omega arith))

  -- The observations are those of `base`, with more behind them.
  abbrev IsGrown : List (NormalizedObservation E P O) → SyntheticReceiver E P O → Type 0
  IsGrown base s = (new : List (NormalizedObservation E P O)) × (observations s ≡ base ++ new)

  observations-append :
      (rs : List (Stored E P O)) (r : Stored E P O)
      → map (λ r. r.observation) (rs ++ r ∷ []) ≡ map (λ r. r.observation) rs ++ r.observation ∷ []
  observations-append [] r = refl
  observations-append (x ∷ rs) r = ap (λ l. x.observation ∷ l) (observations-append rs r)

  observations-set :
      (rs : List (Stored E P O)) (i : ℕ) (old new : Stored E P O)
      → get_elem? rs i ≡ some old
      → new.observation ≡ old.observation
      → map (λ r. r.observation) (set rs i new) ≡ map (λ r. r.observation) rs
  observations-set [] i old new at same = refl
  observations-set (r ∷ rs) zero old new at same = ground (arith, at, same)
  observations-set (r ∷ rs) (suc i) old new at same =
      ap (λ l. r.observation ∷ l) (observations-set rs i old new at same)

  step-IsGrown :
      (base : List (NormalizedObservation E P O)) (s : SyntheticReceiver E P O) (e : Event E P O)
      → IsGrown base s
      → IsGrown base (step s e)
  unfolding step refreshed reopen
  step-IsGrown base s (starts review scope producer incarnation) h =
      after_keeps (IsGrown base) s _
        (λ p s' e.
          subst (IsGrown base) (sym (start_lem review s scope producer incarnation p s' e).0) h)
        h
  step-IsGrown base s (resumes review restored incarnation) h =
      after_keeps (IsGrown base) s _
        (λ p s' e.
          let (i, _, made, _, _, _) = resume_lem review s restored incarnation p s' e in
          subst (IsGrown base) (sym made) h)
        h
  step-IsGrown base s (selects review expected selected) h =
      after_select_keeps (IsGrown base) s _
        (λ s' e. elim (select_lem review s expected selected s' e) [
          | inl same ↦ subst (IsGrown base) (sym same) h
          | inr (chosen, few, made) ↦
              subst (IsGrown base) (sym (made ∙ reopen_lem (record s { bindings = chosen }))) h
        ])
        h
  step-IsGrown base s (emits review producer pending) (new, h) =
      after_emit_keeps (IsGrown base) s _
        (λ o p s' e.
          let (i, _, made, _, room) = emit_lem review s producer pending o p s' e in
          subst (IsGrown base) (sym made) (
            new ++ o ∷ [],
            observations-append s.records _
                ∙ ap (λ l. l ++ o ∷ []) h
                ∙ append_assoc base new (o ∷ []),
          ))
        (new, h)
  step-IsGrown base s (reads_current review scope key now) (new, h) =
      after_keeps (IsGrown base) s _
        (λ v s' e. elim (current_lem review s scope key now v s' e) [
          | inl same ↦ subst (IsGrown base) (sym same) (new, h)
          | inr (j, stored, at, made) ↦
              subst (IsGrown base) (sym made)
                (new, observations-set s.records j stored _ at refl ∙ h)
        ])
        (new, h)
  step-IsGrown base s reopens h = subst (IsGrown base) (sym (reopen_lem s)) h

  -- Over any history the receiver evicts and changes nothing: the observations that it has come first,
  -- in their order, among those that it has afterwards.
  pub run-observations :
      (s : SyntheticReceiver E P O) (events : List (Event E P O))
      → (new : List (NormalizedObservation E P O)) × (observations (run s events)
          ≡ observations s ++ new)
  run-observations s events =
      run_keeps (IsGrown (observations s)) (step-IsGrown (observations s)) s events
        ([], sym (append-nil (observations s)))
