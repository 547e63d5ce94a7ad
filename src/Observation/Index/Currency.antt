-- ===== src/Observation/Index/Currency.antt =====
-- The current values of the receiver (src/observation/index.rs, `consider` and `rebuild_current`) and
-- the bounds of its tables, over every history.
use verdant.Base.{
  ℕ, ◌+◌, ◌≡◌, List, [], ◌∷◌, ◌++◌, PartialEq, get_elem?, All, some, any, ◌==◌, true, Option, ◌⊎◌,
  inl, position, Bool-cases, set, subst, All-append, inr, arith, sym, none, All-set, eq_iff,
  All-mono, String, refl, ap, ◌∙◌, ok, length, get_elem?-append, get_elem?-set, All-find,
  find_sound, ◌&&◌, some_injective, string_partial_eq,
}
use verdant.Observation.Records.{BindingContext}
use verdant.Observation.Receiver.{SyntheticReceiver, Current, Stored, new_receiver}
use verdant.Observation.Index.Histories.{
  Event, step, run, run_keeps, Review, starts, after_keeps, start_lem, resumes, resume_lem,
  emit-consider, current_lem, selects, after_select_keeps, select_lem, emits, current_value,
  after_emit_keeps, reads_current, new_lem, reopens,
}
use verdant.Observation.Index.{
  placed, considered, consider, consider_from, reopen, NormalizedObservation, is_slot,
  rebuild_current, Producer, ClockReading, PendingObservation, CurrentValue, emit, current,
  refreshed,
}
use verdant.Base.Pairwise.{position_sound}

module _ {E P O : Type 0} ⦃context_eq : PartialEq (BindingContext E P)⦄ where
  -- The entry is of a record whose binding is one of the selected ones, in the record's own slot.
  record IsCurrent (bindings : List (BindingContext E P)) (records : List (Stored E P O))
      (c : Current) : Type 0 where
    pub stored : Stored E P O
    pub found : get_elem? records c.record_index ≡ some stored
    pub selected : any (λ b. b == stored.observation.content.binding) bindings ≡ true
    pub scope : c.scope ≡ stored.observation.content.binding.scope
    pub key : c.key ≡ stored.observation.content.binding.key

  abbrev IsSelected : SyntheticReceiver E P O → Type 0
  IsSelected s = All (IsCurrent s.bindings s.records) s.current

  placed_lem :
      (records : List (Stored E P O)) (current : List Current) (index : ℕ)
      (new : NormalizedObservation E P O) (slot : ℕ) (c : Current)
      → get_elem? current slot ≡ some c
      → (placed records current index new (some slot) ≡ current)
        ⊎ (placed records current index new (some slot)
            ≡ set current slot (record c { record_index = index }))
  unfolding placed
  placed_lem records current index new slot c here = ground arith

  -- A slot keeps its scope and key, whichever record it is of.
  placed-All :
      (bindings : List (BindingContext E P)) (records : List (Stored E P O))
      (current : List Current) (index : ℕ) (new : Stored E P O) (slot : ℕ) (c : Current)
      → get_elem? records index ≡ some new
      → any (λ b. b == new.observation.content.binding) bindings ≡ true
      → get_elem? current slot ≡ some c
      → is_slot new.observation.content.binding c ≡ true
      → All (IsCurrent bindings records) current
      → All (IsCurrent bindings records) (placed records current index new.observation (some slot))
  unfolding placed is_slot
  placed-All bindings records current index new slot c at chosen here same h =
      elim (placed_lem records current index new.observation slot c here) [
        | inl kept ↦ subst (All (IsCurrent bindings records)) (sym kept) h
        | inr placed ↦ subst (All (IsCurrent bindings records)) (sym placed) (
            All-set _ current slot (record c { record_index = index }) h
              (record {
                stored = new;
                found = at;
                selected = chosen;
                scope = ground (arith, eq_iff c.scope new.observation.content.binding.scope);
                key = ground (arith, eq_iff c.key new.observation.content.binding.key);
              }))
      ]

  placed_slot-All :
      (bindings : List (BindingContext E P)) (records : List (Stored E P O))
      (current : List Current) (index : ℕ) (new : Stored E P O) (slot : Option ℕ)
      → get_elem? records index ≡ some new
      → any (λ b. b == new.observation.content.binding) bindings ≡ true
      → (position (is_slot new.observation.content.binding) current ≡ slot)
      → All (IsCurrent bindings records) current
      → All (IsCurrent bindings records) (placed records current index new.observation slot)
  unfolding placed
  placed_slot-All bindings records current index new none at chosen e h =
      All-append _ current (_ ∷ []) h
        (record { stored = new; found = at; selected = chosen; scope = refl; key = refl }, tt)
  placed_slot-All bindings records current index new (some slot) at chosen e h =
      let (c, here, same) =
        position_sound (is_slot new.observation.content.binding) current slot e in
      placed-All bindings records current index new slot c at chosen here same h

  considered-All :
      (bindings : List (BindingContext E P)) (records : List (Stored E P O))
      (current : List Current) (index : ℕ) (o : Option (Stored E P O))
      → get_elem? records index ≡ o
      → All (IsCurrent bindings records) current
      → All (IsCurrent bindings records) (considered bindings records current index o)
  unfolding considered
  considered-All bindings records current index none at h = h
  considered-All bindings records current index (some new) at h =
      elim (Bool-cases (any (λ b. b == new.observation.content.binding) bindings)) [
        | inl chosen ↦
            rw chosen (placed_slot-All bindings records current index new _ at chosen refl h)
        | inr other ↦ rw other h
      ]

  consider-IsSelected :
      (s : SyntheticReceiver E P O) (i : ℕ) → IsSelected s → IsSelected (consider s i)
  unfolding consider
  consider-IsSelected s i h = considered-All s.bindings s.records s.current i _ refl h

  consider_from-IsSelected :
      (s : SyntheticReceiver E P O) (i : ℕ) (rs : List (Stored E P O))
      → IsSelected s
      → IsSelected (consider_from s i rs)
  unfolding consider_from
  consider_from-IsSelected s i [] h = h
  consider_from-IsSelected s i (r ∷ rs) h =
      consider_from-IsSelected (consider s i) (i + 1) rs (consider-IsSelected s i h)

  reopen-IsSelected : (s : SyntheticReceiver E P O) → IsSelected (reopen s)
  unfolding reopen rebuild_current
  reopen-IsSelected s = consider_from-IsSelected (record s { current = [] }) 0 s.records tt

  -- More records, with the ones that were there in their places and their observations kept.
  grown-All :
      (bindings : List (BindingContext E P)) (records more : List (Stored E P O))
      (current : List Current)
      → ((i : ℕ) (r : Stored E P O)
          → get_elem? records i ≡ some r
          → (r' : Stored E P O) × (get_elem? more i ≡ some r') × (r'.observation ≡ r.observation))
      → All (IsCurrent bindings records) current
      → All (IsCurrent bindings more) current
  grown-All bindings records more current grown =
      All-mono
        (λ c k.
          let (r', at, same) = grown c.record_index k.stored k.found in
          record {
            stored = r';
            found = at;
            selected = ap (λ o. any (λ b. b == o.content.binding) bindings) same ∙ k.selected;
            scope = k.scope ∙ sym (ap (λ o. o.content.binding.scope) same);
            key = k.key ∙ sym (ap (λ o. o.content.binding.key) same);
          })
        current

  emit-IsSelected :
      (enter_review : Review) (s : SyntheticReceiver E P O) (producer : Producer)
      (pending : PendingObservation E P O) (o : NormalizedObservation E P O) (p : Producer)
      (s' : SyntheticReceiver E P O)
      → IsSelected s
      → emit enter_review s producer pending ≡ ok (o, p, s')
      → IsSelected s'
  emit-IsSelected enter_review s producer pending o p s' h e =
      let (ps, f, made) = emit-consider enter_review s producer pending o p s' e in
      subst IsSelected (sym made) (
        consider-IsSelected _ (length s.records) (
          grown-All s.bindings s.records
            (s.records ++ record { observation = o; freshness = f } ∷ []) s.current
            (λ i r at. (r, get_elem?-append s.records _ i r at, refl)) h))

  current-IsSelected :
      (enter_review : Review) (s : SyntheticReceiver E P O) (scope key : String)
      (now : ClockReading) (v : Option (CurrentValue E P O)) (s' : SyntheticReceiver E P O)
      → IsSelected s
      → current enter_review s scope key now ≡ ok (v, s')
      → IsSelected s'
  unfolding refreshed
  current-IsSelected enter_review s scope key now v s' h e =
      elim (current_lem enter_review s scope key now v s' e) [
        | inl same ↦ subst IsSelected (sym same) h
        | inr (j, stored, at, made) ↦ subst IsSelected (sym made) (
            grown-All s.bindings s.records (set s.records j (refreshed now stored)) s.current
              (λ i r here.
                elim (get_elem?-set s.records i j (refreshed now stored) r stored here at) [
                  | inl same ↦ (r, same, refl)
                  | inr (new, same) ↦ (
                    refreshed now stored,
                    new,
                    ap (λ (x : Stored E P O). x.observation) (sym same),
                  )
                ])
              h)
      ]

  step-IsSelected :
      (s : SyntheticReceiver E P O) (e : Event E P O) → IsSelected s → IsSelected (step s e)
  unfolding step reopen
  step-IsSelected s (starts review scope producer incarnation) h =
      after_keeps IsSelected s _
        (λ p s' e.
          subst IsSelected (sym (start_lem review s scope producer incarnation p s' e).0) h)
        h
  step-IsSelected s (resumes review restored incarnation) h =
      after_keeps IsSelected s _
        (λ p s' e. subst IsSelected (sym (resume_lem review s restored incarnation p s' e).2) h) h
  step-IsSelected s (selects review expected selected) h =
      after_select_keeps IsSelected s _
        (λ s' e. elim (select_lem review s expected selected s' e) [
          | inl same ↦ subst IsSelected (sym same) h
          | inr (bs, _, made) ↦
              subst IsSelected (sym made) (reopen-IsSelected (record s { bindings = bs }))
        ])
        h
  step-IsSelected s (emits review producer pending) h =
      after_emit_keeps IsSelected s _ (λ o p s'. emit-IsSelected review s producer pending o p s' h)
        h
  step-IsSelected s (reads_current review scope key now) h =
      after_keeps IsSelected s _ (λ v s'. current-IsSelected review s scope key now v s' h) h
  step-IsSelected s reopens h = reopen-IsSelected s

  -- From a new receiver, over any history: whenever a read of the current value of a scope and a key
  -- gives a value, it is of a binding of that scope and key that is selected at that time.
  pub run-current :
      (namespace : String) (limit : ℕ) (s : SyntheticReceiver E P O) (events : List (Event E P O))
      (enter_review : Review) (scope key : String) (now : ClockReading) (v : CurrentValue E P O)
      (s' : SyntheticReceiver E P O)
      → new_receiver namespace limit ≡ ok s
      → current enter_review (run s events) scope key now ≡ ok (some v, s')
      → (any (λ b. b == v.observation.content.binding) (run s events).bindings ≡ true)
        × (v.observation.content.binding.scope ≡ scope)
        × (v.observation.content.binding.key ≡ key)
  run-current namespace limit s events enter_review scope key now v s' h e =
      let (c, found, record_of) = current_value enter_review (run s events) scope key now v s' e in
      let (stored, at, same) = record_of in
      let held =
        All-find (IsCurrent (run s events).bindings (run s events).records) _ (run s events).current
          c
          (run_keeps IsSelected step-IsSelected s events
            (subst IsSelected (sym (new_lem namespace limit s h)) tt))
          found in
      let sc = find_sound (λ (c : Current). c.scope == scope && c.key == key) _ c found in
      let obs : v.observation ≡ held.stored.observation =
        same ∙ ap (λ (r : Stored E P O). r.observation) (some_injective (sym at ∙ held.found)) in
      (
        ap (λ o. any (λ b. b == o.content.binding) (run s events).bindings) obs ∙ held.selected,
        ap (λ o. o.content.binding.scope) obs
            ∙ sym held.scope
            ∙ ground (arith, sc, eq_iff c.scope scope),
        ap (λ o. o.content.binding.key) obs ∙ sym held.key ∙ ground (arith, sc, eq_iff c.key key),
      )
