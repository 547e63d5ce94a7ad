-- ===== src/Observation/Index/Histories.antt =====
-- Histories of the receiver (src/observation/index.rs): every sequence of calls, by any callers, with
-- any answers of the access gate; and what each call that succeeds makes of the receiver.
use verdant.Base.{
  ℕ, ◌+◌, ◌≤◌, ◌<◌, String, false, ◌≡◌, refl, Option, some, List, [], ◌∷◌, ◌++◌, arith, Result, ok,
  err, any, get_elem?, set, position, length, PartialEq, u64_max, ◌⊎◌, Bool-cases, inl, ◌==◌, inr,
  find, length-set, ◌&&◌, length-append, subst, sym, none, string_partial_eq,
}
use verdant.Domain.Ids
use verdant.Observation.Time.{Error, ClockReading}
use verdant.Observation.Records.{
  ProducerCheckpoint, Producer, BindingContext, PendingObservation, NormalizedObservation, next_id,
  identify,
}
use verdant.Observation.Receiver.{
  Stored, SyntheticReceiver, holds_lease, is_producer, is_intact, resumed_checkpoint,
  generation_text, allocate, start, resume, new_receiver,
}
use verdant.Observation.Index.{
  consider, consider_from, rebuild_current, reopen, select_binding, current_at, current_found,
  place_binding, emit, current, advance, refreshed, is_binding, Current, CurrentValue, at_position,
  Ledger, Freshness,
}

abbrev pub Review : Type 0
Review = String → Result Error (Unit {0})

pub data Event (E P O : Type 0) : Type 0 where
  starts : Review → String → String → String → Event E P O
  resumes : Review → ProducerCheckpoint → String → Event E P O
  selects : Review → Option (BindingContext E P) → BindingContext E P → Event E P O
  emits : Review → Producer → PendingObservation E P O → Event E P O
  reads_current : Review → String → String → ClockReading → Event E P O
  reopens : Event E P O

-- The receiver after a call that was given `s` and answered with `r`.
abbrev pub after : {A S : Type 0} → S → Result Error (A × S) → S
after s (ok (a, s')) = s'
after s (err e) = s

abbrev pub after_emit : {A B S : Type 0} → S → Result Error (A × B × S) → S
after_emit s (ok (a, b, s')) = s'
after_emit s (err e) = s

abbrev pub after_select : {S : Type 0} → S → Result Error S → S
after_select s (ok s') = s'
after_select s (err e) = s

pub after_keeps :
    {A S : Type 0} (Inv : S → Type 0) (s : S) (r : Result Error (A × S))
    → ((a : A) (s' : S) → r ≡ ok (a, s') → Inv s')
    → Inv s
    → Inv (after s r)
after_keeps Inv s (ok (a, s')) made h = made a s' refl
after_keeps Inv s (err e) made h = h

pub after_emit_keeps :
    {A B S : Type 0} (Inv : S → Type 0) (s : S) (r : Result Error (A × B × S))
    → ((a : A) (b : B) (s' : S) → r ≡ ok (a, b, s') → Inv s')
    → Inv s
    → Inv (after_emit s r)
after_emit_keeps Inv s (ok (a, b, s')) made h = made a b s' refl
after_emit_keeps Inv s (err e) made h = h

pub after_select_keeps :
    {S : Type 0} (Inv : S → Type 0) (s : S) (r : Result Error S)
    → ((s' : S) → r ≡ ok s' → Inv s')
    → Inv s
    → Inv (after_select s r)
after_select_keeps Inv s (ok s') made h = made s' refl
after_select_keeps Inv s (err e) made h = h

module _ {E P O : Type 0} where
  -- What a new receiver is.
  abbrev pub empty_receiver : String → ℕ → SyntheticReceiver E P O
  empty_receiver namespace limit = record {
    namespace = namespace;
    allocation = 0;
    limit = limit;
    producers = [];
    records = [];
    bindings = [];
    current = [];
  }

  pub new_lem :
      (namespace : String) (limit : ℕ) (s : SyntheticReceiver E P O)
      → new_receiver namespace limit ≡ ok s
      → s ≡ empty_receiver namespace limit
  unfolding new_receiver
  new_lem namespace limit s h = ground arith

  pub start_lem :
      (enter_review : Review) (s : SyntheticReceiver E P O) (scope producer incarnation : String)
      (p : Producer) (s' : SyntheticReceiver E P O)
      → start enter_review s scope producer incarnation ≡ ok (p, s')
      → (s' ≡ record s {
        allocation = s.allocation + 1;
        producers = s.producers ++ record { checkpoint = p.checkpoint; lease = p.lease } ∷ [];
      })
        × (p.checkpoint ≡ record {
          scope = scope;
          producer = producer;
          generation = generation_text s.namespace (s.allocation + 1);
          next = 0;
        })
        × (p.lease ≡ s.allocation + 1)
        × (s.allocation + 1 ≤ u64_max)
        × (any (is_producer scope producer) s.producers ≡ false)
        × (length s.producers < s.limit)
  unfolding start allocate Ids.parse
  start_lem enter_review s scope producer incarnation p s' h =
      (ground arith, ground arith, ground arith, ground arith, ground arith, ground arith)

  pub resume_lem :
      (enter_review : Review) (s : SyntheticReceiver E P O) (restored : ProducerCheckpoint)
      (incarnation : String) (p : Producer) (s' : SyntheticReceiver E P O)
      → resume enter_review s restored incarnation ≡ ok (p, s')
      → (i : ℕ) × (position (is_producer restored.scope restored.producer) s.producers ≡ some i)
        × (s' ≡ record s {
          allocation = s.allocation + 1;
          producers = set s.producers i (record { checkpoint = p.checkpoint; lease = p.lease });
        })
        × (p.checkpoint
            ≡ resumed_checkpoint
                (is_intact (get_elem? s.producers i) restored)
                restored
                (generation_text s.namespace (s.allocation + 1)))
        × (p.lease ≡ s.allocation + 1)
        × (s.allocation + 1 ≤ u64_max)
  unfolding resume allocate Ids.parse
  resume_lem enter_review s restored incarnation p s' h = ground arith

module _ {E P O : Type 0} ⦃context_eq : PartialEq (BindingContext E P)⦄ where
  unfoldable pub step : SyntheticReceiver E P O → Event E P O → SyntheticReceiver E P O
  step s (starts review scope producer incarnation) =
      after s (start review s scope producer incarnation)
  step s (resumes review restored incarnation) = after s (resume review s restored incarnation)
  step s (selects review expected selected) =
      after_select s (select_binding review s expected selected)
  step s (emits review producer pending) = after_emit s (emit review s producer pending)
  step s (reads_current review scope key now) = after s (current review s scope key now)
  step s reopens = reopen s

  unfoldable pub run : SyntheticReceiver E P O → List (Event E P O) → SyntheticReceiver E P O
  run s [] = s
  run s (e ∷ es) = run (step s e) es

  pub run_keeps :
      (Inv : SyntheticReceiver E P O → Type 0)
      → ((s : SyntheticReceiver E P O) (e : Event E P O) → Inv s → Inv (step s e))
      → (s : SyntheticReceiver E P O) (es : List (Event E P O)) → Inv s
      → Inv (run s es)
  unfolding run
  run_keeps Inv keep s [] h = h
  run_keeps Inv keep s (e ∷ es) h = run_keeps Inv keep (step s e) es (keep s e h)

  -- Only the current values are rebuilt.
  pub consider_from_lem :
      (s : SyntheticReceiver E P O) (i : ℕ) (rs : List (Stored E P O))
      → consider_from s i rs ≡ record s { current = (consider_from s i rs).current }
  unfolding consider_from consider
  consider_from_lem s i [] = refl
  consider_from_lem s i (r ∷ rs) = let next = consider_from_lem (consider s i) (i + 1) rs in next

  pub reopen_lem :
      (s : SyntheticReceiver E P O) → reopen s ≡ record s { current = (reopen s).current }
  unfolding reopen rebuild_current
  reopen_lem s = consider_from_lem (record s { current = [] }) 0 s.records

  pub emit_lem :
      (enter_review : Review) (s : SyntheticReceiver E P O) (producer : Producer)
      (pending : PendingObservation E P O) (o : NormalizedObservation E P O) (p : Producer)
      (s' : SyntheticReceiver E P O)
      → emit enter_review s producer pending ≡ ok (o, p, s')
      → (i : ℕ) × (position (holds_lease producer) s.producers ≡ some i)
        × (s' ≡ record s {
          producers =
              advance s.producers i (producer.checkpoint.next + 1) (get_elem? s.producers i);
          records = s.records ++ record { observation = o; freshness = o.content.freshness } ∷ [];
          current = s'.current;
        })
        × (o.id.position ≡ record {
          generation = producer.checkpoint.generation;
          seq = producer.checkpoint.next;
        })
        × (length s.records < s.limit)
  unfolding emit next_id identify consider
  emit_lem enter_review s producer pending o p s' h = ground arith

  -- The receiver that an emit considers its new record in.
  pub emit-consider :
      (enter_review : Review) (s : SyntheticReceiver E P O) (producer : Producer)
      (pending : PendingObservation E P O) (o : NormalizedObservation E P O) (p : Producer)
      (s' : SyntheticReceiver E P O)
      → emit enter_review s producer pending ≡ ok (o, p, s')
      → (ps : List Ledger) × (f : Freshness) × (s'
          ≡ consider
              (record s {
                producers = ps;
                records = s.records ++ record { observation = o; freshness = f } ∷ [];
              })
              (length s.records))
  unfolding emit next_id identify consider
  emit-consider enter_review s producer pending o p s' h =
      (s'.producers, o.content.freshness, ground arith)

  place_lem :
      (s : SyntheticReceiver E P O) (selected : BindingContext E P) (o : Option ℕ)
      (old : Option (BindingContext E P)) (s' : SyntheticReceiver E P O)
      → place_binding s selected o old ≡ ok s'
      → (s' ≡ s)
        ⊎ ((bs : List (BindingContext E P)) × (length s.bindings ≤ s.limit → length bs ≤ s.limit)
            × (s' ≡ rebuild_current (record s { bindings = bs })))
  unfolding place_binding
  place_lem s selected (some i) (some old) s' h = elim (Bool-cases (old == selected)) [
    | inl same ↦ inl (ground arith)
    | inr other ↦ inr (
      set s.bindings i selected,
      (λ b. omega (arith, b, length-set s.bindings i selected)),
      ground arith,
    )
  ]
  place_lem s selected (some i) none s' h = inr (
    s.bindings ++ selected ∷ [],
    (λ b. ground (arith, length-append s.bindings (selected ∷ []))),
    ground arith,
  )
  place_lem s selected none old s' h = inr (
    s.bindings ++ selected ∷ [],
    (λ b. ground (arith, length-append s.bindings (selected ∷ []))),
    ground arith,
  )

  pub select_lem :
      (enter_review : Review) (s : SyntheticReceiver E P O) (expected : Option (BindingContext E P))
      (selected : BindingContext E P) (s' : SyntheticReceiver E P O)
      → select_binding enter_review s expected selected ≡ ok s'
      → (s' ≡ s)
        ⊎ ((bs : List (BindingContext E P)) × (length s.bindings ≤ s.limit → length bs ≤ s.limit)
            × (s' ≡ rebuild_current (record s { bindings = bs })))
  unfolding select_binding
  select_lem enter_review s expected selected s' h =
      place_lem s selected (position (is_binding selected) s.bindings)
        (at_position s.bindings (position (is_binding selected) s.bindings)) s' (ground arith)

  at_lem :
      (s : SyntheticReceiver E P O) (now : ClockReading) (i : ℕ) (o : Option (Stored E P O))
      → get_elem? s.records i ≡ o
      → ((current_at s now i o).1 ≡ s)
        ⊎ ((j : ℕ) × (stored : Stored E P O) × (get_elem? s.records j ≡ some stored)
            × ((current_at s now i o).1
                ≡ record s { records = set s.records j (refreshed now stored) }))
  unfolding current_at
  at_lem s now i none e = inl refl
  at_lem s now i (some stored) e = inr (i, stored, e, refl)

  found_lem :
      (s : SyntheticReceiver E P O) (now : ClockReading) (o : Option Current)
      → ((current_found s now o).1 ≡ s)
        ⊎ ((j : ℕ) × (stored : Stored E P O) × (get_elem? s.records j ≡ some stored)
            × ((current_found s now o).1
                ≡ record s { records = set s.records j (refreshed now stored) }))
  unfolding current_found
  found_lem s now none = inl refl
  found_lem s now (some c) = at_lem s now c.record_index (get_elem? s.records c.record_index) refl

  -- Reading a current value changes at most the freshness of one record.
  pub current_lem :
      (enter_review : Review) (s : SyntheticReceiver E P O) (scope key : String)
      (now : ClockReading) (v : Option (CurrentValue E P O)) (s' : SyntheticReceiver E P O)
      → current enter_review s scope key now ≡ ok (v, s')
      → (s' ≡ s)
        ⊎ ((j : ℕ) × (stored : Stored E P O) × (get_elem? s.records j ≡ some stored)
            × (s' ≡ record s { records = set s.records j (refreshed now stored) }))
  unfolding current
  current_lem enter_review s scope key now v s' h =
      let made : s'
          ≡ (current_found s now
              (find (λ (c : Current). c.scope == scope && c.key == key) s.current)).1 =
        ground arith in
      subst
        (λ x.
          (x ≡ s)
          ⊎ ((j : ℕ) × (stored : Stored E P O) × (get_elem? s.records j ≡ some stored)
              × (x ≡ record s { records = set s.records j (refreshed now stored) })))
        (sym made) (found_lem s now _)

  at_value :
      (s : SyntheticReceiver E P O) (now : ClockReading) (i : ℕ) (o : Option (Stored E P O))
      (v : CurrentValue E P O) (s' : SyntheticReceiver E P O)
      → current_at s now i o ≡ (some v, s')
      → (stored : Stored E P O) × (o ≡ some stored) × (v.observation ≡ stored.observation)
  unfolding current_at
  at_value s now i none v s' h = absurd (ground arith)
  at_value s now i (some stored) v s' h = (stored, refl, ground arith)

  found_value :
      (s : SyntheticReceiver E P O) (now : ClockReading) (o : Option Current)
      (v : CurrentValue E P O) (s' : SyntheticReceiver E P O)
      → current_found s now o ≡ (some v, s')
      → (c : Current) × (o ≡ some c)
        × ((stored : Stored E P O) × (get_elem? s.records c.record_index ≡ some stored)
            × (v.observation ≡ stored.observation))
  unfolding current_found
  found_value s now none v s' h = absurd (ground arith)
  found_value s now (some c) v s' h =
      (c, refl, at_value s now c.record_index (get_elem? s.records c.record_index) v s' h)

  -- What a read of a current value gives: an observation of the record in the slot found.
  pub current_value :
      (enter_review : Review) (s : SyntheticReceiver E P O) (scope key : String)
      (now : ClockReading) (v : CurrentValue E P O) (s' : SyntheticReceiver E P O)
      → current enter_review s scope key now ≡ ok (some v, s')
      → (c : Current) × (find (λ (c : Current). c.scope == scope && c.key == key) s.current
          ≡ some c)
        × ((stored : Stored E P O) × (get_elem? s.records c.record_index ≡ some stored)
            × (v.observation ≡ stored.observation))
  unfolding current
  current_value enter_review s scope key now v s' h = found_value s now _ v s' (ground arith)
