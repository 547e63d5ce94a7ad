-- ===== src/Observation/Index/Identity.antt =====
-- The identities that the receiver gives out (src/observation/index.rs): over every history no
-- position is given twice.
use verdant.Base.{
  ℕ, suc, ◌+◌, ◌≤◌, String, Bool, true, false, ◌≡◌, ◌≢◌, refl, sym, ap, subst, Option, some, List,
  [], ◌∷◌, ◌++◌, map, arith, eq_iff, ok, get_elem?, set, PartialEq, inl, inr, zero, u64_max,
}
use verdant.Base.Pairwise.{Pairwise, position_sound}
use verdant.Observation.Records.{
  RecordIdentity, ProducerCheckpoint, Producer, BindingContext, checkpoint_eq, PendingObservation,
  NormalizedObservation,
}
use verdant.Observation.Receiver.{
  Ledger, Stored, SyntheticReceiver, holds_lease, is_producer, is_intact, resumed_checkpoint,
  generation_text, new_receiver, start, resume,
}
use verdant.Observation.Receiver.Ledgers.{
  IsLedger, IsLedger-start, IsLedger-continue, IsLedger-renew, IsLedger-emit,
}
use verdant.Observation.Index.{
  reopen, select_binding, emit, current, refreshed, advance, ClockReading, CurrentValue,
}
use verdant.Observation.Index.Histories.{
  Event, starts, resumes, selects, emits, reads_current, reopens, Review, start_lem, resume_lem,
  emit_lem, select_lem, current_lem, reopen_lem, step, run, run_keeps, after_keeps,
  after_select_keeps, after_emit_keeps, new_lem,
}
use mathlib.Core.Path.{subst₂}

-- What an intact checkpoint and a matching lease compare.
pub checkpoint_eq_sound : (a b : ProducerCheckpoint) → checkpoint_eq a b ≡ true → a ≡ b
unfolding checkpoint_eq
checkpoint_eq_sound a b h =
    ground (
      arith,
      eq_iff a.generation b.generation,
      eq_iff a.scope b.scope,
      eq_iff a.producer b.producer,
    )

is_intact_found :
    (old : Ledger) (restored : ProducerCheckpoint) (o : Option Ledger)
    → o ≡ some old
    → checkpoint_eq old.checkpoint restored ≡ is_intact o restored
unfolding is_intact
is_intact_found old restored o h = ground arith

lease_checkpoint :
    (producer : Producer) (l : Ledger)
    → holds_lease producer l ≡ true
    → checkpoint_eq l.checkpoint producer.checkpoint ≡ true
unfolding holds_lease
lease_checkpoint producer l h = ground arith

advance_found :
    (ps : List Ledger) (i next : ℕ) (old : Ledger) (o : Option Ledger)
    → o ≡ some old
    → advance ps i next o
      ≡ set ps i (record old { checkpoint = record old.checkpoint { next = next } })
advance_found ps i next old o h = ap (advance ps i next) h

module _ {E P O : Type 0} where
  abbrev pub position_of : Stored E P O → RecordIdentity
  position_of r = r.observation.id.position

  abbrev pub positions : SyntheticReceiver E P O → List RecordIdentity
  positions s = map position_of s.records

  abbrev pub IsSound : SyntheticReceiver E P O → Type 0
  IsSound s = IsLedger s.namespace s.allocation s.producers (positions s)

  positions-set :
      (rs : List (Stored E P O)) (i : ℕ) (old new : Stored E P O)
      → get_elem? rs i ≡ some old
      → position_of new ≡ position_of old
      → map position_of (set rs i new) ≡ map position_of rs
  positions-set [] i old new at same = refl
  positions-set (r ∷ rs) zero old new at same = ground (arith, at, same)
  positions-set (r ∷ rs) (suc i) old new at same =
      ap (λ l. position_of r ∷ l) (positions-set rs i old new at same)

  positions-append :
      (rs : List (Stored E P O)) (r : Stored E P O)
      → map position_of (rs ++ r ∷ []) ≡ map position_of rs ++ position_of r ∷ []
  positions-append [] r = refl
  positions-append (x ∷ rs) r = ap (λ l. position_of x ∷ l) (positions-append rs r)

  start-IsSound :
      (enter_review : Review) (s : SyntheticReceiver E P O) (scope producer incarnation : String)
      (p : Producer) (s' : SyntheticReceiver E P O)
      → IsSound s
      → start enter_review s scope producer incarnation ≡ ok (p, s')
      → IsSound s'
  start-IsSound enter_review s scope producer incarnation p s' h e =
      let (made, named, _, room, _, _) =
        start_lem enter_review s scope producer incarnation p s' e in
      subst IsSound (sym made) (
        IsLedger-start s.namespace s.allocation s.producers (positions s) h
          (record { checkpoint = p.checkpoint; lease = p.lease }) room
          (ap (λ (c : ProducerCheckpoint). c.generation) named))

  -- An intact checkpoint continues its ledger, any other begins a generation.
  resumed-IsSound :
      (s : SyntheticReceiver E P O) (restored : ProducerCheckpoint) (i : ℕ) (old : Ledger)
      (lease : ℕ) (intact : Bool)
      → IsSound s
      → get_elem? s.producers i ≡ some old
      → checkpoint_eq old.checkpoint restored ≡ intact
      → s.allocation + 1 ≤ u64_max
      → IsLedger s.namespace
          (s.allocation + 1)
          (set s.producers i (record {
            checkpoint =
                resumed_checkpoint intact restored (generation_text s.namespace (s.allocation + 1));
            lease = lease;
          }))
          (positions s)
  unfolding resumed_checkpoint
  resumed-IsSound s restored i old lease true h at same room =
      IsLedger-continue s.namespace s.allocation s.producers (positions s) h i old _ room at
        (sym (checkpoint_eq_sound old.checkpoint restored same))
  resumed-IsSound s restored i old lease false h at same room =
      IsLedger-renew s.namespace s.allocation s.producers (positions s) h i old
        (record {
          checkpoint = record restored {
            generation = generation_text s.namespace (s.allocation + 1);
            next = 0;
          };
          lease = lease;
        })
        room at refl

  resume-IsSound :
      (enter_review : Review) (s : SyntheticReceiver E P O) (restored : ProducerCheckpoint)
      (incarnation : String) (p : Producer) (s' : SyntheticReceiver E P O)
      → IsSound s
      → resume enter_review s restored incarnation ≡ ok (p, s')
      → IsSound s'
  resume-IsSound enter_review s restored incarnation p s' h e =
      let (i, at, made, named, _, room) = resume_lem enter_review s restored incarnation p s' e in
      let (old, found, _) =
        position_sound (is_producer restored.scope restored.producer) s.producers i at in
      subst IsSound (sym made) (
        subst
          (λ c.
            IsLedger s.namespace (s.allocation + 1)
              (set s.producers i (record { checkpoint = c; lease = p.lease })) (positions s))
          (sym named)
          (resumed-IsSound s restored i old p.lease _ h found (is_intact_found old restored _ found)
            room))

  emit-IsSound :
      ⦃context_eq : PartialEq (BindingContext E P)⦄ (enter_review : Review)
      (s : SyntheticReceiver E P O) (producer : Producer) (pending : PendingObservation E P O)
      (o : NormalizedObservation E P O) (p : Producer) (s' : SyntheticReceiver E P O)
      → IsSound s
      → emit enter_review s producer pending ≡ ok (o, p, s')
      → IsSound s'
  emit-IsSound enter_review s producer pending o p s' h e =
      let (i, at, made, named, _) = emit_lem enter_review s producer pending o p s' e in
      let (old, found, held) = position_sound (holds_lease producer) s.producers i at in
      let same =
        checkpoint_eq_sound old.checkpoint producer.checkpoint
          (lease_checkpoint producer old held) in
      subst IsSound (sym made) (
        subst₂ (λ ps ids. IsLedger s.namespace s.allocation ps ids)
          (sym (advance_found s.producers i (producer.checkpoint.next + 1) old _ found))
          (sym (positions-append s.records _))
          (IsLedger-emit s.namespace s.allocation s.producers (positions s) h i old _ o.id.position
            found (ground (arith, named, same)) (ground (arith, named, same)) refl
            (ground (arith, named, same))))

module _ {E P O : Type 0} ⦃context_eq : PartialEq (BindingContext E P)⦄ where
  reopen-IsSound : (s : SyntheticReceiver E P O) → IsSound s → IsSound (reopen s)
  reopen-IsSound s h = subst IsSound (sym (reopen_lem s)) h

  select-IsSound :
      (enter_review : Review) (s : SyntheticReceiver E P O) (expected : Option (BindingContext E P))
      (selected : BindingContext E P) (s' : SyntheticReceiver E P O)
      → IsSound s
      → select_binding enter_review s expected selected ≡ ok s'
      → IsSound s'
  unfolding reopen
  select-IsSound enter_review s expected selected s' h e =
      elim (select_lem enter_review s expected selected s' e) [
        | inl same ↦ subst IsSound (sym same) h
        | inr (bs, _, made) ↦
            subst IsSound (sym made) (reopen-IsSound (record s { bindings = bs }) h)
      ]

  current-IsSound :
      (enter_review : Review) (s : SyntheticReceiver E P O) (scope key : String)
      (now : ClockReading) (v : Option (CurrentValue E P O)) (s' : SyntheticReceiver E P O)
      → IsSound s
      → current enter_review s scope key now ≡ ok (v, s')
      → IsSound s'
  unfolding refreshed
  current-IsSound enter_review s scope key now v s' h e =
      elim (current_lem enter_review s scope key now v s' e) [
        | inl same ↦ subst IsSound (sym same) h
        | inr (j, stored, at, made) ↦ subst IsSound (sym made) (
            subst (λ ids. IsLedger s.namespace s.allocation s.producers ids)
              (sym (positions-set s.records j stored (refreshed now stored) at refl)) h)
      ]

  step-IsSound : (s : SyntheticReceiver E P O) (e : Event E P O) → IsSound s → IsSound (step s e)
  unfolding step
  step-IsSound s (starts review scope producer incarnation) h =
      after_keeps IsSound s _ (λ p s'. start-IsSound review s scope producer incarnation p s' h) h
  step-IsSound s (resumes review restored incarnation) h =
      after_keeps IsSound s _ (λ p s'. resume-IsSound review s restored incarnation p s' h) h
  step-IsSound s (selects review expected selected) h =
      after_select_keeps IsSound s _ (λ s'. select-IsSound review s expected selected s' h) h
  step-IsSound s (emits review producer pending) h =
      after_emit_keeps IsSound s _ (λ o p s'. emit-IsSound review s producer pending o p s' h) h
  step-IsSound s (reads_current review scope key now) h =
      after_keeps IsSound s _ (λ v s'. current-IsSound review s scope key now v s' h) h
  step-IsSound s reopens h = reopen-IsSound s h

  new-IsSound :
      (namespace : String) (limit : ℕ) (s : SyntheticReceiver E P O)
      → new_receiver namespace limit ≡ ok s
      → IsSound s
  new-IsSound namespace limit s h = subst IsSound (sym (new_lem namespace limit s h)) (record {
    bounded = omega arith;
    apart = tt;
    minted = tt;
    minted_ids = tt;
    behind = tt;
    unique = tt;
  })

  -- From a new receiver, over any history of starts, resumes, selections, emits and reads by any
  -- callers, with producers that hold any checkpoint and lease: no two of the receiver's records have
  -- the same generation and sequence number.
  pub run-Pairwise :
      (namespace : String) (limit : ℕ) (s : SyntheticReceiver E P O) (events : List (Event E P O))
      → new_receiver namespace limit ≡ ok s
      → Pairwise ◌≢◌ (positions (run s events))
  run-Pairwise namespace limit s events h =
      (run_keeps IsSound step-IsSound s events (new-IsSound namespace limit s h)).unique
