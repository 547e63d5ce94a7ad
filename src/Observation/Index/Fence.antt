-- ===== src/Observation/Index/Fence.antt =====
-- Resuming a producer fences the old ones (src/observation/index.rs, `resume` and `emit`).
use mathlib.Core.Logic.{◌≢◌, inl, inr}
use verdant.Base.{
  ℕ, ◌+◌, ◌≡◌, List, [], ◌∷◌, ◌++◌, String, true, any, get_elem?, ◌↔◌, false, some, arith, eq_iff,
  All-mono, set, Bool, All-intro, ◌∙◌, sym, ok, subst, zero, suc, All-get, PartialEq, ap,
  some_injective, is_ok, Result-cases, refl, get_elem?-set_found,
}
use verdant.Observation.Records.{BindingContext, Producer, ProducerCheckpoint, PendingObservation}
use verdant.Observation.Receiver.{
  SyntheticReceiver, Ledger, is_producer, resumed_checkpoint, start, resume, holds_lease,
  new_receiver,
}
use verdant.Observation.Index.Histories.{
  Event, step, run, run_keeps, starts, resumes, selects, emits, reads_current, reopens, Review,
  start_lem, resume_lem, after_keeps, new_lem, after_select_keeps, emit_lem, select_lem, reopen_lem,
  after_emit_keeps, current_lem,
}
use verdant.Base.Pairwise.{Pairwise, Pairwise-append, Pairwise-set, none_pass, position_sound}
use verdant.Observation.Index.Identity.{checkpoint_eq_sound}
use verdant.Observation.Index.{reopen, NormalizedObservation, emit, advance}

-- The two ledgers are of different producers.
abbrev IsOther : Ledger → Ledger → Type 0
IsOther a b =
    a.checkpoint.scope ≡ b.checkpoint.scope → a.checkpoint.producer ≡ b.checkpoint.producer → ⊥

abbrev HasKey : String → String → Ledger → Type 0
HasKey scope producer l = (l.checkpoint.scope ≡ scope) × (l.checkpoint.producer ≡ producer)

is_producer_iff :
    (scope producer : String) (l : Ledger)
    → (is_producer scope producer l ≡ true) ↔ HasKey scope producer l
unfolding is_producer
is_producer_iff scope producer l = (
  (λ h. (
    ground (arith, eq_iff l.checkpoint.scope scope),
    ground (arith, eq_iff l.checkpoint.producer producer),
  )),
  (λ h.
      ground
        (arith, h.0, h.1, eq_iff l.checkpoint.scope scope, eq_iff l.checkpoint.producer producer)),
)

resumed_key :
    (intact : Bool) (restored : ProducerCheckpoint) (g : String) (c : ProducerCheckpoint)
    → c ≡ resumed_checkpoint intact restored g
    → (c.scope ≡ restored.scope) × (c.producer ≡ restored.producer)
unfolding resumed_checkpoint
resumed_key intact restored g c h = (ground arith, ground arith)

start-Pairwise :
    (ps : List Ledger) (l : Ledger)
    → any (is_producer l.checkpoint.scope l.checkpoint.producer) ps ≡ false
    → Pairwise IsOther ps
    → Pairwise IsOther (ps ++ l ∷ [])
start-Pairwise ps l absent h = Pairwise-append IsOther ps l h (
    All-mono
      (λ m no s p.
        absurd (cc ((is_producer_iff l.checkpoint.scope l.checkpoint.producer m).1 (s, p), no)))
      ps (none_pass _ ps absent))

replace-Pairwise :
    (ps : List Ledger) (i : ℕ) (old l : Ledger)
    → get_elem? ps i ≡ some old
    → old.checkpoint.scope ≡ l.checkpoint.scope
    → old.checkpoint.producer ≡ l.checkpoint.producer
    → Pairwise IsOther ps
    → Pairwise IsOther (set ps i l)
replace-Pairwise ps i old l at s p h =
    Pairwise-set IsOther ps i old l at h
      (All-intro _ (λ y. ((λ r u v. r (s ∙ u) (p ∙ v)), (λ r u v. r (u ∙ sym s) (v ∙ sym p)))) ps)

held_lem :
    (q : Producer) (m : Ledger)
    → holds_lease q m ≡ true
    → (m.checkpoint ≡ q.checkpoint) × (m.lease ≡ q.lease)
unfolding holds_lease
held_lem q m h = (checkpoint_eq_sound m.checkpoint q.checkpoint (ground arith), ground arith)

-- Two ledgers of one list that are not of different producers are one.
Pairwise-one :
    (ps : List Ledger) (i j : ℕ) (a b : Ledger)
    → Pairwise IsOther ps
    → get_elem? ps i ≡ some a
    → get_elem? ps j ≡ some b
    → a.checkpoint.scope ≡ b.checkpoint.scope
    → a.checkpoint.producer ≡ b.checkpoint.producer
    → a ≡ b
Pairwise-one [] i j a b h at bt s p = absurd (cc)
Pairwise-one (l ∷ ps) zero zero a b h at bt s p = cc
Pairwise-one (l ∷ ps) zero (suc j) a b h at bt s p = absurd (
    All-get _ ps j b h.0 bt (ap (λ (x : Ledger). x.checkpoint.scope) (some_injective at) ∙ s)
      (ap (λ (x : Ledger). x.checkpoint.producer) (some_injective at) ∙ p))
Pairwise-one (l ∷ ps) (suc i) zero a b h at bt s p = absurd (
    All-get _ ps i a h.0 at (ap (λ (x : Ledger). x.checkpoint.scope) (some_injective bt) ∙ sym s)
      (ap (λ (x : Ledger). x.checkpoint.producer) (some_injective bt) ∙ sym p))
Pairwise-one (l ∷ ps) (suc i) (suc j) a b h at bt s p = Pairwise-one ps i j a b h.1 at bt s p

module _ {E P O : Type 0} where
  abbrev IsSeparate : SyntheticReceiver E P O → Type 0
  IsSeparate s = Pairwise IsOther s.producers

  start-IsSeparate :
      (enter_review : Review) (s : SyntheticReceiver E P O) (scope producer incarnation : String)
      (p : Producer) (s' : SyntheticReceiver E P O)
      → IsSeparate s
      → start enter_review s scope producer incarnation ≡ ok (p, s')
      → IsSeparate s'
  start-IsSeparate enter_review s scope producer incarnation p s' h e =
      let (made, named, _, _, absent, _) =
        start_lem enter_review s scope producer incarnation p s' e in
      subst IsSeparate (sym made) (
        start-Pairwise s.producers (record { checkpoint = p.checkpoint; lease = p.lease })
          (subst
            (λ (c : ProducerCheckpoint). any (is_producer c.scope c.producer) s.producers ≡ false)
            (sym named) absent)
          h)

  resume-IsSeparate :
      (enter_review : Review) (s : SyntheticReceiver E P O) (restored : ProducerCheckpoint)
      (incarnation : String) (p : Producer) (s' : SyntheticReceiver E P O)
      → IsSeparate s
      → resume enter_review s restored incarnation ≡ ok (p, s')
      → IsSeparate s'
  resume-IsSeparate enter_review s restored incarnation p s' h e =
      let (i, at, made, named, _, _) = resume_lem enter_review s restored incarnation p s' e in
      let (old, found, is) =
        position_sound (is_producer restored.scope restored.producer) s.producers i at in
      let key = (is_producer_iff restored.scope restored.producer old).0 is in
      let same = resumed_key _ restored _ p.checkpoint named in
      subst IsSeparate (sym made) (
        replace-Pairwise s.producers i old (record { checkpoint = p.checkpoint; lease = p.lease })
          found (key.0 ∙ sym same.0) (key.1 ∙ sym same.1) h)

  emit-IsSeparate :
      ⦃context_eq : PartialEq (BindingContext E P)⦄ (enter_review : Review)
      (s : SyntheticReceiver E P O) (producer : Producer) (pending : PendingObservation E P O)
      (o : NormalizedObservation E P O) (p : Producer) (s' : SyntheticReceiver E P O)
      → IsSeparate s
      → emit enter_review s producer pending ≡ ok (o, p, s')
      → IsSeparate s'
  emit-IsSeparate enter_review s producer pending o p s' h e =
      let (i, at, made, _, _) = emit_lem enter_review s producer pending o p s' e in
      let (old, found, _) = position_sound (holds_lease producer) s.producers i at in
      subst IsSeparate (sym made) (
        subst (Pairwise IsOther)
          (sym (ap (advance s.producers i (producer.checkpoint.next + 1)) found))
          (replace-Pairwise s.producers i old _ found refl refl h))

module _ {E P O : Type 0} ⦃context_eq : PartialEq (BindingContext E P)⦄ where
  step-IsSeparate :
      (s : SyntheticReceiver E P O) (e : Event E P O) → IsSeparate s → IsSeparate (step s e)
  unfolding step reopen
  step-IsSeparate s (starts review scope producer incarnation) h =
      after_keeps IsSeparate s _
        (λ p s'. start-IsSeparate review s scope producer incarnation p s' h) h
  step-IsSeparate s (resumes review restored incarnation) h =
      after_keeps IsSeparate s _ (λ p s'. resume-IsSeparate review s restored incarnation p s' h) h
  step-IsSeparate s (selects review expected selected) h =
      after_select_keeps IsSeparate s _
        (λ s' e. elim (select_lem review s expected selected s' e) [
          | inl same ↦ subst IsSeparate (sym same) h
          | inr (chosen, few, made) ↦
              subst IsSeparate (sym (made ∙ reopen_lem (record s { bindings = chosen }))) h
        ])
        h
  step-IsSeparate s (emits review producer pending) h =
      after_emit_keeps IsSeparate s _ (λ o p s'. emit-IsSeparate review s producer pending o p s' h)
        h
  step-IsSeparate s (reads_current review scope key now) h =
      after_keeps IsSeparate s _
        (λ v s' e. elim (current_lem review s scope key now v s' e) [
          | inl same ↦ subst IsSeparate (sym same) h
          | inr (j, stored, at, made) ↦ subst IsSeparate (sym made) h
        ])
        h
  step-IsSeparate s reopens h = subst IsSeparate (sym (reopen_lem s)) h

  run-IsSeparate :
      (namespace : String) (limit : ℕ) (s : SyntheticReceiver E P O) (events : List (Event E P O))
      → new_receiver namespace limit ≡ ok s
      → IsSeparate (run s events)
  run-IsSeparate namespace limit s events h =
      run_keeps IsSeparate step-IsSeparate s events
        (subst IsSeparate (sym (new_lem namespace limit s h)) tt)

  -- The lease of an emit that succeeds is the one in the ledger of its producer.
  emit_lease :
      (enter_review : Review) (s : SyntheticReceiver E P O) (q : Producer)
      (pending : PendingObservation E P O) (i : ℕ) (l : Ledger)
      (x : NormalizedObservation E P O × Producer × SyntheticReceiver E P O)
      → IsSeparate s
      → get_elem? s.producers i ≡ some l
      → l.checkpoint.scope ≡ q.checkpoint.scope
      → l.checkpoint.producer ≡ q.checkpoint.producer
      → emit enter_review s q pending ≡ ok x
      → q.lease ≡ l.lease
  emit_lease enter_review s q pending i l (o, p, s') h at sc pr e =
      let (j, here, _, _, _) = emit_lem enter_review s q pending o p s' e in
      let (m, found, held) = position_sound (holds_lease q) s.producers j here in
      let (same, lease) = held_lem q m held in
      sym lease
      ∙ ap (λ (x : Ledger). x.lease)
          (Pairwise-one s.producers j i m l h found at
            (ap (λ (c : ProducerCheckpoint). c.scope) same ∙ sym sc)
            (ap (λ (c : ProducerCheckpoint). c.producer) same ∙ sym pr))

  resumed_lease :
      (enter_review later_review : Review) (s : SyntheticReceiver E P O)
      (restored : ProducerCheckpoint) (incarnation : String) (p q : Producer)
      (s' : SyntheticReceiver E P O) (pending : PendingObservation E P O)
      (x : NormalizedObservation E P O × Producer × SyntheticReceiver E P O)
      → IsSeparate s
      → resume enter_review s restored incarnation ≡ ok (p, s')
      → q.checkpoint.scope ≡ restored.scope
      → q.checkpoint.producer ≡ restored.producer
      → emit later_review s' q pending ≡ ok x
      → q.lease ≡ p.lease
  resumed_lease enter_review later_review s restored incarnation p q s' pending x h e sc pr done =
      let (i, at, made, named, _, _) = resume_lem enter_review s restored incarnation p s' e in
      let (old, found, _) =
        position_sound (is_producer restored.scope restored.producer) s.producers i at in
      let same = resumed_key _ restored _ p.checkpoint named in
      emit_lease later_review s' q pending i (record { checkpoint = p.checkpoint; lease = p.lease })
        x (resume-IsSeparate enter_review s restored incarnation p s' h e)
        (subst
          (λ (r : SyntheticReceiver E P O).
            get_elem? r.producers i ≡ some (record { checkpoint = p.checkpoint; lease = p.lease }))
          (sym made) (get_elem?-set_found s.producers i old _ found))
        (same.0 ∙ sym sc) (same.1 ∙ sym pr) done

  -- From a new receiver, after any history: once a producer is resumed, an emit by any other lease of
  -- that scope and producer is refused, whatever checkpoint it carries.
  pub resume-fences :
      (namespace : String) (limit : ℕ) (s : SyntheticReceiver E P O) (events : List (Event E P O))
      (enter_review later_review : Review) (restored : ProducerCheckpoint) (incarnation : String)
      (p q : Producer) (s' : SyntheticReceiver E P O) (pending : PendingObservation E P O)
      → new_receiver namespace limit ≡ ok s
      → resume enter_review (run s events) restored incarnation ≡ ok (p, s')
      → q.checkpoint.scope ≡ restored.scope
      → q.checkpoint.producer ≡ restored.producer
      → q.lease ≢ p.lease
      → is_ok (emit later_review s' q pending) ≡ false
  resume-fences namespace limit s events enter_review later_review restored incarnation p q s'
        pending h e sc pr other =
      elim (Result-cases (emit later_review s' q pending)) [
        | inr (x, refused) ↦ ap is_ok refused
        | inl (x, done) ↦ absurd (
            other (
              resumed_lease enter_review later_review _ restored incarnation p q s' pending x
                (run-IsSeparate namespace limit s events h) e sc pr done))
      ]
