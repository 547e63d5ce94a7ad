-- ===== src/Storage/Outbox/Lifecycle.antt =====
-- The life of an outbox row (src/storage/sqlite/mod.rs): who may acknowledge it, and what stays.
use verdant.Base.{
  ℕ, zero, suc, List, [], ◌∷◌, ◌++◌, ◌≡◌, String, arith, true, Bool-cases, refl, inl, inr, ◌⊎◌,
  subst, ◌+◌, sym, none,
}
use verdant.Domain.Clock.{TimeTriple}
use verdant.Observation.Records.{RecordIdentity}
use verdant.Storage.Outbox.{
  Outbox, OutboxRow, queued, acked, Fault, StoreBounds, Sizes, claim_first, insert, claim_queued,
  acknowledge, requeue_claim, change_held, update, holds_claim, is_status, with_claim, set_acked,
  set_queued, committed, effective_limit, validate_token, mark_recalculated,
}
use verdant.Storage.Outbox.Queue
use verdant.Storage.Outbox.Queue.{Call, inserts, claims, acknowledges, recalculates}

-- What a row may become: its contents stay, and once acknowledged it stays as it is.
abbrev pub IsLater : OutboxRow → OutboxRow → Type 0
IsLater r r' =
    (r' ≡ record r { status = r'.status; claimed_by = r'.claimed_by }) × (r.status ≡ acked → r' ≡ r)

-- Each row has become a later one in its place, and more rows may be behind them.
abbrev pub IsAdvance : List OutboxRow → List OutboxRow → Type 0
IsAdvance [] rows = Unit
IsAdvance (r ∷ rs) [] = ⊥
IsAdvance (r ∷ rs) (r' ∷ rs') = IsLater r r' × IsAdvance rs rs'

-- A call of the queue, or a requeue.
pub data Event : Type 0 where
  calls : Call → Event
  requeues : Fault → ℕ → String → Event

unfoldable pub step : Outbox → Event → Outbox
step db (calls c) = Queue.step db c
step db (requeues fault id token) = (requeue_claim fault db id token).1

unfoldable pub run : Outbox → List Event → Outbox
run db [] = db
run db (e ∷ es) = run (step db e) es

IsLater-refl : (r : OutboxRow) → IsLater r r
IsLater-refl r = (refl, (λ _. refl))

IsAdvance-refl : (rs : List OutboxRow) → IsAdvance rs rs
IsAdvance-refl [] = tt
IsAdvance-refl (r ∷ rs) = (IsLater-refl r, IsAdvance-refl rs)

IsLater-trans : (a b c : OutboxRow) → IsLater a b → IsLater b c → IsLater a c
IsLater-trans a b c h k = (ground (arith, h.0, k.0), (λ e. ground (arith, e, h.1, k.1)))

IsAdvance-trans : (a b c : List OutboxRow) → IsAdvance a b → IsAdvance b c → IsAdvance a c
IsAdvance-trans [] b c h k = tt
IsAdvance-trans (x ∷ a) [] c h k = absurd h
IsAdvance-trans (x ∷ a) (y ∷ b) [] h k = absurd k
IsAdvance-trans (x ∷ a) (y ∷ b) (z ∷ c) h k =
    (IsLater-trans x y z h.0 k.0, IsAdvance-trans a b c h.1 k.1)

IsAdvance-append : (rs more : List OutboxRow) → IsAdvance rs (rs ++ more)
IsAdvance-append [] more = tt
IsAdvance-append (r ∷ rs) more = (IsLater-refl r, IsAdvance-append rs more)

claim-IsLater :
    (token : String) (r : OutboxRow) → is_status queued r ≡ true → IsLater r (with_claim token r)
claim-IsLater token r h = (refl, (λ e. absurd (ground arith)))

claim_first-IsAdvance :
    (token : String) (n : ℕ) (rows : List OutboxRow) → IsAdvance rows (claim_first token n rows).0
unfolding claim_first
claim_first-IsAdvance token zero rows = IsAdvance-refl rows
claim_first-IsAdvance token (suc n) [] = tt
claim_first-IsAdvance token (suc n) (r ∷ rs) = elim (Bool-cases (is_status queued r)) [
  | inl chosen ↦ rw chosen (claim-IsLater token r chosen, claim_first-IsAdvance token n rs)
  | inr other ↦ rw other (IsLater-refl r, claim_first-IsAdvance token (suc n) rs)
]

held-IsLater :
    (id : ℕ) (token : String) (r r' : OutboxRow)
    → holds_claim id token r ≡ true
    → r' ≡ record r { status = r'.status; claimed_by = r'.claimed_by }
    → IsLater r r'
unfolding holds_claim
held-IsLater id token r r' h same = (same, (λ e. absurd (ground arith)))

update-IsAdvance :
    (id : ℕ) (token : String) (f : OutboxRow → OutboxRow) (rows : List OutboxRow)
    → ((r : OutboxRow) → f r ≡ record r { status = (f r).status; claimed_by = (f r).claimed_by })
    → IsAdvance rows (update (holds_claim id token) f rows)
unfolding update
update-IsAdvance id token f [] same = tt
update-IsAdvance id token f (r ∷ rows) same = elim (Bool-cases (holds_claim id token r)) [
  | inl chosen ↦
      rw chosen
        (held-IsLater id token r (f r) chosen (same r), update-IsAdvance id token f rows same)
  | inr other ↦ rw other (IsLater-refl r, update-IsAdvance id token f rows same)
]

insert_rows :
    (bounds : StoreBounds) (sizes : Sizes) (fault : Fault) (db : Outbox)
    (operation entity sensor value unit : String) (times : TimeTriple) (identity : RecordIdentity)
    → ((insert bounds sizes fault db operation entity sensor value unit times identity).1.rows
        ≡ db.rows)
      ⊎ ((insert bounds sizes fault db operation entity sensor value unit times identity).1.rows
          ≡ db.rows
            ++ record {
              id = db.last_id + 1;
              operation = operation;
              entity = entity;
              sensor = sensor;
              value_json = value;
              unit = unit;
              times = times;
              record_identity = identity;
              status = queued;
              claimed_by = none;
            }
              ∷ [])
unfolding insert committed
insert_rows bounds sizes fault db operation entity sensor value unit times identity = ground arith

claim_rows :
    (order : List OutboxRow → List OutboxRow) (bounds : StoreBounds) (fault : Fault) (db : Outbox)
    (limit : ℕ) (token : String)
    → ((claim_queued order bounds fault db limit token).1.rows ≡ db.rows)
      ⊎ ((claim_queued order bounds fault db limit token).1.rows
          ≡ (claim_first token (effective_limit bounds limit) db.rows).0)
unfolding claim_queued validate_token committed
claim_rows order bounds fault db limit token = ground arith

change_rows :
    (detail : String) (f : OutboxRow → OutboxRow) (fault : Fault) (db : Outbox) (id : ℕ)
    (token : String)
    → ((change_held detail f fault db id token).1.rows ≡ db.rows)
      ⊎ ((change_held detail f fault db id token).1.rows ≡ update (holds_claim id token) f db.rows)
unfolding change_held validate_token committed
change_rows detail f fault db id token = ground arith

recalculate_rows :
    (fault : Fault) (db : Outbox) (entity : String) (generation : ℕ)
    → (mark_recalculated fault db entity generation).1.rows ≡ db.rows
unfolding mark_recalculated committed
recalculate_rows fault db entity generation = ground arith

either-IsAdvance :
    (rows next made : List OutboxRow)
    → (next ≡ rows) ⊎ (next ≡ made)
    → IsAdvance rows made
    → IsAdvance rows next
either-IsAdvance rows next made (inl same) h =
    subst (IsAdvance rows) (sym same) (IsAdvance-refl rows)
either-IsAdvance rows next made (inr done) h = subst (IsAdvance rows) (sym done) h

step-IsAdvance : (db : Outbox) (e : Event) → IsAdvance db.rows (step db e).rows
unfolding step Queue.step acknowledge requeue_claim
step-IsAdvance db
      (calls (inserts bounds sizes fault operation entity sensor value unit times identity)) =
    either-IsAdvance db.rows _ _
      (insert_rows bounds sizes fault db operation entity sensor value unit times identity)
      (IsAdvance-append db.rows _)
step-IsAdvance db (calls (claims order bounds fault limit token)) =
    either-IsAdvance db.rows _ _ (claim_rows order bounds fault db limit token)
      (claim_first-IsAdvance token (effective_limit bounds limit) db.rows)
step-IsAdvance db (calls (acknowledges fault id token)) =
    either-IsAdvance db.rows _ _ (change_rows _ set_acked fault db id token)
      (update-IsAdvance id token set_acked db.rows (λ r. refl))
step-IsAdvance db (calls (recalculates fault entity generation)) =
    subst (IsAdvance db.rows) (sym (recalculate_rows fault db entity generation))
      (IsAdvance-refl db.rows)
step-IsAdvance db (requeues fault id token) =
    either-IsAdvance db.rows _ _ (change_rows _ set_queued fault db id token)
      (update-IsAdvance id token set_queued db.rows (λ r. refl))

-- Over any history of calls, requeues among them, under any faults: every row stays in its place with
-- its contents, but for its status and claimant, and a row that is acknowledged stays as it is.
pub run-IsAdvance : (db : Outbox) (events : List Event) → IsAdvance db.rows (run db events).rows
unfolding run
run-IsAdvance db [] = IsAdvance-refl db.rows
run-IsAdvance db (e ∷ es) =
    IsAdvance-trans db.rows (step db e).rows (run (step db e) es).rows (step-IsAdvance db e)
      (run-IsAdvance (step db e) es)
