-- ===== src/Storage/Outbox/Queue.antt =====
-- Histories of the outbox (src/storage/sqlite/mod.rs) as a first-in-first-out queue.
use mathlib.Core.List.Perm
use verdant.Base.{
  Bool-cases, Result-cases, inl, inr, nat_eq, ℕ, zero, suc, List, [], ◌∷◌, ◌++◌, ◌≡◌, String, ok,
  arith, take, drop, Result, ap, refl, err, ◌∙◌, sym, ◌+◌, none,
}
use verdant.Domain.Clock.{TimeTriple}
use verdant.Observation.Records.{RecordIdentity}
use verdant.Storage.Outbox.{
  Outbox, OutboxRow, OutboxError, queued, Fault, answered, refused, lost, StoreBounds, Sizes,
  insert, claim_first, claim_queued, acknowledge, update, holds_claim, set_acked, committed,
  effective_limit, validate_token, mark_recalculated,
}
use verdant.Storage.Outbox.Claims.{waiting, ids, claim_first-ids, claim_first-waiting}
use mathlib.Core.List.{append-nil, append_assoc, Perm}

-- The calls but for requeueing, each with what the store does to it; a claim with the order in which its rows
-- are returned.
pub data Call : Type 0 where
  inserts :
      StoreBounds
      → Sizes
      → Fault
      → String
      → String
      → String
      → String
      → String
      → TimeTriple
      → RecordIdentity
      → Call
  claims : (List OutboxRow → List OutboxRow) → StoreBounds → Fault → ℕ → String → Call
  acknowledges : Fault → ℕ → String → Call
  recalculates : Fault → String → ℕ → Call

unfoldable pub step : Outbox → Call → Outbox
step db (inserts bounds sizes fault operation entity sensor value unit times identity) =
    (insert bounds sizes fault db operation entity sensor value unit times identity).1
step db (claims order bounds fault limit token) = (claim_queued order bounds fault db limit token).1
step db (acknowledges fault id token) = (acknowledge fault db id token).1
step db (recalculates fault entity generation) = (mark_recalculated fault db entity generation).1

unfoldable pub run : Outbox → List Call → Outbox
run db [] = db
run db (c ∷ cs) = run (step db c) cs

-- A fault as far as the tables can tell: the answer to a commit is there or was lost.
abbrev pub told : {A : Type 0} → Fault → List A → List A
told answered l = l
told (lost e) l = l
told (refused e) l = []

abbrev pub row_ids : Result OutboxError (List OutboxRow) × Outbox → List ℕ
row_ids (ok rows, db) = ids rows
row_ids (err e, db) = []

abbrev pub new_id : Result OutboxError ℕ × Outbox → List ℕ
new_id (ok id, db) = id ∷ []
new_id (err e, db) = []

-- The rows that a call takes, and the row that it adds, also where the answer is lost.
unfoldable pub taken : Outbox → Call → List ℕ
taken db (claims order bounds fault limit token) =
    told fault (row_ids (claim_queued order bounds answered db limit token))
taken db _ = []

unfoldable pub added : Outbox → Call → List ℕ
added db (inserts bounds sizes fault operation entity sensor value unit times identity) =
    told fault
      (new_id (insert bounds sizes answered db operation entity sensor value unit times identity))
added db _ = []

-- The answers, call by call.
unfoldable pub all_taken : Outbox → List Call → List (List ℕ)
all_taken db [] = []
all_taken db (c ∷ cs) = taken db c ∷ all_taken (step db c) cs

unfoldable pub all_added : Outbox → List Call → List ℕ
all_added db [] = []
all_added db (c ∷ cs) = added db c ++ all_added (step db c) cs

take-drop : (n : ℕ) (l : List ℕ) → take n l ++ drop n l ≡ l
take-drop zero l = refl
take-drop (suc n) [] = refl
take-drop (suc n) (x ∷ l) = ap (λ r. x ∷ r) (take-drop n l)

waiting-append :
    (rows : List OutboxRow) (r : OutboxRow)
    → r.status ≡ queued
    → ids (waiting (rows ++ r ∷ [])) ≡ ids (waiting rows) ++ r.id ∷ []
waiting-append [] r h = ground (arith, h)
waiting-append (x ∷ rows) r h = ground (arith, waiting-append rows r h)

update-waiting :
    (id : ℕ) (token : String) (rows : List OutboxRow)
    → ids (waiting (update (holds_claim id token) set_acked rows)) ≡ ids (waiting rows)
unfolding update holds_claim
update-waiting id token [] = refl
update-waiting id token (r ∷ rows) = ground (arith, update-waiting id token rows)

-- Every claim returns its rows in some order.
abbrev pub Reorders : List Call → Type 0
Reorders [] = Unit {0}
Reorders (claims order bounds fault limit token ∷ cs) =
    ((rows : List OutboxRow) → Perm (order rows) rows) × Reorders cs
Reorders (inserts bounds sizes fault operation entity sensor value unit times identity ∷ cs) =
    Reorders cs
Reorders (acknowledges fault id token ∷ cs) = Reorders cs
Reorders (recalculates fault entity generation ∷ cs) = Reorders cs

-- Batch by batch the same rows.
abbrev pub Rearranges : List (List ℕ) → List (List ℕ) → Type 0
Rearranges [] [] = Unit {0}
Rearranges [] (b ∷ bs) = ⊥
Rearranges (a ∷ as') [] = ⊥
Rearranges (a ∷ as') (b ∷ bs) = Perm a b × Rearranges as' bs

abbrev pub joined_batches : List (List ℕ) → List ℕ
joined_batches [] = []
joined_batches (b ∷ bs) = b ++ joined_batches bs

abbrev unordered : List OutboxRow → List OutboxRow
unordered rows = rows

row_ids-Perm :
    (order : List OutboxRow → List OutboxRow) (bounds : StoreBounds) (db : Outbox) (limit : ℕ)
    (token : String)
    → ((rows : List OutboxRow) → Perm (order rows) rows)
    → Perm
        (row_ids (claim_queued order bounds answered db limit token))
        (row_ids (claim_queued unordered bounds answered db limit token))
unfolding claim_queued committed
row_ids-Perm order bounds db limit token h = elim (Bool-cases (nat_eq limit 0)) [
  | inl zero_limit ↦ rw zero_limit (Perm.refl [])
  | inr some_limit ↦ elim (Result-cases (validate_token token)) [
    | inr (e, bad) ↦ rw (some_limit, bad) (Perm.refl [])
    | inl (t, good) ↦
        rw (some_limit, good)
          (Perm.map (λ r. r.id) (h (claim_first t (effective_limit bounds limit) db.rows).1))
  ]
]

-- One call keeps the order: what it takes and leaves is what was waiting and what it adds.
claim_lem :
    (order : List OutboxRow → List OutboxRow) (bounds : StoreBounds) (fault : Fault) (db : Outbox)
    (limit : ℕ) (token : String)
    → told fault (row_ids (claim_queued unordered bounds answered db limit token))
        ++ ids (waiting (claim_queued order bounds fault db limit token).1.rows)
      ≡ ids (waiting db.rows)
unfolding claim_queued validate_token committed
claim_lem order bounds fault db limit token = ground (
  arith,
  claim_first-ids token (effective_limit bounds limit) db.rows,
  claim_first-waiting token (effective_limit bounds limit) db.rows,
  take-drop (effective_limit bounds limit) (ids (waiting db.rows)),
)

insert_lem :
    (bounds : StoreBounds) (sizes : Sizes) (fault : Fault) (db : Outbox)
    (operation entity sensor value unit : String) (times : TimeTriple) (identity : RecordIdentity)
    → ids (
        waiting
          (insert bounds sizes fault db operation entity sensor value unit times identity).1.rows)
      ≡ ids (waiting db.rows)
        ++ told fault (
            new_id
              (insert bounds sizes answered db operation entity sensor value unit times identity))
unfolding insert committed
insert_lem bounds sizes fault db operation entity sensor value unit times identity = ground (
  arith,
  append-nil (ids (waiting db.rows)),
  waiting-append db.rows
      (record {
        id = db.last_id + 1;
        operation = operation;
        entity = entity;
        sensor = sensor;
        value_json = value;
        unit = unit;
        times = times;
        record_identity = identity;
        status = queued;
        claimed_by = none;
      })
      refl,
)

acknowledge_lem :
    (fault : Fault) (db : Outbox) (id : ℕ) (token : String)
    → ids (waiting (acknowledge fault db id token).1.rows) ≡ ids (waiting db.rows)
unfolding acknowledge validate_token committed
acknowledge_lem fault db id token = ground (arith, update-waiting id token db.rows)

recalculate_lem :
    (fault : Fault) (db : Outbox) (entity : String) (generation : ℕ)
    → (mark_recalculated fault db entity generation).1.rows ≡ db.rows
unfolding mark_recalculated committed
recalculate_lem fault db entity generation = ground arith

told-Perm : (fault : Fault) (a b : List ℕ) → Perm a b → Perm (told fault a) (told fault b)
told-Perm answered a b p = p
told-Perm (lost e) a b p = p
told-Perm (refused e) a b p = Perm.refl []

-- What one call answers is its batch, which stands before what is left waiting.
record Step (db : Outbox) (c : Call) : Type 0 where
  pub batch : List ℕ
  pub same : Perm (taken db c) batch
  pub order : batch ++ ids (waiting (step db c).rows) ≡ ids (waiting db.rows) ++ added db c

step_lem : (db : Outbox) (c : Call) (cs : List Call) → Reorders (c ∷ cs) → Step db c × Reorders cs
unfolding step taken added
step_lem db (inserts bounds sizes fault operation entity sensor value unit times identity) cs h = (
  record {
    batch = [];
    same = Perm.refl [];
    order = insert_lem bounds sizes fault db operation entity sensor value unit times identity;
  },
  h,
)
step_lem db (claims order bounds fault limit token) cs h = (
  record {
    batch = told fault (row_ids (claim_queued unordered bounds answered db limit token));
    same = told-Perm fault _ _ (row_ids-Perm order bounds db limit token h.0);
    order = claim_lem order bounds fault db limit token ∙ sym (append-nil (ids (waiting db.rows)));
  },
  h.1,
)
step_lem db (acknowledges fault id token) cs h = (
  record {
    batch = [];
    same = Perm.refl [];
    order = acknowledge_lem fault db id token ∙ sym (append-nil (ids (waiting db.rows)));
  },
  h,
)
step_lem db (recalculates fault entity generation) cs h = (
  record {
    batch = [];
    same = Perm.refl [];
    order =
        ap (λ r. ids (waiting r)) (recalculate_lem fault db entity generation)
        ∙ sym (append-nil (ids (waiting db.rows)));
  },
  h,
)

-- Over any history of inserts, claims, acknowledgements and recalculations, under any faults, where each claim
-- may return its rows in any order: the rows that the claims take, claim by claim and within a claim in some
-- order, and behind them the rows still waiting, are the rows that waited at first and behind them those
-- that were added.
pub run-fifo :
    (db : Outbox) (calls : List Call)
    → Reorders calls
    → (batches : List (List ℕ)) × Rearranges (all_taken db calls) batches
      × (joined_batches batches ++ ids (waiting (run db calls).rows)
          ≡ ids (waiting db.rows) ++ all_added db calls)
unfolding run all_taken all_added
run-fifo db [] h = ([], tt, sym (append-nil (ids (waiting db.rows))))
run-fifo db (c ∷ cs) h =
    let (one, orders) = step_lem db c cs h in
    let (batches, same, order) = run-fifo (step db c) cs orders in
    (
      one.batch ∷ batches,
      (one.same, same),
      append_assoc one.batch (joined_batches batches) _
          ∙ ap (λ l. one.batch ++ l) order
          ∙ sym (append_assoc one.batch (ids (waiting (step db c).rows)) _)
          ∙ ap (λ l. l ++ all_added (step db c) cs) one.order
          ∙ append_assoc (ids (waiting db.rows)) (added db c) (all_added (step db c) cs),
    )
