-- ===== src/Action/Journal/Answers.antt =====
-- What the answers of the writer (src/action_journal/mod.rs) and of `decode_row`
-- (src/action_journal/lifecycle.rs) mean.
use verdant.Base.{
  ◌≡◌, refl, ap, ◌≢◌, Bool, ◌||◌, true, false, Option, some, none, String, arith, ◌==◌,
  string_partial_eq, eq_iff, Result, ok, err, find, Option-cases, inl, inr, subst, bool_eq,
}
use verdant.Action.Journal.{
  WriterError, invalid, check_actor, Admitted, ActionKind, set, release, kind_eq,
}
use verdant.Action.Journal.Tables.{
  JournalRow, LifecycleRow, Tables, Rollback, admission_body, tracks,
}
use verdant.Action.Journal.Rows.{is_row, is_legacy_row, is_complete, decode_row, read_row}
use verdant.Action.Journal.Writer.{
  Journal, DatabaseTimes, PendingAdmission, Receipt, recorded, absent, mismatched, unreadable, Fate,
  commits, refused, conflicts, lost, row_of, require_identical, submit, checked_row, after_checked,
  after_commit, submit_fresh, mark_reconciled, announce_admitted, option_eq,
}

-- An answer that the tables hold and that is the pending admission, field by field.
pub record IsDurable (t : Tables) (p : PendingAdmission) (a : Admitted) : Type 0 where
  pub row : JournalRow
  pub found : find (is_row p.operation p.scope) t.journal ≡ some row
  pub row_payload : row.payload ≡ a.payload
  pub row_bits : row.wire_bits ≡ a.wire_bits
  pub row_generation : row.target_generation ≡ a.target_generation
  pub payload : a.payload ≡ p.payload
  pub bits : a.wire_bits ≡ some p.wire_bits
  pub kind : a.action_kind ≡ some p.kind
  pub released : a.release_admitted ≡ some p.release_admitted
  pub target : a.release_target ≡ some p.release_target
  pub predecessor : a.predecessor ≡ p.predecessor

option_eq_iff-string : (a b : Option String) → option_eq (λ x y. x == y) a b ≡ true → a ≡ b
option_eq_iff-string none none h = refl
option_eq_iff-string none (some b) h = absurd (cc)
option_eq_iff-string (some a) none h = absurd (cc)
option_eq_iff-string (some a) (some b) h = ground (arith, eq_iff a b)

kind_eq-same :
    (a : Option ActionKind) (b : ActionKind) → option_eq kind_eq a (some b) ≡ true → a ≡ some b
kind_eq-same none b h = absurd (cc)
kind_eq-same (some set) set h = refl
kind_eq-same (some set) release h = absurd (cc)
kind_eq-same (some release) set h = absurd (cc)
kind_eq-same (some release) release h = refl

bool_eq-same : (a : Option Bool) (b : Bool) → option_eq bool_eq a (some b) ≡ true → a ≡ some b
bool_eq-same none b h = absurd (cc)
bool_eq-same (some true) true h = refl
bool_eq-same (some true) false h = absurd (cc)
bool_eq-same (some false) true h = absurd (cc)
bool_eq-same (some false) false h = refl

record Same (p : PendingAdmission) (a : Admitted) : Type 0 where
  pub payload : a.payload ≡ p.payload
  pub bits : a.wire_bits ≡ some p.wire_bits
  pub kind : a.action_kind ≡ some p.kind
  pub released : a.release_admitted ≡ some p.release_admitted
  pub target : a.release_target ≡ some p.release_target
  pub predecessor : a.predecessor ≡ p.predecessor

require_identical-Same :
    (p : PendingAdmission) (a : Admitted) → require_identical p a ≡ ok tt → Same p a
unfolding require_identical
require_identical-Same p a h = record {
  payload = ground (arith, eq_iff a.payload p.payload);
  bits = ground arith;
  kind = kind_eq-same a.action_kind p.kind (ground arith);
  released = bool_eq-same a.release_admitted p.release_admitted (ground arith);
  target = option_eq_iff-string a.release_target (some p.release_target) (ground arith);
  predecessor = option_eq_iff-string a.predecessor p.predecessor (ground arith);
}

decode_row-values :
    (r : JournalRow) (l : Option LifecycleRow) (scope : String) (a : Admitted)
    → decode_row r l scope ≡ ok a
    → (r.payload ≡ a.payload)
      × (r.wire_bits ≡ a.wire_bits)
      × (r.target_generation ≡ a.target_generation)
unfolding decode_row
decode_row-values r l scope a h = (ground arith, ground arith, ground arith)

checked_row-IsDurable :
    (t : Tables) (p : PendingAdmission) (a : Admitted) → checked_row t p ≡ ok a → IsDurable t p a
unfolding read_row
checked_row-IsDurable t p a h = elim (Option-cases (find (is_row p.operation p.scope) t.journal)) [
  | inl e ↦ absurd (ground arith)
  | inr (r, e) ↦
      let same = require_identical-Same p a (ground arith) in
      let (payload, bits, generation) =
        decode_row-values r (find (tracks r.operation) t.lifecycle) p.scope a (ground arith) in
      record {
        row = r;
        found = e;
        row_payload = payload;
        row_bits = bits;
        row_generation = generation;
        payload = same.payload;
        bits = same.bits;
        kind = same.kind;
        released = same.released;
        target = same.target;
        predecessor = same.predecessor;
      }
]

after_checked-IsDurable :
    (j : Journal) (t : Tables) (p : PendingAdmission) (res : Result WriterError Admitted)
    (a : Admitted)
    → checked_row t p ≡ res
    → (after_checked j t res).0 ≡ ok a
    → IsDurable (after_checked j t res).1.tables p a
unfolding announce_admitted
after_checked-IsDurable j t p (ok b) a h k = checked_row-IsDurable t p a (ground arith)
after_checked-IsDurable j t p (err e) a h k = absurd (cc)

after_commit-IsDurable :
    (j : Journal) (now : DatabaseTimes) (p : PendingAdmission) (res : Result Rollback Tables)
    (a : Admitted)
    → (after_commit j now p res).0 ≡ ok a
    → IsDurable (after_commit j now p res).1.tables p a
after_commit-IsDurable j now p (ok t) a h = after_checked-IsDurable j t p (checked_row t p) a refl h
after_commit-IsDurable j now p (err r) a h = absurd (cc)

submit_fresh-IsDurable :
    (j : Journal) (now : DatabaseTimes) (p : PendingAdmission) (f : Fate) (a : Admitted)
    → (submit_fresh j now p f).0 ≡ ok a
    → IsDurable (submit_fresh j now p f).1.tables p a
submit_fresh-IsDurable j now p commits a h =
    after_commit-IsDurable j now p
      (admission_body j.tables now.checked (row_of p now.inserted) p.predecessor) a h
submit_fresh-IsDurable j now p (refused e) a h = absurd (cc)
submit_fresh-IsDurable j now p (conflicts e) a h = absurd (cc)
submit_fresh-IsDurable j now p (lost b e) a h = absurd (cc)

answer_marked :
    (t : Tables) (p : PendingAdmission) (b : Admitted)
    → IsDurable t p b
    → IsDurable t p (record b { reconciled = true })
answer_marked t p b d = record {
  row = d.row;
  found = d.found;
  row_payload = d.row_payload;
  row_bits = d.row_bits;
  row_generation = d.row_generation;
  payload = d.payload;
  bits = d.bits;
  kind = d.kind;
  released = d.released;
  target = d.target;
  predecessor = d.predecessor;
}

mark-IsDurable :
    (t : Tables) (p : PendingAdmission) (res : Result WriterError Admitted) (a : Admitted)
    → checked_row t p ≡ res
    → mark_reconciled res ≡ ok a
    → IsDurable t p a
mark-IsDurable t p (ok b) a h k =
    let marked : record b { reconciled = true } ≡ a = ground (arith, k) in
    subst (IsDurable t p) marked (answer_marked t p b (checked_row-IsDurable t p b h))
mark-IsDurable t p (err e) a h k = absurd (cc)

-- Whatever a submit answers with success is durable and is what was asked for: the tables hold a row of the
-- operation and scope with the answer's payload, bits and generation, and the answer has the pending
-- payload, wire bits, kind, release admission, release target and predecessor.
pub submit-IsDurable :
    (j : Journal) (now : DatabaseTimes) (p : PendingAdmission) (r : Receipt) (f : Fate)
    (a : Admitted)
    → (submit j now p r f).0 ≡ ok a
    → IsDurable (submit j now p r f).1.tables p a
unfolding submit
submit-IsDurable j now p recorded f a h =
    mark-IsDurable j.tables p (checked_row j.tables p) a refl h
submit-IsDurable j now p absent f a h = submit_fresh-IsDurable j now p f a h
submit-IsDurable j now p (mismatched d) f a h = absurd (cc)
submit-IsDurable j now p (unreadable d) f a h = absurd (cc)

abbrev is_partial_error : WriterError → Bool
is_partial_error (invalid what) = what == "journal identity partial"
is_partial_error _ = false

abbrev is_partial : {A : Type 0} → Result WriterError A → Bool
is_partial (ok a) = false
is_partial (err e) = is_partial_error e

check_actor-not_partial : (raw : String) → is_partial (check_actor raw) ≡ false
unfolding check_actor
check_actor-not_partial raw = ground arith

legacy_or_complete : (r : JournalRow) → (is_legacy_row r || is_complete r) ≡ true
legacy_or_complete r = ground arith

decode_row-not_partial :
    (r : JournalRow) (l : Option LifecycleRow) (scope : String)
    → is_partial (decode_row r l scope) ≡ false
unfolding decode_row
decode_row-not_partial r l scope =
    ground (arith, check_actor-not_partial r.actor, legacy_or_complete r)

-- No row is refused as partial, also when it has some of the four lossless columns and not the others.
pub decode_row_never_partial :
    (r : JournalRow) (l : Option LifecycleRow) (scope : String)
    → decode_row r l scope ≢ err (invalid "journal identity partial")
decode_row_never_partial r l scope h =
    let told : is_partial (decode_row r l scope) ≡ true = ap is_partial h in
    absurd (ground (arith, decode_row-not_partial r l scope))
