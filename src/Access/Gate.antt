-- ===== src/Access/Gate.antt =====
-- src/access/gate.rs: every mutation reads a snapshot, checks the caller on it, and submits a batch that
-- runs only if the snapshot is still what the store holds. `log` is the store when the batch
-- runs, `seen` how many of its rows the caller's snapshot had: rows are only ever added.
use verdant.Base.{
  ℕ, suc, String, Bool, true, false, not, ◌&&◌, Option, none, some, List, [], ◌∷◌, ◌++◌, nat_eq,
  any, all, length, Result, ok, err, ◌>>=◌, ◌>>◌, ensure, refuse_if, ok_or, ◌==◌, string_partial_eq,
  list_partial_eq, nat_partial_eq, if◌then◌else◌, u32_max, checked_add, is_ok,
}
use verdant.Base.Int.{ℤ, ltb_ℤ}
use verdant.Base.Bytes.{Bytes}
use verdant.Domain.Ids
use verdant.Storage.Mutation.{StorageError, conflict}
use verdant.Access.{
  AccessError, already_bootstrapped, invalid_input, invalid_record, generation_overflow,
  policy_denied, mutation_unknown, store, Credential, RoleKind, reviewer, publisher, role_text,
  fingerprint_str,
}
use verdant.Access.Policy.{
  CapabilityPolicy, credential_ceiling, entry_only, administrator, require_live, authorize,
}
use verdant.Access.Records.{
  Log, AdmissionRow, Descriptor, bootstrap, issue, revoke, IssueRow, RevokeRow, BootstrapRow, State,
  checked, has_cap, issued, bootstrap_issuer, synthetic_user, reviewer_cap, publisher_cap,
}

-- Equality of the persisted bytes, as the guard compares them.
abbrev pub same_option : {A : Type 0} → (A → A → Bool) → Option A → Option A → Bool
same_option eq none none = true
same_option eq (some a) (some b) = eq a b
same_option eq _ _ = false

abbrev pub int_eq : ℤ → ℤ → Bool
int_eq a b = not (ltb_ℤ a b) && not (ltb_ℤ b a)

abbrev pub policy_eq : CapabilityPolicy → CapabilityPolicy → Bool
policy_eq a b =
    a.scopes == b.scopes
    && same_option nat_eq a.admin_ceiling b.admin_ceiling
    && same_option int_eq a.expires_at_ms b.expires_at_ms

abbrev pub issue_eq : IssueRow → IssueRow → Bool
issue_eq a b =
    a.cap == b.cap
    && a.scope == b.scope
    && nat_eq a.ceiling b.ceiling
    && a.role == b.role
    && a.key_id == b.key_id
    && a.key_fp == b.key_fp
    && a.issuer == b.issuer
    && nat_eq a.capgen b.capgen
    && a.user == b.user
    && a.reason == b.reason
    && a.label == b.label
    && policy_eq a.policy b.policy

abbrev pub revoke_eq : RevokeRow → RevokeRow → Bool
revoke_eq a b =
    a.cap == b.cap
    && a.key_id == b.key_id
    && nat_eq a.capgen b.capgen
    && a.issuer == b.issuer
    && a.reason == b.reason

abbrev pub bootstrap_eq : BootstrapRow → BootstrapRow → Bool
bootstrap_eq a b =
    a.user == b.user
    && a.issuer == b.issuer
    && a.reason == b.reason
    && nat_eq a.generation b.generation

abbrev pub descriptor_eq : Descriptor → Descriptor → Bool
descriptor_eq (bootstrap a) (bootstrap b) = bootstrap_eq a b
descriptor_eq (issue a) (issue b) = issue_eq a b
descriptor_eq (revoke a) (revoke b) = revoke_eq a b
descriptor_eq _ _ = false

unfoldable pub row_eq : AdmissionRow → AdmissionRow → Bool
row_eq a b =
    nat_eq a.id b.id
    && a.operation == b.operation
    && a.entity == b.entity
    && descriptor_eq a.descriptor b.descriptor

-- The guard of a snapshot: as many rows, and each of its rows is still there.
unfoldable pub is_unchanged : Log → Log → Bool
unfolding row_eq
is_unchanged guard log = nat_eq (length log) (length guard) && all (λ r. any (row_eq r) log) guard

-- A row of a batch: its operation, its entity and its descriptor.
abbrev pub BatchEntry : Type 0
BatchEntry = String × String × Descriptor

pub record PreparedBatch : Type 0 where
  pub guard : Log
  pub entries : List BatchEntry
  pub expires : Option ℤ

abbrev valid_entry : BatchEntry → Bool
valid_entry (operation, entity, descriptor) =
    is_ok (Ids.parse "operation-id" operation) && is_ok (Ids.parse "installed-id" entity)

-- `batch`; the size of the values is the store's to refuse.
unfoldable pub batch : State → List BatchEntry → Option ℤ → Result AccessError PreparedBatch
batch state entries expires = do
  ensure (all valid_entry entries) (invalid_record "batch identity")
  ok (record { guard = state.guard; entries = entries; expires = expires })

-- The rows that the inserts append, from the store's next id on.
unfoldable pub batch_rows : ℕ → List BatchEntry → Log
batch_rows id [] = []
batch_rows id ((operation, entity, descriptor) ∷ entries) =
    record { id = id; operation = operation; entity = entity; descriptor = descriptor }
    ∷ batch_rows (suc id) entries

abbrev pub is_live : Option ℤ → ℤ → Bool
is_live none now = true
is_live (some end) now = ltb_ℤ now end

-- What the store answers to a ticket: it may refuse it, may not reach its rows, and may lose the
-- answer to a COMMIT that did or did not apply.
pub data Fate : Type 0 where
  commits : Fate
  refuses : StorageError → Fate
  conflicts unread : String → Fate
  loses : Bool → String → Fate

-- The store's next id and its clock when the batch runs.
pub record Moment : Type 0 where
  pub next_id : ℕ
  pub now : ℤ
  pub fate : Fate

-- The batch's own checks, under the writer's lock, and its rows.
unfoldable pub run_guarded : PreparedBatch → Moment → Log → Result AccessError Log
unfolding is_unchanged batch_rows
run_guarded p at_store log = do
  ensure (is_unchanged p.guard log) (store (conflict "access state changed at mutation boundary"))
  ensure (is_live p.expires at_store.now) (policy_denied "credential expired at mutation boundary")
  ok (log ++ batch_rows at_store.next_id p.entries)

abbrev pub submit_result : Fate → Log → Result AccessError Log → Log × Result AccessError (Unit {0})
submit_result (refuses e) log result = (log, err (store e))
submit_result (conflicts detail) log result = (log, err (store (conflict detail)))
submit_result (unread detail) log result = (log, err (mutation_unknown detail))
submit_result fate log (err e) = (log, err e)
submit_result commits log (ok next) = (next, ok tt)
submit_result (loses true detail) log (ok next) = (next, err (mutation_unknown detail))
submit_result (loses false detail) log (ok next) = (log, err (mutation_unknown detail))

unfoldable pub submit : PreparedBatch → Moment → Log → Log × Result AccessError (Unit {0})
unfolding run_guarded
submit p at_store log = submit_result at_store.fate log (run_guarded p at_store log)

unfoldable pub issue_row :
    Credential → String → ℕ → RoleKind → String → String → CapabilityPolicy → IssueRow
unfolding role_text
issue_row credential scope ceiling role reason label policy = record {
  cap = credential.capability;
  scope = scope;
  ceiling = ceiling;
  role = role_text role;
  key_id = credential.key_id;
  key_fp = fingerprint_str credential.key;
  issuer = bootstrap_issuer;
  capgen = 1;
  user = synthetic_user;
  reason = reason;
  label = label;
  policy = policy;
}

unfoldable pub revoke_row : IssueRow → String → RevokeRow
revoke_row row reason = record {
  cap = row.cap;
  key_id = row.key_id;
  capgen = row.capgen;
  issuer = bootstrap_issuer;
  reason = reason;
}

unfoldable pub earliest : Option ℤ → Option ℤ → Option ℤ
earliest none b = b
earliest (some a) none = some a
earliest (some a) (some b) = some (if ltb_ℤ b a then b else a)

-- The keys are made from the process and a counter: they are inputs.
unfoldable pub bootstrap_batch : State → Bytes → Bytes → String → Result AccessError PreparedBatch
unfolding issue_row batch administrator entry_only
bootstrap_batch state reviewer_key publisher_key reason = do
  ensure (nat_eq state.count 0) already_bootstrapped
  let marker : BootstrapRow = record {
    user = synthetic_user;
    issuer = bootstrap_issuer;
    reason = reason;
    generation = 1;
  }
  let reviewing =
      issue_row
        (record { capability = reviewer_cap; key_id = "key-reviewer-1"; key = reviewer_key })
        "scope-a" 1 reviewer reason "synthetic" (entry_only none)
  policy ← administrator ("scope-a" ∷ "scope-b" ∷ []) 2 none
  let publishing =
      issue_row
        (record { capability = publisher_cap; key_id = "key-publisher-1"; key = publisher_key })
        "scope-a" 2 publisher reason "synthetic" policy
  batch state
      (("access-bootstrap", synthetic_user, bootstrap marker)
        ∷ ("access-issue", reviewer_cap, issue reviewing)
        ∷ ("access-issue", publisher_cap, issue publishing)
        ∷ [])
      none

pub record IssueRequest : Type 0 where
  pub credential : Credential
  pub scope : String
  pub ceiling : ℕ
  pub role : RoleKind
  pub administrator : Credential
  pub reason : String
  pub label : String
  pub policy : CapabilityPolicy

unfoldable pub issue_batch :
    State
    → IssueRequest
    → Result AccessError ℤ
    → Result AccessError ℤ
    → Result AccessError PreparedBatch
unfolding issue_row batch
issue_batch state request clock later_clock = do
  admin ← checked state request.administrator none false clock
  bound ← credential_ceiling request.scope request.ceiling
  authorize admin.policy bound request.policy
  now ← later_clock
  require_live request.policy now
  refuse_if (has_cap request.credential.capability state.issues) already_bootstrapped
  let row =
      issue_row request.credential request.scope request.ceiling request.role request.reason
        request.label request.policy
  batch state (("access-issue", row.cap, issue row) ∷ [])
      (earliest admin.policy.expires_at_ms request.policy.expires_at_ms)

unfoldable pub rotate_batch :
    State
    → Credential
    → String
    → Bytes
    → String
    → Result AccessError ℤ
    → Result AccessError PreparedBatch
unfolding revoke_row batch
rotate_batch state current new_key_id new_key reason clock = do
  row ← checked state current none true clock
  next ← ok_or (checked_add u32_max row.capgen 1) (generation_overflow row.cap)
  refuse_if (any (issued row.cap new_key_id) state.issues)
      (invalid_input "key-id" "rotation requires a fresh key identity")
  let successor = record row {
    capgen = next;
    key_id = new_key_id;
    key_fp = fingerprint_str new_key;
    reason = reason;
  }
  batch state
      (("access-revoke", row.cap, revoke (revoke_row row reason))
        ∷ ("access-issue", row.cap, issue successor)
        ∷ [])
      row.policy.expires_at_ms

unfoldable pub revoke_batch :
    State → Credential → String → Result AccessError ℤ → Result AccessError PreparedBatch
unfolding revoke_row batch
revoke_batch state current reason clock = do
  row ← checked state current none false clock
  batch state (("access-revoke", row.cap, revoke (revoke_row row reason)) ∷ [])
      row.policy.expires_at_ms
