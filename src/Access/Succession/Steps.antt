-- ===== src/Access/Succession/Steps.antt =====
-- What each call of access/gate.rs adds to the rows, when it prepares a batch.
use verdant.Base.{
  ℕ, ◌≡◌, inl, inr, String, true, false, none, some, [], ◌∷◌, Result, ok, arith, string_partial_eq,
  nat_partial_eq, any, checked_add, u32_max, Result-cases, Option-cases,
}
use verdant.Base.Bytes.{Bytes}
use verdant.Base.Int.{ℤ}
use verdant.Access.{AccessError, Credential, fingerprint_str, reviewer, publisher}
use verdant.Access.Records.{
  State, IssueRow, checked, issued, has_cap, issue, revoke, synthetic_user, bootstrap,
  bootstrap_issuer, reviewer_cap, publisher_cap,
}
use verdant.Access.Records.Checks.{IsEntitled, checked_iff}
use verdant.Access.Gate.{
  PreparedBatch, issue_batch, rotate_batch, revoke_batch, revoke_row, issue_row, IssueRequest,
  bootstrap_batch,
}
use verdant.Access.Policy.{
  authorize, credential_ceiling, CapabilityPolicy, administrator, entry_only,
}

abbrev pub successor : IssueRow → ℕ → String → Bytes → String → IssueRow
successor row next key_id key reason = record row {
  capgen = next;
  key_id = key_id;
  key_fp = fingerprint_str key;
  reason = reason;
}

-- A rotation that prepares: the checked issuance, its next generation, and the two rows.
pub record Rotates (s : State) (current : Credential) (key_id : String) (key : Bytes)
    (reason : String) (clock : Result AccessError ℤ) (p : PreparedBatch) : Type 0 where
  pub row : IssueRow
  pub next : ℕ
  pub entitled : IsEntitled s current none clock row
  pub generation : checked_add u32_max row.capgen 1 ≡ some next
  pub fresh : any (issued row.cap key_id) s.issues ≡ false
  pub entries :
      p.entries
      ≡ ("access-revoke", row.cap, revoke (revoke_row row reason))
        ∷ ("access-issue", row.cap, issue (successor row next key_id key reason))
        ∷ []

pub rotate_batch-Rotates :
    (s : State) (current : Credential) (key_id : String) (key : Bytes) (reason : String)
    (clock : Result AccessError ℤ) (p : PreparedBatch)
    → rotate_batch s current key_id key reason clock ≡ ok p
    → Rotates s current key_id key reason clock p
unfolding rotate_batch
rotate_batch-Rotates s current key_id key reason clock p h =
    elim (Result-cases (checked s current none true clock)) [
      | inl (row, e) ↦ elim (Option-cases (checked_add u32_max row.capgen 1)) [
        | inl overflow ↦ absurd (ground arith)
        | inr (next, f) ↦ record {
          row = row;
          next = next;
          entitled = (checked_iff s current none true clock row).0 e;
          generation = f;
          fresh = ground arith;
          entries = ground arith;
        }
      ]
      | inr (e, f) ↦ absurd (ground arith)
    ]

pub record Revokes (s : State) (current : Credential) (reason : String)
    (clock : Result AccessError ℤ) (p : PreparedBatch) : Type 0 where
  pub row : IssueRow
  pub entitled : IsEntitled s current none clock row
  pub entries : p.entries ≡ ("access-revoke", row.cap, revoke (revoke_row row reason)) ∷ []

pub revoke_batch-Revokes :
    (s : State) (current : Credential) (reason : String) (clock : Result AccessError ℤ)
    (p : PreparedBatch)
    → revoke_batch s current reason clock ≡ ok p
    → Revokes s current reason clock p
unfolding revoke_batch
revoke_batch-Revokes s current reason clock p h =
    elim (Result-cases (checked s current none false clock)) [
      | inl (row, e) ↦ record {
        row = row;
        entitled = (checked_iff s current none false clock row).0 e;
        entries = ground arith;
      }
      | inr (e, f) ↦ absurd (ground arith)
    ]

-- An issuance that prepares: the administrator's issuance, its consent, and the row of a new capability.
pub record Issues (s : State) (request : IssueRequest) (clock : Result AccessError ℤ)
    (p : PreparedBatch) : Type 0 where
  pub admin : IssueRow
  pub entitled : IsEntitled s request.administrator none clock admin
  pub within :
      authorize admin.policy
        (record { scope = request.scope; level = request.ceiling })
        request.policy
      ≡ ok tt
  pub unknown : has_cap request.credential.capability s.issues ≡ false
  pub entries :
      p.entries
      ≡ (
        "access-issue",
        request.credential.capability,
        issue (
            issue_row request.credential request.scope request.ceiling request.role request.reason
              request.label request.policy),
      )
        ∷ []

pub issue_batch-Issues :
    (s : State) (request : IssueRequest) (clock later : Result AccessError ℤ) (p : PreparedBatch)
    → issue_batch s request clock later ≡ ok p
    → Issues s request clock p
unfolding issue_batch credential_ceiling
issue_batch-Issues s request clock later p h =
    elim (Result-cases (checked s request.administrator none false clock)) [
      | inl (row, e) ↦ record {
        admin = row;
        entitled = (checked_iff s request.administrator none false clock row).0 e;
        within = ground arith;
        unknown = ground arith;
        entries = ground arith;
      }
      | inr (e, f) ↦ absurd (ground arith)
    ]

abbrev pub site_policy : CapabilityPolicy
site_policy = record {
  scopes = "scope-a" ∷ "scope-b" ∷ [];
  admin_ceiling = some 2;
  expires_at_ms = none;
}

-- A bootstrap that prepares: the store has no admission row, and gets the marker and two issuances.
pub record Bootstraps (s : State) (reviewer_key publisher_key : Bytes) (reason : String)
    (p : PreparedBatch) : Type 0 where
  pub empty : s.count ≡ 0
  pub entries :
      p.entries
      ≡ (
        "access-bootstrap",
        synthetic_user,
        bootstrap (record {
          user = synthetic_user;
          issuer = bootstrap_issuer;
          reason = reason;
          generation = 1;
        }),
      )
        ∷ (
          "access-issue",
          reviewer_cap,
          issue (
              issue_row
                (record {
                  capability = reviewer_cap;
                  key_id = "key-reviewer-1";
                  key = reviewer_key;
                })
                "scope-a"
                1
                reviewer
                reason
                "synthetic"
                (entry_only none)),
        )
        ∷ (
          "access-issue",
          publisher_cap,
          issue (
              issue_row
                (record {
                  capability = publisher_cap;
                  key_id = "key-publisher-1";
                  key = publisher_key;
                })
                "scope-a"
                2
                publisher
                reason
                "synthetic"
                site_policy),
        )
        ∷ []

pub bootstrap_batch-Bootstraps :
    (s : State) (reviewer_key publisher_key : Bytes) (reason : String) (p : PreparedBatch)
    → bootstrap_batch s reviewer_key publisher_key reason ≡ ok p
    → Bootstraps s reviewer_key publisher_key reason p
unfolding bootstrap_batch administrator
bootstrap_batch-Bootstraps s reviewer_key publisher_key reason p h = record {
  empty = ground arith;
  entries = ground arith;
}
