-- ===== src/Access/Records/Checks.antt =====
-- When `State::checked` accepts a credential.
use verdant.Base.{
  ◌≡◌, ◌↔◌, String, Bool, true, false, Option, none, some, Result, ok, err, find, arith,
  string_partial_eq, list_partial_eq, nat_partial_eq, eq_iff, list_eq_iff, nat_eq, nat_eq_iff,
}
use verdant.Base.Int.{ℤ, ltb_ℤ}
use verdant.Access.{AccessError, Credential, fingerprint_str}
use verdant.Access.Policy.{CapabilityPolicy}
use verdant.Access.Records.{
  State, IssueRow, checked, require_bootstrapped, latest_issue, issued, has_revoked,
  bootstrap_issuer, synthetic_user,
}

abbrev pub InScope : Option String → IssueRow → Type 0
InScope none row = Unit
InScope (some scope) row = scope ≡ row.scope

abbrev pub LiveAt : Option ℤ → ℤ → Type 0
LiveAt none now = Unit
LiveAt (some end) now = ltb_ℤ now end ≡ true

-- The clock answers, and the policy has not expired by then.
abbrev pub IsLive : CapabilityPolicy → Result AccessError ℤ → Type 0
IsLive policy (err e) = ⊥
IsLive policy (ok now) = LiveAt policy.expires_at_ms now

abbrev pub SameGeneration : IssueRow → Option IssueRow → Type 0
SameGeneration row none = ⊥
SameGeneration row (some newest) = row.capgen ≡ newest.capgen

-- `row` is the issuance that the credential stands for.
pub record IsEntitled (self : State) (cred : Credential) (scope : Option String)
    (clock : Result AccessError ℤ) (row : IssueRow) : Type 0 where
  pub bootstrapped : require_bootstrapped self ≡ ok tt
  pub found : find (issued cred.capability cred.key_id) self.issues ≡ some row
  pub issuer : row.issuer ≡ bootstrap_issuer
  pub user : row.user ≡ synthetic_user
  pub key : row.key_fp ≡ fingerprint_str cred.key
  pub in_scope : InScope scope row
  pub unrevoked : has_revoked row.cap row.key_id self.revokes ≡ false
  pub current : SameGeneration row (latest_issue cred.capability self.issues)
  pub live : IsLive row.policy clock

checked-IsEntitled :
    (self : State) (cred : Credential) (scope : Option String) (rotating : Bool)
    (clock : Result AccessError ℤ) (row : IssueRow)
    → checked self cred scope rotating clock ≡ ok row
    → IsEntitled self cred scope clock row
unfolding checked
checked-IsEntitled self cred scope rotating (err e) row h = ground arith
checked-IsEntitled self cred none rotating (ok now) row h = record {
  bootstrapped = ground arith;
  found = ground arith;
  issuer = ground (arith, eq_iff row.issuer bootstrap_issuer);
  user = ground (arith, eq_iff row.user synthetic_user);
  key = ground (arith, list_eq_iff nat_eq nat_eq_iff row.key_fp (fingerprint_str cred.key));
  in_scope = tt;
  unrevoked = ground arith;
  current = ground arith;
  live = ground arith;
}
checked-IsEntitled self cred (some scope) rotating (ok now) row h = record {
  bootstrapped = ground arith;
  found = ground arith;
  issuer = ground (arith, eq_iff row.issuer bootstrap_issuer);
  user = ground (arith, eq_iff row.user synthetic_user);
  key = ground (arith, list_eq_iff nat_eq nat_eq_iff row.key_fp (fingerprint_str cred.key));
  in_scope = ground (arith, eq_iff scope row.scope);
  unrevoked = ground arith;
  current = ground arith;
  live = ground arith;
}

IsEntitled-checked :
    (self : State) (cred : Credential) (scope : Option String) (rotating : Bool)
    (clock : Result AccessError ℤ) (row : IssueRow)
    → IsEntitled self cred scope clock row
    → checked self cred scope rotating clock ≡ ok row
unfolding checked
IsEntitled-checked self cred scope rotating (err e) row h = absurd h.live
IsEntitled-checked self cred none rotating (ok now) row h = ground (
  arith,
  h.bootstrapped,
  h.found,
  h.unrevoked,
  h.current,
  h.live,
  eq_iff row.issuer bootstrap_issuer,
  eq_iff row.user synthetic_user,
  list_eq_iff nat_eq nat_eq_iff row.key_fp (fingerprint_str cred.key),
)
IsEntitled-checked self cred (some scope) rotating (ok now) row h = ground (
  arith,
  h.bootstrapped,
  h.found,
  h.unrevoked,
  h.current,
  h.live,
  h.in_scope,
  eq_iff scope row.scope,
  eq_iff row.issuer bootstrap_issuer,
  eq_iff row.user synthetic_user,
  list_eq_iff nat_eq nat_eq_iff row.key_fp (fingerprint_str cred.key),
)

-- A credential is accepted for `row`, rotating or not, exactly when the store is bootstrapped, `row` is the
-- issuance of its capability and key by the trusted issuer to the known user, the key has the issued
-- fingerprint, the scope that is asked for, if any, is the issued one, the key is not revoked, the
-- generation is the capability's latest, and the clock answers before the policy's expiry.
pub checked_iff :
    (self : State) (cred : Credential) (scope : Option String) (rotating : Bool)
    (clock : Result AccessError ℤ) (row : IssueRow)
    → (checked self cred scope rotating clock ≡ ok row) ↔ IsEntitled self cred scope clock row
unfolding checked
checked_iff self cred scope rotating clock row = (
  checked-IsEntitled self cred scope rotating clock row,
  IsEntitled-checked self cred scope rotating clock row,
)
