-- ===== src/Access/Entitlement.antt =====
-- Which credentials `State::checked` of src/access/state.rs accepts, said of the rows alone.
use verdant.Base.{
  ℕ, ◌≤◌, ◌<◌, ◌≡◌, ◌↔◌, ◌≢◌, String, Bool, true, false, Option, none, some, List, [], ◌∷◌, Result,
  ok, err, find, any, arith, string_partial_eq, eq_iff, ◌==◌, ◌&&◌, All, All-find, All-mono,
  Option-cases, inl, inr, find_sound, refl, subst, sym, ◌∙◌,
}
use verdant.Base.Int.{ℤ, ◌<ℤ◌}
use verdant.Access.{Credential, AccessError, fingerprint_str}
use verdant.Access.Records.{
  State, IssueRow, RevokeRow, BootstrapRow, checked, require_bootstrapped, latest_issue, issued,
  has_revoked, reviewer_cap, publisher_cap, bootstrap_issuer, synthetic_user,
}
use verdant.Access.Records.Checks.{IsEntitled, InScope, IsLive, SameGeneration, checked_iff}
use verdant.Access.Succession.{Below, BelowLatest, latest_issue-All}

-- One bootstrap row, of the known user by the trusted issuer.
abbrev pub OneBootstrap : List BootstrapRow → Type 0
OneBootstrap (b ∷ []) = (b.user ≡ synthetic_user) × (b.issuer ≡ bootstrap_issuer)
OneBootstrap _ = ⊥

abbrev pub NotRevoked : IssueRow → RevokeRow → Type 0
NotRevoked row r = r.cap ≡ row.cap → r.key_id ≢ row.key_id

-- The clock answers before the expiry, where there is one.
abbrev pub Before : Option ℤ → Result AccessError ℤ → Type 0
Before end (err e) = ⊥
Before none (ok now) = Unit
Before (some end) (ok now) = now <ℤ end

-- What the rows of a snapshot say for a credential and the issuance that it stands for.
pub record Entitles (self : State) (cred : Credential) (scope : Option String)
    (clock : Result AccessError ℤ) (row : IssueRow) : Type 0 where
  pub rows : 0 < self.count
  pub bootstrap : OneBootstrap self.bootstraps
  pub reviewer_issued : any (λ r. r.cap == reviewer_cap) self.issues ≡ true
  pub publisher_issued : any (λ r. r.cap == publisher_cap) self.issues ≡ true
  pub found : find (λ r. r.cap == cred.capability && r.key_id == cred.key_id) self.issues ≡ some row
  pub issuer : row.issuer ≡ bootstrap_issuer
  pub user : row.user ≡ synthetic_user
  pub key : row.key_fp ≡ fingerprint_str cred.key
  pub in_scope : InScope scope row
  pub unrevoked : All (NotRevoked row) self.revokes
  pub newest : All (λ r. r.cap ≡ row.cap → r.capgen ≤ row.capgen) self.issues
  pub live : Before row.policy.expires_at_ms clock

unrevoked_iff :
    (row : IssueRow) (revokes : List RevokeRow)
    → (has_revoked row.cap row.key_id revokes ≡ false) ↔ All (NotRevoked row) revokes
unrevoked_iff row [] = ((λ h. tt), (λ h. refl))
unrevoked_iff row (r ∷ rs) = (
  (λ h. (
    (λ same key. ground (arith, h, same, key, eq_iff r.cap row.cap, eq_iff r.key_id row.key_id)),
    (unrevoked_iff row rs).0 (ground arith),
  )),
  (λ h.
      ground (
        arith,
        h.0,
        (unrevoked_iff row rs).1 h.1,
        eq_iff r.cap row.cap,
        eq_iff r.key_id row.key_id,
      )),
)

-- The latest issuance is no newer than a bound on all.
latest_issue-le :
    (cap : String) (is : List IssueRow) (g : ℕ) (newest : IssueRow)
    → All (λ r. r.cap ≡ cap → r.capgen ≤ g) is
    → latest_issue cap is ≡ some newest
    → newest.capgen ≤ g
unfolding latest_issue
latest_issue-le cap [] g newest h l = absurd (cc)
latest_issue-le cap (i ∷ is) g newest h l = elim (Option-cases (latest_issue cap is)) [
  | inl e ↦ ground (arith, e, l, h.0, eq_iff i.cap cap)
  | inr (s, e) ↦
      let below = latest_issue-le cap is g s h.1 e in
      ground (arith, e, l, below, h.0, eq_iff i.cap cap)
]

bootstrapped_rows :
    (self : State)
    → require_bootstrapped self ≡ ok tt
    → (0 < self.count)
      × OneBootstrap self.bootstraps
      × (any (λ r. r.cap == reviewer_cap) self.issues ≡ true)
      × (any (λ r. r.cap == publisher_cap) self.issues ≡ true)
unfolding require_bootstrapped
bootstrapped_rows self h = (ground arith, one self.bootstraps refl, ground arith, ground arith)
  where
    one : (bs : List BootstrapRow) → self.bootstraps ≡ bs → OneBootstrap bs
    one [] e = absurd (ground arith)
    one (b ∷ []) e = (
      ground (arith, eq_iff b.user synthetic_user),
      ground (arith, eq_iff b.issuer bootstrap_issuer),
    )
    one (b ∷ c ∷ bs) e = absurd (ground arith)

rows_bootstrapped :
    (self : State) (bs : List BootstrapRow)
    → self.bootstraps ≡ bs
    → 0 < self.count
    → OneBootstrap bs
    → any (λ r. r.cap == reviewer_cap) self.issues ≡ true
    → any (λ r. r.cap == publisher_cap) self.issues ≡ true
    → require_bootstrapped self ≡ ok tt
unfolding require_bootstrapped
rows_bootstrapped self [] e counted one r p = absurd one
rows_bootstrapped self (b ∷ []) e counted one r p = ground (
  arith,
  e,
  counted,
  one.0,
  one.1,
  r,
  p,
  eq_iff b.user synthetic_user,
  eq_iff b.issuer bootstrap_issuer,
)
rows_bootstrapped self (b ∷ c ∷ bs) e counted one r p = absurd one

IsLive-Before :
    (end : Option ℤ) (clock : Result AccessError ℤ) (row : IssueRow)
    → row.policy.expires_at_ms ≡ end
    → IsLive row.policy clock ↔ Before row.policy.expires_at_ms clock
IsLive-Before end (err e) row same = ((λ h. h), (λ h. h))
IsLive-Before none (ok now) row same = rw same ((λ h. h), (λ h. h))
IsLive-Before (some end) (ok now) row same = rw same ((λ h. ground arith), (λ h. ground arith))

-- The generation of a row that is the latest of its capability bounds all of them.
newest_iff :
    (row : IssueRow) (is : List IssueRow) (cap : String) (p : IssueRow → Bool)
    → row.cap ≡ cap
    → find p is ≡ some row
    → SameGeneration row (latest_issue cap is)
      ↔ All (λ r. r.cap ≡ row.cap → r.capgen ≤ row.capgen) is
newest_iff row is cap p same found = split (latest_issue cap is) refl
  where
    split :
        (o : Option IssueRow)
        → latest_issue cap is ≡ o
        → SameGeneration row o ↔ All (λ r. r.cap ≡ row.cap → r.capgen ≤ row.capgen) is
    split none e = absurd (
        subst (Below row) e (
          All-find (BelowLatest cap (latest_issue cap is)) p is row (latest_issue-All cap is) found
            (ground (arith, eq_iff row.cap cap))))
    split (some s) e = (
      (λ h.
          All-mono
            (λ r below equal.
              let under : r.capgen ≤ s.capgen =
                subst (Below r) e (below (ground (arith, equal, same, eq_iff r.cap cap))) in
              ground (arith, under, h))
            is (latest_issue-All cap is)),
      (λ h.
          let under : row.capgen ≤ s.capgen = subst (Below row) e (
            All-find (BelowLatest cap (latest_issue cap is)) p is row (latest_issue-All cap is)
              found (ground (arith, eq_iff row.cap cap))) in
          let over =
            latest_issue-le cap is row.capgen s
              (All-mono (λ r bound equal. bound (equal ∙ sym same)) is h) e in
          ground (arith, under, over)),
    )

IsEntitled-Entitles :
    (self : State) (cred : Credential) (scope : Option String) (clock : Result AccessError ℤ)
    (row : IssueRow)
    → IsEntitled self cred scope clock row
    → Entitles self cred scope clock row
IsEntitled-Entitles self cred scope clock row h =
    let (rows, bootstrap, reviewers, publishers) = bootstrapped_rows self h.bootstrapped in
    let is_issued = find_sound (issued cred.capability cred.key_id) self.issues row h.found in
    record {
      rows = rows;
      bootstrap = bootstrap;
      reviewer_issued = reviewers;
      publisher_issued = publishers;
      found = h.found;
      issuer = h.issuer;
      user = h.user;
      key = h.key;
      in_scope = h.in_scope;
      unrevoked = (unrevoked_iff row self.revokes).0 h.unrevoked;
      newest =
          (newest_iff row self.issues cred.capability (issued cred.capability cred.key_id)
              (ground (arith, eq_iff row.cap cred.capability, is_issued)) h.found).0
            h.current;
      live = (IsLive-Before row.policy.expires_at_ms clock row refl).0 h.live;
    }

Entitles-IsEntitled :
    (self : State) (cred : Credential) (scope : Option String) (clock : Result AccessError ℤ)
    (row : IssueRow)
    → Entitles self cred scope clock row
    → IsEntitled self cred scope clock row
Entitles-IsEntitled self cred scope clock row h =
    let is_issued = find_sound (issued cred.capability cred.key_id) self.issues row h.found in
    record {
      bootstrapped =
          rows_bootstrapped self self.bootstraps refl h.rows h.bootstrap h.reviewer_issued
            h.publisher_issued;
      found = h.found;
      issuer = h.issuer;
      user = h.user;
      key = h.key;
      in_scope = h.in_scope;
      unrevoked = (unrevoked_iff row self.revokes).1 h.unrevoked;
      current =
          (newest_iff row self.issues cred.capability (issued cred.capability cred.key_id)
              (ground (arith, eq_iff row.cap cred.capability, is_issued)) h.found).1
            h.newest;
      live = (IsLive-Before row.policy.expires_at_ms clock row refl).1 h.live;
    }

-- A credential is accepted for `row`, rotating or not, exactly when the snapshot has rows, one bootstrap row of
-- the known user by the trusted issuer, and issuances of both bootstrap capabilities; `row` is the issuance
-- of the credential's capability and key by the trusted issuer to the known user; the key has the issued
-- fingerprint; the scope that is asked for, if any, is the issued one; no row revokes the key; no
-- issuance of the capability has a greater generation; and the clock answers before the policy's expiry.
pub checked-Entitles_iff :
    (self : State) (cred : Credential) (scope : Option String) (rotating : Bool)
    (clock : Result AccessError ℤ) (row : IssueRow)
    → (checked self cred scope rotating clock ≡ ok row) ↔ Entitles self cred scope clock row
checked-Entitles_iff self cred scope rotating clock row = (
  (λ h.
      IsEntitled-Entitles self cred scope clock row
        ((checked_iff self cred scope rotating clock row).0 h)),
  (λ h.
      (checked_iff self cred scope rotating clock row).1
        (Entitles-IsEntitled self cred scope clock row h)),
)
