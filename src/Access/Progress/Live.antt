-- ===== src/Access/Progress/Live.antt =====
-- Whose authority a mutation of access/gate.rs rests on, and until when.
use verdant.Base.{
  ◌≡◌, ◌↔◌, Bool, true, false, Option, none, some, Result, ok, arith, refl, ap, sym, inl, inr,
  subst, Result-cases,
}
use verdant.Base.Int.{ℤ}
use verdant.Access.{AccessError, Credential}
use verdant.Access.Records.{State, IssueRow, checked}
use verdant.Access.Gate.{
  is_live, PreparedBatch, earliest, bootstrap_batch, issue_batch, rotate_batch, revoke_batch, batch,
}
use verdant.Access.Entitlement.{Entitles, Before, checked-Entitles_iff}
use verdant.Access.Histories.{prepared, Call, bootstrapping, issuing, rotating, revoking}

-- What a caller's authority and its expiry are when the batch runs at `now`: a bootstrap needs none; an issue rests
-- on its administrator's policy and on the one it asks for, a rotation and a revocation on the credential's.
abbrev pub StillLive : State → Call → Result AccessError ℤ → ℤ → Type 0
StillLive s (bootstrapping k l reason) clock now = Unit {0}
StillLive s (issuing request later) clock now =
    (admin : IssueRow) × Entitles s request.administrator none clock admin
    × Before admin.policy.expires_at_ms (ok now)
    × Before request.policy.expires_at_ms (ok now)
StillLive s (rotating current id key reason) clock now =
    (row : IssueRow) × Entitles s current none clock row × Before row.policy.expires_at_ms (ok now)
StillLive s (revoking current reason) clock now =
    (row : IssueRow) × Entitles s current none clock row × Before row.policy.expires_at_ms (ok now)

is_live-Before_iff : (end : Option ℤ) (now : ℤ) → (is_live end now ≡ true) ↔ Before end (ok now)
is_live-Before_iff none now = ((λ h. tt), (λ h. refl))
is_live-Before_iff (some end) now = ((λ h. ground (arith, h)), (λ h. ground (arith, h)))

is_live-earliest :
    (a b : Option ℤ) (now : ℤ)
    → (is_live (earliest a b) now ≡ true) ↔ (Before a (ok now) × Before b (ok now))
unfolding earliest
is_live-earliest none b now =
    ((λ h. (tt, (is_live-Before_iff b now).0 h)), (λ h. (is_live-Before_iff b now).1 h.1))
is_live-earliest (some a) none now = ((λ h. (ground (arith, h), tt)), (λ h. ground (arith, h)))
is_live-earliest (some a) (some b) now =
    ((λ h. (ground (arith, h), ground (arith, h))), (λ h. ground (arith, h)))

-- A prepared rotation or revocation expires with the issuance of its credential.
one_expiry :
    (s : State) (current : Credential) (rotating' : Bool) (clock : Result AccessError ℤ)
    (plan : PreparedBatch) (row : IssueRow) (now : ℤ)
    → checked s current none rotating' clock ≡ ok row
    → plan.expires ≡ row.policy.expires_at_ms
    → (is_live plan.expires now ≡ true)
      ↔ ((r : IssueRow) × Entitles s current none clock r × Before r.policy.expires_at_ms (ok now))
one_expiry s current rotating' clock plan row now ok_row expiry = (
  (λ h. (
    row,
    (checked-Entitles_iff s current none rotating' clock row).0 ok_row,
    (is_live-Before_iff row.policy.expires_at_ms now).0
        (subst (λ e. is_live e now ≡ true) expiry h),
  )),
  (λ (r, entitled, before).
      let again = (checked-Entitles_iff s current none rotating' clock r).1 entitled in
      let same : r ≡ row = ground (arith, again, ok_row) in
      subst (λ e. is_live e now ≡ true) (sym expiry)
        ((is_live-Before_iff row.policy.expires_at_ms now).1
          (subst (λ x. Before x.policy.expires_at_ms (ok now)) same before))),
)

pub prepared-StillLive_iff :
    (s : State) (call : Call) (clock : Result AccessError ℤ) (plan : PreparedBatch) (now : ℤ)
    → prepared s call clock ≡ ok plan
    → (is_live plan.expires now ≡ true) ↔ StillLive s call clock now
unfolding prepared bootstrap_batch issue_batch rotate_batch revoke_batch batch
prepared-StillLive_iff s (bootstrapping k l reason) clock plan now h =
    let free : plan.expires ≡ none = ground (arith, h) in
    ((λ _. tt), (λ _. ap (λ e. is_live e now) free))
prepared-StillLive_iff s (rotating current id key reason) clock plan now h =
    elim (Result-cases (checked s current none true clock)) [
      | inr (e, bad) ↦ absurd (ground (arith, bad, h))
      | inl (row, good) ↦
          one_expiry s current true clock plan row now good (ground (arith, good, h))
    ]
prepared-StillLive_iff s (revoking current reason) clock plan now h =
    elim (Result-cases (checked s current none false clock)) [
      | inr (e, bad) ↦ absurd (ground (arith, bad, h))
      | inl (row, good) ↦
          one_expiry s current false clock plan row now good (ground (arith, good, h))
    ]
prepared-StillLive_iff s (issuing request later) clock plan now h =
    elim (Result-cases (checked s request.administrator none false clock)) [
      | inr (e, bad) ↦ absurd (ground (arith, bad, h))
      | inl (admin, good) ↦
          let expiry : plan.expires
              ≡ earliest admin.policy.expires_at_ms request.policy.expires_at_ms =
            ground (arith, good, h) in
          let both = is_live-earliest admin.policy.expires_at_ms request.policy.expires_at_ms now in
          (
            (λ live.
                let (a, b) = both.0 (subst (λ e. is_live e now ≡ true) expiry live) in
                (
                  admin,
                  (checked-Entitles_iff s request.administrator none false clock admin).0 good,
                  a,
                  b,
                )),
            (λ (r, entitled, a, b).
                let again =
                  (checked-Entitles_iff s request.administrator none false clock r).1 entitled in
                let same : r ≡ admin = ground (arith, again, good) in
                subst (λ e. is_live e now ≡ true) (sym expiry)
                  (both.1 (subst (λ x. Before x.policy.expires_at_ms (ok now)) same a, b))),
          )
    ]
