-- ===== src/Access/Grants.antt =====
-- What a granted entry of access/gate.rs rests on.
use verdant.Base.{
  ℕ, ◌≡◌, ◌≤◌, ◌∙◌, ◌⊎◌, refl, ap, sym, String, true, false, some, Result, ok, arith, eq_iff,
  Result-cases, find_sound, inr, inl, subst, string_partial_eq,
}
use verdant.Base.Int.{ℤ}
use verdant.Access.{AccessError, Credential, RoleKind, reviewer, publisher, parse_role, role_text}
use verdant.Access.Policy.{credential_ceiling}
use verdant.Access.Records.{State, Log, IssueRow, read_state, checked, issued}
use verdant.Access.Entitlement.{Entitles, checked-Entitles_iff}
use verdant.Access.Entry.{
  ActorContext, EnterReport, enter, report, from_checked, required_level, admits,
}

-- What the actor of a checked issuance says of it.
from_checked_lem :
    (row : IssueRow) (actor : ActorContext)
    → from_checked row ≡ ok actor
    → (actor.row ≡ row) × (actor.bound.level ≡ row.ceiling) × (parse_role row.role ≡ ok actor.role)
unfolding from_checked credential_ceiling
from_checked_lem row actor h = (ground arith, ground arith, ground arith)

-- What an entry for a role takes: a reviewer a ceiling of one and either role, a publisher a ceiling of two and
-- the role of a publisher.
abbrev pub Qualifies : RoleKind → EnterReport → Type 0
Qualifies reviewer granted =
    (1 ≤ granted.ceiling) × ((granted.role ≡ "reviewer") ⊎ (granted.role ≡ "publisher"))
Qualifies publisher granted = (2 ≤ granted.ceiling) × (granted.role ≡ "publisher")

parse_role-text : (raw : String) (role : RoleKind) → parse_role raw ≡ ok role → raw ≡ role_text role
unfolding parse_role role_text
parse_role-text raw reviewer h = ground (arith, eq_iff raw "reviewer", eq_iff raw "publisher")
parse_role-text raw publisher h = ground (arith, eq_iff raw "reviewer", eq_iff raw "publisher")

qualified :
    (required : RoleKind) (actor : ActorContext) (role : RoleKind)
    → actor.role ≡ role
    → actor.row.role ≡ role_text role
    → actor.bound.level ≡ actor.row.ceiling
    → required_level required ≤ actor.bound.level
    → admits role required ≡ true
    → Qualifies required (report actor)
unfolding report role_text
qualified reviewer actor reviewer r text level high fits = (omega (arith, level, high), inl text)
qualified reviewer actor publisher r text level high fits = (omega (arith, level, high), inr text)
qualified publisher actor reviewer r text level high fits = absurd (cc)
qualified publisher actor publisher r text level high fits = (omega (arith, level, high), text)

-- The snapshot on which a credential is entitled to enter, and what the report says of it.
pub record IsGranted (horizon : ℕ) (log : Log) (cred : Credential) (scope : String)
    (required : RoleKind) (clock : Result AccessError ℤ) (granted : EnterReport) : Type 0 where
  pub state : State
  pub reads : read_state horizon log ≡ ok state
  pub entitled : Entitles state cred (some scope) clock granted.actor.row
  pub capability : granted.capability ≡ cred.capability
  pub scope_is : granted.scope ≡ scope
  pub qualifies : Qualifies required granted

-- An entry that is granted rests on an issuance of the credential that the rows of the snapshot entitle, in the
-- scope that is entered; the report names its capability and scope; and an entry as a reviewer has a
-- ceiling of at least one and either role, one as a publisher a ceiling of at least two and that role.
pub enter-IsGranted :
    (horizon : ℕ) (log : Log) (cred : Credential) (scope : String) (required : RoleKind)
    (clock : Result AccessError ℤ) (granted : EnterReport)
    → enter horizon log (some cred) scope required clock ≡ ok granted
    → IsGranted horizon log cred scope required clock granted
unfolding enter
enter-IsGranted horizon log cred scope required clock granted h =
    elim (Result-cases (read_state horizon log)) [
      | inr (e, f) ↦ absurd (ground arith)
      | inl (s, reads) ↦ elim (Result-cases (checked s cred (some scope) false clock)) [
        | inr (e, f) ↦ absurd (ground arith)
        | inl (row, check) ↦ elim (Result-cases (from_checked row)) [
          | inr (e, f) ↦ absurd (ground arith)
          | inl (actor, made) ↦
              let entitled = (checked-Entitles_iff s cred (some scope) false clock row).0 check in
              let (same_row, level, role) = from_checked_lem row actor made in
              let is_issued =
                find_sound (issued cred.capability cred.key_id) s.issues row entitled.found in
              let reported : granted ≡ report actor = ground arith in
              let text = ap (λ r. r.role) same_row ∙ parse_role-text row.role actor.role role in
              let fits =
                qualified required actor actor.role refl text
                  (level ∙ sym (ap (λ r. r.ceiling) same_row)) (ground arith) (ground arith) in
              record {
                state = s;
                reads = reads;
                entitled = subst (Entitles s cred (some scope) clock) (ground arith) entitled;
                capability = ground (arith, eq_iff row.cap cred.capability);
                scope_is = ground (arith, entitled.in_scope);
                qualifies = subst (Qualifies required) (sym reported) fits;
              }
        ]
      ]
    ]
