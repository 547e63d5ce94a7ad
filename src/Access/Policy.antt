-- ===== src/Access/Policy.antt =====
-- src/access/context.rs: the policy that an issuance persists, and what an administrator may delegate.
-- A scope is its text.
use Prim.Native.String.{◌++◌ as text_append}
use verdant.Base.{
  ℕ, String, Bool, true, false, not, ◌||◌, Option, none, some, List, [], ◌∷◌, ltb, nat_eq, any,
  length, Result, ok, ◌>>=◌, ◌>>◌, ensure, refuse_if, ok_or, ◌==◌, string_partial_eq,
}
use verdant.Base.Int.{ℤ, ltb_ℤ}
use verdant.Access.{
  AccessError, invalid_input, administration_denied, scope_denied, ceiling_exceeded, policy_denied,
  expired_credential,
}

abbrev pub max_ceiling_level : ℕ
max_ceiling_level = 3

-- src/domain/scope.rs.
pub record CredentialCeiling : Type 0 where
  pub scope : String
  pub level : ℕ

unfoldable pub credential_ceiling : String → ℕ → Result AccessError CredentialCeiling
credential_ceiling scope level = do
  refuse_if (ltb max_ceiling_level level) (invalid_input "ceiling" "credential-ceiling")
  ok (record { scope = scope; level = level })

pub record CapabilityPolicy : Type 0 where
  pub scopes : List String
  pub admin_ceiling : Option ℕ
  pub expires_at_ms : Option ℤ

unfoldable pub entry_only : Option ℤ → CapabilityPolicy
entry_only expires_at = record { scopes = []; admin_ceiling = none; expires_at_ms = expires_at }

abbrev pub is_member : String → List String → Bool
is_member scope scopes = any (λ s. s == scope) scopes

-- Whether sorting and removing duplicates would shorten the list.
unfoldable pub has_duplicate : List String → Bool
has_duplicate [] = false
has_duplicate (s ∷ ss) = let rest = has_duplicate ss in is_member s ss || rest

unfoldable pub administrator : List String → ℕ → Option ℤ → Result AccessError CapabilityPolicy
unfolding has_duplicate
administrator scopes ceiling expires_at = do
  refuse_if (nat_eq (length scopes) 0 || ltb 16 (length scopes) || ltb max_ceiling_level ceiling)
      (invalid_input "policy" "admin policy requires 1..=16 scopes and a bounded ceiling")
  refuse_if (has_duplicate scopes) (invalid_input "policy" "duplicate administrative scope")
  ok (record { scopes = scopes; admin_ceiling = some ceiling; expires_at_ms = expires_at })

unfoldable pub require_live : CapabilityPolicy → ℤ → Result AccessError (Unit {0})
require_live self now = elim self.expires_at_ms [
  | none ↦ ok tt
  | some end ↦ ensure (ltb_ℤ now end) (expired_credential end)
]

unfoldable pub joined : List String → String
joined [] = ""
joined (s ∷ []) = s
joined (s ∷ t ∷ ss) = text_append s (text_append "," (joined (t ∷ ss)))

-- The administrative level of a child that goes beyond its administrator or the ceiling asked for.
abbrev exceeds : Option ℕ → ℕ → ℕ → Bool
exceeds none have level = false
exceeds (some child) have level = ltb have child || ltb level child

-- The expiry of a child that outlives its administrator.
abbrev outlives : Option ℤ → Option ℤ → Bool
outlives child none = false
outlives none (some end) = true
outlives (some child_end) (some end) = ltb_ℤ end child_end

unfoldable pub authorize :
    CapabilityPolicy → CredentialCeiling → CapabilityPolicy → Result AccessError (Unit {0})
authorize self bound child = do
  have ← ok_or self.admin_ceiling administration_denied
  ensure (is_member bound.scope self.scopes) (scope_denied (joined self.scopes) bound.scope)
  refuse_if (ltb have bound.level) (ceiling_exceeded have bound.level)
  refuse_if
      (exceeds child.admin_ceiling have bound.level
        || any (λ s. not (is_member s self.scopes)) child.scopes
        || outlives child.expires_at_ms self.expires_at_ms)
      (policy_denied "delegation exceeds administrator policy or requested ceiling")
