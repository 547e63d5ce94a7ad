-- ===== src/Access.antt =====
-- src/access: who may enter and who may issue. Here the errors, the validated texts and the credentials of
-- access/mod.rs; Policy is context.rs, Records the admission rows of mod.rs and the snapshot of state.rs,
-- Gate the operations of gate.rs. Histories runs any sequence of attempts.
-- A detail that the source formats for people is kept without what it prints. Keys are their UTF-8 bytes.
use verdant.Base.{
  ℕ, ◌+◌, ◌*◌, ◌/◌, ◌%◌, ◌^◌, zero, suc, String, len, Bool, true, false, not, ◌&&◌, List, [], ◌∷◌,
  ◌++◌, ltb, nat_eq, any, all, length, Result, ok, err, ◌>>=◌, ◌>>◌, ensure, refuse_if, ◌==◌,
  string_partial_eq, if◌then◌else◌, Option, some, none,
}
use verdant.Base.Int.{ℤ}
use verdant.Base.Bytes.{Bytes}
use verdant.Domain.Ids.{codes, is_id_char}
use verdant.Storage.Mutation.{StorageError}
use Prim.Native.Nat.{bit_xor}
pub mod Policy
pub mod Records
pub mod Descriptor
pub mod Gate
pub mod Entry
pub mod Histories
pub mod Boundary
pub mod Progress
pub mod Succession
pub mod Revocation
pub mod Entitlement
pub mod Grants
pub mod Rotation
pub mod Authority

pub data AccessError : Type 0 where
  already_bootstrapped administration_denied : AccessError
  not_bootstrapped unknown_capability unknown_issuer forged_credential policy_denied :
      String → AccessError
  generation_overflow mutation_unknown anonymous_denied listener_refused invalid_record :
      String → AccessError
  scope_denied role_denied revoked_credential invalid_input : String → String → AccessError
  ceiling_exceeded : ℕ → ℕ → AccessError
  stale_generation : String → ℕ → ℕ → AccessError
  expired_credential : ℤ → AccessError
  store : StorageError → AccessError

pub data RoleKind : Type 0 where
  reviewer publisher : RoleKind

unfoldable pub parse_role : String → Result AccessError RoleKind
parse_role raw =
    if raw == "reviewer"
    then ok reviewer
    else if raw == "publisher"
    then ok publisher
    else err (invalid_input "role" "expected reviewer/publisher")

unfoldable pub role_text : RoleKind → String
role_text reviewer = "reviewer"
role_text publisher = "publisher"

-- `parse` of the identities of `define_access_id!`, which are their texts.
unfoldable pub validate_token_text : String → String → Result AccessError (Unit {0})
validate_token_text kind raw = do
  refuse_if (raw == "") (invalid_input kind "value must not be empty")
  refuse_if (ltb 128 (len raw)) (invalid_input kind "maximum is 128")
  ensure (all is_id_char (codes raw)) (invalid_input kind "value has unsupported characters")

abbrev has_nul : String → Bool
has_nul raw = any (λ c. nat_eq c 0) (codes raw)

-- `Reason::parse` and `DisplayLabel::parse`. The length is that of the text's bytes.
unfoldable pub parse_reason : String → Result AccessError String
parse_reason raw = do
  refuse_if (raw == "") (invalid_input "reason" "reason must not be empty")
  refuse_if (ltb 256 (len raw)) (invalid_input "reason" "maximum is 256")
  refuse_if (has_nul raw) (invalid_input "reason" "reason must not contain NUL")
  ok raw

unfoldable pub parse_label : String → Result AccessError String
parse_label raw = do
  refuse_if (raw == "") (invalid_input "label" "label must not be empty")
  refuse_if (ltb 128 (len raw)) (invalid_input "label" "maximum is 128")
  refuse_if (has_nul raw) (invalid_input "label" "label must not contain NUL")
  ok raw

abbrev has_prefix : Bytes → Bytes → Bool
has_prefix [] raw = true
has_prefix (p ∷ ps) [] = false
has_prefix (p ∷ ps) (c ∷ cs) = let rest = has_prefix ps cs in nat_eq p c && rest

abbrev is_empty : Bytes → Bool
is_empty [] = true
is_empty (c ∷ cs) = false

-- `SyntheticKey::parse`.
unfoldable pub parse_key : Bytes → Result AccessError Bytes
parse_key raw = do
  refuse_if (is_empty raw) (invalid_input "key" "key must not be empty")
  refuse_if (ltb 256 (length raw)) (invalid_input "key" "maximum is 256")
  ensure (has_prefix (codes "synthetic-") raw) (invalid_input "key" "only synthetic test keys")
  ok raw

unfoldable pub hash_from : ℕ → Bytes → ℕ
hash_from hash [] = hash
hash_from hash (b ∷ raw) = hash_from (bit_xor hash b * 0x0100000001b3 % 2 ^ 64) raw

abbrev hex_char : ℕ → ℕ
hex_char n = if ltb n 10 then b'0' + n else 87 + n

-- `{hash:016x}`: the last `n` hexadecimal digits.
unfoldable pub padded_hex : ℕ → ℕ → Bytes
padded_hex zero value = []
padded_hex (suc n) value = padded_hex n (value / 16) ++ hex_char (value % 16) ∷ []

unfoldable pub fingerprint_str : Bytes → Bytes
unfolding hash_from padded_hex
fingerprint_str raw = padded_hex 16 (hash_from 0xcbf29ce484222325 raw)

pub record Credential : Type 0 where
  pub capability : String
  pub key_id : String
  pub key : Bytes

-- A remote listener is refused; an omitted one is allowed.
unfoldable pub refuse_remote_listener : Option String → Result AccessError (Unit {0})
refuse_remote_listener none = ok tt
refuse_remote_listener (some addr) = err (listener_refused "not supported (local-only)")
