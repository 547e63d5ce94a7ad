-- ===== src/Action/Recovery.antt =====
-- src/action_recovery/decisions.rs: the pure decision table of recovery.
use verdant.Base.{
  ℕ, Bool, true, false, not, ◌≡◌, ◌↔◌, String, nat_eq, arith, string_partial_eq, if◌then◌else◌,
  Result, ok, err, is_ok,
}
use verdant.Action.Dispatch.{
  ProtocolResult, confirmed, remote_error, reject, abort, timeout, invalid_reply, transport_failure,
}
use verdant.Storage.Mutation.{MutationOutcome, committed, not_committed, unknown, conflicted}

pub data RecoveryError : Type 0 where
  conflict : String → RecoveryError
  stale_generation : ℕ → ℕ → RecoveryError

pub data CommitVerdict : Type 0 where
  committed_verdict not_committed_verdict unknown_needs_reconcile conflict_needs_reconcile :
      CommitVerdict

unfoldable pub classify_commit : MutationOutcome → CommitVerdict
classify_commit (committed o r) = committed_verdict
classify_commit (not_committed o e) = not_committed_verdict
classify_commit (unknown o e) = unknown_needs_reconcile
classify_commit (conflicted o d) = conflict_needs_reconcile

pub data CancelVerdict : Type 0 where
  cancelled_before_handoff needs_join_or_reap joined_stopped : CancelVerdict

unfoldable pub classify_cancellation : Bool → Bool → CancelVerdict
classify_cancellation false owner_joined = joined_stopped
classify_cancellation true true = joined_stopped
classify_cancellation true false = needs_join_or_reap

pub data PeerAcceptance : Type 0 where
  accepted not_accepted_needs_reconcile : PeerAcceptance

unfoldable pub classify_peer_protocol : ProtocolResult → PeerAcceptance
classify_peer_protocol confirmed = accepted
classify_peer_protocol (remote_error class code) = not_accepted_needs_reconcile
classify_peer_protocol (reject reason) = not_accepted_needs_reconcile
classify_peer_protocol (abort reason) = not_accepted_needs_reconcile
classify_peer_protocol timeout = not_accepted_needs_reconcile
classify_peer_protocol invalid_reply = not_accepted_needs_reconcile
classify_peer_protocol transport_failure = not_accepted_needs_reconcile

pub data OrderingVerdict : Type 0 where
  journal_may_follow_peer journal_must_not_precede_peer : OrderingVerdict

unfoldable pub check_peer_accepted_before_journal :
    Bool → Bool → Result RecoveryError OrderingVerdict
check_peer_accepted_before_journal true journal_announced = ok journal_may_follow_peer
check_peer_accepted_before_journal false false = ok journal_must_not_precede_peer
check_peer_accepted_before_journal false true =
    err (conflict "journal result must never precede peer acceptance; reconcile peer first")

pub data ConflictWait : Type 0 where
  wait qualified_recovery_required : ConflictWait

pub data QuiescenceClaim : Type 0 where
  observed_join handle_dropped lease_expired : QuiescenceClaim

abbrev pub no_quiescence : RecoveryError
no_quiescence =
    conflict
      "no quiescence from dropped handles or expired leases; reconcile peer state and transport ownership first"

unfoldable pub assess_conflicting_request :
    Bool → Bool → Bool → QuiescenceClaim → Result RecoveryError ConflictWait
assess_conflicting_request peer owned qualified handle_dropped = err no_quiescence
assess_conflicting_request peer owned qualified lease_expired = err no_quiescence
assess_conflicting_request true true qualified observed_join =
    if qualified then ok qualified_recovery_required else ok wait
assess_conflicting_request false owned qualified observed_join = ok wait
assess_conflicting_request true false qualified observed_join = ok wait

pub data BackupVerdict : Type 0 where
  intact_preserve conflict_same_id_different_content stale_generation_refuse wrong_store_conflict :
      BackupVerdict

unfoldable pub verify_backup : Bool → Bool → ℕ → ℕ → BackupVerdict
verify_backup store_identity_matches same_id_content_matches restored_generation
      current_generation =
    if not store_identity_matches
    then wrong_store_conflict
    else if not same_id_content_matches
    then conflict_same_id_different_content
    else if not (nat_eq restored_generation current_generation)
    then stale_generation_refuse
    else intact_preserve

unfoldable pub require_intact_backup : BackupVerdict → Result RecoveryError (Unit {0})
require_intact_backup intact_preserve = ok tt
require_intact_backup conflict_same_id_different_content =
    err (conflict "restored journal reuses an operation identity with different content")
require_intact_backup stale_generation_refuse = err (
    conflict
      "restored journal generation is stale; REFUSE STALE, keep old obligations with old IDs")
require_intact_backup wrong_store_conflict =
    err (conflict "restored journal belongs to a different store")

unfoldable pub require_current_generation : ℕ → ℕ → Result RecoveryError (Unit {0})
require_current_generation expected current =
    if nat_eq expected current then ok tt else err (stale_generation expected current)

-- A restored journal is kept exactly when it is of this store, its contents match, and its generation
-- is the current one.
pub require_intact_backup_iff :
    (store content : Bool) (restored current : ℕ)
    → (is_ok (require_intact_backup (verify_backup store content restored current)) ≡ true)
      ↔ ((store ≡ true) × (content ≡ true) × (restored ≡ current))
unfolding require_intact_backup verify_backup
require_intact_backup_iff store content restored current =
    ((λ h. (ground arith, ground arith, ground arith)), (λ h. ground (arith, h.0, h.1)))

-- A later request goes to qualified recovery exactly when the owner was seen to join, the peer is
-- reconciled, the transport is owned and the recovery is done; a dropped handle or an expired
-- lease proves nothing, whatever else is claimed.
pub assess_conflicting_request_iff :
    (peer owned qualified : Bool) (q : QuiescenceClaim)
    → ((assess_conflicting_request peer owned qualified q ≡ ok qualified_recovery_required)
        ↔ ((q ≡ observed_join) × (peer ≡ true) × (owned ≡ true) × (qualified ≡ true)))
      × ((is_ok (assess_conflicting_request peer owned qualified q) ≡ true) ↔ (q ≡ observed_join))
unfolding assess_conflicting_request
assess_conflicting_request_iff peer owned qualified q = (
  ((λ h. (ground arith, ground arith, ground arith, ground arith)), (λ h. ground arith)),
  ((λ h. ground arith), (λ h. ground arith)),
)
