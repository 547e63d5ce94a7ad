-- ===== src/Tests/Access.antt =====
-- Runs of the access gate.
use verdant.Base.{ℕ, ◌≡◌, true, false, none, some, [], ◌∷◌, ok, err, refl, is_ok, ◌++◌, ◌↔◌, arith}
use verdant.Base.Int.{pos}
use verdant.Base.Bytes.{Bytes}
use verdant.Domain.Ids.{codes}
use verdant.Access.{already_bootstrapped, Credential, publisher, reviewer, fingerprint_str}
use verdant.Access.Records.{
  State, IssueRow, read_state, checked, Log, BootstrapRow, RevokeRow, bootstrap, revoke, issue,
}
use verdant.Access.Descriptor.{
  DescriptorText, fields_of, decode_descriptor, encode_descriptor, kind_of,
}
use verdant.Access.Descriptor.RoundTrip.{decode_descriptor-encode_descriptor}
use verdant.Access.Gate.{Moment, commits, issue_row, batch_rows, revoke_row}
use verdant.Access.Entry.{enter, is_revoked, ActorContext, report}
use verdant.Access.Histories.{Attempt, bootstrapping, rotating, attempt, run}
use verdant.Access.Succession.Steps.{successor, site_policy}
use verdant.Access.Policy.{entry_only}
use verdant.Access.Boundary.{attempt_behind}
use verdant.Access.Progress.{GoesThrough, attempt-ok_iff}
use verdant.Access.Revocation.{run-revoked}
use verdant.Access.Authority.{IsWithin, run-checked-IsWithin}
use verdant.Access.Grants.{IsGranted, enter-IsGranted}
use verdant.Access.Rotation.{rotation-hands_over}
use verdant.Access.Entitlement.{Entitles, checked-Entitles_iff}
use verdant.Access.Succession.Runs.{run-checked_once}

abbrev old_key : Bytes
old_key = codes "synthetic-2"

abbrev new_key : Bytes
new_key = codes "synthetic-3"

abbrev old_credential : Credential
old_credential = record { capability = "publisher-1"; key_id = "key-publisher-1"; key = old_key }

abbrev new_credential : Credential
new_credential = record { capability = "publisher-1"; key_id = "key-2"; key = new_key }

abbrev at_id : ℕ → Moment
at_id id = record { next_id = id; now = pos 9; fate = commits }

abbrev first_attempt : Attempt
first_attempt = record {
  seen = 0;
  call = bootstrapping (codes "synthetic-1") old_key "first run";
  clock = ok (pos 5);
  moment = at_id 1;
}

abbrev second_attempt : Attempt
second_attempt = record {
  seen = 3;
  call = rotating old_credential "key-2" new_key "planned";
  clock = ok (pos 6);
  moment = at_id 4;
}

abbrev reviewing : IssueRow
reviewing =
    issue_row
      (record { capability = "reviewer-1"; key_id = "key-reviewer-1"; key = codes "synthetic-1" })
      "scope-a" 1 reviewer "first run" "synthetic" (entry_only none)

abbrev publishing : IssueRow
publishing = issue_row old_credential "scope-a" 2 publisher "first run" "synthetic" site_policy

abbrev marker : BootstrapRow
marker = record {
  user = "synthetic-operator-1";
  issuer = "bootstrap-issuer-1";
  reason = "first run";
  generation = 1;
}

abbrev booted : Log
booted = batch_rows 1 (
    ("access-bootstrap", "synthetic-operator-1", bootstrap marker)
    ∷ ("access-issue", "reviewer-1", issue reviewing)
    ∷ ("access-issue", "publisher-1", issue publishing)
    ∷ [])

abbrev booted_state : State
booted_state = record {
  issues = reviewing ∷ publishing ∷ [];
  revokes = [];
  bootstraps = marker ∷ [];
  count = 3;
  guard = booted;
}

abbrev renewed_issue : IssueRow
renewed_issue = successor publishing 2 "key-2" new_key "planned"

abbrev retired : RevokeRow
retired = revoke_row publishing "planned"

abbrev rotated : Log
rotated =
    booted
    ++ batch_rows 4 (
        ("access-revoke", "publisher-1", revoke retired)
        ∷ ("access-issue", "publisher-1", issue renewed_issue)
        ∷ [])

abbrev rotated_state : State
rotated_state = record {
  issues = reviewing ∷ publishing ∷ renewed_issue ∷ [];
  revokes = retired ∷ [];
  bootstraps = marker ∷ [];
  count = 5;
  guard = rotated;
}

boots : run 100 [] (first_attempt ∷ []) ≡ booted
unfolding run batch_rows attempt read_state verdant.Domain.Ids.parse verdant.Domain.Ids.is_id_char
boots = refl

booted_reads : read_state 100 (run 100 [] (first_attempt ∷ [])) ≡ ok booted_state
unfolding run read_state attempt verdant.Domain.Ids.parse verdant.Domain.Ids.is_id_char
    verdant.Access.validate_token_text verdant.Access.parse_role verdant.Access.fingerprint_str
booted_reads = refl

rotates : (attempt 100 (run 100 [] (first_attempt ∷ [])) second_attempt).1 ≡ ok tt
unfolding run attempt read_state verdant.Domain.Ids.parse verdant.Domain.Ids.is_id_char
    verdant.Access.validate_token_text verdant.Access.parse_role verdant.Access.fingerprint_str
    checked verdant.Access.Records.require_bootstrapped verdant.Access.Records.latest_issue
rotates = refl

rotated_reads :
    read_state 100 (attempt 100 (run 100 [] (first_attempt ∷ [])) second_attempt).0
    ≡ ok rotated_state
unfolding run read_state attempt verdant.Domain.Ids.parse verdant.Domain.Ids.is_id_char
    verdant.Access.validate_token_text verdant.Access.parse_role verdant.Access.fingerprint_str
    checked verdant.Access.Records.require_bootstrapped verdant.Access.Records.latest_issue
rotated_reads = refl

accepts_old :
    checked booted_state old_credential (some "scope-a") false (ok (pos 6)) ≡ ok publishing
unfolding run checked verdant.Access.Records.require_bootstrapped issue_row
    verdant.Access.Records.latest_issue verdant.Access.fingerprint_str
accepts_old = refl

rotates_old : checked booted_state old_credential none true (ok (pos 6)) ≡ ok publishing
unfolding run checked verdant.Access.Records.require_bootstrapped issue_row
    verdant.Access.Records.latest_issue fingerprint_str
rotates_old = refl

reads_rotated : read_state 100 rotated ≡ ok rotated_state
unfolding run read_state batch_rows verdant.Access.validate_token_text verdant.Domain.Ids.is_id_char
    issue_row verdant.Domain.Ids.parse verdant.Access.parse_role fingerprint_str entry_only
    revoke_row
reads_rotated = refl

answers_revoked : is_revoked 100 rotated "publisher-1" "key-publisher-1" ≡ ok true
unfolding run is_revoked read_state batch_rows verdant.Access.validate_token_text
    verdant.Domain.Ids.is_id_char issue_row verdant.Domain.Ids.parse verdant.Access.parse_role
    verdant.Access.fingerprint_str entry_only revoke_row
answers_revoked = refl

publishes : is_ok (enter 100 rotated (some new_credential) "scope-a" publisher (ok (pos 7))) ≡ true
unfolding run enter read_state batch_rows verdant.Access.validate_token_text
    verdant.Domain.Ids.is_id_char issue_row verdant.Domain.Ids.parse verdant.Access.fingerprint_str
    entry_only revoke_row verdant.Access.Records.require_bootstrapped
    verdant.Access.Records.latest_issue
publishes = refl

denies_anonymous : is_ok (enter 100 rotated none "scope-a" reviewer (ok (pos 7))) ≡ false
unfolding enter
denies_anonymous = refl

abbrev actor : ActorContext
actor = record {
  row = renewed_issue;
  bound = record { scope = "scope-a"; level = 2 };
  role = publisher;
}

grants :
    enter 100 rotated (some new_credential) "scope-a" publisher (ok (pos 7)) ≡ ok (report actor)
unfolding enter read_state batch_rows verdant.Access.validate_token_text
    verdant.Domain.Ids.is_id_char issue_row verdant.Domain.Ids.parse fingerprint_str entry_only
    revoke_row verdant.Access.Records.require_bootstrapped verdant.Access.Records.latest_issue
grants = refl

checked-Entitles_iff_example :
    (checked booted_state old_credential (some "scope-a") false (ok (pos 6)) ≡ ok publishing)
    ↔ Entitles booted_state old_credential (some "scope-a") (ok (pos 6)) publishing
checked-Entitles_iff_example =
    checked-Entitles_iff booted_state old_credential (some "scope-a") false (ok (pos 6)) publishing

-- A rotation that saw two of the three rows.
abbrev late_attempt : Attempt
late_attempt = record second_attempt { seen = 2 }

attempt_behind_example :
    ((attempt 100 booted late_attempt).0 ≡ booted)
    × (is_ok (attempt 100 booted late_attempt).1 ≡ false)
unfolding batch_rows
attempt_behind_example = attempt_behind 100 booted late_attempt (omega arith)

attempt-ok_iff_example :
    ((attempt 100 booted second_attempt).1 ≡ ok tt) ↔ GoesThrough 100 booted second_attempt
attempt-ok_iff_example = attempt-ok_iff 100 booted second_attempt

-- Two bootstraps that both found an empty store.
loses_bootstrap : (attempt 100 booted first_attempt).1 ≡ err already_bootstrapped
unfolding attempt batch_rows read_state verdant.Domain.Ids.parse verdant.Domain.Ids.is_id_char
loses_bootstrap = refl

run-checked_once_example :
    (publishing ≡ publishing)
    × (old_credential.key_id ≡ old_credential.key_id)
    × (fingerprint_str old_credential.key ≡ fingerprint_str old_credential.key)
run-checked_once_example =
    run-checked_once 100 100 (first_attempt ∷ []) booted_state old_credential old_credential
      (some "scope-a") none false true (ok (pos 6)) (ok (pos 6)) publishing publishing booted_reads
      refl accepts_old rotates_old

run-revoked_example : is_ok (checked rotated_state old_credential none false (ok (pos 9))) ≡ false
unfolding run
run-revoked_example =
    run-revoked 100 100 rotated [] rotated_state old_credential none false (ok (pos 9))
      answers_revoked reads_rotated

run-checked-IsWithin_example : IsWithin ("scope-a" ∷ "scope-b" ∷ []) 2 publishing
run-checked-IsWithin_example =
    run-checked-IsWithin 100 100 (first_attempt ∷ []) booted_state old_credential (some "scope-a")
      false (ok (pos 6)) publishing booted_reads accepts_old

enter-IsGranted_example :
    IsGranted 100 rotated new_credential "scope-a" publisher (ok (pos 7)) (report actor)
enter-IsGranted_example =
    enter-IsGranted 100 rotated new_credential "scope-a" publisher (ok (pos 7)) (report actor)
      grants

rotation-hands_over_example :
    (checked rotated_state new_credential (some "scope-a") false (ok (pos 6)) ≡ ok renewed_issue)
    × (is_ok (checked rotated_state old_credential (some "scope-a") false (ok (pos 6))) ≡ false)
unfolding issue_row
rotation-hands_over_example =
    rotation-hands_over 100 100 3 (first_attempt ∷ []) old_credential "key-2" new_key "planned"
      (ok (pos 6)) (at_id 4) booted_state rotated_state (some "scope-a") false (ok (pos 6))
      publishing rotates booted_reads rotated_reads accepts_old

-- A revocation whose reason holds both separators and a percent sign.
abbrev revocation : DescriptorText
revocation =
    DescriptorText.revoke (codes "publisher-1") (codes "key-2") (codes "2")
      (codes "bootstrap-issuer-1") (codes "a;b=c%d")

decode_descriptor-encode_descriptor_example :
    decode_descriptor (encode_descriptor revocation) ≡ ok (kind_of revocation, fields_of revocation)
unfolding fields_of verdant.Base.Bytes.is_utf8
decode_descriptor-encode_descriptor_example =
    decode_descriptor-encode_descriptor revocation
      (refl, (refl, (refl, (refl, (refl, (refl, (refl, tt)))))))
