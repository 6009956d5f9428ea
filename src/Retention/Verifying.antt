-- ===== src/Retention/Verifying.antt =====
-- `verify_retention` of runeguard/audit_compliance.py.
use runeguard.Prelude.{
  ℕ, Text, codes, Bool, not, List, [], ◌∷◌, ◌++◌, ◌==◌, list_eq, nat_eq, option_eq, if◌then◌else◌,
  Option, none, some, map, any, length,
}
use runeguard.Prelude.Int.{ℤ, pos, suc_ℤ, int_eq}
use runeguard.Outcome.{Outcome, ok, ◌>>=◌}
use runeguard.Integrity.Runtime.{Bytes, Runtime}
use runeguard.Integrity.Envelope.{genesis_prev}
use runeguard.Integrity.Verify.{VerifyError, VerifyResult, verify_log}
use runeguard.Retention.{
  Segment, Manifest, le_ℤ, hash_of_manifest, written, sorted_by, first_seq_of,
}

-- What is found in the directory, and the clock.
pub record AuditDir : Type 0 where
  -- The lines of a file, `none` where there is no such file.
  pub read : Text → Option (List Text)
  -- `file_sha256`, of a file with these lines.
  pub file_sha256 : List Text → Text
  -- `parse_iso`, and `iso(utc_now())`
  pub parse_iso : Text → Outcome ℤ
  pub now : ℤ
  pub now_text : Text

-- The messages, with the path that they name.
pub data RetentionError : Type 0 where
  manifest_not_found : RetentionError
  manifest_hash_mismatch : RetentionError
  missing_before_retention_until : Text → RetentionError
  segment_missing : Text → RetentionError
  file_hash_mismatch : Text → RetentionError
  sequence_broken : Text → RetentionError
  head_broken : Text → RetentionError
  log_error : Text → VerifyError → RetentionError

pub record RetentionVerifyResult : Type 0 where
  pub errors : List RetentionError
  pub checked_segments : ℕ

unfoldable pub unless : Bool → RetentionError → List RetentionError
unless test error = if test then [] else error ∷ []

unfoldable pub log_errors : Text → VerifyResult → List RetentionError
log_errors path result = elim result.error [ none ↦ [] | some error ↦ log_error path error ∷ [] ]

module _ (R : Runtime) (key : Option Bytes) (dir : AuditDir) where
  -- The errors of a segment whose file is not there.
  unfoldable pub absent_error : Segment → ℤ → RetentionError
  unfolding le_ℤ
  absent_error s retention_until =
      if le_ℤ retention_until dir.now
      then segment_missing s.path
      else missing_before_retention_until s.path

  -- The tests of a segment on the lines of its file.
  unfoldable pub present_errors :
      Segment → List Text → Text → ℤ → VerifyResult → List RetentionError
  unfolding unless log_errors
  present_errors s lines previous_head expected_seq result =
      unless (dir.file_sha256 lines == s.file_sha256) (file_hash_mismatch s.path)
      ++ (unless (s.first_seq == expected_seq) (sequence_broken s.path)
          ++ (unless (s.prev_segment_head == previous_head) (head_broken s.path)
              ++ log_errors s.path result))

  -- The loop over the sorted segments, with its variables `previous_head` and `expected_seq`.
  unfoldable pub check_segments : List Segment → Text → ℤ → Outcome (List RetentionError)
  unfolding absent_error present_errors
  check_segments [] previous_head expected_seq = ok []
  check_segments (s ∷ segments) previous_head expected_seq = do
    retention_until ← dir.parse_iso s.retention_until
    elim (dir.read s.path) [
      | none ↦ check_segments segments previous_head expected_seq >>= λ errors.
          ok (absent_error s retention_until ∷ errors)
      | some lines ↦
          verify_log R key (some s.head_hash) s.first_seq s.prev_segment_head lines >>= λ result.
          check_segments segments s.head_hash (suc_ℤ s.last_seq) >>= λ errors.
          ok (present_errors s lines previous_head expected_seq result ++ errors)
    ]

  -- What the loop writes to a segment.
  unfoldable pub found_status : Segment → Text
  found_status s = elim (dir.read s.path) [ none ↦ codes "missing" | some lines ↦ codes "present" ]

  unfoldable pub is_changed : Segment → Bool
  unfolding found_status
  is_changed s = not (s.deletion_status == found_status s)

  unfoldable pub updated : Segment → Segment
  unfolding found_status
  updated s = record s { deletion_status = found_status s }

  -- The manifest after the run: it is written only where a status has changed.
  unfoldable pub manifest_after : Manifest → Manifest
  unfolding is_changed updated written
  manifest_after manifest =
      if any is_changed manifest.segments
      then written R dir.now_text (record manifest { segments = map updated manifest.segments })
      else manifest

  unfoldable pub manifest_errors : Manifest → List RetentionError
  unfolding unless hash_of_manifest
  manifest_errors manifest =
      unless (manifest.manifest_hash == some (hash_of_manifest R manifest)) manifest_hash_mismatch

  -- `verify_retention` on the manifest, `none` where there is none. Nothing is written where it
  -- raises.
  unfoldable pub verify_retention :
      Option Manifest → Outcome (RetentionVerifyResult × Option Manifest)
  unfolding manifest_errors sorted_by check_segments manifest_after
  verify_retention none =
      ok (record { errors = manifest_not_found ∷ []; checked_segments = 0 }, none)
  verify_retention (some manifest) = do
    errors ← check_segments (sorted_by first_seq_of manifest.segments) genesis_prev (pos 0)
    ok (
      record {
        errors = manifest_errors manifest ++ errors;
        checked_segments = length manifest.segments;
      },
      some (manifest_after manifest),
    )
