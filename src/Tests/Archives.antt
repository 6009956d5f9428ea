-- ===== src/Tests/Archives.antt =====
-- A manifest with one segment, for the theorems on runeguard/audit_compliance.py.
use runeguard.Prelude.{
  ◌≡◌, ◌↔◌, refl, codes, true, [], ◌∷◌, any, none, some, nat_eq, list_eq, option_eq,
}
use runeguard.Prelude.Int.{pos, int_eq}
use runeguard.Outcome.{ok}
use runeguard.Integrity.Envelope.{genesis_prev}
use runeguard.Retention.{Segment, Manifest, hash_of_manifest, sorted_by, first_seq_of}
use runeguard.Retention.Verifying.{
  AuditDir, RetentionVerifyResult, manifest_hash_mismatch, segment_missing, is_changed,
  manifest_after, manifest_errors, verify_retention,
}
use runeguard.Retention.Retained.{
  IsRetained, IsClean, verify_retention-IsClean_iff, verify_retention-rehashed,
}
use runeguard.Tests.Lawful.{toy_runtime, unary, weight, printed}
use runeguard.Tests.Codec.{tokens}

-- The directory holds no segment any more.
abbrev empty_dir : AuditDir
empty_dir = record {
  read = λ path. none;
  file_sha256 = λ lines. codes "digest";
  parse_iso = λ text. ok (pos 5);
  now = pos 9;
  now_text = codes "now";
}

abbrev segment : Segment
segment = record {
  id = codes "0-1-head";
  path = codes "audit-0-1.jsonl";
  status = codes "closed";
  created_at = codes "then";
  closed_at = none;
  first_seq = pos 0;
  last_seq = pos 1;
  prev_segment_head = genesis_prev;
  head_hash = codes "head";
  record_count = 2;
  file_sha256 = codes "digest";
  retention_until = codes "soon";
  export_status = codes "pending";
  deletion_status = codes "present";
}

-- Its hash is not the one of its contents.
abbrev edited : Manifest
edited = record {
  version = pos 1;
  created_at = codes "then";
  updated_at = codes "then";
  segments = segment ∷ [];
  manifest_hash = some (codes "stale");
}

verify_retention-IsClean_iff_example :
    IsClean toy_runtime none empty_dir (verify_retention toy_runtime none empty_dir (some edited))
    ↔ ((edited.manifest_hash ≡ some (hash_of_manifest toy_runtime edited))
        × IsRetained toy_runtime none empty_dir
            (sorted_by first_seq_of (segment ∷ []))
            genesis_prev
            (pos 0))
verify_retention-IsClean_iff_example =
    verify_retention-IsClean_iff toy_runtime none empty_dir edited

abbrev missed : RetentionVerifyResult
missed = record {
  errors = manifest_hash_mismatch ∷ segment_missing (codes "audit-0-1.jsonl") ∷ [];
  checked_segments = 1;
}

segment_changed : any (is_changed toy_runtime none empty_dir) edited.segments ≡ true
unfolding is_changed list_eq nat_eq
segment_changed = refl

run_on_edited :
    verify_retention toy_runtime none empty_dir (some edited)
    ≡ ok (missed, some (manifest_after toy_runtime none empty_dir edited))
unfolding verify_retention option_eq list_eq unary weight printed tokens nat_eq
run_on_edited = refl

verify_retention-rehashed_example :
    (left : Manifest) × (some (manifest_after toy_runtime none empty_dir edited) ≡ some left)
    × (manifest_errors toy_runtime none empty_dir left ≡ [])
verify_retention-rehashed_example =
    verify_retention-rehashed toy_runtime none empty_dir edited missed
      (some (manifest_after toy_runtime none empty_dir edited)) segment_changed run_on_edited
