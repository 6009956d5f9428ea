-- ===== src/Retention.antt =====
-- runeguard/audit_compliance.py: the manifest of the audit segments and what verifies it.
pub mod Verifying
pub mod Retained
pub mod Envelopes
pub mod Exporting
pub mod Exported
pub mod Directory
pub mod Appending
pub mod Sorting
pub mod Rotating
pub mod Continuing
pub mod Tails
pub mod Stepping
pub mod Carried
pub mod Ending
pub mod Succeeding
use runeguard.Prelude.{
  ℕ, suc, ◌<◌, Text, codes, Bool, true, false, not, ◌&&◌, ◌||◌, List, [], ◌∷◌, ◌++◌, ◌==◌, list_eq,
  nat_eq, if◌then◌else◌, Option, none, some, leb,
}
use runeguard.Prelude.Int.{ℤ, pos, negsuc, int_eq}
use runeguard.Outcome.{Outcome, ok, raised}
use runeguard.Json.{Json, null, int, str, array, object, Items, nil, cons, Fields, end, field}
use runeguard.Correlation.{text_or_null}
use runeguard.Integrity.Runtime.{Runtime}

-- `a <= b`
unfoldable pub le_ℤ : ℤ → ℤ → Bool
le_ℤ (pos a) (pos b) = leb a b
le_ℤ (pos a) (negsuc b) = false
le_ℤ (negsuc a) (pos b) = true
le_ℤ (negsuc a) (negsuc b) = leb b a

pub record AuditRetentionConfig : Type 0 where
  pub retention_days : ℤ
  pub rotation_max_bytes : Option ℤ
  pub rotation_max_age_days : Option ℤ
  pub export_enabled : Bool
  pub allow_short_retention_for_dev : Bool

unfoldable pub is_positive : Option ℤ → Bool
unfolding le_ℤ
is_positive none = true
is_positive (some n) = not (le_ℤ n (pos 0))

-- `validate` does not raise.
unfoldable pub is_valid_config : AuditRetentionConfig → Bool
unfolding le_ℤ is_positive
is_valid_config config =
    (le_ℤ (pos 180) config.retention_days || config.allow_short_retention_for_dev)
    && is_positive config.rotation_max_bytes
    && is_positive config.rotation_max_age_days

-- A segment of the manifest, with every key that `_segment_from_file` writes.
pub record Segment : Type 0 where
  pub id : Text
  pub path : Text
  pub status : Text
  pub created_at : Text
  pub closed_at : Option Text
  pub first_seq : ℤ
  pub last_seq : ℤ
  pub prev_segment_head : Text
  pub head_hash : Text
  pub record_count : ℕ
  pub file_sha256 : Text
  pub retention_until : Text
  pub export_status : Text
  pub deletion_status : Text

pub record Manifest : Type 0 where
  pub version : ℤ
  pub created_at : Text
  pub updated_at : Text
  pub segments : List Segment
  pub manifest_hash : Option Text

unfoldable pub segment_json : Segment → Json
segment_json s = object (
    field (codes "closed_at") (text_or_null s.closed_at) (
      field (codes "created_at") (str s.created_at) (
        field (codes "deletion_status") (str s.deletion_status) (
          field (codes "export_status") (str s.export_status) (
            field (codes "file_sha256") (str s.file_sha256) (
              field (codes "first_seq") (int s.first_seq) (
                field (codes "head_hash") (str s.head_hash) (
                  field (codes "id") (str s.id) (
                    field (codes "last_seq") (int s.last_seq) (
                      field (codes "path") (str s.path) (
                        field (codes "prev_segment_head") (str s.prev_segment_head) (
                          field (codes "record_count") (int (pos s.record_count)) (
                            field (codes "retention_until") (str s.retention_until)
                              (field (codes "status") (str s.status) end))))))))))))))

unfoldable pub segments_json : List Segment → Items
unfolding segment_json
segments_json [] = nil
segments_json (s ∷ segments) = cons (segment_json s) (segments_json segments)

-- `_manifest_hash`: the material is the manifest without its hash.
unfoldable pub hash_of_manifest : Runtime → Manifest → Text
unfolding segments_json
hash_of_manifest R manifest = R.sha256 (
    R.dumps (
      object (
        field (codes "created_at") (str manifest.created_at) (
          field (codes "segments") (array (segments_json manifest.segments)) (
            field (codes "updated_at") (str manifest.updated_at)
              (field (codes "version") (int manifest.version) end))))))

-- What `RetentionManifest.write` leaves in the file.
unfoldable pub written : Runtime → Text → Manifest → Manifest
unfolding hash_of_manifest
written R now manifest =
    let dated = record manifest { updated_at = now } in
    record dated { manifest_hash = some (hash_of_manifest R dated) }

-- `sorted(segments, key=...)`, which keeps the order of equal keys.
unfoldable pub insert_by : (Segment → ℤ) → Segment → List Segment → List Segment
unfolding le_ℤ
insert_by key s [] = s ∷ []
insert_by key s (t ∷ segments) =
    let rest = insert_by key s segments in
    if le_ℤ (key s) (key t) then s ∷ t ∷ segments else t ∷ rest

unfoldable pub sorted_by : (Segment → ℤ) → List Segment → List Segment
unfolding insert_by
sorted_by key [] = []
sorted_by key (s ∷ segments) = insert_by key s (sorted_by key segments)

abbrev pub first_seq_of : Segment → ℤ
first_seq_of s = s.first_seq

-- A segment takes the place of one with its id, or of the open one of its file.
unfoldable pub replaces : Segment → Segment → Bool
replaces segment existing =
    existing.id == segment.id
    || (existing.status == codes "open"
        && segment.status == codes "open"
        && existing.path == segment.path)

-- The loop of `upsert_segment`.
unfoldable pub put_segment : Segment → List Segment → List Segment
unfolding replaces
put_segment segment [] = segment ∷ []
put_segment segment (existing ∷ segments) =
    let rest = put_segment segment segments in
    if replaces segment existing then segment ∷ segments else existing ∷ rest

unfoldable pub upsert_segment : Runtime → Text → Segment → Manifest → Manifest
unfolding put_segment sorted_by written
upsert_segment R now segment manifest =
    written R now (record manifest {
      segments = sorted_by first_seq_of (put_segment segment manifest.segments);
    })
