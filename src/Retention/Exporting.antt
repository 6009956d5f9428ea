-- ===== src/Retention/Exporting.antt =====
-- `LocalWORMExporter.export` of runeguard/audit_compliance.py. What it reads of the audit directory
-- is an argument, and the state is what it has put into the destination. That the directories are
-- made there leaves no trace.
use runeguard.Prelude.{
  Text, codes, List, [], ◌∷◌, ◌++◌, ◌==◌, list_eq, nat_eq, if◌then◌else◌, Option, none, some,
}
use runeguard.Effects.{Action, done, failed, pure, ◌>>=◌}
use runeguard.Policy.FilePath.{to_path}
use runeguard.Retention.{Segment, Manifest}
use runeguard.Retention.Directory.{load_manifest}

abbrev pub manifest_name : Text
manifest_name = codes "audit-manifest.json"

-- The dict that is written to a receipt.
pub record Receipt : Type 0 where
  pub exported_at : Text
  pub source : Text
  pub object_path : Text
  pub sha256 : Text
  pub segment_id : Text
  pub retention_until : Option Text

-- The two directories of the destination, by the names of their files.
pub record WormStore : Type 0 where
  pub objects : List (Text × List Text)
  pub receipts : List (Text × Receipt)

-- What is read of the audit directory: the manifest, if it is there, and the lines of the file at a
-- path below the directory, if there is one.
pub record AuditFiles : Type 0 where
  pub manifest : Option Manifest
  pub file_at : Text → Option (List Text)

-- The file of a name.
unfoldable pub held : {A : Type 0} → Text → List (Text × A) → Option A
held name [] = none
held name ((other, value) ∷ files) =
    let later = held name files in if other == name then some value else later

last_name : List Text → Text
last_name [] = []
last_name (name ∷ []) = name
last_name (name ∷ next ∷ names) = last_name (next ∷ names)

-- `source.name`
unfoldable pub source_name : Text → Text
unfolding last_name to_path
source_name path = last_name (to_path path).names

-- `_segment_id_for_path`
unfoldable pub segment_id_for_path : List Segment → Text → Text
segment_id_for_path [] path = codes "manifest"
segment_id_for_path (segment ∷ segments) path =
    let later = segment_id_for_path segments path in
    if segment.path == path then segment.id else later

-- `_retention_for_path`
unfoldable pub retention_for_path : List Segment → Text → Option Text
retention_for_path [] path = none
retention_for_path (segment ∷ segments) path =
    let later = retention_for_path segments path in
    if segment.path == path then some segment.retention_until else later

unfoldable pub closed_paths : List Segment → List Text
closed_paths [] = []
closed_paths (segment ∷ segments) =
    let later = closed_paths segments in
    if segment.status == codes "closed" then segment.path ∷ later else later

-- `file_sha256(path)`, `str(objects_dir / name)` and `iso(utc_now())`.
module _ (file_sha256 : List Text → Text) (path_of_object : Text → Text) where
  unfoldable pub object_name : Text → List Text → Text
  unfolding source_name
  object_name path lines = source_name path ++ (codes "." ++ file_sha256 lines)

  unfoldable pub receipt_name : Text → List Text → Text
  unfolding object_name
  receipt_name path lines = object_name path lines ++ codes ".receipt.json"

  module _ (now : Text) where
    unfoldable pub receipt_of : List Segment → Text → List Text → Receipt
    unfolding source_name object_name segment_id_for_path retention_for_path
    receipt_of segments path lines = record {
      exported_at = now;
      source = source_name path;
      object_path = path_of_object (object_name path lines);
      sha256 = file_sha256 lines;
      segment_id = segment_id_for_path segments (source_name path);
      retention_until = retention_for_path segments (source_name path);
    }

    -- One round of the loop, for a source that is there.
    unfoldable pub export_file : List Segment → Text → List Text → Action WormStore Receipt
    unfolding held object_name receipt_name receipt_of
    export_file segments path lines store = elim (held (receipt_name path lines) store.receipts) [
      | some receipt ↦ (failed, store)
      | none ↦ elim (held (object_name path lines) store.objects) [
        | some object ↦ (failed, store)
        | none ↦ (
          done (receipt_of segments path lines),
          record {
            objects = (object_name path lines, lines) ∷ store.objects;
            receipts = (receipt_name path lines, receipt_of segments path lines) ∷ store.receipts;
          },
        )
      ]
    ]

    unfoldable pub export_files :
        AuditFiles → List Segment → List Text → Action WormStore (List Receipt)
    unfolding export_file
    export_files files segments [] = pure []
    export_files files segments (path ∷ paths) =
        let rest = export_files files segments paths in
        elim (files.file_at path) [
          | none ↦ rest
          | some lines ↦ do
            receipt ← export_file segments path lines
            receipts ← rest
            pure (receipt ∷ receipts)
        ]

    unfoldable pub segments_in : AuditFiles → List Segment
    unfolding load_manifest
    segments_in files = (load_manifest now files.manifest).segments

    -- `candidates`
    unfoldable pub candidates : AuditFiles → List Text
    unfolding segments_in closed_paths
    candidates files = closed_paths (segments_in files) ++ (manifest_name ∷ [])

    -- `export`
    unfoldable pub export : AuditFiles → Action WormStore (List Receipt)
    unfolding segments_in candidates export_files
    export files = export_files files (segments_in files) (candidates files)
