-- ===== src/Tests/Exports.antt =====
-- The export of one closed segment, and of the same directory with another segment behind it, for
-- the theorems on `LocalWORMExporter` of runeguard/audit_compliance.py.
use runeguard.Prelude.{
  ◌≡◌, refl, inl, Text, codes, List, [], ◌∷◌, ◌++◌, ◌==◌, if◌then◌else◌, none, some, nat_eq,
  list_eq,
}
use runeguard.Prelude.Int.{pos}
use runeguard.Effects.{done, failed}
use runeguard.Retention.{Segment}
use runeguard.Retention.Exporting.{
  Receipt, WormStore, AuditFiles, receipt_of, segments_in, candidates, export,
}
use runeguard.Retention.Exported.{Extends, Archived, Among, export-Extends, export-archives_once}
use runeguard.Tests.Rotation.{segment, closed_name}

abbrev file_sha256 : List Text → Text
file_sha256 lines = codes "digest"

abbrev path_of_object : Text → Text
path_of_object name = codes "worm/objects/" ++ name

abbrev files_of : List Segment → AuditFiles
files_of segments = record {
  manifest = some (record {
    version = pos 1;
    created_at = codes "noon";
    updated_at = codes "noon";
    segments = segments;
    manifest_hash = none;
  });
  file_at = λ path. if path == closed_name then some (codes "{}" ∷ []) else none;
}

-- What is exported first.
abbrev files : AuditFiles
files = files_of (segment ∷ [])

-- With one segment more.
abbrev longer : AuditFiles
longer = files_of (segment ∷ (record segment { path = codes "next.jsonl" }) ∷ [])

abbrev empty : WormStore
empty = record { objects = []; receipts = [] }

abbrev after : WormStore
after = (export file_sha256 path_of_object (codes "now") files empty).1

abbrev receipts : List Receipt
receipts =
    receipt_of file_sha256 path_of_object (codes "now")
      (segments_in file_sha256 path_of_object (codes "now") files) closed_name (codes "{}" ∷ [])
    ∷ []

exported : export file_sha256 path_of_object (codes "now") files empty ≡ (done receipts, after)
unfolding export nat_eq list_eq
exported = refl

is_candidate : Among closed_name (candidates file_sha256 path_of_object (codes "now") files)
unfolding candidates nat_eq list_eq
is_candidate = inl refl

is_candidate_later :
    Among closed_name (candidates file_sha256 path_of_object (codes "later") longer)
unfolding candidates nat_eq list_eq
is_candidate_later = inl refl

is_there : files.file_at closed_name ≡ some (codes "{}" ∷ [])
unfolding nat_eq list_eq
is_there = refl

is_there_later : longer.file_at closed_name ≡ some (codes "{}" ∷ [])
unfolding nat_eq list_eq
is_there_later = refl

export-archives_once_example :
    Archived file_sha256 path_of_object closed_name (codes "{}" ∷ []) after
    × ((export file_sha256 path_of_object (codes "later") longer after).0 ≡ failed)
export-archives_once_example =
    export-archives_once file_sha256 path_of_object (codes "now") (codes "later") files longer empty
      after receipts closed_name (codes "{}" ∷ []) exported is_candidate is_there is_candidate_later
      is_there_later

export-Extends_example :
    Extends after (export file_sha256 path_of_object (codes "later") longer after).1
export-Extends_example = export-Extends file_sha256 path_of_object (codes "later") longer after
