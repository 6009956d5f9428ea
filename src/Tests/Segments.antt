-- ===== src/Tests/Segments.antt =====
-- A log of one record that an append rotates, for the theorem on `ComplianceAuditLog.append` of
-- runeguard/audit_compliance.py.
use runeguard.Prelude.{
  refl, Text, codes, false, List, [], ◌∷◌, All, none, some, length, arith, nat_eq, list_eq,
}
use runeguard.Prelude.Int.{pos}
use runeguard.Outcome.{ok}
use runeguard.Json.{Json, str, Fields, end, field, truthy}
use runeguard.Logger.{or_json}
use runeguard.Effects.{Ends, pure, ◌>>◌, bind-Ends}
use runeguard.Integrity.Runtime.{IsPrinted}
use runeguard.Integrity.Envelope.{Envelope}
use runeguard.Integrity.Log.{line_of, fresh_log, iter_lines}
use runeguard.Integrity.Chain.{Reads}
use runeguard.Integrity.Appending.{added, added_json, Reads-added}
use runeguard.Retention.{AuditRetentionConfig}
use runeguard.Retention.Directory.{LogDir, Facilities, move_closed, has_file}
use runeguard.Retention.Appending.{
  created_at_of, segment_from_file, name_of_segment, closed_segment, upsert, rotate_lines,
}
use runeguard.Retention.Tails.{read_envelopes-Reads}
use runeguard.Retention.Ending.{IsDated, segment_from_file-done}
use runeguard.Tests.Lawful.{toy_runtime, toy_runtime-IsLawful}

abbrev noon : Text
noon = codes "noon"

noon-IsPrinted : All IsPrinted noon
noon-IsPrinted = omega arith

abbrev payload : Fields
payload = field (codes "tool_call") (str (codes "shell")) end

nothing_read : Reads toy_runtime (iter_lines []) []
unfolding iter_lines
nothing_read = tt

abbrev record_one : Envelope
record_one =
    added toy_runtime toy_runtime-IsLawful (fresh_log none) [] [] refl nothing_read tt noon
      noon-IsPrinted payload

abbrev lines : List Text
lines =
    line_of toy_runtime (
      added_json toy_runtime toy_runtime-IsLawful (fresh_log none) [] [] refl nothing_read tt noon
        noon-IsPrinted payload)
    ∷ []

abbrev facilities : Facilities
facilities = record {
  now = noon;
  in_days = λ days. codes "later";
  plus_days = λ time days. ok (codes "soon");
  is_older = λ time days. ok false;
  size = λ lines. length lines;
  file_sha256 = λ lines. codes "digest";
}

-- A file of any size is rotated.
abbrev config : AuditRetentionConfig
config = record {
  retention_days = pos 365;
  rotation_max_bytes = some (pos 1);
  rotation_max_age_days = none;
  export_enabled = false;
  allow_short_retention_for_dev = false;
}

abbrev dir : LogDir
dir = record { log = some lines; closed = []; manifest = none }

dated : IsDated toy_runtime facilities config none (codes "audit.jsonl") lines
unfolding created_at_of or_json truthy list_eq nat_eq
dated = (
  record_one,
  [],
  noon,
  read_envelopes-Reads toy_runtime lines (record_one ∷ []) (
      Reads-added toy_runtime toy_runtime-IsLawful (fresh_log none) [] [] refl nothing_read tt noon
        noon-IsPrinted payload),
  refl,
)

closing : Ends (rotate_lines toy_runtime facilities config none (codes "audit.jsonl") lines) dir
unfolding rotate_lines move_closed upsert has_file
closing =
    let (s, made) =
      segment_from_file-done toy_runtime facilities config none (codes "audit.jsonl")
        (λ time. (codes "soon", refl)) (codes "closed") lines dir dated in
    let name = name_of_segment toy_runtime facilities config none (codes "audit.jsonl") s in
    let closed = closed_segment toy_runtime facilities config none (codes "audit.jsonl") name s in
    let keep =
      upsert toy_runtime facilities config none (codes "audit.jsonl") closed >> pure closed in
    let moved : LogDir = record dir { log = none; closed = (name, lines) ∷ [] } in
    bind-Ends
      (segment_from_file toy_runtime facilities config none (codes "audit.jsonl") (codes "closed")
        lines)
      _ s dir dir made
      (bind-Ends (move_closed name lines) (λ _. keep) tt dir moved refl
        (closed, (keep moved).1, refl))
