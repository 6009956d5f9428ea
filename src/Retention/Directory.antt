-- ===== src/Retention/Directory.antt =====
-- What `ComplianceAuditLog` of runeguard/audit_compliance.py keeps on the disk and what it is
-- given, and its helpers.
use runeguard.Prelude.{
  ℕ, zero, suc, ◌+◌, ◌-◌, Text, codes, Bool, true, false, List, [], ◌∷◌, ◌++◌, ◌==◌, list_eq,
  nat_eq, length, take, if◌then◌else◌, Option, none, some,
}
use runeguard.Prelude.Int.{ℤ, pos, negsuc, suc_ℤ, nat_text, int_text}
use runeguard.Outcome.{Outcome, ok, raised}
use runeguard.Json.{Json, str}
use runeguard.Effects.{Action, done, failed, pure, fail}
use runeguard.Integrity.Envelope.{Envelope, int_value, genesis_prev}
use runeguard.Retention.{Segment, Manifest}
use runeguard.Retention.Envelopes.{last_envelope}

-- The files of the directory: the lines of the log that is written, if it is there, the closed
-- logs by their names, and the manifest, if it is there.
pub record LogDir : Type 0 where
  pub log : Option (List Text)
  pub closed : List (Text × List Text)
  pub manifest : Option Manifest

-- What the operating system and `datetime` give.
pub record Facilities : Type 0 where
  -- `iso(utc_now())`
  pub now : Text
  -- `iso(utc_now() + timedelta(days=days))`
  pub in_days : ℤ → Text
  -- `iso(parse_iso(time) + timedelta(days=days))`
  pub plus_days : Text → ℤ → Outcome Text
  -- `utc_now() - parse_iso(time) >= timedelta(days=days)`
  pub is_older : Text → ℤ → Outcome Bool
  -- `path.stat().st_size` and `file_sha256(path)`
  pub size : List Text → ℕ
  pub file_sha256 : List Text → Text

-- `f"{n:0{width}d}"` of the digits.
zeros : ℕ → Text
zeros zero = []
zeros (suc n) = b'0' ∷ zeros n

unfoldable pub padded : ℤ → Text
unfolding zeros
padded (pos n) = zeros (12 - length (nat_text n)) ++ nat_text n
padded (negsuc n) = b'-' ∷ (zeros (11 - length (nat_text (n + 1))) ++ nat_text (n + 1))

unfoldable pub segment_name : ℤ → ℤ → Text → Text
unfolding padded
segment_name first_seq last_seq head_hash =
    codes "audit-"
    ++ (padded first_seq
        ++ (codes "-" ++ (padded last_seq ++ (codes "-" ++ (take 12 head_hash ++ codes ".jsonl")))))

unfoldable pub segment_id : ℤ → ℤ → Text → Text
segment_id first_seq last_seq head_hash =
    int_text first_seq ++ (codes "-" ++ (int_text last_seq ++ (codes "-" ++ take 16 head_hash)))

-- A time that is no text has no `replace`.
unfoldable pub time_text : Json → Outcome Text
time_text (str text) = ok text
time_text _ = raised

-- `RetentionManifest.load`
unfoldable pub load_manifest : Text → Option Manifest → Manifest
load_manifest now none = record {
  version = pos 1;
  created_at = now;
  updated_at = now;
  segments = [];
  manifest_hash = none;
}
load_manifest now (some manifest) = manifest

-- `_find_segment`
unfoldable pub find_segment : List Segment → Text → Option Segment
find_segment [] id = none
find_segment (segment ∷ segments) id =
    let later = find_segment segments id in if segment.id == id then some segment else later

unfoldable pub last_segment : List Segment → Option Segment
last_segment [] = none
last_segment (segment ∷ []) = some segment
last_segment (segment ∷ next ∷ segments) = last_segment (next ∷ segments)

abbrev pub last_seq_of : Segment → ℤ
last_seq_of segment = segment.last_seq

unfoldable pub has_file : Text → List (Text × List Text) → Bool
has_file name [] = false
has_file name ((other, lines) ∷ files) = if other == name then true else has_file name files

unfoldable pub lines_of : Option (List Text) → List Text
lines_of none = []
lines_of (some lines) = lines

unfoldable pub start_behind : Option Segment → ℤ × Text
start_behind none = (pos 0, genesis_prev)
start_behind (some last) = (suc_ℤ last.last_seq, last.head_hash)

-- What `_next_chain_start` returns for the envelopes of the log, which has one.
unfoldable pub start_after : List Envelope → Action LogDir (ℤ × Text)
unfolding last_envelope
start_after [] = fail
start_after (first ∷ envelopes) =
    let tail = last_envelope first envelopes in pure (suc_ℤ (int_value tail.seq), tail.hash)

-- A segment that is known keeps its times.
unfoldable pub with_times : Option Segment → Segment → Segment
with_times none segment = segment
with_times (some existing) segment = record segment {
  created_at = existing.created_at;
  retention_until = existing.retention_until;
}

-- `os.replace(self.path, closed_path)`, unless the name is taken.
unfoldable pub move_closed : Text → List Text → Action LogDir (Unit {0})
unfolding has_file
move_closed name lines dir =
    if has_file name dir.closed
    then (failed, dir)
    else (done tt, record dir { log = none; closed = (name, lines) ∷ dir.closed })
