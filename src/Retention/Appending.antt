-- ===== src/Retention/Appending.antt =====
-- The class `ComplianceAuditLog` of runeguard/audit_compliance.py. The directory is the state; the
-- clock is read once in each call.
use runeguard.Prelude.{
  ℕ, Text, codes, Bool, false, List, [], ◌∷◌, ◌==◌, list_eq, nat_eq, length, if◌then◌else◌, Option,
  none, some,
}
use runeguard.Prelude.Int.{ℤ, pos}
use runeguard.Outcome.{ok, raised}
use runeguard.Json.{Json, str, Fields, get}
use runeguard.Logger.{or_json}
use runeguard.Effects.{Action, done, failed, pure, fail, lift, ◌>>=◌, ◌>>◌}
use runeguard.Integrity.Runtime.{Bytes, Runtime}
use runeguard.Integrity.Envelope.{Envelope, int_value}
use runeguard.Integrity.Log.{append}
use runeguard.Retention.{AuditRetentionConfig, Segment, le_ℤ, sorted_by, upsert_segment}
use runeguard.Retention.Envelopes.{read_envelopes, last_envelope}
use runeguard.Retention.Directory.{
  LogDir, Facilities, segment_name, segment_id, time_text, load_manifest, find_segment,
  last_segment, last_seq_of, lines_of, start_behind, start_after, with_times, move_closed,
}

module _ (R : Runtime) (facilities : Facilities) (config : AuditRetentionConfig)
    (key : Option Bytes) (file_name : Text) where
  -- `first.get("ts") or first["payload"].get("timestamp") or iso(utc_now())`
  unfoldable pub created_at_of : Envelope → Json
  unfolding or_json
  created_at_of first =
      or_json (or_json first.ts (get (codes "timestamp") first.payload)) (str facilities.now)

  -- The dict of `_segment_from_file`, with its two times.
  unfoldable pub segment_of : Text → List Text → ℕ → Envelope → Envelope → Text → Text → Segment
  unfolding segment_id
  segment_of status lines count first last created_at retention_until = record {
    id = segment_id (int_value first.seq) (int_value last.seq) last.hash;
    path = file_name;
    status = status;
    created_at = created_at;
    closed_at = if status == codes "open" then none else some facilities.now;
    first_seq = int_value first.seq;
    last_seq = int_value last.seq;
    prev_segment_head = first.prev_hash;
    head_hash = last.hash;
    record_count = count;
    file_sha256 = facilities.file_sha256 lines;
    retention_until = retention_until;
    export_status = if config.export_enabled then codes "pending" else codes "not_required";
    deletion_status = codes "present";
  }

  unfoldable pub segment_of_all : Text → List Text → List Envelope → Action LogDir Segment
  unfolding last_envelope created_at_of time_text segment_of
  segment_of_all status lines [] = fail
  segment_of_all status lines (first ∷ envelopes) = do
    created_at ← lift (time_text (created_at_of first))
    retention_until ← lift (facilities.plus_days created_at config.retention_days)
    pure (
        segment_of status lines (length (first ∷ envelopes)) first (last_envelope first envelopes)
          created_at retention_until)

  unfoldable pub segment_from_file : Text → List Text → Action LogDir Segment
  unfolding read_envelopes segment_of_all
  segment_from_file status lines = do
    envelopes ← lift (read_envelopes R lines)
    segment_of_all status lines envelopes

  unfoldable pub upsert : Segment → Action LogDir (Unit {0})
  unfolding upsert_segment load_manifest
  upsert segment dir = (
    done tt,
    record dir {
      manifest =
          some
            (upsert_segment R facilities.now segment (load_manifest facilities.now dir.manifest));
    },
  )

  unfoldable pub closed_segment : Text → Segment → Segment
  closed_segment name current = record current {
    path = name;
    closed_at = some facilities.now;
    retention_until = facilities.in_days config.retention_days;
    export_status = codes "pending";
  }

  unfoldable pub name_of_segment : Segment → Text
  unfolding segment_name
  name_of_segment current = segment_name current.first_seq current.last_seq current.head_hash

  -- `rotate` of a log that is there and not empty.
  unfoldable pub rotate_lines : List Text → Action LogDir Segment
  unfolding segment_from_file name_of_segment move_closed closed_segment upsert
  rotate_lines lines = do
    current ← segment_from_file (codes "closed") lines
    move_closed (name_of_segment current) lines
    upsert (closed_segment (name_of_segment current) current)
    pure (closed_segment (name_of_segment current) current)

  -- The log, if it is there and not empty.
  unfoldable pub full_log : Option (List Text) → Option (List Text)
  full_log none = none
  full_log (some lines) = if facilities.size lines == 0 then none else some lines

  unfoldable pub rotate : Action LogDir (Option Segment)
  unfolding full_log rotate_lines
  rotate dir = elim (full_log dir.log) [
    | none ↦ (done none, dir)
    | some lines ↦ (do segment ← rotate_lines lines; pure (some segment)) dir
  ]

  -- The second test of `_rotate_if_needed`.
  unfoldable pub rotate_old : Option ℤ → List Text → Action LogDir (Unit {0})
  unfolding segment_from_file rotate_lines
  rotate_old none lines = pure tt
  rotate_old (some days) lines = do
    current ← segment_from_file (codes "open") lines
    old ← lift (facilities.is_older current.created_at days)
    (if old then (rotate_lines lines >>= λ _. pure tt) else pure tt)

  unfoldable pub is_large : Option ℤ → List Text → Bool
  unfolding le_ℤ
  is_large none lines = false
  is_large (some bytes) lines = le_ℤ bytes (pos (facilities.size lines))

  unfoldable pub rotate_if_needed : Action LogDir (Unit {0})
  unfolding full_log rotate_lines rotate_old is_large
  rotate_if_needed dir = elim (full_log dir.log) [
    | none ↦ (done tt, dir)
    | some lines ↦
        (if is_large config.rotation_max_bytes lines
            then (rotate_lines lines >>= λ _. pure tt)
            else rotate_old config.rotation_max_age_days lines)
          dir
  ]

  unfoldable pub segments_of : LogDir → List Segment
  unfolding load_manifest
  segments_of dir = (load_manifest facilities.now dir.manifest).segments

  unfoldable pub next_chain_start : Action LogDir (ℤ × Text)
  unfolding full_log read_envelopes start_after start_behind segments_of last_segment sorted_by
  next_chain_start dir = elim (full_log dir.log) [
    | some lines ↦ (do envelopes ← lift (read_envelopes R lines); start_after envelopes) dir
    | none ↦ (done (start_behind (last_segment (sorted_by last_seq_of (segments_of dir)))), dir)
  ]

  -- `TamperEvidentLog(...).append(payload)` on the log of the directory.
  unfoldable pub append_from : ℤ × Text → Fields → Action LogDir Json
  unfolding lines_of append
  append_from (initial_seq, initial_prev_hash) payload dir =
      elim (append R
        (record { key = key; initial_seq = initial_seq; initial_prev_hash = initial_prev_hash })
        facilities.now payload (lines_of dir.log)) [
          | raised ↦ (failed, dir)
          | ok (envelope, lines) ↦ (done envelope, record dir { log = some lines })
        ]

  unfoldable pub record_open_segment : Action LogDir (Unit {0})
  unfolding lines_of segment_from_file with_times find_segment segments_of upsert
  record_open_segment dir =
      (do
        segment ← segment_from_file (codes "open") (lines_of dir.log)
        upsert (with_times (find_segment (segments_of dir) segment.id) segment))
        dir

  -- `append`
  unfoldable pub append_payload : Fields → Action LogDir Json
  unfolding rotate_if_needed next_chain_start append_from record_open_segment
  append_payload payload = do
    rotate_if_needed
    start ← next_chain_start
    envelope ← append_from start payload
    record_open_segment
    pure envelope
