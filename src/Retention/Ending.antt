-- ===== src/Retention/Ending.antt =====
-- Which steps of `ComplianceAuditLog.append` of runeguard/audit_compliance.py come to a result.
use runeguard.Prelude.{
  ◌≡◌, ◌≢◌, refl, Text, codes, List, [], ◌∷◌, length, Option, some, list_eq, nat_eq,
}
use runeguard.Prelude.Int.{ℤ}
use runeguard.Outcome.{ok}
use runeguard.Json.{Json, str, Fields, truthy}
use runeguard.Logger.{or_json}
use runeguard.Effects.{done, Ends, bind-Ends}
use runeguard.Integrity.Runtime.{Bytes, Runtime}
use runeguard.Integrity.Envelope.{Envelope}
use runeguard.Retention.{AuditRetentionConfig, Segment}
use runeguard.Retention.Envelopes.{read_envelopes, last_envelope}
use runeguard.Retention.Directory.{LogDir, Facilities, time_text, lines_of}
use runeguard.Retention.Appending.{
  created_at_of, segment_of, segment_of_all, segment_from_file, rotate_if_needed, next_chain_start,
  append_from, upsert, record_open_segment, append_payload,
}
use runeguard.Retention.Stepping.{appended}

pub option-same : (xs ys : List Text) → some xs ≡ some ys → xs ≡ ys
option-same xs ys h = cc

pub or_json-text : (text : Text) (other : Json) → text ≢ [] → or_json (str text) other ≡ str text
unfolding or_json truthy list_eq
or_json-text [] other full = absurd (full refl)
or_json-text (c ∷ text) other full = refl

module _ (R : Runtime) (facilities : Facilities) (config : AuditRetentionConfig)
    (key : Option Bytes) (file_name : Text) where
  -- The log is read, and its first envelope has a time that is a text.
  abbrev pub IsDated : List Text → Type 0
  IsDated lines =
      (first : Envelope) × (envelopes : List Envelope) × (time : Text) × (read_envelopes R lines
        ≡ ok (first ∷ envelopes))
      × (created_at_of R facilities config key file_name first ≡ str time)

  module _
      (adds : (time : Text)
        → (until : Text) × (facilities.plus_days time config.retention_days ≡ ok until)) where
    pub segment_from_file-done :
        (status : Text) (lines : List Text) (dir : LogDir)
        → IsDated lines
        → (s : Segment) × (segment_from_file R facilities config key file_name status lines dir
            ≡ (done s, dir))
    unfolding segment_from_file segment_of_all time_text
    segment_from_file-done status lines dir (first, envelopes, time, read, dated) =
        let (until, added_days) = adds time in
        (
          segment_of R facilities config key file_name status lines (length (first ∷ envelopes))
              first (last_envelope first envelopes) time until,
          rw (read, segment_of_all, dated, added_days) refl,
        )

    record_open_segment-Ends :
        (dir : LogDir)
        → IsDated (lines_of dir.log)
        → Ends (record_open_segment R facilities config key file_name) dir
    unfolding record_open_segment upsert lines_of
    record_open_segment-Ends dir dated =
        let (s, made) = segment_from_file-done (codes "open") _ dir dated in
        bind-Ends
          (segment_from_file R facilities config key file_name (codes "open") (lines_of dir.log)) _
          s dir dir made (tt, _, refl)

    append_from-wrote :
        (start : ℤ × Text) (payload : Fields) (envelope : Json) (after : List Text) (dir : LogDir)
        → appended R facilities config key file_name start payload dir ≡ ok (envelope, after)
        → append_from R facilities config key file_name start payload dir
          ≡ (done envelope, record dir { log = some after })
    unfolding append_from
    append_from-wrote (seq, hash) payload envelope after dir wrote = rw (append_from, wrote) refl

    pub append_payload-Ends :
        (payload : Fields) (start : ℤ × Text) (envelope : Json) (after : List Text)
        (dir between : LogDir)
        → rotate_if_needed R facilities config key file_name dir ≡ (done tt, between)
        → next_chain_start R facilities config key file_name between ≡ (done start, between)
        → appended R facilities config key file_name start payload between ≡ ok (envelope, after)
        → IsDated after
        → Ends (append_payload R facilities config key file_name payload) dir
    unfolding append_payload
    append_payload-Ends payload start envelope after dir between rotated begun wrote dated =
        let written : LogDir = record between { log = some after } in
        let ran = append_from-wrote start payload envelope after between wrote in
        let (_, dir', recorded) = record_open_segment-Ends written dated in
        bind-Ends (rotate_if_needed R facilities config key file_name) _ tt dir between rotated (
          bind-Ends (next_chain_start R facilities config key file_name) _ start between between
            begun
            (bind-Ends (append_from R facilities config key file_name start payload) _ envelope
              between written ran
              (bind-Ends (record_open_segment R facilities config key file_name) _ tt written dir'
                recorded (envelope, dir', refl))))
