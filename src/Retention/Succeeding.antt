-- ===== src/Retention/Succeeding.antt =====
-- `ComplianceAuditLog.append` of runeguard/audit_compliance.py succeeds.
use runeguard.Prelude.{◌≡◌, ◌≢◌, Text, List, [], ◌∷◌, Option, All, list_eq, nat_eq}
use runeguard.Prelude.Int.{ℤ}
use runeguard.Outcome.{ok}
use runeguard.Json.{Json, Fields}
use runeguard.Integrity.Runtime.{Bytes, Runtime, IsLawful, IsPrinted}
use runeguard.Integrity.Envelope.{Envelope}
use runeguard.Integrity.Log.{line_of, iter_lines}
use runeguard.Integrity.Chain.{Reads, Links}
use runeguard.Integrity.Growth.{IsAscii}
use runeguard.Retention.{AuditRetentionConfig}
use runeguard.Retention.Directory.{Facilities}
use runeguard.Retention.Carried.{written_json}

module _ (R : Runtime) (facilities : Facilities) (config : AuditRetentionConfig)
    (key : Option Bytes) (file_name : Text) where
  module _
      (adds : (time : Text)
        → (until : Text) × (facilities.plus_days time config.retention_days ≡ ok until)) where
    module _ (L : IsLawful R) (printed : All IsPrinted facilities.now) (full : facilities.now ≢ [])
        (seq : ℤ) (prev_hash : Text) (ascii : IsAscii prev_hash) (lines : List Text) (e : Envelope)
        (es : List Envelope) (reads : Reads R (iter_lines lines) (e ∷ es))
        (links : Links R key seq prev_hash (e ∷ es)) (payload : Fields) where
      abbrev line : Text
      line = line_of R (
          written_json R facilities config key file_name L printed seq prev_hash ascii lines e es
            reads links payload)
