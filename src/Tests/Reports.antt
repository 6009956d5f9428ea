-- ===== src/Tests/Reports.antt =====
-- A report on two lines, for the theorem on runeguard/audit.py.
use runeguard.Prelude.{◌≡◌, refl, ◌+◌, Text, codes, List, [], ◌∷◌, some, strip, list_eq, nat_eq}
use runeguard.Outcome.{ok}
use runeguard.Json.{str, object, Fields, end, field, get}
use runeguard.Integrity.Runtime.{Runtime}
use runeguard.Integrity.Envelope.{unwrap_payload, read_envelope}
use runeguard.Redaction.{redact_value}
use runeguard.Regex.{sub}
use runeguard.Audit.{Report, report_of, build_report}
use runeguard.Audit.Totals.{build_report-total}
use runeguard.Tests.Serving.{shown}
use runeguard.Tests.Lawful.{toy_runtime}

abbrev blocked_event : Fields
blocked_event = field (codes "decision") (str (codes "block")) end

-- Every line reads as the same record.
abbrev reader : Runtime
reader = record toy_runtime { loads = λ line. some (object blocked_event) }

abbrev two_lines : List Text
two_lines = codes "x" ∷ codes "y" ∷ []

abbrev the_report : Report shown
the_report = report_of shown (blocked_event ∷ blocked_event ∷ [])

reported : build_report shown reader two_lines ≡ ok the_report
unfolding build_report list_eq strip nat_eq redact_value unwrap_payload read_envelope get sub
reported = refl

build_report-total_example :
    the_report.total_events
    ≡ the_report.allow_count + the_report.block_count + the_report.audit_count
build_report-total_example = build_report-total shown reader two_lines the_report reported
