-- ===== src/Tests/Rotation.antt =====
-- A log of one record that is rotated, for the theorems on runeguard/audit_compliance.py.
use runeguard.Prelude.{
  ◌≡◌, refl, Text, codes, false, List, [], ◌∷◌, none, some, length, nat_eq, list_eq, strip,
}
use runeguard.Prelude.Int.{pos, suc_ℤ, int_text}
use runeguard.Outcome.{ok}
use runeguard.Json.{Json, int, str, object, end, field, get, truthy}
use runeguard.Effects.{done}
use runeguard.Integrity.Runtime.{Runtime}
use runeguard.Integrity.Envelope.{Envelope, int_value, genesis_prev}
use runeguard.Retention.{AuditRetentionConfig, Segment}
use runeguard.Retention.Envelopes.{read_envelopes, last_envelope}
use runeguard.Retention.Directory.{LogDir, Facilities}
use runeguard.Retention.Appending.{rotate, segments_of, next_chain_start}
use runeguard.Retention.Sorting.{EndsLast}
use runeguard.Retention.Continuing.{rotate-continues}

abbrev one_envelope : Json
one_envelope = object (
    field (codes "hash") (str (codes "abc")) (
      field (codes "payload") (object end) (
        field (codes "prev_hash") (str genesis_prev)
          (field (codes "seq") (int (pos 0)) (field (codes "ts") (str (codes "noon")) end)))))

abbrev runtime : Runtime
runtime = record {
  sha256 = λ material. codes "digest";
  hmac_sha256 = λ key material. codes "digest";
  dumps = λ value. codes "{}";
  loads = λ text. some one_envelope;
}

abbrev facilities : Facilities
facilities = record {
  now = codes "now";
  in_days = λ days. codes "later";
  plus_days = λ time days. ok (codes "soon");
  is_older = λ time days. ok false;
  size = λ lines. length lines;
  file_sha256 = λ lines. codes "digest";
}

abbrev config : AuditRetentionConfig
config = record {
  retention_days = pos 365;
  rotation_max_bytes = none;
  rotation_max_age_days = none;
  export_enabled = false;
  allow_short_retention_for_dev = false;
}

abbrev dir : LogDir
dir = record { log = some (codes "{}" ∷ []); closed = []; manifest = none }

abbrev pub closed_name : Text
closed_name = codes "audit-000000000000-000000000000-abc.jsonl"

abbrev pub segment : Segment
segment = record {
  id = codes "0-0-abc";
  path = closed_name;
  status = codes "closed";
  created_at = codes "noon";
  closed_at = some (codes "now");
  first_seq = pos 0;
  last_seq = pos 0;
  prev_segment_head = genesis_prev;
  head_hash = codes "abc";
  record_count = 1;
  file_sha256 = codes "digest";
  retention_until = codes "later";
  export_status = codes "pending";
  deletion_status = codes "present";
}

abbrev after : LogDir
after = (rotate runtime facilities config none (codes "audit.jsonl") dir).1

rotated :
    rotate runtime facilities config none (codes "audit.jsonl") dir ≡ (done (some segment), after)
unfolding rotate nat_eq list_eq strip get truthy int_text int_value
rotated = refl

nothing_before :
    EndsLast segment (segments_of runtime facilities config none (codes "audit.jsonl") dir)
unfolding EndsLast segments_of
nothing_before = tt

rotate-continues_example :
    (lines : List Text) × (name : Text) × (first : Envelope) × (envelopes : List Envelope)
    × (dir.log ≡ some lines)
    × (after.log ≡ none)
    × (after.closed ≡ (name, lines) ∷ dir.closed)
    × (read_envelopes runtime lines ≡ ok (first ∷ envelopes))
    × (next_chain_start runtime facilities config none (codes "audit.jsonl") after ≡ (
      done (
        suc_ℤ (int_value (last_envelope first envelopes).seq),
        (last_envelope first envelopes).hash,
      ),
      after,
    ))
rotate-continues_example =
    rotate-continues runtime facilities config none (codes "audit.jsonl") segment dir after rotated
      nothing_before
