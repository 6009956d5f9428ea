-- ===== src/Retention/Envelopes.antt =====
-- `_read_envelopes` of runeguard/audit_compliance.py, on the lines of a file.
use runeguard.Prelude.{Text, List, [], ◌∷◌, none, some}
use runeguard.Outcome.{Outcome, ok, raised, ◌>>=◌}
use runeguard.Integrity.Runtime.{Runtime}
use runeguard.Integrity.Envelope.{Envelope, read_envelope}
use runeguard.Integrity.Log.{iter_lines}

unfoldable pub envelope_of : Runtime → Text → Outcome Envelope
unfolding read_envelope
envelope_of R line = elim (R.loads line) [
  | none ↦ raised
  | some value ↦ elim (read_envelope value) [ none ↦ raised | some envelope ↦ ok envelope ]
]

unfoldable pub envelopes_of : Runtime → List Text → Outcome (List Envelope)
unfolding envelope_of
envelopes_of R [] = ok []
envelopes_of R (line ∷ lines) = do
  envelope ← envelope_of R line
  envelopes ← envelopes_of R lines
  ok (envelope ∷ envelopes)

unfoldable pub read_envelopes : Runtime → List Text → Outcome (List Envelope)
unfolding envelopes_of iter_lines
read_envelopes R lines = envelopes_of R (iter_lines lines)

-- `envelopes[-1]`, of a list that has a first.
unfoldable pub last_envelope : Envelope → List Envelope → Envelope
last_envelope first [] = first
last_envelope first (next ∷ envelopes) = last_envelope next envelopes
