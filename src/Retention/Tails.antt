-- ===== src/Retention/Tails.antt =====
-- The end of a chain, as the log (runeguard/integrity.py) and the directory of its segments
-- (runeguard/audit_compliance.py) read it.
use runeguard.Prelude.{◌≡◌, refl, ◌∙◌, Text, List, [], ◌∷◌, Option, some, ap, arith}
use runeguard.Prelude.Int.{ℤ, suc_ℤ}
use runeguard.Outcome.{ok}
use runeguard.Integrity.Runtime.{Bytes, Runtime}
use runeguard.Integrity.Envelope.{Envelope, int_value}
use runeguard.Integrity.Log.{TamperEvidentLog, iter_lines, last_line, tail_head}
use runeguard.Integrity.Chain.{read_line, Reads, Links}
use runeguard.Integrity.Growth.{next_seq, last_text}
use runeguard.Retention.Envelopes.{envelope_of, envelopes_of, read_envelopes, last_envelope}

last_line-cons :
    (line : Text) (lines : List Text) → (last : Text) × (last_line (line ∷ lines) ≡ some last)
unfolding last_line
last_line-cons line [] = (line, refl)
last_line-cons line (next ∷ lines) = last_line-cons next lines

module _ (R : Runtime) where
  -- A log that has a record does not go back to its start.
  pub tail_head-start :
      (log other : TamperEvidentLog) (lines : List Text) (e : Envelope) (es : List Envelope)
      → Reads R (iter_lines lines) (e ∷ es)
      → tail_head R log lines ≡ tail_head R other lines
  unfolding tail_head
  tail_head-start log other lines e es reads = go (iter_lines lines) refl reads
    where
      go :
          (read : List Text)
          → iter_lines lines ≡ read
          → Reads R read (e ∷ es)
          → tail_head R log lines ≡ tail_head R other lines
      go [] same none_left = absurd none_left
      go (line ∷ rest) same found =
          let (last, is_last) = last_line-cons line rest in
          let at_last : last_line (iter_lines lines) ≡ some last = ap last_line same ∙ is_last in
          rw (tail_head, at_last) refl

  envelope_of_read :
      (line : Text) (e : Envelope) → read_line R line ≡ some e → envelope_of R line ≡ ok e
  unfolding envelope_of read_line
  envelope_of_read line e read = ground arith

  envelopes_of-Reads :
      (lines : List Text) (es : List Envelope) → Reads R lines es → envelopes_of R lines ≡ ok es
  unfolding envelopes_of
  envelopes_of-Reads [] [] reads = refl
  envelopes_of-Reads (line ∷ lines) (e ∷ es) (read, reads) =
      rw (envelope_of_read line e read, envelopes_of-Reads lines es reads) refl
  envelopes_of-Reads [] (e ∷ es) reads = absurd reads
  envelopes_of-Reads (line ∷ lines) [] reads = absurd reads

  pub read_envelopes-Reads :
      (lines : List Text) (es : List Envelope)
      → Reads R (iter_lines lines) es
      → read_envelopes R lines ≡ ok es
  unfolding read_envelopes
  read_envelopes-Reads lines es reads = envelopes_of-Reads (iter_lines lines) es reads

  -- The number and the hash behind a chain are those behind its last envelope.
  pub next_seq-Links :
      (key : Option Bytes) (seq : ℤ) (prev_hash : Text) (e : Envelope) (es : List Envelope)
      → Links R key seq prev_hash (e ∷ es)
      → suc_ℤ (int_value (last_envelope e es).seq) ≡ next_seq seq (e ∷ es)
  unfolding last_envelope
  next_seq-Links key seq prev_hash e [] links = ap suc_ℤ links.0
  next_seq-Links key seq prev_hash e (d ∷ es) links =
      next_seq-Links key (suc_ℤ seq) e.hash d es links.3

pub last_text-last_envelope :
    (prev_hash : Text) (e : Envelope) (es : List Envelope)
    → (last_envelope e es).hash ≡ last_text prev_hash (e ∷ es)
unfolding last_envelope
last_text-last_envelope prev_hash e [] = refl
last_text-last_envelope prev_hash e (d ∷ es) = last_text-last_envelope e.hash d es
