-- ===== src/Integrity/Growth.antt =====
-- What `TamperEvidentLog.append` of runeguard/integrity.py leaves behind is accepted by
-- `verify_log`.
use mathlib.Core.List.{reverse-append}
use runeguard.Prelude.{
  ap, rstrip, lstrip, ◌≡◌, ◌≢◌, refl, ◌∙◌, Text, true, List, [], ◌∷◌, ◌++◌, Option, none, some,
  list_eq, nat_eq, option_eq, arith, All, all, ltb, strip,
}
use runeguard.Prelude.Int.{ℤ, suc_ℤ, pred_ℤ, pred_ℤ-suc_ℤ, int_eq}
use runeguard.Outcome.{Outcome, ok}
use runeguard.Integrity.Runtime.{Bytes, Runtime, IsPrinted}
use runeguard.Integrity.Envelope.{Envelope, int_value, encode_utf8, utf8_code}
use runeguard.Integrity.Log.{
  TamperEvidentLog, ChainHead, has_break, written_behind, iter_lines, last_line, head_of, tail_head,
}
use runeguard.Integrity.Chain.{read_line, Reads, Links, last_hash}

-- The sequence number after a chain, and the hash that the next record has to name.
abbrev pub next_seq : ℤ → List Envelope → ℤ
next_seq seq [] = seq
next_seq seq (e ∷ es) = next_seq (suc_ℤ seq) es

abbrev pub last_text : Text → List Envelope → Text
last_text hash [] = hash
last_text hash (e ∷ es) = last_text e.hash es

abbrev pub IsAscii : Text → Type 0
IsAscii text = all (λ c. ltb c 128) text ≡ true

pub printed-IsAscii : (text : Text) → All IsPrinted text → IsAscii text
printed-IsAscii [] h = refl
printed-IsAscii (c ∷ text) (h, more) = ground (arith, printed-IsAscii text more)

pub encode_utf8-ascii : (text : Text) → All IsPrinted text → encode_utf8 text ≡ ok text
unfolding encode_utf8 utf8_code
encode_utf8-ascii [] h = refl
encode_utf8-ascii (c ∷ text) (h, more) = ground (arith, encode_utf8-ascii text more)

pub iter_lines-append :
    (lines : List Text) (raw line : Text)
    → strip raw ≡ line
    → line ≢ []
    → iter_lines (lines ++ (raw ∷ [])) ≡ iter_lines lines ++ (line ∷ [])
unfolding iter_lines
iter_lines-append [] raw line stripped full = ground arith
iter_lines-append (first ∷ lines) raw line stripped full =
    ground (arith, iter_lines-append lines raw line stripped full)

-- The last line, if there is one, has a break at its end.
abbrev pub IsTerminated : List Text → Type 0
IsTerminated [] = Unit
IsTerminated (line ∷ []) = has_break line ≡ true
IsTerminated (line ∷ next ∷ lines) = IsTerminated (next ∷ lines)

pub written_behind-IsTerminated :
    (lines : List Text) (text : Text)
    → IsTerminated lines
    → written_behind lines text ≡ lines ++ (text ∷ [])
unfolding written_behind
written_behind-IsTerminated [] text terminated = refl
written_behind-IsTerminated (line ∷ []) text terminated = rw terminated refl
written_behind-IsTerminated (line ∷ next ∷ lines) text terminated =
    ap (λ more. line ∷ more) (written_behind-IsTerminated (next ∷ lines) text terminated)

has_break-append : (text : Text) → has_break (text ++ (10 ∷ [])) ≡ true
unfolding has_break nat_eq
has_break-append [] = refl
has_break-append (c ∷ []) = refl
has_break-append (c ∷ d ∷ text) = has_break-append (d ∷ text)

pub IsTerminated-append :
    (lines : List Text) (text : Text) → IsTerminated (lines ++ ((text ++ (10 ∷ [])) ∷ []))
IsTerminated-append [] text = has_break-append text
IsTerminated-append (line ∷ []) text = has_break-append text
IsTerminated-append (line ∷ next ∷ lines) text = IsTerminated-append (next ∷ lines) text

-- `strip` takes the break off.
pub strip-break : (text : Text) → strip (text ++ (10 ∷ [])) ≡ strip text
unfolding strip rstrip lstrip nat_eq
strip-break text = rw reverse-append refl

pub Reads-append :
    (R : Runtime) (lines : List Text) (es : List Envelope) (line : Text) (e : Envelope)
    → Reads R lines es
    → read_line R line ≡ some e
    → Reads R (lines ++ (line ∷ [])) (es ++ (e ∷ []))
Reads-append R [] [] line e reads read = (read, tt)
Reads-append R (l ∷ lines) (d ∷ es) line e (first, reads) read =
    (first, Reads-append R lines es line e reads read)
Reads-append R [] (d ∷ es) line e reads read = absurd reads
Reads-append R (l ∷ lines) [] line e reads read = absurd reads

pub Links-append :
    (R : Runtime) (key : Option Bytes) (seq : ℤ) (prev_hash : Text) (es : List Envelope)
    (e : Envelope)
    → Links R key seq prev_hash es
    → Links R key (next_seq seq es) (last_text prev_hash es) (e ∷ [])
    → Links R key seq prev_hash (es ++ (e ∷ []))
Links-append R key seq prev_hash [] e links link = link
Links-append R key seq prev_hash (d ∷ es) e (same, linked, good, links) link =
    (same, linked, good, Links-append R key (suc_ℤ seq) d.hash es e links link)

pub last_hash-append :
    (head : Option Text) (es : List Envelope) (e : Envelope)
    → last_hash head (es ++ (e ∷ [])) ≡ some e.hash
last_hash-append head [] e = refl
last_hash-append head (d ∷ es) e = last_hash-append (some d.hash) es e

-- The head that `tail_head` reads from a chain.
abbrev pub chain_head : ℤ → Text → ChainHead
chain_head seq hash = record { seq = pred_ℤ seq; hash = hash }

module _ (R : Runtime) (key : Option Bytes) where
  head_of-read :
      (line : Text) (e : Envelope)
      → read_line R line ≡ some e
      → head_of R line ≡ ok (record { seq = int_value e.seq; hash = e.hash })
  unfolding head_of read_line
  head_of-read line e read = ground arith

  head_of-last_line :
      (line : Text) (lines : List Text) (e : Envelope) (es : List Envelope) (seq : ℤ)
      (prev_hash : Text)
      → Reads R (line ∷ lines) (e ∷ es)
      → Links R key seq prev_hash (e ∷ es)
      → (last : Text) × (last_line (line ∷ lines) ≡ some last)
        × (head_of R last ≡ ok (chain_head (next_seq (suc_ℤ seq) es) (last_text e.hash es)))
  unfolding last_line
  head_of-last_line line [] e [] seq prev_hash (read, reads) links =
      (line, refl, head_of-read line e read ∙ rw (links.0, pred_ℤ-suc_ℤ))
  head_of-last_line line (next ∷ lines) e (d ∷ es) seq prev_hash (read, reads) links =
      head_of-last_line next lines d es (suc_ℤ seq) e.hash reads links.3
  head_of-last_line line [] e (d ∷ es) seq prev_hash reads links = absurd reads.1
  head_of-last_line line (next ∷ lines) e [] seq prev_hash reads links = absurd reads.1

  -- The head of a file that holds a chain.
  pub tail_head-Links :
      (log : TamperEvidentLog) (lines : List Text) (es : List Envelope)
      → Reads R (iter_lines lines) es
      → Links R key log.initial_seq log.initial_prev_hash es
      → tail_head R log lines
        ≡ ok (chain_head (next_seq log.initial_seq es) (last_text log.initial_prev_hash es))
  unfolding tail_head last_line
  tail_head-Links log lines es reads links = go (iter_lines lines) es reads links
    where
      go :
          (read : List Text) (es : List Envelope)
          → Reads R read es
          → Links R key log.initial_seq log.initial_prev_hash es
          → elim (last_line read) as (λ _. Outcome ChainHead) [
            | none ↦ ok (chain_head log.initial_seq log.initial_prev_hash)
            | some line ↦ head_of R line
          ]
            ≡ ok (chain_head (next_seq log.initial_seq es) (last_text log.initial_prev_hash es))
      go [] [] reads links = refl
      go (line ∷ lines) (e ∷ es) reads links =
          let (last, found, read) =
            head_of-last_line line lines e es log.initial_seq log.initial_prev_hash reads links in
          rw found read
      go [] (e ∷ es) reads links = absurd reads
      go (line ∷ lines) [] reads links = absurd reads
