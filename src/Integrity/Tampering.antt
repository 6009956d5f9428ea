-- ===== src/Integrity/Tampering.antt =====
-- What two logs with one head have in common: the promise of runeguard/integrity.py that edits are
-- detectable, down to a collision of the hash.
use mathlib.Core.Option.{some-injective}
use runeguard.Prelude.{
  ℕ, ◌≡◌, refl, sym, ◌∙◌, ◌⊎◌, inl, inr, Text, List, [], ◌∷◌, ◌++◌, length, Option, none, some,
  list_eq, nat_eq, arith, All,
}
use runeguard.Prelude.Int.{ℤ, suc_ℤ}
use runeguard.Outcome.{ok}
use runeguard.Integrity.Runtime.{Bytes, Runtime, IsLawful, IsPrinted}
use runeguard.Integrity.Envelope.{Envelope, canonical}
use runeguard.Integrity.Log.{iter_lines}
use runeguard.Integrity.Verify.{verify_log}
use runeguard.Integrity.Chain.{read_line, Reads, Links, last_hash, accepted, verify_log-accepts_iff}
use runeguard.Integrity.Growth.{last_text}
use runeguard.Integrity.Material.{NulFree, printed-NulFree}
use runeguard.Integrity.Collisions.{Collision, payload_bytes, same_chain, same_length}

-- The hashed payloads of the lines that hold envelopes.
pub hashed_payloads : Runtime → List Text → List Bytes
hashed_payloads R [] = []
hashed_payloads R (line ∷ lines) =
    let rest = hashed_payloads R lines in
    elim (read_line R line) [ none ↦ rest | some e ↦ canonical R e.payload ∷ rest ]

module _ (R : Runtime) (key : Option Bytes) (L : IsLawful R) where
  hashed_payloads-Reads :
      (lines : List Text) (es : List Envelope)
      → Reads R lines es
      → hashed_payloads R lines ≡ payload_bytes R es
  unfolding hashed_payloads
  hashed_payloads-Reads [] [] reads = refl
  hashed_payloads-Reads (line ∷ lines) (e ∷ es) (read, reads) =
      ground (arith, hashed_payloads-Reads lines es reads)
  hashed_payloads-Reads [] (e ∷ es) reads = absurd reads
  hashed_payloads-Reads (line ∷ lines) [] reads = absurd reads

  last_hash-last_text :
      (head : Option Text) (prev : Text) (e : Envelope) (es : List Envelope)
      → last_hash head (e ∷ es) ≡ some (last_text prev (e ∷ es))
  last_hash-last_text head prev e [] = refl
  last_hash-last_text head prev e (d ∷ es) = last_hash-last_text (some e.hash) e.hash d es

  same_payloads :
      (seq : ℤ) (prev head : Text) (es es' : List Envelope)
      → NulFree prev
      → Links R key seq prev es
      → Links R key seq prev es'
      → some head ≡ last_hash none es
      → some head ≡ last_hash none es'
      → Collision R key ⊎ (payload_bytes R es ≡ payload_bytes R es')
  same_payloads seq prev head (e ∷ es) (e' ∷ es') free links links' is_head is_head' =
      let same : last_text prev (e ∷ es) ≡ last_text prev (e' ∷ es') = some-injective _ _ (
        sym (last_hash-last_text none prev e es)
        ∙ sym is_head
        ∙ is_head'
        ∙ last_hash-last_text none prev e' es') in
      elim (same_length R key L seq prev e e' es es' free links links' same) [
        | inl collision ↦ inl collision
        | inr long ↦
            elim (same_chain R key L seq prev prev (e ∷ es) (e' ∷ es') free free links links' long
              same) [ inl collision ↦ inl collision | inr (_, payloads) ↦ inr payloads ]
      ]
  same_payloads seq prev head [] es' free links links' is_head is_head' = cc
  same_payloads seq prev head (e ∷ es) [] free links links' is_head is_head' = cc

  -- An expected head pins the log: two files that `verify_log` accepts from one start, with one key
  -- and one expected head, hold the same payloads in the same order, as far as their canonical
  -- bytes tell, or two different inputs of the hash with one digest are at hand. So an edit, a
  -- deletion, an insertion, a reordering and a cut at the tail all show, whatever the two counts.
  pub verify_log_pins_payloads :
      (start : ℤ) (prev head : Text) (lines lines' : List Text) (count count' : ℕ)
      → All IsPrinted prev
      → verify_log R key (some head) start prev lines ≡ ok (accepted count (some head))
      → verify_log R key (some head) start prev lines' ≡ ok (accepted count' (some head))
      → Collision R key
        ⊎ (hashed_payloads R (iter_lines lines) ≡ hashed_payloads R (iter_lines lines'))
  verify_log_pins_payloads start prev head lines lines' count count' printed fine fine' =
      let (es, reads, links, _, last, _) =
        (verify_log-accepts_iff R key (some head) start prev lines count (some head)).0 fine in
      let (es', reads', links', _, last', _) =
        (verify_log-accepts_iff R key (some head) start prev lines' count' (some head)).0 fine' in
      rw (hashed_payloads-Reads _ es reads, hashed_payloads-Reads _ es' reads')
        (same_payloads start prev head es es' (printed-NulFree prev printed) links links' last
          last')

iter_lines-append_all :
    (lines more : List Text) → iter_lines (lines ++ more) ≡ iter_lines lines ++ iter_lines more
unfolding iter_lines
iter_lines-append_all [] more = refl
iter_lines-append_all (raw ∷ lines) more = ground (arith, iter_lines-append_all lines more)

-- The part of a chain that the first lines hold.
chain_prefix :
    (R : Runtime) (key : Option Bytes) (seq : ℤ) (prev : Text) (lines more : List Text)
    (es : List Envelope)
    → Reads R (lines ++ more) es
    → Links R key seq prev es
    → (ds : List Envelope) × Reads R lines ds × Links R key seq prev ds
chain_prefix R key seq prev [] more es reads links = ([], tt, tt)
chain_prefix R key seq prev (line ∷ lines) more (e ∷ es) (read, reads) (s, l, good, links) =
    let (ds, reads', links') = chain_prefix R key (suc_ℤ seq) e.hash lines more es reads links in
    (e ∷ ds, (read, reads'), (s, l, good, links'))
chain_prefix R key seq prev (line ∷ lines) more [] reads links = absurd reads

-- With no expected head, a log that is cut at any line is accepted whenever the whole log is: the
-- chain alone does not show a truncation.
pub verify_log-truncated :
    (R : Runtime) (key : Option Bytes) (start : ℤ) (prev : Text) (lines more : List Text)
    (count : ℕ) (head : Option Text)
    → verify_log R key none start prev (lines ++ more) ≡ ok (accepted count head)
    → (count' : ℕ) × (head' : Option Text) × (verify_log R key none start prev lines
        ≡ ok (accepted count' head'))
verify_log-truncated R key start prev lines more count head fine =
    let (es, reads, links, _, _, _) =
      (verify_log-accepts_iff R key none start prev (lines ++ more) count head).0 fine in
    let (ds, reads', links') =
      chain_prefix R key start prev (iter_lines lines) (iter_lines more) es
        (rw iter_lines-append_all at reads) links in
    (
      length ds,
      last_hash none ds,
      (verify_log-accepts_iff R key none start prev lines (length ds) (last_hash none ds)).1
          (ds, reads', links', refl, refl, tt),
    )
