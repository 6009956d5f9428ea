-- ===== src/Integrity/Hashed.antt =====
-- Which bytes the hash of an accepted record (runeguard/integrity.py) was computed from.
use runeguard.Prelude.{
  ◌≡◌, ◌∙◌, ◌⊎◌, inl, inr, Text, Bool, true, false, ◌&&◌, ◌∷◌, ◌++◌, Option, if◌then◌else◌, list_eq,
  nat_eq, arith,
}
use runeguard.Outcome.{ok, >>=-cases}
use runeguard.Json.{Json, Fields, object, is_none}
use runeguard.Integrity.Runtime.{Bytes, Runtime, IsLawful}
use runeguard.Integrity.Envelope.{
  Envelope, PyInt, seq_text, domain, encode_ascii, encode_utf8, or_empty, digest, legacy_digest,
  hash_material, canonical,
}
use runeguard.Integrity.Verify.{compare_digest, check_hash}
use runeguard.Integrity.Material.{
  last_field, last_field-NulFree, last_field-append, printed-NulFree,
}

-- The hashed bytes of a record, up to the fields behind the previous hash.
abbrev pub material : PyInt → Text → Bytes → Bytes
material seq prev_hash rest = domain ++ (0 ∷ (seq_text seq ++ (0 ∷ (prev_hash ++ (0 ∷ rest)))))

module _ (R : Runtime) (key : Option Bytes) where
  encode_ascii-eq : (text bytes : Text) → encode_ascii text ≡ ok bytes → bytes ≡ text
  unfolding encode_ascii
  encode_ascii-eq text bytes h = ground arith

  module _ (L : IsLawful R) where
    last_field-canonical :
        (payload : Fields) → last_field (canonical R payload) ≡ canonical R payload
    unfolding canonical
    last_field-canonical payload =
        last_field-NulFree _ (printed-NulFree _ (L.dumps_printed (object payload)))

    -- A digest that is computed is the hash of such bytes, with the payload behind the last NUL.
    digest-material :
        (seq : PyInt) (prev_hash : Text) (payload : Fields) (ts mode : Json) (h : Text)
        → digest R key seq prev_hash payload ts mode ≡ ok h
        → (rest : Bytes) × (h ≡ hash_material R key (material seq prev_hash rest))
          × (last_field rest ≡ canonical R payload)
    unfolding digest
    digest-material seq prev_hash payload ts mode h computed =
        >>=-cases (encode_ascii prev_hash) computed λ prev is_prev computed1.
          >>=-cases (or_empty ts) computed1 λ ts_text _ computed2.
            >>=-cases (encode_utf8 ts_text) computed2 λ ts_bytes _ computed3.
              >>=-cases (or_empty mode) computed3 λ mode_text _ computed4.
                >>=-cases (encode_ascii mode_text) computed4 λ mode_bytes _ computed5. (
                  ts_bytes ++ (0 ∷ (mode_bytes ++ (0 ∷ canonical R payload))),
                  rw (← encode_ascii-eq prev_hash prev is_prev) (cc),
                  last_field-append ts_bytes _
                      ∙ last_field-append mode_bytes _
                      ∙ last_field-canonical payload,
                )

    legacy_digest-material :
        (seq : PyInt) (prev_hash : Text) (payload : Fields) (h : Text)
        → legacy_digest R key seq prev_hash payload ≡ ok h
        → (rest : Bytes) × (h ≡ hash_material R key (material seq prev_hash rest))
          × (last_field rest ≡ canonical R payload)
    unfolding legacy_digest
    legacy_digest-material seq prev_hash payload h computed =
        >>=-cases (encode_ascii prev_hash) computed λ prev is_prev computed1. (
          canonical R payload,
          rw (← encode_ascii-eq prev_hash prev is_prev) (cc),
          last_field-canonical payload,
        )

    either_hash :
        (e : Envelope) (new old : Text) (same : Bool)
        → compare_digest new e.hash ≡ ok same
        → (if same
            then ok true
            else if is_none e.ts && is_none e.mode
            then compare_digest old e.hash
            else ok false)
          ≡ ok true
        → (new ≡ e.hash) ⊎ (old ≡ e.hash)
    unfolding compare_digest
    either_hash e new old true is_same good = inl (ground arith)
    either_hash e new old false is_same good = inr (ground arith)

    pub check_hash-material :
        (e : Envelope) (prev_hash : Text)
        → check_hash R key e prev_hash ≡ ok true
        → (rest : Bytes) × (e.hash ≡ hash_material R key (material e.seq prev_hash rest))
          × (last_field rest ≡ canonical R e.payload)
    unfolding check_hash
    check_hash-material e prev_hash good =
        >>=-cases (digest R key e.seq prev_hash e.payload e.ts e.mode) good λ new is_new good1.
          >>=-cases (legacy_digest R key e.seq prev_hash e.payload) good1 λ old is_old good2.
            >>=-cases (compare_digest new e.hash) good2 λ same is_same good3.
              elim (either_hash e new old same is_same good3) [
                | inl is_hash ↦
                    rw (← is_hash)
                      (digest-material e.seq prev_hash e.payload e.ts e.mode new is_new)
                | inr is_hash ↦
                    rw (← is_hash) (legacy_digest-material e.seq prev_hash e.payload old is_old)
              ]
