-- ===== src/Integrity/Collisions.antt =====
-- What two chains of envelopes (runeguard/integrity.py) with one last hash have in common, down to
-- a collision of the hash.
use runeguard.Prelude.{
  ◌+◌, ◌≡◌, ◌≢◌, refl, sym, ◌∙◌, ap, ◌⊎◌, inl, inr, Text, true, List, [], ◌∷◌, length, map, Option,
  none, some, list_eq, nat_eq, arith,
}
use runeguard.Prelude.Int.{ℤ, suc_ℤ, pos_part, neg_part, suc_ℤ_parts}
use runeguard.Outcome.{ok}
use runeguard.Integrity.Runtime.{Bytes, Runtime, IsLawful}
use runeguard.Integrity.Envelope.{
  Envelope, PyInt, int_value, seq_text, domain, hash_material, canonical,
}
use runeguard.Integrity.Verify.{check_hash}
use runeguard.Integrity.Chain.{Links}
use runeguard.Integrity.Growth.{next_seq, last_text}
use runeguard.Integrity.Material.{
  NulFree, first_field, last_field, printed-NulFree, seq_text-NulFree, seq_text_determines,
}
use runeguard.Integrity.Hashed.{material, check_hash-material}

-- Two inputs that the hash of the log, keyed or not, cannot tell apart.
abbrev pub Collision : Runtime → Option Bytes → Type 0
Collision R key =
    (m : Bytes) × (m' : Bytes) × (m ≢ m') × (hash_material R key m ≡ hash_material R key m')

domain-NulFree : NulFree domain
domain-NulFree = omega arith

-- Equal bytes come from equal fields.
material_determines :
    (seq seq' : PyInt) (prev prev' : Text) (rest rest' : Bytes)
    → NulFree prev
    → NulFree prev'
    → material seq prev rest ≡ material seq' prev' rest'
    → (int_value seq ≡ int_value seq') × (prev ≡ prev') × (rest ≡ rest')
material_determines seq seq' prev prev' rest rest' h h' p =
    let (_, p1) = first_field domain domain _ _ domain-NulFree domain-NulFree p in
    let (same_seq, p2) =
      first_field (seq_text seq) (seq_text seq') _ _ (seq_text-NulFree seq) (seq_text-NulFree seq')
        p1 in
    let (same_prev, same_rest) = first_field prev prev' _ _ h h' p2 in
    (seq_text_determines seq seq' same_seq, same_prev, same_rest)

next_seq_parts :
    (seq : ℤ) (es : List Envelope)
    → pos_part (next_seq seq es) + neg_part seq
      ≡ neg_part (next_seq seq es) + pos_part seq + length es
next_seq_parts seq [] = omega arith
next_seq_parts seq (e ∷ es) = omega (arith, next_seq_parts (suc_ℤ seq) es, suc_ℤ_parts seq)

next_seq_determines :
    (seq : ℤ) (es es' : List Envelope) → next_seq seq es ≡ next_seq seq es' → length es ≡ length es'
next_seq_determines seq es es' same =
    omega (arith, next_seq_parts seq es, next_seq_parts seq es', ap pos_part same, ap neg_part same)

-- The payloads of a chain, in the bytes that are hashed.
abbrev pub payload_bytes : Runtime → List Envelope → List Bytes
payload_bytes R = map (λ e. canonical R e.payload)

module _ (R : Runtime) (key : Option Bytes) (L : IsLawful R) where
  hash_material-NulFree : (m : Bytes) → NulFree (hash_material R key m)
  unfolding hash_material
  hash_material-NulFree m = go key
    where
      go : (k : Option Bytes) → NulFree (hash_material R k m)
      go none = printed-NulFree _ (L.sha256_printed m)
      go (some k) = printed-NulFree _ (L.hmac_printed k m)

  accepted_hash-NulFree :
      (e : Envelope) (prev : Text) → check_hash R key e prev ≡ ok true → NulFree e.hash
  accepted_hash-NulFree e prev good =
      let (rest, is_hash, _) = check_hash-material R key L e prev good in
      rw is_hash (hash_material-NulFree (material e.seq prev rest))

  -- Two accepted records with one hash agree, or a collision is at hand.
  same_record :
      (e e' : Envelope) (prev prev' : Text)
      → NulFree prev
      → NulFree prev'
      → check_hash R key e prev ≡ ok true
      → check_hash R key e' prev' ≡ ok true
      → e.hash ≡ e'.hash
      → Collision R key
        ⊎ ((int_value e.seq ≡ int_value e'.seq)
            × (prev ≡ prev')
            × (canonical R e.payload ≡ canonical R e'.payload))
  same_record e e' prev prev' free free' good good' same =
      let (rest, is_hash, is_payload) = check_hash-material R key L e prev good in
      let (rest', is_hash', is_payload') = check_hash-material R key L e' prev' good' in
      let m = material e.seq prev rest in
      let m' = material e'.seq prev' rest' in
      elim (list_eq.dec m m') [
        | no differ ↦ inl (m, m', differ, sym is_hash ∙ same ∙ is_hash')
        | yes equal ↦
            let (seqs, prevs, rests) =
              material_determines e.seq e'.seq prev prev' rest rest' free free' equal in
            inr (seqs, prevs, sym is_payload ∙ ap last_field rests ∙ is_payload')
      ]

  pub same_chain :
      (seq : ℤ) (prev prev' : Text) (es es' : List Envelope)
      → NulFree prev
      → NulFree prev'
      → Links R key seq prev es
      → Links R key seq prev' es'
      → length es ≡ length es'
      → last_text prev es ≡ last_text prev' es'
      → Collision R key ⊎ ((prev ≡ prev') × (payload_bytes R es ≡ payload_bytes R es'))
  same_chain seq prev prev' [] [] free free' links links' _ same = inr (same, refl)
  same_chain seq prev prev' (e ∷ es) (e' ∷ es') free free' (s, l, good, links)
        (s', l', good', links') long same =
      elim (same_chain (suc_ℤ seq) e.hash e'.hash es es' (accepted_hash-NulFree e prev good)
        (accepted_hash-NulFree e' prev' good') links links' (omega arith) same) [
          | inl collision ↦ inl collision
          | inr (hashes, payloads) ↦
              elim (same_record e e' prev prev' free free' good good' hashes) [
                | inl collision ↦ inl collision
                | inr (_, prevs, payload) ↦ inr (prevs, cc)
              ]
        ]
  same_chain seq prev prev' [] (e' ∷ es') free free' links links' long same = absurd (omega arith)
  same_chain seq prev prev' (e ∷ es) [] free free' links links' long same = absurd (omega arith)

  -- The last record of a chain, and what it was checked against.
  last_record :
      (seq : ℤ) (prev : Text) (e : Envelope) (es : List Envelope)
      → NulFree prev
      → Links R key seq prev (e ∷ es)
      → (d : Envelope) × (q : Text) × NulFree q
        × (check_hash R key d q ≡ ok true)
        × (last_text prev (e ∷ es) ≡ d.hash)
        × (suc_ℤ (int_value d.seq) ≡ next_seq seq (e ∷ es))
  last_record seq prev e [] free (s, l, good, links) = (e, prev, free, good, refl, ap suc_ℤ s)
  last_record seq prev e (e' ∷ es) free (s, l, good, links) =
      last_record (suc_ℤ seq) e.hash e' es (accepted_hash-NulFree e prev good) links

  pub same_length :
      (seq : ℤ) (prev : Text) (e e' : Envelope) (es es' : List Envelope)
      → NulFree prev
      → Links R key seq prev (e ∷ es)
      → Links R key seq prev (e' ∷ es')
      → last_text prev (e ∷ es) ≡ last_text prev (e' ∷ es')
      → Collision R key ⊎ (length (e ∷ es) ≡ length (e' ∷ es'))
  same_length seq prev e e' es es' free links links' same =
      let (d, q, q_free, good, is_last, is_seq) = last_record seq prev e es free links in
      let (d', q', q_free', good', is_last', is_seq') = last_record seq prev e' es' free links' in
      elim (same_record d d' q q' q_free q_free' good good' (sym is_last ∙ same ∙ is_last')) [
        | inl collision ↦ inl collision
        | inr (seqs, _, _) ↦
            inr (next_seq_determines seq (e ∷ es) (e' ∷ es') (sym is_seq ∙ ap suc_ℤ seqs ∙ is_seq'))
      ]
