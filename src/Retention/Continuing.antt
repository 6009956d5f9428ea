-- ===== src/Retention/Continuing.antt =====
-- Where the chain goes on behind a rotation (runeguard/audit_compliance.py).
use runeguard.Prelude.{
  Text, List, ◌∷◌, ◌==◌, nat_eq, list_eq, Option, none, some, ◌≡◌, inl, inr, refl, sym, ap, ◌∙◌,
  Bool-cases,
}
use runeguard.Prelude.Int.{suc_ℤ}
use runeguard.Outcome.{ok}
use runeguard.Effects.{done, pure, ◌>>=◌, done-cases, pure-done}
use runeguard.Integrity.Runtime.{Bytes, Runtime}
use runeguard.Integrity.Envelope.{Envelope, int_value}
use runeguard.Retention.{
  AuditRetentionConfig, Segment, Manifest, first_seq_of, sorted_by, put_segment, upsert_segment,
}
use runeguard.Retention.Envelopes.{read_envelopes, last_envelope}
use runeguard.Retention.Sorting.{
  EndsLast, put_segment-IsWithin, put_segment-Has, IsWithin, sorted_by-All, sorted_by-Has,
  sorted_by-last,
}
use runeguard.Retention.Directory.{
  LogDir, Facilities, load_manifest, last_segment, last_seq_of, start_behind,
}
use runeguard.Retention.Appending.{rotate_lines, full_log, rotate, segments_of, next_chain_start}
use runeguard.Retention.Rotating.{rotated_dir, rotate_lines-done}

module _ (R : Runtime) (facilities : Facilities) (config : AuditRetentionConfig)
    (key : Option Bytes) (file_name : Text) where
  upsert_segment-last :
      (s : Segment) (manifest : Manifest)
      → EndsLast s manifest.segments
      → last_segment (sorted_by last_seq_of (upsert_segment R facilities.now s manifest).segments)
        ≡ some s
  unfolding upsert_segment
  upsert_segment-last s manifest ends =
      let put = put_segment s manifest.segments in
      sorted_by-last last_seq_of s (sorted_by first_seq_of put)
        (sorted_by-All first_seq_of (IsWithin last_seq_of s) put
          (put_segment-IsWithin s manifest.segments ends))
        (sorted_by-Has first_seq_of s put (put_segment-Has s manifest.segments))

  pub full_log-some :
      (log : Option (List Text)) (lines : List Text)
      → full_log R facilities config key file_name log ≡ some lines
      → log ≡ some lines
  unfolding full_log
  full_log-some none lines h = cc
  full_log-some (some other) lines h = elim (Bool-cases (facilities.size other == 0)) [
    | inl e ↦ cc
    | inr e ↦ cc
  ]

  rotated_dir-next :
      (name : Text) (lines : List Text) (s : Segment) (dir : LogDir)
      → EndsLast s (segments_of R facilities config key file_name dir)
      → next_chain_start R facilities config key file_name
          (rotated_dir R facilities config key file_name name lines s dir)
        ≡ (
          done (suc_ℤ s.last_seq, s.head_hash),
          rotated_dir R facilities config key file_name name lines s dir,
        )
  unfolding next_chain_start full_log segments_of load_manifest start_behind
  rotated_dir-next name lines s dir ends =
      ap
        (λ last. (
          done (start_behind last),
          rotated_dir R facilities config key file_name name lines s dir,
        ))
        (upsert_segment-last s (load_manifest facilities.now dir.manifest) ends)

  rotate-done :
      (s : Segment) (dir dir' : LogDir)
      → rotate R facilities config key file_name dir ≡ (done (some s), dir')
      → (lines : List Text) × (full_log R facilities config key file_name dir.log ≡ some lines)
        × (rotate_lines R facilities config key file_name lines dir ≡ (done s, dir'))
  unfolding rotate
  rotate-done s dir dir' h = go (full_log R facilities config key file_name dir.log) refl
    where
      go :
          (log : Option (List Text))
          → full_log R facilities config key file_name dir.log ≡ log
          → (lines : List Text) × (full_log R facilities config key file_name dir.log ≡ some lines)
            × (rotate_lines R facilities config key file_name lines dir ≡ (done s, dir'))
      go none e = cc
      go (some lines) e =
          let run : (rotate_lines R facilities config key file_name lines >>= λ t. pure (some t))
                dir
              ≡ (done (some s), dir') =
            cc in
          done-cases (rotate_lines R facilities config key file_name lines) (λ t. pure (some t)) dir
            run
            λ t dir₁ h₁ h₂.
              let (same, e') = pure-done (some t) (some s) dir₁ dir' h₂ in
              let same_segment : t ≡ s = cc in (lines, e, cc)

  -- A rotation that succeeds with a segment moves the lines of the log to a closed file, and the
  -- chain goes on from the last envelope of those lines: the next number is one more than its
  -- number, and the previous hash is its hash, provided every segment of the manifest but the one
  -- that is replaced ends before it.
  pub rotate-continues :
      (s : Segment) (dir dir' : LogDir)
      → rotate R facilities config key file_name dir ≡ (done (some s), dir')
      → EndsLast s (segments_of R facilities config key file_name dir)
      → (lines : List Text) × (name : Text) × (first : Envelope) × (envelopes : List Envelope)
        × (dir.log ≡ some lines)
        × (dir'.log ≡ none)
        × (dir'.closed ≡ (name, lines) ∷ dir.closed)
        × (read_envelopes R lines ≡ ok (first ∷ envelopes))
        × (next_chain_start R facilities config key file_name dir' ≡ (
          done (
            suc_ℤ (int_value (last_envelope first envelopes).seq),
            (last_envelope first envelopes).hash,
          ),
          dir',
        ))
  unfolding rotate
  rotate-continues s dir dir' h ends =
      let (lines, full, ran) = rotate-done s dir dir' h in
      let ((first, envelopes, read, at_last, at_head), (name, e)) =
        rotate_lines-done R facilities config key file_name lines s dir dir' ran in
      (
        lines,
        name,
        first,
        envelopes,
        full_log-some dir.log lines full,
        ap (λ d. d.log) e,
        ap (λ d. d.closed) e,
        read,
        ap (next_chain_start R facilities config key file_name) e
            ∙ rotated_dir-next name lines s dir ends
            ∙ ap
                (λ start.
                  (done start, rotated_dir R facilities config key file_name name lines s dir))
                (ap (λ n. (suc_ℤ n, s.head_hash)) at_last
                  ∙ ap (λ hash. (suc_ℤ (int_value (last_envelope first envelopes).seq), hash))
                      at_head)
            ∙ ap
                (λ d. (
                  done (
                    suc_ℤ (int_value (last_envelope first envelopes).seq),
                    (last_envelope first envelopes).hash,
                  ),
                  d,
                ))
                (sym e),
      )
