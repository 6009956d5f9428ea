-- ===== src/Retention/Stepping.antt =====
-- `ComplianceAuditLog.append` of runeguard/audit_compliance.py, step by step.
use runeguard.Prelude.{
  Text, codes, true, false, List, [], ◌∷◌, nat_eq, list_eq, Option, none, some, ◌≡◌, ◌⊎◌, inl, inr,
  refl, sym, ap, ◌∙◌, Bool, Bool-cases, Option-cases, if◌then◌else◌,
}
use runeguard.Prelude.Int.{ℤ}
use runeguard.Outcome.{Outcome, ok, raised}
use runeguard.Json.{Json, Fields}
use runeguard.Effects.{done, pure, lift, ◌>>=◌, done-cases, lift-done, pure-done}
use runeguard.Integrity.Runtime.{Bytes, Runtime}
use runeguard.Integrity.Envelope.{Envelope}
use runeguard.Integrity.Log.{TamperEvidentLog, append}
use runeguard.Retention.{AuditRetentionConfig, Segment}
use runeguard.Retention.Envelopes.{read_envelopes}
use runeguard.Retention.Directory.{LogDir, Facilities, start_after, lines_of}
use runeguard.Retention.Appending.{
  segment_from_file, rotate_lines, full_log, rotate, rotate_old, is_large, rotate_if_needed,
  next_chain_start, append_from, record_open_segment, append_payload,
}
use runeguard.Retention.Rotating.{segment_from_file-EndsAt, upsert-done}

module _ (R : Runtime) (facilities : Facilities) (config : AuditRetentionConfig)
    (key : Option Bytes) (file_name : Text) where
  -- Nothing happened, or the log was rotated.
  abbrev pub Rotates : LogDir → LogDir → Type 0
  Rotates dir dir' =
      (dir ≡ dir')
      ⊎ ((s : Segment) × (rotate R facilities config key file_name dir ≡ (done (some s), dir')))

  rotate_lines-rotate :
      (lines : List Text) (dir dir' : LogDir)
      → full_log R facilities config key file_name dir.log ≡ some lines
      → (rotate_lines R facilities config key file_name lines >>= λ _. pure tt) dir
        ≡ (done tt, dir')
      → Rotates dir dir'
  unfolding rotate
  rotate_lines-rotate lines dir dir' full h =
      done-cases (rotate_lines R facilities config key file_name lines) _ dir h λ s dir₁ h₁ h₂.
        let (_, same) = pure-done tt tt dir₁ dir' h₂ in
        inr (s, rw (rotate, full, h₁) (ap (λ d. (done (some s), d)) same))

  rotated_if-cases :
      (old : Bool) (lines : List Text) (dir dir₁ dir' : LogDir)
      → full_log R facilities config key file_name dir.log ≡ some lines
      → dir ≡ dir₁
      → (if old
            then (rotate_lines R facilities config key file_name lines >>= λ _. pure tt)
            else pure tt)
          dir₁
        ≡ (done tt, dir')
      → Rotates dir dir'
  rotated_if-cases false lines dir dir₁ dir' full same h =
      inl (same ∙ (pure-done tt tt dir₁ dir' h).1)
  rotated_if-cases true lines dir dir₁ dir' full same h =
      rotate_lines-rotate lines dir dir' full
        (ap (rotate_lines R facilities config key file_name lines >>= λ _. pure tt) same ∙ h)

  rotate_old-cases :
      (days : Option ℤ) (lines : List Text) (dir dir' : LogDir)
      → full_log R facilities config key file_name dir.log ≡ some lines
      → rotate_old R facilities config key file_name days lines dir ≡ (done tt, dir')
      → Rotates dir dir'
  unfolding rotate_old
  rotate_old-cases none lines dir dir' full h = inl (pure-done tt tt dir dir' h).1
  rotate_old-cases (some days) lines dir dir' full h =
      done-cases (segment_from_file R facilities config key file_name (codes "open") lines) _ dir h
        λ current dir₁ h₁ h₂.
          done-cases (lift (facilities.is_older current.created_at days)) _ dir₁ h₂
            λ old dir₂ h₃ h₄.
              let (_, e) =
                segment_from_file-EndsAt R facilities config key file_name (codes "open") lines
                  current dir dir₁ h₁ in
              let (_, e') =
                lift-done (facilities.is_older current.created_at days) old dir₁ dir₂ h₃ in
              rotated_if-cases old lines dir dir₂ dir' full (e ∙ e') h₄

  pub rotate_if_needed-cases :
      (dir dir' : LogDir)
      → rotate_if_needed R facilities config key file_name dir ≡ (done tt, dir')
      → Rotates dir dir'
  unfolding rotate_if_needed
  rotate_if_needed-cases dir dir' h =
      elim (Option-cases (full_log R facilities config key file_name dir.log)) [
        | inl empty ↦ inl (cc)
        | inr (lines, full) ↦
            elim (Bool-cases
              (is_large R facilities config key file_name config.rotation_max_bytes lines)) [
                | inl large ↦ rotate_lines-rotate lines dir dir' full (cc)
                | inr small ↦ rotate_old-cases config.rotation_max_age_days lines dir dir' full (cc)
              ]
      ]

  start_after-same :
      (es : List Envelope) (start : ℤ × Text) (dir dir' : LogDir)
      → start_after es dir ≡ (done start, dir')
      → dir ≡ dir'
  unfolding start_after
  start_after-same [] start dir dir' h = cc
  start_after-same (e ∷ es) start dir dir' h = (pure-done _ start dir dir' h).1

  next_chain_start-same :
      (start : ℤ × Text) (dir dir' : LogDir)
      → next_chain_start R facilities config key file_name dir ≡ (done start, dir')
      → dir ≡ dir'
  unfolding next_chain_start
  next_chain_start-same start dir dir' h =
      elim (Option-cases (full_log R facilities config key file_name dir.log)) [
        | inl empty ↦ cc
        | inr (lines, full) ↦
            let run : (lift (read_envelopes R lines) >>= λ es. start_after es) dir
                ≡ (done start, dir') =
              cc in
            done-cases (lift (read_envelopes R lines)) _ dir run λ es dir₁ h₁ h₂.
              let (_, e) = lift-done (read_envelopes R lines) es dir dir₁ h₁ in
              e ∙ start_after-same es start dir₁ dir' h₂
      ]

  -- The log that `append` writes to, from a start of the chain.
  abbrev pub log_at : ℤ × Text → TamperEvidentLog
  log_at start = record { key = key; initial_seq = start.0; initial_prev_hash = start.1 }

  -- The line that is written to the log of a directory, and the log behind it.
  abbrev pub appended : ℤ × Text → Fields → LogDir → Outcome (Json × List Text)
  appended start payload dir = append R (log_at start) facilities.now payload (lines_of dir.log)

  append_from-done :
      (start : ℤ × Text) (payload : Fields) (envelope : Json) (dir dir' : LogDir)
      → append_from R facilities config key file_name start payload dir ≡ (done envelope, dir')
      → (lines : List Text) × (appended start payload dir ≡ ok (envelope, lines))
        × (dir' ≡ record dir { log = some lines })
  unfolding append_from
  append_from-done (seq, hash) payload envelope dir dir' h =
      go (appended (seq, hash) payload dir) refl
    where
      go :
          (outcome : Outcome (Json × List Text))
          → appended (seq, hash) payload dir ≡ outcome
          → (lines : List Text) × (appended (seq, hash) payload dir ≡ ok (envelope, lines))
            × (dir' ≡ record dir { log = some lines })
      go raised e = cc
      go (ok (written, lines)) e =
          let same : written ≡ envelope = cc in (lines, e ∙ ap (λ t. ok (t, lines)) same, cc)

  record_open_segment-keeps :
      (dir dir' : LogDir)
      → record_open_segment R facilities config key file_name dir ≡ (done tt, dir')
      → (dir'.log ≡ dir.log) × (dir'.closed ≡ dir.closed)
  unfolding record_open_segment
  record_open_segment-keeps dir dir' h =
      done-cases
        (segment_from_file R facilities config key file_name (codes "open") (lines_of dir.log)) _
        dir h
        λ segment dir₁ h₁ h₂.
          let (_, e) =
            segment_from_file-EndsAt R facilities config key file_name (codes "open") _ segment dir
              dir₁ h₁ in
          let e' = upsert-done R facilities config key file_name _ dir₁ dir' h₂ in
          (
            ap (λ d. d.log) e' ∙ ap (λ d. d.log) (sym e),
            ap (λ d. d.closed) e' ∙ ap (λ d. d.closed) (sym e),
          )

  -- An append: a rotation or none, the start of the chain, and the line that is written.
  pub append_payload-parts :
      (payload : Fields) (envelope : Json) (dir dir' : LogDir)
      → append_payload R facilities config key file_name payload dir ≡ (done envelope, dir')
      → (between : LogDir) × (start : ℤ × Text) × (lines : List Text) × Rotates dir between
        × (next_chain_start R facilities config key file_name between ≡ (done start, between))
        × (appended start payload between ≡ ok (envelope, lines))
        × (dir'.log ≡ some lines)
        × (dir'.closed ≡ between.closed)
  unfolding append_payload
  append_payload-parts payload envelope dir dir' h =
      done-cases (rotate_if_needed R facilities config key file_name) _ dir h λ _ dir₁ h₁ h₂.
        done-cases (next_chain_start R facilities config key file_name) _ dir₁ h₂
          λ start dir₂ h₃ h₄.
            done-cases (append_from R facilities config key file_name start payload) _ dir₂ h₄
              λ written dir₃ h₅ h₆.
                done-cases (record_open_segment R facilities config key file_name) _ dir₃ h₆
                  λ _ dir₄ h₇ h₈.
                    let same = next_chain_start-same start dir₁ dir₂ h₃ in
                    let (lines, wrote, e) = append_from-done start payload written dir₂ dir₃ h₅ in
                    let (log, closed) = record_open_segment-keeps dir₃ dir₄ h₇ in
                    let (e', e'') = pure-done written envelope dir₄ dir' h₈ in
                    (
                      dir₁,
                      start,
                      lines,
                      rotate_if_needed-cases dir dir₁ h₁,
                      h₃ ∙ ap (λ d. (done start, d)) (sym same),
                      ap (λ d. appended start payload d) same ∙ wrote ∙ ap (λ t. ok (t, lines)) e',
                      ap (λ d. d.log) (sym e'') ∙ log ∙ ap (λ d. d.log) e,
                      ap (λ d. d.closed) (sym e'')
                          ∙ closed
                          ∙ ap (λ d. d.closed) e
                          ∙ ap (λ d. d.closed) (sym same),
                    )
