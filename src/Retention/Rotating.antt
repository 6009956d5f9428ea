-- ===== src/Retention/Rotating.antt =====
-- What `ComplianceAuditLog.rotate` of runeguard/audit_compliance.py does to the directory.
use runeguard.Prelude.{
  Text, codes, List, [], ◌∷◌, nat_eq, list_eq, Option, none, some, ◌≡◌, inl, inr, sym, ap, ◌∙◌,
  Bool-cases,
}
use runeguard.Outcome.{ok}
use runeguard.Effects.{done, lift, done-cases, lift-done, pure-done}
use runeguard.Integrity.Runtime.{Bytes, Runtime}
use runeguard.Integrity.Envelope.{Envelope, int_value}
use runeguard.Retention.{AuditRetentionConfig, Segment, upsert_segment}
use runeguard.Retention.Envelopes.{read_envelopes, last_envelope}
use runeguard.Retention.Directory.{
  LogDir, Facilities, time_text, load_manifest, has_file, move_closed,
}
use runeguard.Retention.Appending.{
  created_at_of, segment_of, segment_of_all, segment_from_file, upsert, closed_segment,
  name_of_segment, rotate_lines,
}

module _ (R : Runtime) (facilities : Facilities) (config : AuditRetentionConfig)
    (key : Option Bytes) (file_name : Text) where
  -- The last envelope of the lines, as a segment has it.
  abbrev pub EndsAt : List Text → Segment → Type 0
  EndsAt lines s =
      (first : Envelope) × (envelopes : List Envelope) × (read_envelopes R lines
        ≡ ok (first ∷ envelopes))
      × (s.last_seq ≡ int_value (last_envelope first envelopes).seq)
      × (s.head_hash ≡ (last_envelope first envelopes).hash)

  segment_of_all-EndsAt :
      (status : Text) (lines : List Text) (envelopes : List Envelope) (s : Segment)
      (dir dir' : LogDir)
      → read_envelopes R lines ≡ ok envelopes
      → segment_of_all R facilities config key file_name status lines envelopes dir ≡ (done s, dir')
      → EndsAt lines s × (dir ≡ dir')
  unfolding segment_of_all segment_of
  segment_of_all-EndsAt status lines [] s dir dir' read h = cc
  segment_of_all-EndsAt status lines (first ∷ envelopes) s dir dir' read h =
      done-cases (lift (time_text (created_at_of R facilities config key file_name first))) _ dir h
        λ created_at dir₁ h₁ h₂.
          done-cases (lift (facilities.plus_days created_at config.retention_days)) _ dir₁ h₂
            λ until dir₂ h₃ h₄.
              let (_, e₁) =
                lift-done (time_text (created_at_of R facilities config key file_name first))
                  created_at dir dir₁ h₁ in
              let (_, e₂) =
                lift-done (facilities.plus_days created_at config.retention_days) until dir₁ dir₂
                  h₃ in
              let (same, e₃) = pure-done _ s dir₂ dir' h₄ in
              (
                (
                  first,
                  envelopes,
                  read,
                  sym (ap (λ t. t.last_seq) same),
                  sym (ap (λ t. t.head_hash) same),
                ),
                e₁ ∙ e₂ ∙ e₃,
              )

  pub segment_from_file-EndsAt :
      (status : Text) (lines : List Text) (s : Segment) (dir dir' : LogDir)
      → segment_from_file R facilities config key file_name status lines dir ≡ (done s, dir')
      → EndsAt lines s × (dir ≡ dir')
  unfolding segment_from_file
  segment_from_file-EndsAt status lines s dir dir' h =
      done-cases (lift (read_envelopes R lines)) _ dir h λ envelopes dir₁ h₁ h₂.
        let (read, e) = lift-done (read_envelopes R lines) envelopes dir dir₁ h₁ in
        let (ends, e') = segment_of_all-EndsAt status lines envelopes s dir₁ dir' read h₂ in
        (ends, e ∙ e')

  move_closed-done :
      (name : Text) (lines : List Text) (dir dir' : LogDir)
      → move_closed name lines dir ≡ (done tt, dir')
      → dir' ≡ record dir { log = none; closed = (name, lines) ∷ dir.closed }
  unfolding move_closed
  move_closed-done name lines dir dir' h = elim (Bool-cases (has_file name dir.closed)) [
    | inl taken ↦ cc
    | inr free ↦ cc
  ]

  abbrev pub with_segment : Segment → LogDir → LogDir
  with_segment s dir = record dir {
    manifest = some (upsert_segment R facilities.now s (load_manifest facilities.now dir.manifest));
  }

  pub upsert-done :
      (s : Segment) (dir dir' : LogDir)
      → upsert R facilities config key file_name s dir ≡ (done tt, dir')
      → dir' ≡ with_segment s dir
  unfolding upsert
  upsert-done s dir dir' h = sym (pure-done tt tt (with_segment s dir) dir' h).1

  -- The directory behind a rotation: the lines are kept under a new name, no log is there, and
  -- the manifest has the segment.
  abbrev pub rotated_dir : Text → List Text → Segment → LogDir → LogDir
  rotated_dir name lines s dir = record {
    log = none;
    closed = (name, lines) ∷ dir.closed;
    manifest = some (upsert_segment R facilities.now s (load_manifest facilities.now dir.manifest));
  }

  pub rotate_lines-done :
      (lines : List Text) (s : Segment) (dir dir' : LogDir)
      → rotate_lines R facilities config key file_name lines dir ≡ (done s, dir')
      → EndsAt lines s × ((name : Text) × (dir' ≡ rotated_dir name lines s dir))
  unfolding rotate_lines closed_segment upsert
  rotate_lines-done lines s dir dir' h =
      done-cases (segment_from_file R facilities config key file_name (codes "closed") lines) _ dir
        h
        λ current dir₁ h₁ h₂.
          let name = name_of_segment R facilities config key file_name current in
          let closed = closed_segment R facilities config key file_name name current in
          done-cases (move_closed name lines) _ dir₁ h₂ λ _ dir₂ h₃ h₄.
            done-cases (upsert R facilities config key file_name closed) _ dir₂ h₄ λ _ dir₃ h₅ h₆.
              let ((first, envelopes, read, at_last, at_head), e) =
                segment_from_file-EndsAt (codes "closed") lines current dir dir₁ h₁ in
              let moved = move_closed-done name lines dir₁ dir₂ h₃ in
              let (same, e') = pure-done closed s dir₃ dir' h₆ in
              (
                (
                  first,
                  envelopes,
                  read,
                  sym (ap (λ t. t.last_seq) same) ∙ at_last,
                  sym (ap (λ t. t.head_hash) same) ∙ at_head,
                ),
                (
                  name,
                  sym e'
                      ∙ upsert-done closed dir₂ dir₃ h₅
                      ∙ ap (with_segment closed) moved
                      ∙ ap (rotated_dir name lines closed) (sym e)
                      ∙ ap (λ t. rotated_dir name lines t dir) same,
                ),
              )
