-- ===== src/Retention/Carried.antt =====
-- `ComplianceAuditLog.append` of runeguard/audit_compliance.py, with a rotation or without one.
use runeguard.Prelude.{
  ℕ, ◌+◌, ◌≡◌, ◌⊎◌, inl, inr, refl, sym, ap, ◌∙◌, Text, List, [], ◌∷◌, ◌++◌, length, Option, none,
  some, All,
}
use runeguard.Prelude.Int.{ℤ, suc_ℤ}
use runeguard.Outcome.{Outcome, ok}
use runeguard.Json.{Json, object, Fields}
use runeguard.Effects.{done, pure-done}
use runeguard.Integrity.Runtime.{Bytes, Runtime, IsLawful, IsPrinted}
use runeguard.Integrity.Envelope.{Envelope, int_value, unwrap_payload}
use runeguard.Integrity.Log.{line_of, iter_lines, append}
use runeguard.Integrity.Verify.{verify_log}
use runeguard.Integrity.Chain.{Reads, Links, last_hash, accepted, verify_log-accepts_iff}
use runeguard.Integrity.Growth.{IsTerminated, next_seq, last_text, IsAscii}
use runeguard.Integrity.Appending.{
  added, added_json, end_hash-IsAscii, append-written, accepted-added, unwrap_payload-added,
}
use runeguard.Retention.{AuditRetentionConfig, Segment}
use runeguard.Retention.Envelopes.{read_envelopes, last_envelope}
use runeguard.Retention.Directory.{LogDir, Facilities, lines_of}
use runeguard.Retention.Appending.{rotate, segments_of, append_payload}
use runeguard.Retention.Sorting.{EndsLast}
use runeguard.Retention.Continuing.{rotate-continues}
use runeguard.Retention.Stepping.{log_at, appended, append_payload-parts}
use runeguard.Retention.Tails.{
  tail_head-start, read_envelopes-Reads, next_seq-Links, last_text-last_envelope,
}

ok-pair :
    {A B : Type 0} (a a' : A) (b b' : B) (o : Outcome (A × B))
    → o ≡ ok (a, b)
    → o ≡ ok (a', b')
    → (a ≡ a') × (b ≡ b')
ok-pair a a' b b' o h h' = (cc, cc)

-- Where the chain starts behind an envelope.
abbrev pub behind : Envelope → ℤ × Text
behind e = (suc_ℤ (int_value e.seq), e.hash)

-- Where the lines of the log stand behind an append of one line: still in the log, or in a closed
-- file, so that the line is the first of a new log.
abbrev pub Carries : List Text → Text → LogDir → LogDir → Type 0
Carries lines line dir dir' =
    ((dir'.log ≡ some (lines ++ (line ∷ []))) × (dir'.closed ≡ dir.closed))
    ⊎ ((name : Text) × (dir'.log ≡ some (line ∷ [])) × (dir'.closed ≡ (name, lines) ∷ dir.closed))

module _ (R : Runtime) (facilities : Facilities) (config : AuditRetentionConfig)
    (key : Option Bytes) (file_name : Text) (L : IsLawful R)
    (printed : All IsPrinted facilities.now) where
  -- A log that verifies and is not empty.
  module _ (seq : ℤ) (prev_hash : Text) (ascii : IsAscii prev_hash) (lines : List Text)
      (e : Envelope) (es : List Envelope) (reads : Reads R (iter_lines lines) (e ∷ es))
      (links : Links R key seq prev_hash (e ∷ es)) (payload : Fields) where
    abbrev pub written_json : Json
    written_json =
        added_json R L (log_at R facilities config key file_name (seq, prev_hash)) lines (e ∷ es)
          ascii reads links facilities.now printed payload

    pub append-kept :
        (start : ℤ × Text)
        → IsTerminated lines
        → append R (log_at R facilities config key file_name start) facilities.now payload lines
          ≡ ok (written_json, lines ++ (line_of R written_json ∷ []))
    unfolding append
    append-kept start terminated =
        rw
          (tail_head-start R (log_at R facilities config key file_name start)
            (log_at R facilities config key file_name (seq, prev_hash)) lines e es reads)
          (append-written R L (log_at R facilities config key file_name (seq, prev_hash)) lines
            (e ∷ es) ascii reads links facilities.now printed payload terminated)

    pub append-moved :
        append R
          (log_at R facilities config key file_name
            (next_seq seq (e ∷ es), last_text prev_hash (e ∷ es)))
          facilities.now
          payload
          []
        ≡ ok (written_json, line_of R written_json ∷ [])
    unfolding iter_lines
    append-moved =
        append-written R L
          (log_at R facilities config key file_name
            (next_seq seq (e ∷ es), last_text prev_hash (e ∷ es)))
          [] []
          (end_hash-IsAscii R L (log_at R facilities config key file_name (seq, prev_hash)) lines
            (e ∷ es) ascii reads links facilities.now printed payload)
          tt tt facilities.now printed payload tt

    kept-carried :
        (envelope : Json) (dir dir' between : LogDir) (start : ℤ × Text) (after : List Text)
        → IsTerminated lines
        → dir.log ≡ some lines
        → dir ≡ between
        → appended R facilities config key file_name start payload between ≡ ok (envelope, after)
        → dir'.log ≡ some after
        → dir'.closed ≡ between.closed
        → (envelope ≡ written_json) × Carries lines (line_of R envelope) dir dir'
    unfolding lines_of
    kept-carried envelope dir dir' between start after terminated log same wrote log' closed =
        let lines_at : lines_of between.log ≡ lines =
          ap (λ d. lines_of d.log) (sym same) ∙ ap (lines_of) log in
        let write =
          append R (log_at R facilities config key file_name start) facilities.now payload in
        let (is_json, is_lines) =
          ok-pair envelope written_json after (lines ++ (line_of R written_json ∷ [])) _ wrote
            (ap write lines_at ∙ append-kept start terminated) in
        (
          is_json,
          inl (
            log' ∙ ap some is_lines ∙ ap (λ t. some (lines ++ (line_of R t ∷ []))) (sym is_json),
            closed ∙ ap (λ d. d.closed) (sym same),
          ),
        )

    moved-carried :
        (envelope : Json) (dir dir' between : LogDir) (start : ℤ × Text) (after : List Text)
        (name : Text)
        → between.log ≡ none
        → between.closed ≡ (name, lines) ∷ dir.closed
        → start ≡ (next_seq seq (e ∷ es), last_text prev_hash (e ∷ es))
        → appended R facilities config key file_name start payload between ≡ ok (envelope, after)
        → dir'.log ≡ some after
        → dir'.closed ≡ between.closed
        → (envelope ≡ written_json) × Carries lines (line_of R envelope) dir dir'
    unfolding lines_of
    moved-carried envelope dir dir' between start after name gone moved begun wrote log' closed =
        let write = λ (s : ℤ × Text) (l : List Text).
          append R (log_at R facilities config key file_name s) facilities.now payload l in
        let (is_json, is_lines) =
          ok-pair envelope written_json after (line_of R written_json ∷ []) _ wrote
            (ap (λ l. write start (lines_of l)) gone ∙ ap (λ s. write s []) begun ∙ append-moved) in
        (
          is_json,
          inr (
            name,
            log' ∙ ap some is_lines ∙ ap (λ t. some (line_of R t ∷ [])) (sym is_json),
            closed ∙ moved,
          ),
        )

    pub behind-last_envelope :
        (lines' : List Text) (first : Envelope) (envelopes : List Envelope)
        → lines ≡ lines'
        → read_envelopes R lines' ≡ ok (first ∷ envelopes)
        → behind (last_envelope first envelopes)
          ≡ (next_seq seq (e ∷ es), last_text prev_hash (e ∷ es))
    behind-last_envelope lines' first envelopes same read =
        let both : ok (e ∷ es) ≡ ok (first ∷ envelopes) =
          sym (read_envelopes-Reads R lines (e ∷ es) reads) ∙ ap (read_envelopes R) same ∙ read in
        let is_first : first ≡ e = cc in
        let is_rest : envelopes ≡ es = cc in
        rw
          (
            is_first,
            is_rest,
            sym (next_seq-Links R key seq prev_hash e es links),
            sym (last_text-last_envelope prev_hash e es),
          )
          refl

    append_payload-written :
        (envelope : Json) (dir dir' : LogDir)
        → IsTerminated lines
        → dir.log ≡ some lines
        → ((s : Segment) (rotated : LogDir)
            → rotate R facilities config key file_name dir ≡ (done (some s), rotated)
            → EndsLast s (segments_of R facilities config key file_name dir))
        → append_payload R facilities config key file_name payload dir ≡ (done envelope, dir')
        → (envelope ≡ written_json) × Carries lines (line_of R envelope) dir dir'
    append_payload-written envelope dir dir' terminated log ends h =
        let (between, start, after, rotates, begun, wrote, log', closed) =
          append_payload-parts R facilities config key file_name payload envelope dir dir' h in
        elim rotates [
          | inl same ↦
              kept-carried envelope dir dir' between start after terminated log same wrote log'
                closed
          | inr (s, rotated) ↦
              let (lines', name, first, envelopes, log₁, gone, moved, read, next) =
                rotate-continues R facilities config key file_name s dir between rotated
                  (ends s between rotated) in
              let same_lines : lines ≡ lines' = cc in
              moved-carried envelope dir dir' between start after name gone
                (moved ∙ ap (λ l. (name, l) ∷ dir.closed) (sym same_lines))
                ((pure-done start (behind (last_envelope first envelopes)) between between
                    (sym begun ∙ next)).0
                  ∙ behind-last_envelope lines' first envelopes same_lines read)
                wrote log' closed
        ]

  -- An append that succeeds, to a log that ends in a line break and verifies from some start to a
  -- head, carries its chain on, also where it rotates the log first: the lines with the new one
  -- behind them verify from the same start, with one record more and with a head to expect, and the
  -- new envelope unwraps to the payload. The new line stands behind the others in the log, or the
  -- others stand in a new closed file and the new line alone in the log, provided every segment of
  -- the manifest but the one that a rotation replaces ends before it.
  pub append_payload-Carries :
      (seq : ℤ) (prev_hash : Text) (lines : List Text) (count : ℕ) (head : Text) (payload : Fields)
      (envelope : Json) (dir dir' : LogDir)
      → IsAscii prev_hash
      → dir.log ≡ some lines
      → IsTerminated lines
      → verify_log R key none seq prev_hash lines ≡ ok (accepted count (some head))
      → ((s : Segment) (rotated : LogDir)
          → rotate R facilities config key file_name dir ≡ (done (some s), rotated)
          → EndsLast s (segments_of R facilities config key file_name dir))
      → append_payload R facilities config key file_name payload dir ≡ (done envelope, dir')
      → (hash : Text) × (verify_log R key
            (some hash)
            seq
            prev_hash
            (lines ++ (line_of R envelope ∷ []))
          ≡ ok (accepted (count + 1) (some hash)))
        × (unwrap_payload envelope ≡ object payload)
        × Carries lines (line_of R envelope) dir dir'
  append_payload-Carries seq prev_hash lines count head payload envelope dir dir' ascii log
        terminated fine ends h =
      let (es, reads, links, counted, last, expects) =
        (verify_log-accepts_iff R key none seq prev_hash lines count (some head)).0 fine in
      go es reads links counted last
    where
      go :
          (es : List Envelope)
          → Reads R (iter_lines lines) es
          → Links R key seq prev_hash es
          → count ≡ length es
          → some head ≡ last_hash none es
          → (hash : Text) × (verify_log R key
                (some hash)
                seq
                prev_hash
                (lines ++ (line_of R envelope ∷ []))
              ≡ ok (accepted (count + 1) (some hash)))
            × (unwrap_payload envelope ≡ object payload)
            × Carries lines (line_of R envelope) dir dir'
      go [] reads links counted last = cc
      go (e ∷ es) reads links counted last =
          let (same, carries) =
            append_payload-written seq prev_hash ascii lines e es reads links payload envelope dir
              dir' terminated log ends h in
          let log₀ = log_at R facilities config key file_name (seq, prev_hash) in
          let hash =
            (added R L log₀ lines (e ∷ es) ascii reads links facilities.now printed payload).hash in
          (
            hash,
            ap (λ t. verify_log R key (some hash) seq prev_hash (lines ++ (line_of R t ∷ []))) same
                ∙ accepted-added R L log₀ lines (e ∷ es) ascii reads links facilities.now printed
                    payload
                ∙ ap (λ (n : ℕ). ok (accepted (n + 1) (some hash))) (sym counted),
            ap unwrap_payload same
                ∙ unwrap_payload-added R L log₀ lines (e ∷ es) ascii reads links facilities.now
                    printed payload,
            carries,
          )
