-- ===== src/Retention/Retained.antt =====
-- What an error-free run of `verify_retention` (runeguard/audit_compliance.py) says of the files,
-- and what a run leaves of the manifest.
use runeguard.Prelude.{
  Text, Bool, true, false, List, [], ◌∷◌, ◌++◌, ◌==◌, ==_iff, list_eq, nat_eq, option_eq, Option,
  none, some, any, map, ◌≡◌, ◌↔◌, refl, sym, ◌∙◌, ap, Option-cases, inl, inr, length,
}
use runeguard.Prelude.Int.{ℤ, pos, suc_ℤ, int_eq}
use runeguard.Outcome.{Outcome, ok, ◌>>=◌, >>=-cases}
use runeguard.Integrity.Runtime.{Bytes, Runtime}
use runeguard.Integrity.Envelope.{genesis_prev}
use runeguard.Integrity.Verify.{VerifyError, VerifyResult, verify_log}
use runeguard.Retention.{Segment, Manifest, hash_of_manifest, written, sorted_by, first_seq_of}
use runeguard.Retention.Verifying.{
  AuditDir, RetentionError, manifest_hash_mismatch, file_hash_mismatch, sequence_broken,
  head_broken, log_error, RetentionVerifyResult, unless, log_errors, absent_error, present_errors,
  check_segments, is_changed, updated, manifest_after, manifest_errors, verify_retention,
}

append-nil_iff {ℓ} :
    {A : Type ℓ} {P Q : Type 0} (xs ys : List A)
    → (xs ≡ []) ↔ P
    → (ys ≡ []) ↔ Q
    → ((xs ++ ys) ≡ []) ↔ (P × Q)
append-nil_iff [] ys hp hq = (λ h. (hp.0 refl, hq.0 h), λ (p, q). hq.1 q)
append-nil_iff (x ∷ xs) ys hp hq = (λ h. cc, λ (p, q). cc (hp.1 p))

unless-nil_iff :
    {P : Type 0} (b : Bool) (error : RetentionError) → (b ≡ true) ↔ P → (unless b error ≡ []) ↔ P
unfolding unless
unless-nil_iff true error hp = (λ h. hp.0 refl, λ p. refl)
unless-nil_iff false error hp = (λ h. cc, λ p. cc (hp.1 p))

log_errors-nil_iff :
    (path : Text) (result : VerifyResult) → (log_errors path result ≡ []) ↔ (result.error ≡ none)
unfolding log_errors
log_errors-nil_iff path result = go result.error refl
  where
    go : (o : Option VerifyError) → result.error ≡ o → (log_errors path result ≡ []) ↔ (o ≡ none)
    go none e = (λ h. refl, λ h. rw e refl)
    go (some error) e = (
      λ h. (let found : log_errors path result ≡ log_error path error ∷ [] = rw e refl in cc),
      λ h. cc,
    )

ok-injective {ℓ} : {A : Type ℓ} {a b : A} → ok a ≡ ok b → a ≡ b
ok-injective h = cc

module _ (R : Runtime) (key : Option Bytes) (dir : AuditDir) where
  -- A segment whose file is there, unchanged, at its place in the chain, and verified.
  abbrev pub IsIntact : Segment → Text → ℤ → List Text → VerifyResult → Type 0
  IsIntact s previous_head expected_seq lines result =
      (dir.file_sha256 lines ≡ s.file_sha256)
      × ((s.first_seq ≡ expected_seq)
          × ((s.prev_segment_head ≡ previous_head) × (result.error ≡ none)))

  -- The segments follow one another, from a head and a number, and every file is intact.
  abbrev pub IsRetained : List Segment → Text → ℤ → Type 0
  IsRetained [] previous_head expected_seq = Unit
  IsRetained (s ∷ segments) previous_head expected_seq =
      ((retention_until : ℤ) × (dir.parse_iso s.retention_until ≡ ok retention_until))
      × ((lines : List Text) × (result : VerifyResult) × (dir.read s.path ≡ some lines)
          × (verify_log R key (some s.head_hash) s.first_seq s.prev_segment_head lines ≡ ok result)
          × IsIntact s previous_head expected_seq lines result)
      × IsRetained segments s.head_hash (suc_ℤ s.last_seq)

  present_errors-nil_iff :
      (s : Segment) (lines : List Text) (previous_head : Text) (expected_seq : ℤ)
      (result : VerifyResult)
      → (present_errors R key dir s lines previous_head expected_seq result ≡ [])
        ↔ IsIntact s previous_head expected_seq lines result
  unfolding present_errors
  present_errors-nil_iff s lines previous_head expected_seq result =
      append-nil_iff hashes (seqs ++ (heads ++ logs))
        (unless-nil_iff (dir.file_sha256 lines == s.file_sha256) (file_hash_mismatch s.path)
          (==_iff (dir.file_sha256 lines) s.file_sha256))
        (append-nil_iff seqs (heads ++ logs)
          (unless-nil_iff (s.first_seq == expected_seq) (sequence_broken s.path)
            (==_iff s.first_seq expected_seq))
          (append-nil_iff heads logs
            (unless-nil_iff (s.prev_segment_head == previous_head) (head_broken s.path)
              (==_iff s.prev_segment_head previous_head))
            (log_errors-nil_iff s.path result)))
    where
      hashes : List RetentionError
      hashes = unless (dir.file_sha256 lines == s.file_sha256) (file_hash_mismatch s.path)

      seqs : List RetentionError
      seqs = unless (s.first_seq == expected_seq) (sequence_broken s.path)

      heads : List RetentionError
      heads = unless (s.prev_segment_head == previous_head) (head_broken s.path)

      logs : List RetentionError
      logs = log_errors s.path result

  -- The rest of the loop behind one segment, on what its file has given.
  abbrev behind :
      Segment
      → List Text
      → Text
      → ℤ
      → VerifyResult
      → List RetentionError
      → Outcome (List RetentionError)
  behind s lines previous_head expected_seq result errors =
      ok (present_errors R key dir s lines previous_head expected_seq result ++ errors)

  abbrev looked_up :
      Segment → List Segment → Text → ℤ → ℤ → Option (List Text) → Outcome (List RetentionError)
  looked_up s segments previous_head expected_seq retention_until none =
      check_segments R key dir segments previous_head expected_seq >>= λ errors.
      ok (absent_error R key dir s retention_until ∷ errors)
  looked_up s segments previous_head expected_seq retention_until (some lines) =
      verify_log R key (some s.head_hash) s.first_seq s.prev_segment_head lines >>= λ result.
      check_segments R key dir segments s.head_hash (suc_ℤ s.last_seq)
      >>= behind s lines previous_head expected_seq result

  check_segments-cons :
      (s : Segment) (segments : List Segment) (previous_head : Text) (expected_seq : ℤ)
      → check_segments R key dir (s ∷ segments) previous_head expected_seq ≡ (
          dir.parse_iso s.retention_until >>= λ retention_until.
          looked_up s segments previous_head expected_seq retention_until (dir.read s.path))
  unfolding check_segments
  check_segments-cons s segments previous_head expected_seq =
      elim (Option-cases (dir.read s.path)) [ inl e ↦ rw e refl | inr (lines, e) ↦ rw e refl ]

  looked_up-IsIntact :
      (s : Segment) (segments : List Segment) (previous_head : Text) (expected_seq : ℤ)
      (retention_until : ℤ) (found : Option (List Text))
      → looked_up s segments previous_head expected_seq retention_until found ≡ ok []
      → ((lines : List Text) × (result : VerifyResult) × (found ≡ some lines)
          × (verify_log R key (some s.head_hash) s.first_seq s.prev_segment_head lines ≡ ok result)
          × IsIntact s previous_head expected_seq lines result)
        × (check_segments R key dir segments s.head_hash (suc_ℤ s.last_seq) ≡ ok [])
  looked_up-IsIntact s segments previous_head expected_seq retention_until none h =
      >>=-cases (check_segments R key dir segments previous_head expected_seq) h λ errors e h'. cc
  looked_up-IsIntact s segments previous_head expected_seq retention_until (some lines) h =
      >>=-cases (verify_log R key (some s.head_hash) s.first_seq s.prev_segment_head lines) h
        λ result e h'.
          >>=-cases (check_segments R key dir segments s.head_hash (suc_ℤ s.last_seq)) h'
            λ errors e' h''.
              let (none_here, none_behind) =
                (append-nil_iff (present_errors R key dir s lines previous_head expected_seq result)
                    errors (present_errors-nil_iff s lines previous_head expected_seq result)
                    (λ x. x, λ x. x)).0
                  (ok-injective h'') in
              ((lines, result, refl, e, none_here), e' ∙ ap ok none_behind)

  check_segments-nil_iff :
      (segments : List Segment) (previous_head : Text) (expected_seq : ℤ)
      → (check_segments R key dir segments previous_head expected_seq ≡ ok [])
        ↔ IsRetained segments previous_head expected_seq
  unfolding check_segments
  check_segments-nil_iff [] previous_head expected_seq = (λ h. tt, λ h. refl)
  check_segments-nil_iff (s ∷ segments) previous_head expected_seq = (
    λ h.
        >>=-cases (dir.parse_iso s.retention_until)
          (sym (check_segments-cons s segments previous_head expected_seq) ∙ h)
          λ retention_until e h'.
            let (intact, behind_it) =
              looked_up-IsIntact s segments previous_head expected_seq retention_until
                (dir.read s.path) h' in
            (
              (retention_until, e),
              intact,
              (check_segments-nil_iff segments s.head_hash (suc_ℤ s.last_seq)).0 behind_it,
            ),
    λ ((retention_until, e), (lines, result, found, verified, intact), retained).
        let none_here =
          (present_errors-nil_iff s lines previous_head expected_seq result).1 intact in
        let none_behind =
          (check_segments-nil_iff segments s.head_hash (suc_ℤ s.last_seq)).1 retained in
        check_segments-cons s segments previous_head expected_seq
        ∙ rw (e, found, verified, none_behind, none_here) refl,
  )

  -- An error-free result.
  abbrev pub IsClean : Outcome (RetentionVerifyResult × Option Manifest) → Type 0
  IsClean o =
      (result : RetentionVerifyResult) × (after : Option Manifest) × (o ≡ ok (result, after))
      × (result.errors ≡ [])

  -- The verification of a directory with a manifest ends without an error exactly when the hash
  -- of the manifest is right and its segments, in the order of their first numbers, are retained
  -- from the genesis head and number 0: each file is there with its recorded digest, starts where
  -- the one before it is said to end, in number and in head, and is itself a log that verifies
  -- from that head to the recorded head.
  pub verify_retention-IsClean_iff :
      (manifest : Manifest)
      → IsClean (verify_retention R key dir (some manifest)) ↔ (
          (manifest.manifest_hash ≡ some (hash_of_manifest R manifest))
          × IsRetained (sorted_by first_seq_of manifest.segments) genesis_prev (pos 0))
  unfolding verify_retention manifest_errors
  verify_retention-IsClean_iff manifest = (
    λ (result, after, h, clean).
        >>=-cases (check_segments R key dir sorted genesis_prev (pos 0)) h λ errors e h'.
          let same : manifest_errors R key dir manifest ++ errors ≡ [] =
            ap (λ (r : RetentionVerifyResult). r.errors) (ap (λ x. x.0) (ok-injective h'))
            ∙ clean in
          let (hashed, none_found) = (both errors).0 same in
          (hashed, (check_segments-nil_iff sorted genesis_prev (pos 0)).0 (e ∙ ap ok none_found)),
    λ (hashed, retained).
        let none_found = (check_segments-nil_iff sorted genesis_prev (pos 0)).1 retained in
        (
          record {
            errors = manifest_errors R key dir manifest ++ [];
            checked_segments = length manifest.segments;
          },
          some (manifest_after R key dir manifest),
          rw none_found refl,
          (both []).1 (hashed, refl),
        ),
  )
    where
      sorted : List Segment
      sorted = sorted_by first_seq_of manifest.segments

      both :
          (errors : List RetentionError)
          → ((manifest_errors R key dir manifest ++ errors) ≡ [])
            ↔ ((manifest.manifest_hash ≡ some (hash_of_manifest R manifest)) × (errors ≡ []))
      both errors =
          append-nil_iff (manifest_errors R key dir manifest) errors
            (unless-nil_iff (manifest.manifest_hash == some (hash_of_manifest R manifest))
              manifest_hash_mismatch
              (==_iff manifest.manifest_hash (some (hash_of_manifest R manifest))))
            (λ x. x, λ x. x)

  written-hashed :
      (manifest : Manifest) → manifest_errors R key dir (written R dir.now_text manifest) ≡ []
  unfolding manifest_errors written hash_of_manifest
  written-hashed manifest =
      (unless-nil_iff (hashed.manifest_hash == some (hash_of_manifest R hashed))
          manifest_hash_mismatch (==_iff hashed.manifest_hash (some (hash_of_manifest R hashed)))).1
        refl
    where
      hashed : Manifest
      hashed = written R dir.now_text manifest

  manifest_after-written :
      (manifest : Manifest)
      → any (is_changed R key dir) manifest.segments ≡ true
      → manifest_after R key dir manifest
        ≡ written R dir.now_text
            (record manifest { segments = map (updated R key dir) manifest.segments })
  unfolding manifest_after
  manifest_after-written manifest changed = rw changed refl

  -- A run that ends and finds that the file of some segment has come or gone since its status
  -- was recorded leaves a manifest with a right hash, whatever hash the manifest had: a mismatch
  -- that this run reports is not reported by the next one.
  pub verify_retention-rehashed :
      (manifest : Manifest) (result : RetentionVerifyResult) (after : Option Manifest)
      → any (is_changed R key dir) manifest.segments ≡ true
      → verify_retention R key dir (some manifest) ≡ ok (result, after)
      → (left : Manifest) × (after ≡ some left) × (manifest_errors R key dir left ≡ [])
  unfolding verify_retention
  verify_retention-rehashed manifest result after changed h =
      >>=-cases
        (check_segments R key dir (sorted_by first_seq_of manifest.segments) genesis_prev (pos 0)) h
        λ errors e h'. (
          manifest_after R key dir manifest,
          sym (ap (λ x. x.1) (ok-injective h')),
          ap (manifest_errors R key dir) (manifest_after-written manifest changed)
              ∙ written-hashed
                  (record manifest { segments = map (updated R key dir) manifest.segments }),
        )
