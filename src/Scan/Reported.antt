-- ===== src/Scan/Reported.antt =====
-- What the scan of a repository (runeguard/scan.py) never misses.
use runeguard.Prelude.{
  Text, Bool, true, false, not, ◌||◌, List, [], ◌∷◌, ◌++◌, ◌==◌, any-append, map, list_eq, nat_eq,
  Option, some, ◌≡◌, refl, sym, ap, ◌∙◌, arith,
}
use runeguard.Outcome.{ok, ◌>>=◌, >>=-cases}
use runeguard.Json.{Json}
use runeguard.Policy.FilePath.{FilePath}
use runeguard.Regex.{Regex, findall}
use runeguard.Scan.{
  ScanFinding, is_high_finding, high_risk, FileEntry, should_skip, read_text, relative_text,
  named_findings, secret_finding, secret_findings, package_file_findings, text_findings,
  file_findings, scan_files,
}
use runeguard.Scan.Patterns.{secret_regexes}

-- Some pattern of a list has a match in the text.
unfoldable pub has_secret : Text → List (Text × Regex) → Bool
has_secret text [] = false
has_secret text ((label, pattern) ∷ patterns) =
    not (findall pattern text == []) || has_secret text patterns

-- A finding of high severity in front, or behind.
high_risk-append : (xs ys : List ScanFinding) → high_risk (xs ++ ys) ≡ high_risk xs || high_risk ys
unfolding high_risk
high_risk-append xs ys = any-append is_high_finding xs ys

high_risk-front : (xs ys : List ScanFinding) → high_risk xs ≡ true → high_risk (xs ++ ys) ≡ true
high_risk-front xs ys h = ground (arith, high_risk-append xs ys)

high_risk-behind : (xs ys : List ScanFinding) → high_risk ys ≡ true → high_risk (xs ++ ys) ≡ true
high_risk-behind xs ys h = ground (arith, high_risk-append xs ys)

high_risk-map :
    (rel label : Text) (secrets : List Text)
    → not (secrets == []) ≡ true
    → high_risk (map (secret_finding rel label) secrets) ≡ true
unfolding high_risk is_high_finding secret_finding list_eq nat_eq
high_risk-map rel label [] h = cc
high_risk-map rel label (secret ∷ secrets) h = refl

high_risk-secrets :
    (rel text : Text) (patterns : List (Text × Regex))
    → has_secret text patterns ≡ true
    → high_risk (secret_findings rel text patterns) ≡ true
unfolding has_secret secret_findings
high_risk-secrets rel text [] h = cc
high_risk-secrets rel text ((label, pattern) ∷ patterns) h = ground (
  arith,
  high_risk-append (map (secret_finding rel label) (findall pattern text))
      (secret_findings rel text patterns),
  high_risk-map rel label (findall pattern text),
  high_risk-secrets rel text patterns,
)

ok-same : {A : Type 0} (a b : A) → ok a ≡ ok b → a ≡ b
ok-same a b h = cc

module _ (loads : Text → Option Json) where
  text_findings-secret :
      (path : FilePath) (rel text : Text) (findings : List ScanFinding)
      → text_findings loads path rel (some text) ≡ ok findings
      → has_secret text secret_regexes ≡ true
      → high_risk findings ≡ true
  unfolding text_findings
  text_findings-secret path rel text findings h secret =
      >>=-cases (package_file_findings loads path rel text) h λ scripts h₁ h₂.
        ap high_risk (sym (ok-same _ findings h₂))
        ∙ high_risk-front (secret_findings rel text secret_regexes) _
            (high_risk-secrets rel text secret_regexes secret)

  file_findings-secret :
      (root : FilePath) (entry : FileEntry) (text : Text) (findings : List ScanFinding)
      → file_findings loads root entry ≡ ok findings
      → entry.is_file ≡ true
      → should_skip entry.path ≡ false
      → read_text entry ≡ some text
      → has_secret text secret_regexes ≡ true
      → high_risk findings ≡ true
  unfolding file_findings
  file_findings-secret root entry text findings h file kept read secret =
      let rel = relative_text root entry.path in
      let opened : (text_findings loads entry.path rel (read_text entry) >>= λ told.
      ok (named_findings entry.path rel ++ told))
          ≡ ok findings =
        ground arith in
      >>=-cases (text_findings loads entry.path rel (read_text entry)) opened λ told h₁ h₂.
        ap high_risk (sym (ok-same _ findings h₂))
        ∙ high_risk-behind (named_findings entry.path rel) told (
            text_findings-secret entry.path rel text told
              (ap (text_findings loads entry.path rel) (sym read) ∙ h₁) secret)

  -- A scan that comes to its end reports a high risk wherever one of the files is not skipped, can
  -- be read, is not too large and has a text in which a pattern of a secret has a match, whatever
  -- the other files are.
  pub scan_files-secret :
      (root : FilePath) (front back : List FileEntry) (entry : FileEntry) (text : Text)
      (findings : List ScanFinding)
      → scan_files loads root (front ++ (entry ∷ back)) ≡ ok findings
      → entry.is_file ≡ true
      → should_skip entry.path ≡ false
      → read_text entry ≡ some text
      → has_secret text secret_regexes ≡ true
      → high_risk findings ≡ true
  unfolding scan_files
  scan_files-secret root [] back entry text findings h file kept read secret =
      >>=-cases (file_findings loads root entry) h λ first h₁ h₂.
        >>=-cases (scan_files loads root back) h₂ λ rest h₃ h₄.
          ap high_risk (sym (ok-same _ findings h₄))
          ∙ high_risk-front first rest
              (file_findings-secret root entry text first h₁ file kept read secret)
  scan_files-secret root (other ∷ front) back entry text findings h file kept read secret =
      >>=-cases (file_findings loads root other) h λ first h₁ h₂.
        >>=-cases (scan_files loads root (front ++ (entry ∷ back))) h₂ λ rest h₃ h₄.
          ap high_risk (sym (ok-same _ findings h₄))
          ∙ high_risk-behind first rest
              (scan_files-secret root front back entry text rest h₃ file kept read secret)
