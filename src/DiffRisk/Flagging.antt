-- ===== src/DiffRisk/Flagging.antt =====
-- What the analysis of a diff (runeguard/diff_risk.py) never misses.
use runeguard.Prelude.{
  Text, codes, Bool, true, false, ◌&&◌, ◌||◌, List, [], ◌∷◌, ◌++◌, any, any-append, contains, drop,
  list_eq, nat_eq, starts_with, lower, ◌≡◌, inl, inr, refl, ap, ◌∙◌, arith, Bool-cases, ==_iff,
}
use runeguard.Regex.{found}
use runeguard.DiffRisk.{
  DiffRiskReport, Scan, no_scan, add_file, add_warning, flag, flag_all, added_tests,
  is_package_file, mentions, check_added, is_header, is_added, note_deleted, scan_added, scan_line,
  scan_lines, flag_deleted, is_high, scored, analyze_diff_lines,
}
use runeguard.DiffRisk.Patterns.{
  suspicious_commands, environment_reads, network_code, sensitive_paths,
}
use runeguard.DiffRisk.Scanning.{flag_all-keeps, scan_lines-keeps, flag_deleted-keeps}

-- Some warning of the report passes the test.
abbrev pub Warns : (Text → Bool) → DiffRiskReport → Type 0
Warns P report = any P report.warnings ≡ true

any-contained :
    (P : Text → Bool) (xs : List Text) (a : Text)
    → contains xs a ≡ true
    → P a ≡ true
    → any P xs ≡ true
any-contained P [] a h e = cc
any-contained P (x ∷ xs) a h e = ground (arith, ==_iff a x, any-contained P xs a)

add_file-warnings :
    (path : Text) (report : DiffRiskReport) → (add_file path report).warnings ≡ report.warnings
unfolding add_file
add_file-warnings path report = ground (arith)

-- Warnings stay.
module _ (P : Text → Bool) where
  add_warning-Warns :
      (warning : Text) (report : DiffRiskReport)
      → Warns P report
      → Warns P (add_warning warning report)
  unfolding add_warning
  add_warning-Warns warning report h = ground (arith, any-append P report.warnings (warning ∷ []))

  add_warning-added :
      (warning : Text) (report : DiffRiskReport)
      → P warning ≡ true
      → Warns P (add_warning warning report)
  unfolding add_warning
  add_warning-added warning report h =
      ground (
        arith,
        any-append P report.warnings (warning ∷ []),
        any-contained P report.warnings warning,
      )

  flag-Warns :
      (test : Bool) (warning path : Text) (report : DiffRiskReport)
      → Warns P report
      → Warns P (flag test warning path report)
  unfolding flag
  flag-Warns false warning path report h = h
  flag-Warns true warning path report h =
      ap (any P) (add_file-warnings path (add_warning (warning ++ path) report))
      ∙ add_warning-Warns (warning ++ path) report h

  flag-added :
      (warning path : Text) (report : DiffRiskReport)
      → P (warning ++ path) ≡ true
      → Warns P (flag true warning path report)
  unfolding flag
  flag-added warning path report h =
      ap (any P) (add_file-warnings path (add_warning (warning ++ path) report))
      ∙ add_warning-added (warning ++ path) report h

  -- A test that succeeds, and whose warning counts.
  flag_all-added :
      (tests : List (Bool × Text)) (path : Text) (report : DiffRiskReport)
      → any (λ (test, warning). test && P (warning ++ path)) tests ≡ true
      → Warns P (flag_all tests path report)
  unfolding flag_all
  flag_all-added [] path report h = cc
  flag_all-added ((false, warning) ∷ tests) path report h = flag_all-added tests path _ h
  flag_all-added ((true, warning) ∷ tests) path report h = elim (Bool-cases (P (warning ++ path))) [
    | inl e ↦
        flag_all-keeps (Warns P) flag-Warns tests path (flag true warning path report)
          (flag-added warning path report e)
    | inr e ↦ flag_all-added tests path (flag true warning path report) (ground arith)
  ]

scan_lines-append :
    (front back : List Text) (scan : Scan)
    → scan_lines (front ++ back) scan ≡ scan_lines back (scan_lines front scan)
unfolding scan_lines
scan_lines-append [] back scan = refl
scan_lines-append (line ∷ front) back scan = scan_lines-append front back (scan_line line scan)

scored-high :
    (report : DiffRiskReport) → Warns is_high report → (scored report).score ≡ codes "high"
unfolding scored
scored-high report h = ground arith

-- What makes an added line dangerous: a suspicious command, an environment variable next to
-- network code, or a sensitive path.
unfoldable pub is_dangerous_line : Text → Bool
is_dangerous_line added =
    found suspicious_commands added
    || (found environment_reads added && found network_code added)
    || found sensitive_paths added

one_of_three :
    (packages commands environment network paths mentioned : Bool)
    → commands || (environment && network) || paths ≡ true
    → (packages && false
        || (commands && true
            || (environment && network && true
                || (paths && true || (mentioned && false || false)))))
      ≡ true
one_of_three packages commands environment network paths mentioned h = ground arith

added_tests-dangerous :
    (path added : Text)
    → is_dangerous_line added ≡ true
    → any (λ (test, warning). test && is_high (warning ++ path)) (added_tests path added) ≡ true
unfolding added_tests is_dangerous_line is_high starts_with nat_eq
added_tests-dangerous path added h =
    one_of_three (is_package_file path) (found suspicious_commands added)
      (found environment_reads added) (found network_code added) (found sensitive_paths added)
      (mentions (codes "auth" ∷ codes "payment" ∷ codes "security" ∷ []) (lower path)) h

added-no_header : (line : Text) → is_added line ≡ true → is_header line ≡ false
unfolding is_added is_header starts_with
added-no_header [] h = cc
added-no_header (c ∷ line) h = ground (arith)

scan_line-dangerous :
    (line : Text) (scan : Scan)
    → is_added line ≡ true
    → is_dangerous_line (drop 1 line) ≡ true
    → Warns is_high (scan_line line scan).report
unfolding scan_line scan_added check_added
scan_line-dangerous line scan added dangerous =
    rw (added-no_header line added, added)
      (flag_all-added is_high (added_tests (note_deleted line scan).current_file (drop 1 line))
        (note_deleted line scan).current_file (note_deleted line scan).report
        (added_tests-dangerous (note_deleted line scan).current_file (drop 1 line) dangerous))

is_added-content :
    (added : Text) → starts_with added (codes "++") ≡ false → is_added (b'+' ∷ added) ≡ true
unfolding is_added starts_with nat_eq
is_added-content added plain = ground arith

-- A diff in which a line is added that has a suspicious command, sends an environment variable to
-- network code or names a sensitive path has a high risk, wherever the line stands, whatever the
-- file is and whatever the other lines are, provided the added line does not begin with `++`: the
-- line of the diff would begin with `+++`, and those are not looked at.
pub analyze_diff_lines-dangerous :
    (front back : List Text) (added : Text)
    → starts_with added (codes "++") ≡ false
    → is_dangerous_line added ≡ true
    → (analyze_diff_lines (front ++ ((b'+' ∷ added) ∷ back))).score ≡ codes "high"
unfolding analyze_diff_lines
analyze_diff_lines-dangerous front back added plain dangerous =
    let line : Text = b'+' ∷ added in
    let met =
      scan_line-dangerous line (scan_lines front no_scan) (is_added-content added plain)
        dangerous in
    let kept =
      scan_lines-keeps (Warns is_high) (flag-Warns is_high) back
        (scan_line line (scan_lines front no_scan)) met in
    let scan = scan_lines (front ++ (line ∷ back)) no_scan in
    scored-high (flag_deleted scan.deleted scan.report) (
      flag_deleted-keeps (Warns is_high) (flag-Warns is_high) scan.deleted scan.report (
        ap (λ scan'. any is_high scan'.report.warnings)
          (scan_lines-append front (line ∷ back) no_scan)
        ∙ kept))
