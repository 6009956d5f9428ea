-- ===== src/DiffRisk/Unrepeated.antt =====
-- The report of runeguard/diff_risk.py names every file and every warning once.
use runeguard.Prelude.{
  Text, Bool, true, false, ◌||◌, List, [], ◌∷◌, ◌++◌, ◌==◌, contains, list_eq, nat_eq, ◌≡◌, inl,
  inr, refl, arith, Bool-cases,
}
use runeguard.DiffRisk.{
  DiffRiskReport, no_scan, add_file, add_warning, flag, scan_lines, flag_deleted, scored,
  analyze_diff_lines,
}
use runeguard.DiffRisk.Scanning.{scan_lines-keeps, flag_deleted-keeps}

abbrev pub NoRepeats : List Text → Type 0
NoRepeats [] = Unit
NoRepeats (x ∷ xs) = (contains xs x ≡ false) × NoRepeats xs

-- No warning and no file twice, and no file without a name.
abbrev pub IsTidy : DiffRiskReport → Type 0
IsTidy report =
    NoRepeats report.warnings
    × NoRepeats report.risky_files
    × (contains report.risky_files [] ≡ false)

contains-snoc :
    (xs : List Text) (a b : Text) → contains (xs ++ (a ∷ [])) b ≡ contains xs b || b == a
contains-snoc [] a b = ground arith
contains-snoc (x ∷ xs) a b = ground (arith, contains-snoc xs a b)

==_sym : (a b : Text) → (a == b) ≡ (b == a)
==_sym a b = ground arith

NoRepeats-snoc :
    (xs : List Text) (a : Text) → NoRepeats xs → contains xs a ≡ false → NoRepeats (xs ++ (a ∷ []))
NoRepeats-snoc [] a unique fresh = (refl, tt)
NoRepeats-snoc (x ∷ xs) a (first, rest) fresh =
    (ground (arith, contains-snoc xs a x, ==_sym a x), NoRepeats-snoc xs a rest (ground arith))

add_warning-IsTidy :
    (warning : Text) (report : DiffRiskReport) → IsTidy report → IsTidy (add_warning warning report)
unfolding add_warning
add_warning-IsTidy warning report (warns, files, named) =
    elim (Bool-cases (contains report.warnings warning)) [
      | inl old ↦ rw old (warns, files, named)
      | inr fresh ↦ rw fresh (NoRepeats-snoc report.warnings warning warns fresh, files, named)
    ]

add_file-IsTidy :
    (path : Text) (report : DiffRiskReport) → IsTidy report → IsTidy (add_file path report)
unfolding add_file
add_file-IsTidy path report (warns, files, named) =
    elim (Bool-cases (path == [] || contains report.risky_files path)) [
      | inl old ↦ rw old (warns, files, named)
      | inr fresh ↦ rw fresh (
        warns,
        NoRepeats-snoc report.risky_files path files (ground arith),
        ground (arith, contains-snoc report.risky_files path [], ==_sym path []),
      )
    ]

flag-IsTidy :
    (test : Bool) (warning path : Text) (report : DiffRiskReport)
    → IsTidy report
    → IsTidy (flag test warning path report)
unfolding flag
flag-IsTidy false warning path report tidy = tidy
flag-IsTidy true warning path report tidy =
    add_file-IsTidy path (add_warning (warning ++ path) report)
      (add_warning-IsTidy (warning ++ path) report tidy)

scored-lists :
    (report : DiffRiskReport)
    → ((scored report).warnings ≡ report.warnings)
      × ((scored report).risky_files ≡ report.risky_files)
unfolding scored
scored-lists report = (ground arith, ground arith)

scored-IsTidy : (report : DiffRiskReport) → IsTidy report → IsTidy (scored report)
scored-IsTidy report tidy = let (warns, files) = scored-lists report in rw (warns, files) tidy

-- However the lines run, the report of a diff names no warning and no file twice, and no file
-- without a name.
pub analyze_diff_lines-IsTidy : (lines : List Text) → IsTidy (analyze_diff_lines lines)
unfolding analyze_diff_lines
analyze_diff_lines-IsTidy lines =
    let scan = scan_lines lines no_scan in
    scored-IsTidy (flag_deleted scan.deleted scan.report) (
      flag_deleted-keeps IsTidy flag-IsTidy scan.deleted scan.report
        (scan_lines-keeps IsTidy flag-IsTidy lines no_scan (tt, tt, refl)))
