-- ===== src/DiffRisk/Scanning.antt =====
-- What the analysis of a diff (runeguard/diff_risk.py) keeps when every flag keeps it.
use runeguard.Prelude.{
  Text, codes, Bool, true, List, [], ◌∷◌, drop, ◌≡◌, inl, inr, sym, arith, Bool-cases,
}
use mathlib.Core.Path.{subst}
use runeguard.DiffRisk.{
  DiffRiskReport, Scan, flag, flag_all, added_tests, check_file_path, check_added, is_header,
  header_file, is_added, note_deleted, scan_header, scan_added, scan_line, scan_lines, flag_deleted,
}

note_deleted-report : (line : Text) (scan : Scan) → (note_deleted line scan).report ≡ scan.report
unfolding note_deleted
note_deleted-report line scan = ground arith

module _ (I : DiffRiskReport → Type 0)
    (flag-keeps : (test : Bool) (warning path : Text) (report : DiffRiskReport)
      → I report
      → I (flag test warning path report)) where
  pub flag_all-keeps :
      (tests : List (Bool × Text)) (path : Text) (report : DiffRiskReport)
      → I report
      → I (flag_all tests path report)
  unfolding flag_all
  flag_all-keeps [] path report i = i
  flag_all-keeps ((test, warning) ∷ tests) path report i =
      flag_all-keeps tests path (flag test warning path report)
        (flag-keeps test warning path report i)

  scan_header-keeps : (line : Text) (scan : Scan) → I scan.report → I (scan_header line scan).report
  unfolding scan_header check_file_path
  scan_header-keeps line scan i = flag-keeps _ _ (header_file line) scan.report i

  scan_added-keeps : (line : Text) (scan : Scan) → I scan.report → I (scan_added line scan).report
  unfolding scan_added check_added
  scan_added-keeps line scan i = elim (Bool-cases (is_added line)) [
    | inl e ↦ rw e (
        flag_all-keeps (added_tests scan.current_file (drop 1 line)) scan.current_file scan.report
          i)
    | inr e ↦ rw e i
  ]

  scan_line-keeps : (line : Text) (scan : Scan) → I scan.report → I (scan_line line scan).report
  unfolding scan_line
  scan_line-keeps line scan i = elim (Bool-cases (is_header line)) [
    | inl e ↦ rw e (scan_header-keeps line scan i)
    | inr e ↦ rw e (
        scan_added-keeps line (note_deleted line scan)
          (subst I (sym (note_deleted-report line scan)) i))
  ]

  pub scan_lines-keeps :
      (lines : List Text) (scan : Scan) → I scan.report → I (scan_lines lines scan).report
  unfolding scan_lines
  scan_lines-keeps [] scan i = i
  scan_lines-keeps (line ∷ lines) scan i =
      scan_lines-keeps lines (scan_line line scan) (scan_line-keeps line scan i)

  pub flag_deleted-keeps :
      (paths : List Text) (report : DiffRiskReport) → I report → I (flag_deleted paths report)
  unfolding flag_deleted
  flag_deleted-keeps [] report i = i
  flag_deleted-keeps (path ∷ paths) report i =
      flag_deleted-keeps paths (flag true (codes "Test file deleted: ") path report)
        (flag-keeps true (codes "Test file deleted: ") path report i)
