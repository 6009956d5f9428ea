-- ===== src/DiffRisk.antt =====
-- runeguard/diff_risk.py: the risk of a diff, read off its text line by line.
pub mod Patterns
pub mod Scanning
pub mod Flagging
pub mod Unrepeated
use runeguard.Prelude.{
  ℕ, Text, codes, Bool, true, false, not, ◌&&◌, ◌||◌, List, [], ◌∷◌, ◌++◌, ◌==◌, any, contains,
  drop, map, length, leb, ltb, lower, has_part, starts_with, ends_with, list_eq, nat_eq,
  if◌then◌else◌,
}
use runeguard.Regex.{
  Regex, seq, alt, one, many, boundary, literal, at_least, one_of, is_space, found,
}
use runeguard.Policy.Words.{split_space}
use runeguard.Policy.FilePath.{to_path, name_of}
use runeguard.DiffRisk.Patterns.{
  high_risk_files, package_files, suspicious_commands, environment_reads, network_code,
  sensitive_paths,
}

pub record DiffRiskReport : Type 0 where
  pub score : Text
  pub risky_files : List Text
  pub warnings : List Text

abbrev pub no_risk : DiffRiskReport
no_risk = record { score = codes "low"; risky_files = []; warnings = [] }

unfoldable pub add_file : Text → DiffRiskReport → DiffRiskReport
add_file path report =
    if path == [] || contains report.risky_files path
    then report
    else record report { risky_files = report.risky_files ++ (path ∷ []) }

unfoldable pub add_warning : Text → DiffRiskReport → DiffRiskReport
add_warning warning report =
    if contains report.warnings warning
    then report
    else record report { warnings = report.warnings ++ (warning ∷ []) }

-- A warning and its file, under a test.
unfoldable pub flag : Bool → Text → Text → DiffRiskReport → DiffRiskReport
unfolding add_file add_warning
flag false warning path report = report
flag true warning path report = add_file path (add_warning (warning ++ path) report)

-- `Path(path).name in PACKAGE_FILES`
unfoldable pub is_package_file : Text → Bool
unfolding to_path name_of
is_package_file path = contains package_files (name_of (to_path path))

-- `any(token in text for token in tokens)`
unfoldable pub mentions : List Text → Text → Bool
mentions tokens text = any (λ token. has_part text token) tokens

unfoldable pub check_file_path : Text → DiffRiskReport → DiffRiskReport
unfolding is_package_file mentions flag
check_file_path path report =
    flag (is_package_file path || mentions high_risk_files (lower path))
      (codes "Risk-sensitive file changed: ") path report

unfoldable pub looks_like_test : Text → Bool
looks_like_test path =
    let low = lower path in
    has_part low (codes "/test")
    || starts_with low (codes "test")
    || ends_with low (codes "_test.py")
    || ends_with low (codes ".test.ts")

last_part : List Text → Text
last_part [] = []
last_part (part ∷ []) = part
last_part (part ∷ next ∷ parts) = last_part (next ∷ parts)

-- The new `current_file` of a `diff --git` line.
unfoldable pub header_file : Text → Text
unfolding last_part split_space
header_file line =
    let parts = split_space [] line in
    if leb 4 (length parts) && starts_with (last_part parts) (codes "b/")
    then drop 2 (last_part parts)
    else []

-- The tests of an added line with their warnings, in order.
unfoldable pub added_tests : Text → Text → List (Bool × Text)
unfolding is_package_file mentions
added_tests path added =
    (is_package_file path, codes "New dependency or package metadata changed in ")
    ∷ (found suspicious_commands added, codes "Suspicious shell command added in ")
    ∷ (
      found environment_reads added && found network_code added,
      codes "Environment variable may be sent to network code in ",
    )
    ∷ (found sensitive_paths added, codes "Sensitive path access added in ")
    ∷ (
      mentions (codes "auth" ∷ codes "payment" ∷ codes "security" ∷ []) (lower path),
      codes "Security-sensitive code changed in ",
    )
    ∷ []

unfoldable pub flag_all : List (Bool × Text) → Text → DiffRiskReport → DiffRiskReport
unfolding flag
flag_all [] path report = report
flag_all ((test, warning) ∷ tests) path report = flag_all tests path (flag test warning path report)

unfoldable pub check_added : Text → Text → DiffRiskReport → DiffRiskReport
unfolding flag_all added_tests
check_added path added report = flag_all (added_tests path added) path report

-- The variables of the loop.
pub record Scan : Type 0 where
  pub report : DiffRiskReport
  pub current_file : Text
  -- The set `deleted_test_files`.
  pub deleted : List Text

abbrev pub no_scan : Scan
no_scan = record { report = no_risk; current_file = []; deleted = [] }

unfoldable pub is_header : Text → Bool
is_header line = starts_with line (codes "diff --git ")

unfoldable pub is_added : Text → Bool
is_added line = starts_with line (codes "+") && not (starts_with line (codes "+++"))

-- `a <= b` on strings.
unfoldable pub text_le : Text → Text → Bool
text_le [] b = true
text_le (x ∷ a) [] = false
text_le (x ∷ a) (y ∷ b) = let rest = text_le a b in if x == y then rest else ltb x y

-- `set.add`, on a set that is kept in the order of `sorted`.
unfoldable pub insert_text : Text → List Text → List Text
unfolding text_le
insert_text text [] = text ∷ []
insert_text text (next ∷ texts) =
    let rest = insert_text text texts in
    if text == next
    then next ∷ texts
    else if text_le text next
    then text ∷ next ∷ texts
    else next ∷ rest

unfoldable pub note_deleted : Text → Scan → Scan
unfolding looks_like_test insert_text
note_deleted line scan =
    if starts_with line (codes "deleted file mode") && looks_like_test scan.current_file
    then record scan { deleted = insert_text scan.current_file scan.deleted }
    else scan

unfoldable pub scan_header : Text → Scan → Scan
unfolding header_file check_file_path
scan_header line scan = record scan {
  report = check_file_path (header_file line) scan.report;
  current_file = header_file line;
}

unfoldable pub scan_added : Text → Scan → Scan
unfolding is_added check_added
scan_added line scan =
    if is_added line
    then record scan { report = check_added scan.current_file (drop 1 line) scan.report }
    else scan

unfoldable pub scan_line : Text → Scan → Scan
unfolding is_header scan_header note_deleted scan_added
scan_line line scan =
    if is_header line then scan_header line scan else scan_added line (note_deleted line scan)

unfoldable pub scan_lines : List Text → Scan → Scan
unfolding scan_line
scan_lines [] scan = scan
scan_lines (line ∷ lines) scan = scan_lines lines (scan_line line scan)

unfoldable pub flag_deleted : List Text → DiffRiskReport → DiffRiskReport
unfolding flag
flag_deleted [] report = report
flag_deleted (path ∷ paths) report =
    flag_deleted paths (flag true (codes "Test file deleted: ") path report)

abbrev pub high_markers : List Text
high_markers =
    codes "Suspicious shell"
    ∷ codes "Environment variable"
    ∷ codes "Sensitive path"
    ∷ codes "Test file deleted"
    ∷ []

-- `warning.startswith(high_markers)`
unfoldable pub is_high : Text → Bool
is_high warning = any (λ marker. starts_with warning marker) high_markers

-- `_score`
unfoldable pub scored : DiffRiskReport → DiffRiskReport
unfolding is_high
scored report =
    if any is_high report.warnings || leb 4 (length report.warnings)
    then record report { score = codes "high" }
    else if report.warnings == []
    then report
    else record report { score = codes "medium" }

-- `analyze_diff_text`, on the lines of the text.
unfoldable pub analyze_diff_lines : List Text → DiffRiskReport
unfolding scan_lines flag_deleted scored
analyze_diff_lines lines =
    let scan = scan_lines lines no_scan in scored (flag_deleted scan.deleted scan.report)

-- The ends of lines of `str.splitlines`; a carriage return and a line feed are one.
abbrev line_ends : List ℕ
line_ends = 10 ∷ 11 ∷ 12 ∷ 13 ∷ 28 ∷ 29 ∷ 30 ∷ 133 ∷ 8232 ∷ 8233 ∷ []

-- `text.splitlines()`: the first argument is the line so far, the second tells that the character
-- before was a carriage return that ended a line.
unfoldable pub split_lines : Text → Bool → Text → List Text
split_lines [] after_return [] = []
split_lines (l ∷ line) after_return [] = (l ∷ line) ∷ []
split_lines line after_return (c ∷ text) =
    let go_on = split_lines line false text in
    let more = split_lines (line ++ (c ∷ [])) false text in
    let next = line ∷ split_lines [] (c == 13) text in
    if after_return && c == 10 then go_on else if contains line_ends c then next else more

unfoldable pub analyze_diff_text : Text → DiffRiskReport
unfolding split_lines analyze_diff_lines
analyze_diff_text text = analyze_diff_lines (split_lines [] false text)

unfoldable pub listed : List Text → List Text
listed items = if items == [] then codes "- none" ∷ [] else map (λ item. codes "- " ++ item) items

-- The lines that `render_diff_risk` joins.
unfoldable pub render_diff_risk : DiffRiskReport → List Text
unfolding listed
render_diff_risk report =
    ((codes "Risk score: " ++ report.score) ∷ codes "Risky files:" ∷ listed report.risky_files)
    ++ ((codes "Warnings:" ∷ listed report.warnings)
        ++ ((codes "Suggested next command: "
              ++ (if contains (codes "medium" ∷ codes "high" ∷ []) report.score
                  then codes "runeguard scan"
                  else codes "runeguard report .runeguard/audit.jsonl"))
            ∷ []))
