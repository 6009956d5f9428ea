-- ===== src/Scan.antt =====
-- runeguard/scan.py: what a repository holds that an agent should not meet. The files are given as
-- they are found, with what can be read of them.
pub mod Patterns
pub mod Reported
use runeguard.Prelude.{
  ℕ, zero, suc, Text, codes, Bool, true, false, not, ◌&&◌, ◌||◌, List, [], ◌∷◌, ◌++◌, ◌==◌, any,
  contains, map, ltb, lower, lower_code, has_part, starts_with, list_eq, nat_eq, if◌then◌else◌,
  Option, none, some,
}
use runeguard.Outcome.{Outcome, ok, raised, ◌>>=◌}
use runeguard.Json.{Json, str, object, Fields, end, field}
use runeguard.Policy.Loading.{find}
use runeguard.Policy.FilePath.{FilePath, parts, path_text, name_of, is_relative_to}
use runeguard.Regex.{
  Regex, seq, alt, one, many, few, boundary, literal, times, at_least, one_of, among, is_alnum,
  is_digit, is_letter, is_space, is_upper, is_word, found, findall,
}
use runeguard.Redaction.{redact_match}
use runeguard.Mcp.Proxy.{with_slashes}
use runeguard.Docker.{below}
use runeguard.Scan.Patterns.{secret_regexes, dangerous_script_patterns, mcp_config_names}

pub record ScanFinding : Type 0 where
  pub severity : Text
  pub kind : Text
  pub path : Text
  pub detail : Text
  pub secret_preview : Option Text

abbrev plain_finding : Text → Text → Text → Text → ScanFinding
plain_finding severity kind path detail = record {
  severity = severity;
  kind = kind;
  path = path;
  detail = detail;
  secret_preview = none;
}

-- One finding, if the test holds.
unfoldable pub finding_if : Bool → ScanFinding → List ScanFinding
finding_if false finding = []
finding_if true finding = finding ∷ []

unfoldable pub is_high_finding : ScanFinding → Bool
is_high_finding finding = finding.severity == codes "high"

-- The property `high_risk` of a report.
unfoldable pub high_risk : List ScanFinding → Bool
unfolding is_high_finding
high_risk findings = any is_high_finding findings

-- A path that `rglob` gives, and what the file system says of it.
pub record FileEntry : Type 0 where
  pub path : FilePath
  pub is_file : Bool
  pub size : ℕ
  -- `path.read_text(...)`, `none` where an `OSError` is raised.
  pub contents : Option Text

-- The rest of a text behind its last dot with that dot, and whether there was one.
last_dot : Text → Option Text
last_dot [] = none
last_dot (c ∷ text) = elim (last_dot text) [
  | some suffix ↦ some suffix
  | none ↦ if c == b'.' then some (c ∷ text) else none
]

-- `path.suffix`: a dot at the front or at the end of the name begins none.
unfoldable pub suffix_of : Text → Text
unfolding last_dot
suffix_of [] = []
suffix_of (c ∷ name) = elim (last_dot name) [
  | none ↦ []
  | some suffix ↦ if suffix == codes "." then [] else suffix
]

unfoldable pub should_skip : FilePath → Bool
should_skip path = any (contains (parts path)) (
    codes ".git"
    ∷ codes "node_modules"
    ∷ codes ".venv"
    ∷ codes "venv"
    ∷ codes "__pycache__"
    ∷ codes ".pytest_cache"
    ∷ [])

-- `_read_text`
unfoldable pub read_text : FileEntry → Option Text
read_text entry = if ltb 1048576 entry.size then none else entry.contents

-- `_relative`
unfoldable pub relative_text : FilePath → FilePath → Text
relative_text root path =
    if is_relative_to path root then with_slashes (path_text (below path root)) else path_text path

unfoldable pub is_firebase_service_account : FilePath → Bool
unfolding suffix_of
is_firebase_service_account path =
    let name = lower (name_of path) in
    (has_part name (codes "firebase")
      && has_part name (codes "admin")
      && suffix_of (name_of path) == codes ".json")
    || (starts_with name (codes "service-account") && suffix_of (name_of path) == codes ".json")

-- What the name and the path of a file tell.
unfoldable pub named_findings : FilePath → Text → List ScanFinding
unfolding finding_if is_firebase_service_account
named_findings path rel =
    finding_if
      (lower (name_of path) == codes ".env" || starts_with (lower (name_of path)) (codes ".env."))
      (plain_finding (codes "high") (codes "env-file") rel (codes ".env-style file present"))
    ++ (finding_if (is_firebase_service_account path) (
          plain_finding (codes "high") (codes "firebase-service-account") rel
            (codes "Firebase service account JSON present"))
        ++ finding_if
            (contains mcp_config_names (name_of path)
              || has_part (path_text path) (codes ".cursor/mcp"))
            (plain_finding (codes "medium") (codes "mcp-config") rel
              (codes "MCP configuration file present")))

-- One finding for a match, with `preview_secret` of it.
unfoldable pub secret_finding : Text → Text → Text → ScanFinding
secret_finding rel label secret = record {
  severity = codes "high";
  kind = codes "secret";
  path = rel;
  detail = label;
  secret_preview = some (redact_match secret);
}

-- The loop over `SECRET_REGEXES`.
unfoldable pub secret_findings : Text → Text → List (Text × Regex) → List ScanFinding
unfolding secret_finding
secret_findings rel text [] = []
secret_findings rel text ((label, pattern) ∷ patterns) =
    map (secret_finding rel label) (findall pattern text) ++ secret_findings rel text patterns

-- The patterns that are found in a command, as findings with a detail in front of the label.
unfoldable pub script_findings : Text → Text → Text → Text → List (Text × Regex) → List ScanFinding
unfolding finding_if
script_findings kind rel front command [] = []
script_findings kind rel front command ((label, pattern) ∷ patterns) =
    finding_if (found pattern command) (plain_finding (codes "high") kind rel (front ++ label))
    ++ script_findings kind rel front command patterns

-- The loop over the scripts; a command that is no text is passed over.
unfoldable pub scripts_findings : Text → Fields → List ScanFinding
unfolding script_findings
scripts_findings rel end = []
scripts_findings rel (field name (str command) scripts) =
    script_findings (codes "dangerous-package-script") rel (name ++ codes ": ") command
      dangerous_script_patterns
    ++ scripts_findings rel scripts
scripts_findings rel (field name value scripts) = scripts_findings rel scripts

unfoldable pub package_scripts : Text → Option Json → List ScanFinding
unfolding scripts_findings
package_scripts rel (some (object scripts)) = scripts_findings rel scripts
package_scripts rel _ = []

-- `_scan_package_json`; a value that is no dict has no `get`.
unfoldable pub package_findings : Text → Option Json → Outcome (List ScanFinding)
unfolding package_scripts
package_findings rel none = ok (
    plain_finding (codes "medium") (codes "package-json") rel (codes "package.json is invalid JSON")
    ∷ [])
package_findings rel (some (object fields)) =
    ok (package_scripts rel (find (codes "scripts") fields))
package_findings rel (some value) = raised

abbrev any_part : List Text → Text → Bool
any_part tokens text = any (λ token. has_part text token) tokens

-- `_scan_workflow`
unfoldable pub workflow_findings : Text → Text → List ScanFinding
unfolding finding_if
workflow_findings rel text =
    finding_if
      (any_part
          (codes "github.event.issue"
            ∷ codes "github.event.pull_request"
            ∷ codes "github.event.comment"
            ∷ codes "github.event.review"
            ∷ [])
          (lower text)
        && any_part
            (codes "openai"
              ∷ codes "anthropic"
              ∷ codes "gemini"
              ∷ codes "claude"
              ∷ codes "codex"
              ∷ codes "cursor"
              ∷ [])
            (lower text))
      (plain_finding (codes "high") (codes "agentic-workflow-input") rel
        (codes "GitHub event text appears to flow into AI tooling"))

abbrev bracketed : Regex → Regex
bracketed inner = seq (literal (codes "[")) (seq inner (literal (codes "]")))

-- The pattern for Netlify files.
abbrev pub netlify_environment : Regex
netlify_environment =
    alt
      (bracketed (
        alt
          (seq (literal (codes "context."))
            (seq (at_least 1 (one (λ c. not (c == b']')))) (literal (codes ".environment"))))
          (literal (codes "build.environment"))))
      (seq boundary (
        seq (many (one (λ c. is_upper c || is_digit c || c == b'_'))) (
          seq
            (one_of (literal (codes "KEY"))
              (literal (codes "TOKEN") ∷ literal (codes "SECRET") ∷ []))
            boundary)))

unfoldable pub netlify_findings : FilePath → Text → Text → List ScanFinding
unfolding finding_if suffix_of
netlify_findings path rel text =
    finding_if
      (starts_with (lower (name_of path)) (codes "netlify")
        && has_part (lower (suffix_of (name_of path))) (codes "toml")
        && found netlify_environment text)
      (plain_finding (codes "medium") (codes "env-config") rel
        (codes "Netlify file contains env-like config"))

unfoldable pub is_shell_file : FilePath → Bool
unfolding suffix_of
is_shell_file path =
    contains (codes ".sh" ∷ codes ".bash" ∷ codes ".zsh" ∷ []) (suffix_of (name_of path))
    || contains (codes "install" ∷ codes "postinstall" ∷ []) (name_of path)

-- `loads` is `json.loads`, `none` where it raises.
module _ (loads : Text → Option Json) where
  -- `if file_path.name == "package.json"`
  unfoldable pub package_file_findings : FilePath → Text → Text → Outcome (List ScanFinding)
  unfolding package_findings
  package_file_findings path rel text =
      if name_of path == codes "package.json" then package_findings rel (loads text) else ok []

  -- What the text of a file tells.
  unfoldable pub text_findings : FilePath → Text → Option Text → Outcome (List ScanFinding)
  unfolding secret_findings package_file_findings is_shell_file script_findings workflow_findings
      netlify_findings
  text_findings path rel none = ok []
  text_findings path rel (some text) = do
    scripts ← package_file_findings path rel text
    ok (
        secret_findings rel text secret_regexes
        ++ (scripts
            ++ ((if is_shell_file path
                  then script_findings (codes "suspicious-shell") rel [] text
                      dangerous_script_patterns
                  else [])
                ++ ((if has_part (with_slashes (path_text path)) (codes ".github/workflows/")
                      then workflow_findings rel text
                      else [])
                    ++ netlify_findings path rel text))))

  -- One round of the loop of `scan_path`.
  unfoldable pub file_findings : FilePath → FileEntry → Outcome (List ScanFinding)
  unfolding should_skip relative_text named_findings text_findings read_text
  file_findings root entry = if not entry.is_file || should_skip entry.path then ok [] else (do
    told ← text_findings entry.path (relative_text root entry.path) (read_text entry)
    ok (named_findings entry.path (relative_text root entry.path) ++ told))

  -- The findings of `scan_path`, on the files in the order of `rglob`.
  unfoldable pub scan_files : FilePath → List FileEntry → Outcome (List ScanFinding)
  unfolding file_findings
  scan_files root [] = ok []
  scan_files root (entry ∷ entries) = do
    first ← file_findings root entry
    rest ← scan_files root entries
    ok (first ++ rest)
