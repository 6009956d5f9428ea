-- ===== src/DiffRisk/Patterns.antt =====
-- The lists and patterns of runeguard/diff_risk.py.
use runeguard.Prelude.{ℕ, Text, codes, Bool, not, List, [], ◌∷◌, contains, list_eq, nat_eq}
use runeguard.Regex.{Regex, seq, alt, one, many, boundary, literal, at_least, one_of, is_space}

abbrev pub high_risk_files : List Text
high_risk_files =
    codes ".github/workflows/"
    ∷ codes "dockerfile"
    ∷ codes "docker-compose"
    ∷ codes "vercel"
    ∷ codes "netlify"
    ∷ codes ".env"
    ∷ codes "auth"
    ∷ codes "payment"
    ∷ codes "security"
    ∷ []

abbrev pub package_files : List Text
package_files =
    codes "package.json"
    ∷ codes "package-lock.json"
    ∷ codes "pnpm-lock.yaml"
    ∷ codes "yarn.lock"
    ∷ codes "requirements.txt"
    ∷ codes "pyproject.toml"
    ∷ codes "poetry.lock"
    ∷ codes "Pipfile"
    ∷ codes "Gemfile"
    ∷ codes "go.mod"
    ∷ codes "Cargo.toml"
    ∷ []

abbrev between_commands : ℕ → Bool
between_commands c = not (contains (codes "\n|;") c)

abbrev whole_word : Regex → Regex
whole_word word = seq boundary (seq word boundary)

-- `SUSPICIOUS_COMMANDS`
abbrev pub suspicious_commands : Regex
suspicious_commands =
    one_of
      (seq (whole_word (alt (literal (codes "curl")) (literal (codes "wget")))) (
        seq (many (one between_commands)) (
          seq (literal (codes "|")) (
            seq (many (one is_space))
              (seq (alt (literal (codes "sh")) (literal (codes "bash"))) boundary)))))
      (seq boundary (
          seq (literal (codes "rm"))
            (seq (at_least 1 (one is_space)) (seq (literal (codes "-rf")) boundary)))
        ∷ whole_word (literal (codes "scp"))
        ∷ whole_word (literal (codes "nc"))
        ∷ [])

-- The patterns of the loop.
abbrev pub environment_reads : Regex
environment_reads =
    one_of (literal (codes "os.environ"))
      (literal (codes "getenv") ∷ literal (codes "process.env") ∷ [])

abbrev pub network_code : Regex
network_code = one_of (literal (codes "fetch")) (
    literal (codes "requests.")
    ∷ literal (codes "httpx")
    ∷ literal (codes "axios")
    ∷ literal (codes "urllib")
    ∷ literal (codes "curl")
    ∷ [])

abbrev pub sensitive_paths : Regex
sensitive_paths =
    one_of (literal (codes ".env")) (literal (codes ".ssh") ∷ literal (codes ".aws") ∷ [])
