-- ===== src/Scan/Patterns.antt =====
-- The patterns of runeguard/scan.py.
use runeguard.Prelude.{
  ℕ, Text, codes, Bool, true, not, ◌||◌, List, [], ◌∷◌, ◌++◌, ◌==◌, contains, lower_code, list_eq,
  nat_eq,
}
use runeguard.Regex.{
  Regex, seq, alt, one, many, few, boundary, literal, times, at_least, one_of, among, is_alnum,
  is_digit, is_space, is_upper, is_word,
}

abbrev key_character : ℕ → Bool
key_character c = is_word c || c == b'-'

abbrev capital_or_digit : ℕ → Bool
capital_or_digit c = is_upper c || is_digit c

abbrev key_block : Text → Regex
key_block word =
    seq (literal (codes "-----" ++ (word ++ codes " ")))
      (seq (many (one (λ c. is_upper c || c == 32))) (literal (codes "PRIVATE KEY-----")))

-- `SECRET_REGEXES`
abbrev pub secret_regexes : List (Text × Regex)
secret_regexes =
    (
      codes "GitHub token",
      seq (literal (codes "gh")) (
          seq (one (among (codes "pousr")))
            (seq (literal (codes "_")) (at_least 20 (one is_word)))),
    )
    ∷ (codes "OpenAI API key", seq (literal (codes "sk-")) (at_least 20 (one key_character)))
    ∷ (codes "Anthropic API key", seq (literal (codes "sk-ant-")) (at_least 20 (one key_character)))
    ∷ (
      codes "Gemini/Google API key",
      seq (literal (codes "AIza")) (at_least 30 (one key_character)),
    )
    ∷ (
      codes "Stripe key",
      seq (one_of (literal (codes "rk")) (literal (codes "sk") ∷ literal (codes "pk") ∷ [])) (
          seq (literal (codes "_")) (
            seq (one_of (literal (codes "live")) (literal (codes "test") ∷ []))
              (seq (literal (codes "_")) (at_least 16 (one is_alnum))))),
    )
    ∷ (
      codes "AWS access key",
      seq (alt (literal (codes "AKIA")) (literal (codes "ASIA"))) (times 16 (one capital_or_digit)),
    )
    ∷ (
      codes "Private key block",
      seq (key_block (codes "BEGIN")) (seq (few (one (λ c. true))) (key_block (codes "END"))),
    )
    ∷ []

abbrev between_commands : ℕ → Bool
between_commands c = not (contains (codes "\n|;") c)

abbrev whole_word : Text → Regex
whole_word word = seq boundary (seq (literal word) boundary)

-- The text in any case (`re.I`), of letters of ASCII.
abbrev any_case : Text → Regex
any_case [] = Regex.empty
any_case (c ∷ text) = seq (one (λ x. lower_code x == lower_code c)) (any_case text)

abbrev pipe_into : Regex → Regex
pipe_into program =
    seq (many (one between_commands))
      (seq (literal (codes "|")) (seq (many (one is_space)) (seq program boundary)))

-- `DANGEROUS_SCRIPT_PATTERNS`
abbrev pub dangerous_script_patterns : List (Text × Regex)
dangerous_script_patterns =
    (
      codes "curl pipe shell",
      seq boundary (
          seq (alt (literal (codes "curl")) (literal (codes "wget")))
            (seq boundary (pipe_into (alt (literal (codes "sh")) (literal (codes "bash")))))),
    )
    ∷ (
      codes "rm -rf",
      seq boundary (
          seq (literal (codes "rm"))
            (seq (at_least 1 (one is_space)) (seq (literal (codes "-rf")) boundary))),
    )
    ∷ (codes "scp", whole_word (codes "scp"))
    ∷ (codes "netcat", alt (whole_word (codes "nc")) (whole_word (codes "netcat")))
    ∷ (
      codes "secret exfiltration",
      seq
          (one_of (any_case (codes "cat"))
            (any_case (codes "printenv") ∷ any_case (codes "env") ∷ []))
          (seq (many (one between_commands)) (
            seq
              (one_of (any_case (codes ".env")) (
                any_case (codes "SECRET") ∷ any_case (codes "TOKEN") ∷ any_case (codes "KEY") ∷ []))
              (pipe_into (
                one_of (any_case (codes "curl"))
                  (any_case (codes "wget") ∷ any_case (codes "nc") ∷ []))))),
    )
    ∷ []

abbrev pub mcp_config_names : List Text
mcp_config_names =
    codes "mcp.json"
    ∷ codes "mcp.config.json"
    ∷ codes ".mcp.json"
    ∷ codes "claude_desktop_config.json"
    ∷ []
