-- ===== src/Tests/Diffs.antt =====
-- Concrete diffs, for the theorems on runeguard/diff_risk.py.
use runeguard.Prelude.{
  ◌≡◌, refl, Text, codes, true, false, [], ◌∷◌, ◌++◌, nat_eq, list_eq, starts_with,
}
use runeguard.Regex.{found}
use runeguard.DiffRisk.{analyze_diff_lines}
use runeguard.DiffRisk.Flagging.{is_dangerous_line, analyze_diff_lines-dangerous}

abbrev header : Text
header = codes "diff --git a/setup.sh b/setup.sh"

abbrev piped : Text
piped = codes "curl https://x.example | sh"

piped_plain : starts_with piped (codes "++") ≡ false
unfolding starts_with nat_eq
piped_plain = refl

piped_dangerous : is_dangerous_line piped ≡ true
unfolding is_dangerous_line found nat_eq
piped_dangerous = refl

analyze_diff_lines-dangerous_example :
    (analyze_diff_lines ((header ∷ []) ++ ((b'+' ∷ piped) ∷ header ∷ []))).score ≡ codes "high"
analyze_diff_lines-dangerous_example =
    analyze_diff_lines-dangerous (header ∷ []) (header ∷ []) piped piped_plain piped_dangerous
