-- ===== src/Policy/Commands.antt =====
-- `_matches_command_pattern` of runeguard/policy.py.
use runeguard.Prelude.{
  Text, Bool, false, ◌||◌, List, [], ◌∷◌, ◌==◌, contains, take, length, Option, none, some, list_eq,
  nat_eq,
}
use runeguard.Policy.Words.{split_command}

-- `list(argv) if argv else self._split_command(command)`
unfoldable pub command_tokens : Text → Option (List Text) → List Text
command_tokens command none = split_command command
command_tokens command (some []) = split_command command
command_tokens command (some (word ∷ argv)) = word ∷ argv

-- Some slice of the tokens, as long as the pattern, equals it.
unfoldable pub has_window : List Text → List Text → Bool
has_window [] blocked = blocked == []
has_window (token ∷ tokens) blocked =
    take (length blocked) (token ∷ tokens) == blocked || has_window tokens blocked

unfoldable pub window_of : List Text → List Text → Bool
unfolding has_window
window_of [] tokens = false
window_of (word ∷ []) tokens = contains tokens word
window_of (word ∷ next ∷ words) tokens = has_window tokens (word ∷ next ∷ words)

unfoldable pub matches_command_pattern : Text → Text → Option (List Text) → Bool
unfolding window_of command_tokens
matches_command_pattern blocked command argv =
    window_of (split_command blocked) (command_tokens command argv)
