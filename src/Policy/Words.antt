-- ===== src/Policy/Words.antt =====
-- `_split_command` of runeguard/policy.py: `shlex.split`, or `str.split` where it raises.
use runeguard.Prelude.{
  ℕ, Text, Bool, true, false, ◌&&◌, ◌||◌, List, [], ◌∷◌, ◌++◌, Option, none, some, ◌==◌, contains,
  if◌then◌else◌, nat_eq, list_eq, white_space,
}

-- The states of the lexer: between words, in a word, in quotes, and behind a backslash. The last
-- one goes back to the word, or to the double quotes where the flag is set.
pub data LexState : Type 0 where
  between : LexState
  in_word : LexState
  quoted : ℕ → LexState
  escaped : Bool → LexState

-- `shlex.shlex.whitespace`
abbrev pub lexer_space : List ℕ
lexer_space = 32 ∷ 9 ∷ 13 ∷ 10 ∷ []

abbrev backslash : ℕ
backslash = 92

-- The tokens that are still to come, with `token` begun. `none` is a `ValueError`: a quotation that
-- is not closed, or nothing behind a backslash.
unfoldable pub lex : LexState → Text → Text → Option (List Text)
lex between token [] = some []
lex in_word token [] = some (token ∷ [])
lex (quoted q) token [] = none
lex (escaped inside) token [] = none
lex between token (c ∷ text) =
    let skip = lex between [] text in
    let escape = lex (escaped false) [] text in
    let quote = lex (quoted c) [] text in
    let word = lex in_word (c ∷ []) text in
    if contains lexer_space c
    then skip
    else if c == backslash
    then escape
    else if c == b'"' || c == 39
    then quote
    else word
lex in_word token (c ∷ text) =
    let emit : Option (List Text) = elim (lex between [] text) [
      | none ↦ none
      | some rest ↦ some (token ∷ rest)
    ] in
    let escape = lex (escaped false) token text in
    let quote = lex (quoted c) token text in
    let word = lex in_word (token ++ (c ∷ [])) text in
    if contains lexer_space c
    then emit
    else if c == b'"' || c == 39
    then quote
    else if c == backslash
    then escape
    else word
lex (quoted q) token (c ∷ text) =
    let close = lex in_word token text in
    let escape = lex (escaped true) token text in
    let stay = lex (quoted q) (token ++ (c ∷ [])) text in
    if c == q then close else if c == backslash && q == b'"' then escape else stay
lex (escaped false) token (c ∷ text) = lex in_word (token ++ (c ∷ [])) text
lex (escaped true) token (c ∷ text) =
    let kept = if c == backslash || c == b'"' then token else token ++ (backslash ∷ []) in
    lex (quoted b'"') (kept ++ (c ∷ [])) text

-- `value.split()`
unfoldable pub split_space : Text → Text → List Text
split_space [] [] = []
split_space (t ∷ token) [] = (t ∷ token) ∷ []
split_space token (c ∷ value) =
    let more = split_space (token ++ (c ∷ [])) value in
    let rest = split_space [] value in
    let done = if token == [] then rest else token ∷ rest in
    if contains white_space c then done else more

unfoldable pub split_command : Text → List Text
unfolding lex split_space
split_command value = elim (lex between [] value) [
  | none ↦ split_space [] value
  | some tokens ↦ tokens
]
