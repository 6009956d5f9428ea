-- ===== src/Regex.antt =====
-- Python's `re`, as far as the program uses it: a backtracking matcher, `search`, `findall` and
-- `sub`. A repetition tries the longer match first, an alternative the one on the left.
use runeguard.Prelude.{
  ℕ, zero, suc, ◌+◌, ◌-◌, Text, Bool, true, false, not, ◌&&◌, ◌||◌, List, [], ◌∷◌, ◌++◌, length,
  take, contains, leb, ltb, ◌==◌, nat_eq, list_eq, if◌then◌else◌, Option, none, some,
}

pub data Regex : Type 0 where
  empty : Regex
  -- One character of a class.
  one : (ℕ → Bool) → Regex
  seq : Regex → Regex → Regex
  alt : Regex → Regex → Regex
  -- `a*` and `a*?`; `a` takes at least one character.
  many : Regex → Regex
  few : Regex → Regex
  -- `\b`, `(?<!…)` and `(?!…)` for a class.
  boundary : Regex
  not_after : (ℕ → Bool) → Regex
  not_before : (ℕ → Bool) → Regex

abbrev pub is_digit : ℕ → Bool
is_digit c = leb b'0' c && leb c b'9'

abbrev pub is_upper : ℕ → Bool
is_upper c = leb b'A' c && leb c b'Z'

abbrev pub is_letter : ℕ → Bool
is_letter c = is_upper c || (leb b'a' c && leb c b'z')

abbrev pub is_alnum : ℕ → Bool
is_alnum c = is_letter c || is_digit c

-- `\w` on ASCII.
abbrev pub is_word : ℕ → Bool
is_word c = is_alnum c || c == b'_'

-- `\s` on ASCII.
abbrev pub is_space : ℕ → Bool
is_space c = c == 32 || (leb 9 c && leb c 13) || (leb 28 c && leb c 31)

abbrev pub among : List ℕ → ℕ → Bool
among chars c = contains chars c

-- The text itself.
abbrev pub literal : Text → Regex
literal [] = empty
literal (c ∷ text) = seq (one (λ x. x == c)) (literal text)

-- `a{n}`
abbrev pub times : ℕ → Regex → Regex
times zero a = empty
times (suc n) a = seq a (times n a)

-- `a{n}`
abbrev pub at_least : ℕ → Regex → Regex
at_least n a = seq (times n a) (many a)

-- `a|b|…`, of at least one.
abbrev pub one_of : Regex → List Regex → Regex
one_of a [] = a
one_of a (b ∷ bs) = alt a (one_of b bs)

abbrev pub fails : (ℕ → Bool) → Option ℕ → Bool
fails class none = true
fails class (some c) = not (class c)

abbrev pub head_of_text : Text → Option ℕ
head_of_text [] = none
head_of_text (c ∷ text) = some c

-- Exactly one side is a word character.
abbrev pub at_boundary : Option ℕ → Option ℕ → Bool
at_boundary before after =
    (fails is_word before && not (fails is_word after))
    || (not (fails is_word before) && fails is_word after)

-- `accept fuel a before text k`: the rest behind the first way to match `a` that `k` accepts. The
-- fuel bounds the rounds of each repetition.
unfoldable pub accept : ℕ → Regex → Option ℕ → Text → (Option ℕ → Text → Option Text) → Option Text
accept fuel empty before text k = k before text
accept fuel (one class) before [] k = none
accept fuel (one class) before (c ∷ text) k = if class c then k (some c) text else none
accept fuel (seq a b) before text k =
    accept fuel a before text (λ before' text'. accept fuel b before' text' k)
accept fuel (alt a b) before text k =
    let first = accept fuel a before text k in
    let second = accept fuel b before text k in elim first [ some rest ↦ some rest | none ↦ second ]
accept zero (many a) before text k = none
accept (suc fuel) (many a) before text k =
    let longer =
      accept (suc fuel) a before text (λ before' text'. accept fuel (many a) before' text' k) in
    elim longer [ some rest ↦ some rest | none ↦ k before text ]
accept zero (few a) before text k = none
accept (suc fuel) (few a) before text k =
    let longer =
      accept (suc fuel) a before text (λ before' text'. accept fuel (few a) before' text' k) in
    elim (k before text) [ some rest ↦ some rest | none ↦ longer ]
accept fuel boundary before text k =
    if at_boundary before (head_of_text text) then k before text else none
accept fuel (not_after class) before text k = if fails class before then k before text else none
accept fuel (not_before class) before text k =
    if fails class (head_of_text text) then k before text else none

-- The rest behind a match that starts here.
unfoldable pub match_at : Regex → Option ℕ → Text → Option Text
unfolding accept
match_at a before text = accept (length text + 1) a before text (λ _ rest. some rest)

-- `a.search(text)` finds a match, `before` being the character in front of the text.
unfoldable pub search_from : Regex → Option ℕ → Text → Bool
unfolding match_at
search_from a before [] = elim (match_at a before []) [ some _ ↦ true | none ↦ false ]
search_from a before (c ∷ text) =
    let later = search_from a (some c) text in
    elim (match_at a before (c ∷ text)) [ some _ ↦ true | none ↦ later ]

unfoldable pub found : Regex → Text → Bool
unfolding search_from
found a text = search_from a none text

abbrev pub last_of : Option ℕ → Text → Option ℕ
last_of before [] = before
last_of before (c ∷ text) = last_of (some c) text

-- A text cut into the matches from left to right and the characters between them.
pub data Piece : Type 0 where
  plain : ℕ → Piece
  matched : Text → Piece

-- One character or one match is taken off the front.
unfoldable pub pieces : ℕ → Regex → Option ℕ → Text → List Piece
unfolding match_at
pieces zero a before text = []
pieces (suc fuel) a before [] = []
pieces (suc fuel) a before (c ∷ text) =
    let skipped = plain c ∷ pieces fuel a (some c) text in
    elim (match_at a before (c ∷ text)) [
      | none ↦ skipped
      | some rest ↦
          let hit = take (length (c ∷ text) - length rest) (c ∷ text) in
          let jumped = matched hit ∷ pieces fuel a (last_of before hit) rest in
          if ltb (length rest) (length (c ∷ text)) then jumped else skipped
    ]

unfoldable pub matches_of : List Piece → List Text
matches_of [] = []
matches_of (plain c ∷ rest) = matches_of rest
matches_of (matched hit ∷ rest) = hit ∷ matches_of rest

unfoldable pub replaced : (Text → Text) → List Piece → Text
replaced f [] = []
replaced f (plain c ∷ rest) = c ∷ replaced f rest
replaced f (matched hit ∷ rest) = f hit ++ replaced f rest

-- `a.findall(text)`; the fuel is the length of the text.
unfoldable pub findall : Regex → Text → List Text
unfolding pieces matches_of
findall a text = matches_of (pieces (length text) a none text)

-- `a.sub(f, text)`
unfoldable pub sub : (Text → Text) → Regex → Text → Text
unfolding pieces replaced
sub f a text = replaced f (pieces (length text) a none text)
