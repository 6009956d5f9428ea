-- ===== src/Policy/Glob.antt =====
-- `fnmatch.fnmatch` as runeguard/policy.py and runeguard/core/sandbox.py use it, on a system where
-- paths keep their case.
use runeguard.Prelude.{
  ℕ, zero, suc, Text, Bool, true, false, not, ◌&&◌, ◌||◌, List, [], ◌∷◌, Option, none, some, ◌==◌,
  if◌then◌else◌, nat_eq, leb, any, length,
}

pub data GlobItem : Type 0 where
  star : GlobItem
  any_one : GlobItem
  literal : ℕ → GlobItem
  -- The flag is set where the class is negated; a span is its first and last character.
  one_of : Bool → List (ℕ × ℕ) → GlobItem

-- The characters of a class. A dash between two characters makes a span.
unfoldable pub spans : Text → List (ℕ × ℕ)
spans [] = []
spans (a ∷ d ∷ b ∷ rest) =
    let range = spans rest in
    let single = spans (d ∷ b ∷ rest) in if d == b'-' then (a, b) ∷ range else (a, a) ∷ single
spans (a ∷ rest) = (a, a) ∷ spans rest

-- The text before the first `]`, and the text behind it.
unfoldable pub up_to_bracket : Text → Option (Text × Text)
up_to_bracket [] = none
up_to_bracket (c ∷ pattern) =
    let more : Option (Text × Text) = elim (up_to_bracket pattern) [
      | none ↦ none
      | some (stuff, rest) ↦ some (c ∷ stuff, rest)
    ] in
    if c == b']' then some ([], pattern) else more

-- A `]` that stands first belongs to the class.
class_body : Text → Option (Text × Text)
class_body [] = none
class_body (c ∷ pattern) = elim (up_to_bracket pattern) [
  | none ↦ if c == b']' then none else up_to_bracket (c ∷ pattern)
  | some (stuff, rest) ↦ if c == b']' then some (c ∷ stuff, rest) else up_to_bracket (c ∷ pattern)
]

negated_class : Text → Option (GlobItem × Text)
unfolding class_body
negated_class pattern = elim (class_body pattern) [
  | none ↦ none
  | some (stuff, rest) ↦ some (one_of true (spans stuff), rest)
]

-- What stands behind a `[`: the class, or nothing where no `]` closes it.
unfoldable pub bracket : Text → Option (GlobItem × Text)
unfolding class_body negated_class
bracket [] = none
bracket (c ∷ pattern) =
    let plain : Option (GlobItem × Text) = elim (class_body (c ∷ pattern)) [
      | none ↦ none
      | some (stuff, rest) ↦ some (one_of false (spans stuff), rest)
    ] in
    if c == b'!' then negated_class pattern else plain

-- The fuel is the length of the pattern: each round drops at least one character.
unfoldable pub glob_items : ℕ → Text → List GlobItem
unfolding bracket
glob_items fuel [] = []
glob_items zero (c ∷ pattern) = []
glob_items (suc fuel) (c ∷ pattern) =
    let rest = glob_items fuel pattern in
    let class : List GlobItem = elim (bracket pattern) [
      | none ↦ literal c ∷ rest
      | some (item, behind) ↦ item ∷ glob_items fuel behind
    ] in
    if c == b'*'
    then star ∷ rest
    else if c == b'?'
    then any_one ∷ rest
    else if c == b'['
    then class
    else literal c ∷ rest

unfoldable pub accepts : GlobItem → ℕ → Bool
accepts star c = true
accepts any_one c = true
accepts (literal d) c = c == d
accepts (one_of negated ranges) c =
    let inside = any (λ (r : ℕ × ℕ). leb r.0 c && leb c r.1) ranges in
    if negated then not inside else inside

-- Some tail of the text satisfies the test.
any_tail : (Text → Bool) → Text → Bool
any_tail test [] = test []
any_tail test (c ∷ text) = test (c ∷ text) || any_tail test text

unfoldable pub glob_match : List GlobItem → Text → Bool
unfolding any_tail
glob_match [] [] = true
glob_match [] (c ∷ text) = false
glob_match (star ∷ items) text = any_tail (glob_match items) text
glob_match (item ∷ items) [] = false
glob_match (item ∷ items) (c ∷ text) = accepts item c && glob_match items text

-- `fnmatch(name, pattern)`
unfoldable pub fnmatch : Text → Text → Bool
unfolding glob_items glob_match accepts spans up_to_bracket
fnmatch name pattern = glob_match (glob_items (length pattern) pattern) name
