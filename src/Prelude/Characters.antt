-- ===== src/Prelude/Characters.antt =====
-- Python strings as lists of code points, and the `str` methods that the program calls.
use Prim.Native.Nat.{ℕ, ◌+◌}
use Prim.Native.Char.{code}
use Prim.Native.String.{String}
use mathlib.Core.Bool.{Bool, true, false, ◌&&◌, ◌||◌}
use mathlib.Core.List.{List, [], ◌∷◌, map, reverse}
use runeguard.Prelude.Equality.{◌==◌, contains, nat_eq, if◌then◌else◌}
use runeguard.Prelude.Tests.{leb}

abbrev pub Text : Type 0
Text = List ℕ

-- The code points of a literal. `String` has its own `[]` and `∷`.
abbrev pub codes : String → Text
codes String.[] = []
codes (String.◌∷◌ c s) = code c ∷ codes s

-- `value.startswith(prefix)`
unfoldable pub starts_with : Text → Text → Bool
starts_with value [] = true
starts_with [] (p ∷ prefix) = false
starts_with (c ∷ value) (p ∷ prefix) = c == p && starts_with value prefix

-- `value.endswith(suffix)`
unfoldable pub ends_with : Text → Text → Bool
unfolding starts_with
ends_with value suffix = starts_with (reverse value) (reverse suffix)

-- `part in value`
unfoldable pub has_part : Text → Text → Bool
unfolding starts_with
has_part [] part = starts_with [] part
has_part (c ∷ value) part = starts_with (c ∷ value) part || has_part value part

-- `value.lstrip(chars)`
unfoldable pub lstrip : List ℕ → Text → Text
lstrip chars [] = []
lstrip chars (c ∷ value) =
    let rest = lstrip chars value in if contains chars c then rest else c ∷ value

-- `value.rstrip(chars)`
unfoldable pub rstrip : List ℕ → Text → Text
unfolding lstrip
rstrip chars value = reverse (lstrip chars (reverse value))

-- `value.lower()` on ASCII; a code point above 127 is left as it is.
unfoldable pub lower_code : ℕ → ℕ
lower_code c = if leb b'A' c && leb c b'Z' then c + 32 else c

unfoldable pub lower : Text → Text
unfolding lower_code
lower = map lower_code

-- `value.strip()`; the white space of ASCII and Latin-1.
abbrev pub white_space : List ℕ
white_space = 9 ∷ 10 ∷ 11 ∷ 12 ∷ 13 ∷ 28 ∷ 29 ∷ 30 ∷ 31 ∷ 32 ∷ 133 ∷ 160 ∷ []

unfoldable pub strip : Text → Text
unfolding lstrip rstrip
strip value = lstrip white_space (rstrip white_space value)
