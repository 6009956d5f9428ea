-- ===== src/Policy/Url.antt =====
-- `urllib.parse.urlparse(url).hostname`, as runeguard/policy.py uses it.
use runeguard.Prelude.{
  ℕ, Text, codes, Bool, false, not, ◌&&◌, ◌||◌, List, [], ◌∷◌, ◌++◌, ◌==◌, contains, all, leb,
  lower, starts_with, drop, if◌then◌else◌, nat_eq, list_eq,
}
use runeguard.Outcome.{Outcome, ok, raised}

-- The text before the first character of a set, and the text from there on.
unfoldable pub before : List ℕ → Text → Text
before stops [] = []
before stops (c ∷ text) = let rest = before stops text in if contains stops c then [] else c ∷ rest

unfoldable pub from_first : List ℕ → Text → Text
from_first stops [] = []
from_first stops (c ∷ text) =
    let rest = from_first stops text in if contains stops c then c ∷ text else rest

-- `text.rpartition(mark)[2]`
unfoldable pub behind_last : ℕ → Text → Text
behind_last mark [] = []
behind_last mark (c ∷ text) =
    let rest = behind_last mark text in
    if contains text mark then rest else if c == mark then text else c ∷ text

is_letter : ℕ → Bool
is_letter c = leb b'a' c && leb c b'z' || leb b'A' c && leb c b'Z'

-- `urllib.parse.scheme_chars`
is_scheme_char : ℕ → Bool
unfolding is_letter
is_scheme_char c = is_letter c || leb b'0' c && leb c b'9' || contains (codes "+-.") c

begins_scheme : Text → Bool
unfolding is_letter
begins_scheme [] = false
begins_scheme (c ∷ scheme) = is_letter c

-- The url without its scheme.
unfoldable pub drop_scheme : Text → Text
unfolding begins_scheme is_scheme_char before from_first
drop_scheme url =
    let scheme = before (b':' ∷ []) url in
    if contains url b':' && begins_scheme scheme && all is_scheme_char scheme
    then drop 1 (from_first (b':' ∷ []) url)
    else url

-- `lstrip` of the control characters and the space, and no tab or line break anywhere.
drop_controls : Text → Text
drop_controls [] = []
drop_controls (c ∷ url) = let rest = drop_controls url in if leb c 32 then rest else c ∷ url

without_breaks : Text → Text
without_breaks [] = []
without_breaks (c ∷ url) =
    let rest = without_breaks url in if contains (9 ∷ 10 ∷ 13 ∷ []) c then rest else c ∷ rest

unfoldable pub netloc : Text → Text
unfolding drop_scheme drop_controls without_breaks before
netloc url =
    let rest = drop_scheme (without_breaks (drop_controls url)) in
    if starts_with rest (codes "//") then before (codes "/?#") (drop 2 rest) else []

-- The host of a network location, in lower case up to a zone.
unfoldable pub host_of : Text → Text
unfolding before from_first behind_last
host_of location =
    let info = behind_last b'@' location in
    let host =
      if contains info b'['
      then before (b']' ∷ []) (drop 1 (from_first (b'[' ∷ []) info))
      else before (b':' ∷ []) info in
    lower (before (b'%' ∷ []) host) ++ from_first (b'%' ∷ []) host

-- `urlparse(url).hostname or ""`. A bracket without its partner is a `ValueError`.
unfoldable pub hostname : Text → Outcome Text
unfolding netloc host_of
hostname url =
    let location = netloc url in
    let opened = contains location b'[' in
    let closed = contains location b']' in
    if opened && not closed || closed && not opened then raised else ok (host_of location)
