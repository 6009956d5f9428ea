-- ===== src/Policy/FilePath.antt =====
-- `pathlib.Path` on a POSIX system, as far as runeguard/policy.py uses it. What depends on the
-- machine, the home directory and the symbolic links, is the argument `System`.
use runeguard.Prelude.{
  Text, codes, Bool, false, not, ◌&&◌, ◌||◌, List, [], ◌∷◌, ◌++◌, ◌==◌, take, length, if◌then◌else◌,
  nat_eq, list_eq,
}

pub record FilePath : Type 0 where
  pub is_absolute : Bool
  -- The root of an absolute path is `//`.
  pub is_double : Bool
  pub names : List Text

pub record System : Type 0 where
  -- `os.path.expanduser(path)`
  pub expanduser : Text → Text
  -- `path.resolve(strict=False)`
  pub resolve : FilePath → FilePath

-- The names between the slashes; an empty name and `.` are dropped.
unfoldable pub split_names : Text → Text → List Text
split_names name [] = if name == [] || name == codes "." then [] else name ∷ []
split_names name (c ∷ path) =
    let more = split_names (name ++ (c ∷ [])) path in
    let rest = split_names [] path in
    let done = if name == [] || name == codes "." then rest else name ∷ rest in
    if c == b'/' then done else more

begins_root : Text → Bool
begins_root [] = false
begins_root (c ∷ path) = c == b'/'

-- Two slashes, and not three.
begins_double : Text → Bool
begins_double (c ∷ d ∷ path) = c == b'/' && d == b'/' && not (begins_root path)
begins_double _ = false

root_of : FilePath → Text
root_of path = if path.is_double then codes "//" else codes "/"

-- `Path(path)`
unfoldable pub to_path : Text → FilePath
unfolding split_names begins_root begins_double
to_path path = record {
  is_absolute = begins_root path;
  is_double = begins_double path;
  names = split_names [] path;
}

-- `path.parts`
unfoldable pub parts : FilePath → List Text
unfolding root_of
parts path = if path.is_absolute then root_of path ∷ path.names else path.names

join_names : List Text → Text
join_names [] = []
join_names (name ∷ []) = name
join_names (name ∷ next ∷ names) = name ++ (b'/' ∷ join_names (next ∷ names))

-- `str(path)`
unfoldable pub path_text : FilePath → Text
unfolding join_names root_of
path_text path =
    if path.is_absolute
    then root_of path ++ join_names path.names
    else if path.names == []
    then codes "."
    else join_names path.names

last_name : List Text → Text
last_name [] = []
last_name (name ∷ []) = name
last_name (name ∷ next ∷ names) = last_name (next ∷ names)

-- `path.name`
unfoldable pub name_of : FilePath → Text
unfolding last_name
name_of path = last_name path.names

-- `path.relative_to(parent)` does not raise.
unfoldable pub is_relative_to : FilePath → FilePath → Bool
unfolding parts
is_relative_to path parent = take (length (parts parent)) (parts path) == parts parent

-- `a == b`
unfoldable pub same_path : FilePath → FilePath → Bool
unfolding parts
same_path a b = parts a == parts b
