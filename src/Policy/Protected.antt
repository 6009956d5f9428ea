-- ===== src/Policy/Protected.antt =====
-- The tests of paths in runeguard/policy.py.
use runeguard.Prelude.{
  ◌-◌, Text, codes, Bool, false, not, ◌||◌, ◌&&◌, List, [], ◌∷◌, ◌++◌, ◌==◌, any, take, drop,
  length, starts_with, ends_with, has_part, rstrip, ltb, if◌then◌else◌, list_eq, nat_eq,
}
use runeguard.Policy.Settings.{Policy}
use runeguard.Policy.Glob.{fnmatch}
use runeguard.Policy.FilePath.{
  FilePath, System, to_path, parts, path_text, name_of, is_relative_to, same_path,
}

unfoldable pub strip_current_dir : Text → Text
strip_current_dir value =
    if value == codes "."
    then value
    else if starts_with value (codes "./")
    then drop 2 value
    else value

-- `value[:-3]`
drop_last3 : Text → Text
drop_last3 value = take (length value - 3) value

-- `candidate == prefix or candidate.startswith(f"{prefix}/")`
unfoldable pub at_or_below : Text → Text → Bool
at_or_below candidate prefix = candidate == prefix || starts_with candidate (prefix ++ codes "/")

-- `pattern[:-3].rstrip("/")`
unfoldable pub subtree_prefix : Text → Text
unfolding drop_last3
subtree_prefix pattern = rstrip (b'/' ∷ []) (drop_last3 pattern)

unfoldable pub matches_secret_subtree : Text → Text → Bool
unfolding at_or_below subtree_prefix
matches_secret_subtree candidate pattern =
    let prefix = subtree_prefix pattern in
    ends_with pattern (codes "/**")
    && (at_or_below candidate prefix || has_part candidate (codes "/" ++ (prefix ++ codes "/")))

-- The pattern after `~/` is cut off and `**` is added, and whether it was relative to the home.
unfoldable pub home_relative : Text → Bool
home_relative pattern = starts_with (strip_current_dir pattern) (codes "~/")

unfoldable pub normalized_pattern : Text → Text
normalized_pattern pattern =
    let stripped = strip_current_dir pattern in
    let local = if home_relative pattern then drop 2 stripped else stripped in
    if ends_with local (codes "/") then local ++ codes "**" else local

-- The inner loop: one candidate against one pattern.
unfoldable pub matches_pattern : Text → Text → Bool
matches_pattern pattern candidate =
    fnmatch candidate pattern
    || ends_with pattern (codes "/**") && at_or_below candidate (subtree_prefix pattern)

-- `directory_name in parts[:-1]`
unfoldable pub contains_directory : List Text → Text → Bool
contains_directory [] directory = false
contains_directory (part ∷ []) directory = false
contains_directory (part ∷ next ∷ rest) directory =
    directory == part || contains_directory (next ∷ rest) directory

unfoldable pub is_filename_only : FilePath → Bool
is_filename_only path = not path.is_absolute && length (parts path) == 1

-- `candidate_parts[-len(protected_parts):] == protected_parts`, both long enough.
unfoldable pub ends_with_parts : List Text → List Text → Bool
ends_with_parts candidate protected =
    if protected == [] || ltb (length candidate) (length protected)
    then false
    else drop (length candidate - length protected) candidate == protected

module _ (system : System) where
  -- `normalized`; `os.sep` is `/`.
  unfoldable pub normalized : Text → Text
  normalized path = strip_current_dir (path_text (to_path (system.expanduser path)))

  -- One pattern of the outer loop, against both candidates.
  unfoldable pub denied_by : Text → Text → Bool
  unfolding home_relative normalized_pattern matches_pattern matches_secret_subtree
  denied_by normal pattern =
      let local = normalized_pattern pattern in
      home_relative pattern && matches_secret_subtree normal local
      || matches_pattern local normal
      || matches_pattern local (name_of (to_path normal))

  unfoldable pub is_denied_workspace_path : Policy → Text → Bool
  unfolding normalized denied_by
  is_denied_workspace_path policy path = any (denied_by (normalized path)) policy.protected_paths

  unfoldable pub normalize_path : Text → FilePath
  normalize_path value = system.resolve (to_path (system.expanduser value))

  -- One round of the loop of `_is_protected_path`.
  unfoldable pub protects : FilePath → Text → Bool
  unfolding normalize_path
  protects candidate protected =
      let raw = to_path (system.expanduser protected) in
      let protected_path = normalize_path protected in
      let is_directory = ends_with protected (codes "/") in
      same_path candidate protected_path
      || is_directory
        && (if raw.is_absolute
            then is_relative_to candidate protected_path
            else contains_directory (parts candidate) (name_of raw))
      || is_filename_only raw && name_of candidate == name_of raw
      || not raw.is_absolute && ends_with_parts (parts candidate) (parts raw)

  unfoldable pub is_protected_path : Policy → Text → Bool
  unfolding is_denied_workspace_path protects normalize_path
  is_protected_path policy path =
      is_denied_workspace_path policy path
      || any (protects (normalize_path path)) policy.protected_paths

  -- Relative to the allowed patterns, if there are any.
  unfoldable pub is_allowed_workspace_path : Policy → Text → Bool
  is_allowed_workspace_path policy path =
      policy.allowed_paths == []
      || any
          (λ pattern.
            fnmatch (strip_current_dir (path_text (to_path path))) (strip_current_dir pattern))
          policy.allowed_paths
