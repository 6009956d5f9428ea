-- ===== src/Docker/Workspace.antt =====
-- The filtered copy of the workspace of runeguard/core/docker.py.
use runeguard.Prelude.{
  Text, codes, Bool, not, ◌&&◌, ◌||◌, List, [], ◌∷◌, ◌==◌, list_eq, nat_eq, if◌then◌else◌, Option,
  none, some, lstrip,
}
use runeguard.Policy.Settings.{Policy}
use runeguard.Policy.FilePath.{FilePath, System, to_path, path_text, is_relative_to, same_path}
use runeguard.Policy.Protected.{is_denied_workspace_path, is_allowed_workspace_path}
use runeguard.Effects.{Action, pure, ◌>>=◌, ◌>>◌}
use runeguard.Docker.{DockerSandboxConfig, Host, child, parent, below, relative_to, workspace}

unfoldable pub passes_filter : System → Policy → FilePath → Bool
passes_filter system policy relative =
    not (is_denied_workspace_path system policy (path_text relative))
    && is_allowed_workspace_path system policy (path_text relative)

unfoldable pub place : {W : Type 0} → Host W → FilePath → FilePath → FilePath → Action W (Unit {0})
unfolding child parent
place host destination source relative w =
    (if host.is_dir w source then host.mkdir (child destination relative) else (do
      host.mkdir (parent (child destination relative))
      host.copy source (child destination relative)))
      w

module _ {W : Type 0} (host : Host W) (system : System) (policy : Policy)
    (config : DockerSandboxConfig) where
  -- The destination of the copy, or below it.
  unfoldable pub is_own_copy : W → FilePath → FilePath → Bool
  is_own_copy w destination source =
      same_path (host.resolve w source) destination
      || is_relative_to (host.resolve w source) destination

  -- One round of the loop of `_copy_filtered_workspace`.
  unfoldable pub copy_entry : FilePath → FilePath → FilePath → Action W (Unit {0})
  unfolding is_own_copy relative_to passes_filter place
  copy_entry above destination source w =
      (if is_own_copy w destination source then pure tt else (do
        relative ← relative_to source above
        (if passes_filter system policy relative
            then place host destination source relative
            else pure tt)))
        w

  unfoldable pub copy_entries : FilePath → FilePath → List FilePath → Action W (Unit {0})
  unfolding copy_entry
  copy_entries above destination [] = pure tt
  copy_entries above destination (source ∷ sources) = do
    copy_entry above destination source
    copy_entries above destination sources

  -- An absolute path as one below the workspace, `none` where it is elsewhere.
  unfoldable pub inside : FilePath → FilePath → W → Option FilePath
  inside raw_path above w =
      if is_relative_to (host.resolve w raw_path) above
      then some (below (host.resolve w raw_path) above)
      else none

  -- `relative` in `_create_writable_mount_targets`, `none` where the loop goes on.
  unfoldable pub mount_target : FilePath → Action W (Option FilePath)
  unfolding workspace inside
  mount_target raw_path =
      if raw_path.is_absolute
      then (workspace host policy config >>= λ above w. pure (inside raw_path above w) w)
      else pure (some raw_path)

  unfoldable pub make_target : FilePath → Option FilePath → Action W (Unit {0})
  unfolding child
  make_target destination none = pure tt
  make_target destination (some relative) =
      let text = lstrip (codes "./") (path_text relative) in
      if text == [] || text == codes "."
      then pure tt
      else if is_denied_workspace_path system policy text
      then pure tt
      else host.mkdir (child destination relative)

  -- `_create_writable_mount_targets`
  unfoldable pub create_targets : FilePath → List Text → Action W (Unit {0})
  unfolding mount_target make_target
  create_targets destination [] = pure tt
  create_targets destination (path ∷ paths) = do
    target ← mount_target (to_path (host.expanduser path))
    make_target destination target
    create_targets destination paths

  unfoldable pub copy_filtered_workspace : FilePath → Action W (Unit {0})
  unfolding workspace copy_entries create_targets
  copy_filtered_workspace destination = do
    above ← workspace host policy config
    λ w.
        (do
          copy_entries above (host.resolve w destination) (host.rglob w above)
          create_targets (host.resolve w destination) policy.writable_paths)
          w
