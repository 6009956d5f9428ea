-- ===== src/Docker.antt =====
-- runeguard/core/docker.py: the arguments of `docker run`, and the sources of its mounts.
pub mod Workspace
pub mod Running
pub mod Restricted
pub mod Mounts
pub mod Filtering
pub mod Refusing
use runeguard.Prelude.{
  ℕ, Text, codes, Bool, true, false, not, ◌&&◌, ◌||◌, List, [], ◌∷◌, ◌++◌, ◌==◌, list_eq, nat_eq,
  if◌then◌else◌, Option, none, some, contains, drop, length,
}
use runeguard.Prelude.Int.{pos}
use runeguard.Prelude.Int.{ℤ}
use runeguard.Json.{Json, int, str, array, Items, nil, cons}
use runeguard.Policy.Settings.{Policy, network_denied}
use runeguard.Policy.FilePath.{FilePath, to_path, path_text, is_relative_to, same_path}
use runeguard.Effects.{Exit, done, refused, failed, Action, pure, fail, ◌>>=◌, ◌>>◌}

pub record DockerSandboxConfig : Type 0 where
  pub image : Text
  pub workspace : Text
  pub unsafe_writable_workspace : Bool
  pub readonly_rootfs : Bool
  pub tmpfs_mounts : List Text
  pub network : Text
  pub memory : Text
  pub cpus : Text
  pub pids_limit : ℕ
  pub user : Text
  pub filtered_workspace : Bool

abbrev pub container_workdir : Text
container_workdir = codes "/workspace"

-- What the machine gives: `W` is the state of its files.
pub record Host (W : Type 0) : Type 0 where
  -- `Path.home().resolve()`
  pub home : FilePath
  -- `os.path.expanduser(path)` and `path.expanduser()`
  pub expanduser : Text → Text
  pub expanduser_path : FilePath → FilePath
  -- `path.resolve(strict=True)`, `none` where it raises, and `path.resolve(strict=False)`.
  pub resolve_strict : W → FilePath → Option FilePath
  pub resolve : W → FilePath → FilePath
  pub exists : W → FilePath → Bool
  pub is_dir : W → FilePath → Bool
  -- `path.rglob("*")`
  pub rglob : W → FilePath → List FilePath
  -- `path.mkdir(parents=True, exist_ok=True)`
  pub mkdir : FilePath → Action W (Unit {0})
  -- `shutil.copy2(source, target)`
  pub copy : FilePath → FilePath → Action W (Unit {0})
  -- The directory that `TemporaryDirectory()` makes, and its end.
  pub make_temporary : Action W FilePath
  pub remove_temporary : FilePath → W → W
  -- The return code of `subprocess.run(argv)`.
  pub run : List Text → Action W ℤ
  -- `str(number)`
  pub show_number : ℕ → Text

-- `path / child`
unfoldable pub child : FilePath → FilePath → FilePath
child path below = if below.is_absolute then below else record {
  is_absolute = path.is_absolute;
  is_double = path.is_double;
  names = path.names ++ below.names;
}

-- `path / name`, for a name without a slash.
abbrev pub at_name : FilePath → Text → FilePath
at_name path name = record {
  is_absolute = path.is_absolute;
  is_double = path.is_double;
  names = path.names ++ (name ∷ []);
}

without_last : List Text → List Text
without_last [] = []
without_last (name ∷ []) = []
without_last (name ∷ next ∷ names) = name ∷ without_last (next ∷ names)

-- `path.parent`, of a path that has a name or is the root.
unfoldable pub parent : FilePath → FilePath
unfolding without_last
parent path = record {
  is_absolute = path.is_absolute;
  is_double = path.is_double;
  names = without_last path.names;
}

-- The rest of a path behind a parent at its front.
abbrev pub below : FilePath → FilePath → FilePath
below path above = record {
  is_absolute = false;
  is_double = false;
  names = drop (length above.names) path.names;
}

-- `path.relative_to(parent)`, which raises unless the parent is at its front.
unfoldable pub relative_to : {W : Type 0} → FilePath → FilePath → Action W FilePath
relative_to path above = if is_relative_to path above then pure (below path above) else fail

abbrev pub or_fail : {W A : Type 0} → Option A → Action W A
or_fail none = fail
or_fail (some a) = pure a

module _ {W : Type 0} (host : Host W) where
  -- The paths that `_validate_safe_mount_source` refuses.
  unfoldable pub is_dangerous : FilePath → Bool
  unfolding parent
  is_dangerous source =
      same_path source host.home
      || same_path source (parent host.home)
      || (same_path source (at_name host.home (codes ".ssh"))
          || is_relative_to source (at_name host.home (codes ".ssh")))
      || (same_path source (at_name host.home (codes ".aws"))
          || is_relative_to source (at_name host.home (codes ".aws")))
      || (same_path source (at_name host.home (codes ".config"))
          || is_relative_to source (at_name host.home (codes ".config")))

  unfoldable pub validate_safe_mount_source : FilePath → Bool → Action W (Unit {0})
  unfolding is_dangerous
  validate_safe_mount_source source allow_inside_home =
      if is_dangerous source || (not allow_inside_home && is_relative_to source host.home)
      then fail
      else pure tt

  module _ (policy : Policy) (config : DockerSandboxConfig) where
    -- The property `workspace`.
    unfoldable pub workspace : Action W FilePath
    unfolding validate_safe_mount_source
    workspace w =
        (do
          found ← or_fail (host.resolve_strict w (host.expanduser_path (to_path config.workspace)))
          validate_safe_mount_source found true
          pure found)
          w

    -- `source` of `_resolve_writable_path` before it is resolved, with the directory made.
    unfoldable pub made_source : FilePath → Action W FilePath
    unfolding workspace child
    made_source raw_path = if raw_path.is_absolute then pure raw_path else (do
      above ← workspace
      λ w.
          (if host.exists w (child above raw_path)
              then pure (child above raw_path)
              else (do host.mkdir (child above raw_path); pure (child above raw_path)))
            w)

    unfoldable pub resolve_writable_path : Text → Action W FilePath
    unfolding made_source validate_safe_mount_source relative_to
    resolve_writable_path path = do
      source ← made_source (to_path (host.expanduser path))
      resolved ← (λ w. or_fail (host.resolve_strict w source) w)
      validate_safe_mount_source resolved true
      above ← workspace
      _ ← relative_to resolved above
      pure resolved

    unfoldable pub container_target_for : FilePath → Action W Text
    unfolding relative_to child
    container_target_for source = do
      above ← workspace
      relative ← relative_to source above
      pure (
          if path_text relative == codes "."
          then container_workdir
          else path_text (child (to_path container_workdir) relative))

    abbrev pub workspace_mount : FilePath → Text
    workspace_mount source =
        codes "type=bind,source="
        ++ (path_text source
            ++ (codes ",target="
                ++ (container_workdir
                    ++ (codes ","
                        ++ (if config.unsafe_writable_workspace
                            then codes "rw"
                            else codes "readonly")))))

    abbrev pub writable_mount : FilePath → Text → Text
    writable_mount source target =
        codes "type=bind,source=" ++ (path_text source ++ (codes ",target=" ++ target))

    -- The loop of `_mount_args` over the writable paths.
    unfoldable pub writable_mounts : List Text → Action W (List Text)
    unfolding resolve_writable_path container_target_for
    writable_mounts [] = pure []
    writable_mounts (path ∷ paths) = do
      source ← resolve_writable_path path
      target ← container_target_for source
      mounts ← writable_mounts paths
      pure (codes "--mount" ∷ writable_mount source target ∷ mounts)

    -- The source of the mount of the workspace.
    unfoldable pub mounted_workspace : Option FilePath → Action W FilePath
    unfolding workspace
    mounted_workspace none = workspace
    mounted_workspace (some source) = λ w. or_fail (host.resolve_strict w source) w

    unfoldable pub mount_args : Option FilePath → Action W (List Text)
    unfolding mounted_workspace writable_mounts
    mount_args workspace_source = do
      source ← mounted_workspace workspace_source
      mounts ←
          (if config.unsafe_writable_workspace
            then pure []
            else writable_mounts policy.writable_paths)
      pure (codes "--mount" ∷ workspace_mount source ∷ mounts)

    unfoldable pub docker_network_mode : Text
    unfolding network_denied
    docker_network_mode =
        if config.network == codes "none"
        then codes "none"
        else if network_denied policy
        then codes "none"
        else config.network

    tmpfs_args : List Text → List Text
    tmpfs_args [] = []
    tmpfs_args (mount ∷ mounts) = codes "--tmpfs" ∷ mount ∷ tmpfs_args mounts

    -- The options behind the mounts.
    unfoldable pub restrictions : List Text
    unfolding docker_network_mode tmpfs_args
    restrictions =
        (codes "--user"
          ∷ config.user
          ∷ codes "--network"
          ∷ docker_network_mode
          ∷ codes "--memory"
          ∷ config.memory
          ∷ codes "--cpus"
          ∷ config.cpus
          ∷ codes "--pids-limit"
          ∷ host.show_number config.pids_limit
          ∷ codes "--cap-drop"
          ∷ codes "ALL"
          ∷ codes "--security-opt"
          ∷ codes "no-new-privileges"
          ∷ [])
        ++ ((if config.readonly_rootfs && policy.readonly_rootfs
              then codes "--read-only" ∷ []
              else [])
            ++ tmpfs_args config.tmpfs_mounts)

    unfoldable pub build_docker_argv : List Text → Option FilePath → Action W (List Text)
    unfolding mount_args restrictions
    build_docker_argv command_argv workspace_source =
        if not policy.readonly_workspace && not config.unsafe_writable_workspace then fail else (do
          mounts ← mount_args workspace_source
          pure (
              (codes "docker"
                ∷ codes "run"
                ∷ codes "--rm"
                ∷ codes "--workdir"
                ∷ container_workdir
                ∷ [])
              ++ (mounts ++ (restrictions ++ (config.image ∷ command_argv)))))
