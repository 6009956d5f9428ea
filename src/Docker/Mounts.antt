-- ===== src/Docker/Mounts.antt =====
-- What the arguments of `docker run` of runeguard/core/docker.py mount and restrict.
use runeguard.Prelude.{
  Text, codes, Bool, true, false, not, ◌&&◌, List, [], ◌∷◌, ◌++◌, list_eq, nat_eq, if◌then◌else◌,
  Option, ◌≡◌, sym, ◌∙◌, ap, inl, inr, ◌⊎◌, Bool-cases, arith,
}
use mathlib.Core.Path.{subst}
use runeguard.Policy.Settings.{Policy}
use runeguard.Policy.FilePath.{FilePath, to_path, is_relative_to}
use runeguard.Effects.{done, Action, pure, fail, ◌>>=◌, ◌>>◌, done-cases}
use runeguard.Docker.Restricted.{IsRestricted, restrictions-IsRestricted}
use runeguard.Docker.{
  DockerSandboxConfig, Host, container_workdir, relative_to, or_fail, is_dangerous,
  validate_safe_mount_source, workspace, made_source, resolve_writable_path, container_target_for,
  workspace_mount, writable_mount, writable_mounts, mounted_workspace, mount_args, restrictions,
  build_docker_argv,
}

module _ {W : Type 0} (host : Host W) (policy : Policy) (config : DockerSandboxConfig) where
  -- A path that the sandbox found to be the workspace.
  abbrev pub IsWorkspace : FilePath → Type 0
  IsWorkspace above = (w : W) × (w' : W) × (workspace host policy config w ≡ (done above, w'))

  abbrev pub IsSafeSource : FilePath → Type 0
  IsSafeSource source =
      (is_dangerous host source ≡ false)
      × ((above : FilePath) × IsWorkspace above × (is_relative_to source above ≡ true))

  -- Mounts of safe sources only.
  pub data SafeMounts : List Text → Type 0 where
    no_mounts : SafeMounts []
    mount_more :
        (source : FilePath) (target : Text) (mounts : List Text)
        → IsSafeSource source
        → SafeMounts mounts
        → SafeMounts (codes "--mount" ∷ writable_mount host policy config source target ∷ mounts)

  validate-done :
      (source : FilePath) (w w' : W)
      → validate_safe_mount_source host source true w ≡ (done tt, w')
      → is_dangerous host source ≡ false
  unfolding validate_safe_mount_source
  validate-done source w w' h = elim (Bool-cases (is_dangerous host source)) [
    | inl e ↦ ground arith
    | inr e ↦ e
  ]

  relative_to-done :
      (path above relative : FilePath) (w w' : W)
      → relative_to path above w ≡ (done relative, w')
      → is_relative_to path above ≡ true
  unfolding relative_to
  relative_to-done path above relative w w' h = elim (Bool-cases (is_relative_to path above)) [
    | inl e ↦ e
    | inr e ↦ ground arith
  ]

  resolve_writable_path-IsSafeSource :
      (path : Text) (w : W) (source : FilePath) (w' : W)
      → resolve_writable_path host policy config path w ≡ (done source, w')
      → IsSafeSource source
  unfolding resolve_writable_path
  resolve_writable_path-IsSafeSource path w source w' h =
      done-cases (made_source host policy config raw) resolving w h λ made w₁ h₁ h₂.
        done-cases (λ w. or_fail (host.resolve_strict w made) w) (checking made) w₁ h₂
          λ resolved w₂ h₃ h₄.
            done-cases (validate_safe_mount_source host resolved true) (λ _. below resolved) w₂ h₄
              λ _ w₃ h₅ h₆.
                done-cases (workspace host policy config)
                  (λ above. relative_to resolved above >>= λ _. pure resolved) w₃ h₆
                  λ above w₄ h₇ h₈.
                    done-cases (relative_to resolved above) (λ _. pure resolved) w₄ h₈
                      λ relative w₅ h₉ h₁₀.
                        let same : resolved ≡ source = cc in
                        subst IsSafeSource same (
                          validate-done resolved w₂ w₃ (cc),
                          (above, (w₃, w₄, h₇), relative_to-done resolved above relative w₄ w₅ h₉),
                        )
    where
      raw : FilePath
      raw = to_path (host.expanduser path)

      below : FilePath → Action W FilePath
      below resolved = workspace host policy config >>= λ above.
          relative_to resolved above >>= λ _. pure resolved

      checking : FilePath → FilePath → Action W FilePath
      checking made resolved = validate_safe_mount_source host resolved true >> below resolved

      resolving : FilePath → Action W FilePath
      resolving made = (λ w. or_fail (host.resolve_strict w made) w) >>= checking made

  writable_mounts-SafeMounts :
      (paths : List Text) (w : W) (mounts : List Text) (w' : W)
      → writable_mounts host policy config paths w ≡ (done mounts, w')
      → SafeMounts mounts
  unfolding writable_mounts
  writable_mounts-SafeMounts [] w mounts w' h =
      let same : [] ≡ mounts = cc in subst SafeMounts same no_mounts
  writable_mounts-SafeMounts (path ∷ paths) w mounts w' h =
      done-cases (resolve_writable_path host policy config path) after_source w h λ source w₁ h₁ h₂.
        done-cases (container_target_for host policy config source) (after_target source) w₁ h₂
          λ target w₂ h₃ h₄.
            done-cases (writable_mounts host policy config paths) (all_mounts source target) w₂ h₄
              λ rest w₃ h₅ h₆.
                let same : codes "--mount" ∷ writable_mount host policy config source target ∷ rest
                    ≡ mounts =
                  cc in
                subst SafeMounts same (
                  mount_more source target rest
                    (resolve_writable_path-IsSafeSource path w source w₁ h₁)
                    (writable_mounts-SafeMounts paths w₂ rest w₃ h₅))
    where
      all_mounts : FilePath → Text → List Text → Action W (List Text)
      all_mounts source target rest =
          pure (codes "--mount" ∷ writable_mount host policy config source target ∷ rest)

      after_target : FilePath → Text → Action W (List Text)
      after_target source target =
          writable_mounts host policy config paths >>= all_mounts source target

      after_source : FilePath → Action W (List Text)
      after_source source = container_target_for host policy config source >>= after_target source

  chosen_mounts-SafeMounts :
      (b : Bool) (w : W) (mounts : List Text) (w' : W)
      → (if b then pure [] else writable_mounts host policy config policy.writable_paths) w
        ≡ (done mounts, w')
      → SafeMounts mounts
  chosen_mounts-SafeMounts true w mounts w' h =
      let same : [] ≡ mounts = cc in subst SafeMounts same no_mounts
  chosen_mounts-SafeMounts false w mounts w' h =
      writable_mounts-SafeMounts policy.writable_paths w mounts w' h

  mount_args-SafeMounts :
      (workspace_source : Option FilePath) (w : W) (args : List Text) (w' : W)
      → mount_args host policy config workspace_source w ≡ (done args, w')
      → (mounted : FilePath) × (mounts : List Text) × (w₁ : W) × (mounted_workspace host policy
            config workspace_source w
          ≡ (done mounted, w₁))
        × SafeMounts mounts
        × (args ≡ codes "--mount" ∷ workspace_mount host policy config mounted ∷ mounts)
  unfolding mount_args
  mount_args-SafeMounts workspace_source w args w' h =
      done-cases (mounted_workspace host policy config workspace_source) after_source w h
        λ mounted w₁ h₁ h₂. done-cases chosen (all_args mounted) w₁ h₂ λ mounts w₂ h₃ h₄. (
          mounted,
          mounts,
          w₁,
          h₁,
          chosen_mounts-SafeMounts config.unsafe_writable_workspace w₁ mounts w₂ h₃,
          cc,
        )
    where
      chosen : Action W (List Text)
      chosen =
          if config.unsafe_writable_workspace
          then pure []
          else writable_mounts host policy config policy.writable_paths

      all_args : FilePath → List Text → Action W (List Text)
      all_args mounted mounts =
          pure (codes "--mount" ∷ workspace_mount host policy config mounted ∷ mounts)

      after_source : FilePath → Action W (List Text)
      after_source mounted = chosen >>= all_args mounted

  -- If the arguments of `docker run` are built, from any state of the files, then the command and
  -- the image stand behind all options; the first mount is the resolved source that was given, or
  -- else the workspace; every other mount has a source inside a workspace that was found and
  -- validated, not the home directory or the one above it, and nothing at or below `.ssh`, `.aws`
  -- and `.config` in it; the options behind the mounts are exactly the user, the network, which
  -- is "none" where the policy denies the network, the limits of memory, processors and processes,
  -- the dropping of all capabilities and of new privileges, the read-only root where both ask for
  -- it, and the `--tmpfs` mounts, so that nothing else is mounted; and a policy whose workspace is
  -- not read-only is accepted only with the unsafe writable workspace.
  pub build_docker_argv-SafeMounts :
      (command_argv : List Text) (workspace_source : Option FilePath) (w : W) (argv : List Text)
      (w' : W)
      → build_docker_argv host policy config command_argv workspace_source w ≡ (done argv, w')
      → ((policy.readonly_workspace ≡ true) ⊎ (config.unsafe_writable_workspace ≡ true))
        × ((mounted : FilePath) × (mounts : List Text) × (options : List Text) × (w₁ : W)
            × (mounted_workspace host policy config workspace_source w ≡ (done mounted, w₁))
            × SafeMounts mounts
            × IsRestricted host policy config options
            × (argv
                ≡ codes "docker"
                    ∷ codes "run"
                    ∷ codes "--rm"
                    ∷ codes "--workdir"
                    ∷ container_workdir
                    ∷ codes "--mount"
                    ∷ workspace_mount host policy config mounted
                    ∷ mounts
                  ++ (options ++ (config.image ∷ command_argv))))
  unfolding build_docker_argv
  build_docker_argv-SafeMounts command_argv workspace_source w argv w' h =
      (accepted, built (not policy.readonly_workspace && not config.unsafe_writable_workspace) h)
    where
      accepted : (policy.readonly_workspace ≡ true) ⊎ (config.unsafe_writable_workspace ≡ true)
      accepted = ground arith

      line : List Text → List Text
      line mounts =
          (codes "docker" ∷ codes "run" ∷ codes "--rm" ∷ codes "--workdir" ∷ container_workdir ∷ [])
          ++ (mounts ++ (restrictions host policy config ++ (config.image ∷ command_argv)))

      after_mounts : List Text → Action W (List Text)
      after_mounts mounts = pure (line mounts)

      built :
          (b : Bool)
          → (if b then fail else (mount_args host policy config workspace_source >>= after_mounts))
              w
            ≡ (done argv, w')
          → (mounted : FilePath) × (mounts : List Text) × (options : List Text) × (w₁ : W)
            × (mounted_workspace host policy config workspace_source w ≡ (done mounted, w₁))
            × SafeMounts mounts
            × IsRestricted host policy config options
            × (argv
                ≡ codes "docker"
                    ∷ codes "run"
                    ∷ codes "--rm"
                    ∷ codes "--workdir"
                    ∷ container_workdir
                    ∷ codes "--mount"
                    ∷ workspace_mount host policy config mounted
                    ∷ mounts
                  ++ (options ++ (config.image ∷ command_argv)))
      built true h' = cc
      built false h' =
          done-cases (mount_args host policy config workspace_source) after_mounts w h'
            λ args w₁ h₁ h₂.
              let (mounted, mounts, w₂, h₃, safe, same) =
                mount_args-SafeMounts workspace_source w args w₁ h₁ in
              let same_argv : line args ≡ argv = cc in
              (
                mounted,
                mounts,
                restrictions host policy config,
                w₂,
                h₃,
                safe,
                restrictions-IsRestricted host policy config,
                sym same_argv ∙ ap line same,
              )
