-- ===== src/Docker/Filtering.antt =====
-- Which files the filtered workspace of runeguard/core/docker.py holds, and when nothing is run.
use runeguard.Prelude.{
  Text, codes, true, false, ◌||◌, List, [], ◌∷◌, ◌==◌, list_eq, nat_eq, if◌then◌else◌, Option, none,
  some, lstrip, ◌≡◌, Bool-cases, inl, inr,
}
use runeguard.Policy.Settings.{Policy}
use runeguard.Policy.FilePath.{FilePath, System, to_path, path_text, is_relative_to}
use runeguard.Policy.Protected.{is_denied_workspace_path, is_allowed_workspace_path}
use runeguard.Effects.{Action, pure, fail, ◌>>=◌, ◌>>◌}
use runeguard.Effects.Keeping.{Keeps, bind-Keeps, bind-Keeps_done, if-Keeps}
use runeguard.Docker.{
  DockerSandboxConfig, Host, child, parent, below, relative_to, workspace,
  validate_safe_mount_source, or_fail, is_dangerous,
}
use runeguard.Docker.Mounts.{IsWorkspace}
use runeguard.Docker.Workspace.{
  is_own_copy, passes_filter, place, copy_entry, copy_entries, inside, mount_target, make_target,
  create_targets, copy_filtered_workspace,
}

module _ {W : Type 0} (I : W → Type 0) where
  module _ (host : Host W) (system : System) (policy : Policy) (config : DockerSandboxConfig) where
    abbrev pub KeepsMkdir : Type 0
    KeepsMkdir = (path : FilePath) → Keeps I (host.mkdir path)

    -- What a copy of a file below the workspace keeps, if its name there passes the filter.
    abbrev pub KeepsCopy : Type 0
    KeepsCopy =
        (above source destination : FilePath)
        → IsWorkspace host policy config above
        → is_relative_to source above ≡ true
        → is_denied_workspace_path system policy (path_text (below source above)) ≡ false
        → is_allowed_workspace_path system policy (path_text (below source above)) ≡ true
        → Keeps I (host.copy source (child destination (below source above)))

    or_fail-Keeps : {A : Type 0} (o : Option A) → Keeps I (or_fail o)
    or_fail-Keeps none w i = i
    or_fail-Keeps (some a) w i = i

    relative_to-Keeps : (path above : FilePath) → Keeps I (relative_to path above)
    unfolding relative_to
    relative_to-Keeps path above w i = elim (Bool-cases (is_relative_to path above)) [
      | inl e ↦ rw e i
      | inr e ↦ rw e i
    ]

    validate-Keeps : (path : FilePath) → Keeps I (validate_safe_mount_source host path true)
    unfolding validate_safe_mount_source
    validate-Keeps path =
        if-Keeps I (is_dangerous host path || false) fail (pure tt) (λ w i. i) (λ w i. i)

    workspace-Keeps : Keeps I (workspace host policy config)
    unfolding workspace
    workspace-Keeps w i =
        bind-Keeps I
          (or_fail (host.resolve_strict w (host.expanduser_path (to_path config.workspace))))
          (λ found. validate_safe_mount_source host found true >>= λ _. pure found)
          (or_fail-Keeps (host.resolve_strict w (host.expanduser_path (to_path config.workspace))))
          (λ found.
            bind-Keeps I (validate_safe_mount_source host found true) (λ _. pure found)
              (validate-Keeps found) (λ _ w' i'. i'))
          w i

    module _ (keeps_mkdir : KeepsMkdir) (keeps_copy : KeepsCopy) where
      place-Keeps :
          (above source destination : FilePath)
          → IsWorkspace host policy config above
          → is_relative_to source above ≡ true
          → is_denied_workspace_path system policy (path_text (below source above)) ≡ false
          → is_allowed_workspace_path system policy (path_text (below source above)) ≡ true
          → Keeps I (place host destination source (below source above))
      unfolding place
      place-Keeps above source destination at found not_denied is_allowed w =
          if-Keeps I (host.is_dir w source) (host.mkdir target)
            (host.mkdir (parent target) >> host.copy source target) (keeps_mkdir target)
            (bind-Keeps I (host.mkdir (parent target)) (λ _. host.copy source target)
              (keeps_mkdir (parent target))
              (λ _. keeps_copy above source destination at found not_denied is_allowed))
            w
        where
          target : FilePath
          target = child destination (below source above)

      filter-Keeps :
          (above source destination : FilePath)
          → IsWorkspace host policy config above
          → is_relative_to source above ≡ true
          → Keeps I (
              if passes_filter system policy (below source above)
              then place host destination source (below source above)
              else pure tt)
      unfolding passes_filter
      filter-Keeps above source destination at found w i =
          elim (Bool-cases
            (is_denied_workspace_path system policy (path_text (below source above)))) [
              | inl d ↦ rw d i
              | inr d ↦
                  rw d
                    (elim (Bool-cases
                      (is_allowed_workspace_path system policy (path_text (below source above)))) [
                        | inl a ↦ rw a (place-Keeps above source destination at found d a w i)
                        | inr a ↦ rw a i
                      ])
            ]

      copy_entry-Keeps :
          (above destination source : FilePath)
          → IsWorkspace host policy config above
          → Keeps I (copy_entry host system policy config above destination source)
      unfolding copy_entry relative_to
      copy_entry-Keeps above destination source at w i =
          elim (Bool-cases (is_own_copy host system policy config w destination source)) [
            | inl own ↦ rw own i
            | inr own ↦ rw own (elim (Bool-cases (is_relative_to source above)) [
              | inl found ↦ rw found (filter-Keeps above source destination at found w i)
              | inr found ↦ rw found i
            ])
          ]

      copy_entries-Keeps :
          (above destination : FilePath) (sources : List FilePath)
          → IsWorkspace host policy config above
          → Keeps I (copy_entries host system policy config above destination sources)
      unfolding copy_entries
      copy_entries-Keeps above destination [] at = λ w i. i
      copy_entries-Keeps above destination (source ∷ sources) at =
          bind-Keeps I (copy_entry host system policy config above destination source)
            (λ _. copy_entries host system policy config above destination sources)
            (copy_entry-Keeps above destination source at)
            (λ _. copy_entries-Keeps above destination sources at)

      mount_target-Keeps :
          (raw_path : FilePath) → Keeps I (mount_target host system policy config raw_path)
      unfolding mount_target
      mount_target-Keeps raw_path =
          if-Keeps I raw_path.is_absolute (workspace host policy config >>= inner)
            (pure (some raw_path))
            (bind-Keeps I (workspace host policy config) inner workspace-Keeps (λ above w i. i))
            (λ w i. i)
        where
          inner : FilePath → Action W (Option FilePath)
          inner above w = pure (inside host system policy config raw_path above w) w

      make_target-Keeps :
          (destination : FilePath) (target : Option FilePath)
          → Keeps I (make_target host system policy config destination target)
      unfolding make_target
      make_target-Keeps destination none = λ w i. i
      make_target-Keeps destination (some relative) =
          if-Keeps I (text == [] || text == codes ".") (pure tt)
            (if is_denied_workspace_path system policy text
              then pure tt
              else host.mkdir (child destination relative))
            (λ w i. i)
            (if-Keeps I (is_denied_workspace_path system policy text) (pure tt)
              (host.mkdir (child destination relative)) (λ w i. i)
              (keeps_mkdir (child destination relative)))
        where
          text : Text
          text = lstrip (codes "./") (path_text relative)

      create_targets-Keeps :
          (destination : FilePath) (paths : List Text)
          → Keeps I (create_targets host system policy config destination paths)
      unfolding create_targets
      create_targets-Keeps destination [] = λ w i. i
      create_targets-Keeps destination (path ∷ paths) =
          bind-Keeps I (mount_target host system policy config (to_path (host.expanduser path)))
            (λ target.
              make_target host system policy config destination target
              >> create_targets host system policy config destination paths)
            (mount_target-Keeps (to_path (host.expanduser path)))
            (λ target.
              bind-Keeps I (make_target host system policy config destination target)
                (λ _. create_targets host system policy config destination paths)
                (make_target-Keeps destination target)
                (λ _. create_targets-Keeps destination paths))

      -- What every directory that is made keeps, and every copy of a file below the workspace that
      -- the sandbox found whose name below it is not denied and is among the allowed ones, to that
      -- name below another directory, the making of the filtered workspace keeps too, also where it
      -- raises: no other file is copied.
      pub copy_filtered_workspace-Keeps :
          (destination : FilePath)
          → Keeps I (copy_filtered_workspace host system policy config destination)
      unfolding copy_filtered_workspace
      copy_filtered_workspace-Keeps destination =
          bind-Keeps_done I (workspace host policy config) filled workspace-Keeps
            λ above w₀ w₁ found w.
              bind-Keeps I
                (copy_entries host system policy config above (host.resolve w destination)
                  (host.rglob w above))
                (λ _.
                  create_targets host system policy config (host.resolve w destination)
                    policy.writable_paths)
                (copy_entries-Keeps above (host.resolve w destination) (host.rglob w above)
                  (w₀, w₁, found))
                (λ _. create_targets-Keeps (host.resolve w destination) policy.writable_paths) w
        where
          filled : FilePath → Action W (Unit {0})
          filled above w =
              (copy_entries host system policy config above (host.resolve w destination)
                    (host.rglob w above)
                  >> create_targets host system policy config (host.resolve w destination)
                      policy.writable_paths)
                w
