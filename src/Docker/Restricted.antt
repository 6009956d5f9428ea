-- ===== src/Docker/Restricted.antt =====
-- The options of `docker run` behind the mounts (runeguard/core/docker.py).
use runeguard.Prelude.{
  Text, codes, Bool, true, false, List, [], ◌∷◌, ◌&&◌, ◌++◌, ◌==◌, list_eq, nat_eq, if◌then◌else◌,
  drop, ◌≡◌, refl, sym, ap, inl, inr, Bool-cases, ==_iff,
}
use runeguard.Policy.Settings.{Policy, network_denied}
use runeguard.Docker.{DockerSandboxConfig, Host, docker_network_mode, tmpfs_args, restrictions}

module _ {W : Type 0} (host : Host W) (policy : Policy) (config : DockerSandboxConfig) where
  -- A `--tmpfs` for each of the mounts, and nothing else.
  abbrev IsTmpfs : List Text → List Text → Type 0
  IsTmpfs [] [] = Unit
  IsTmpfs (mount ∷ mounts) (name ∷ value ∷ options) =
      (name ≡ codes "--tmpfs") × (value ≡ mount) × IsTmpfs mounts options
  IsTmpfs _ _ = ⊥

  -- The limits, all of them: no capability and no new privileges, and the configured network only
  -- where the policy does not deny the network. Behind them stand the read-only root, where it is
  -- asked for, and the `--tmpfs` mounts.
  abbrev pub IsRestricted : List Text → Type 0
  IsRestricted options =
      (tmpfs : List Text) × IsTmpfs config.tmpfs_mounts tmpfs
      × (options
          ≡ codes "--user"
            ∷ config.user
            ∷ codes "--network"
            ∷ (if network_denied policy then codes "none" else config.network)
            ∷ codes "--memory"
            ∷ config.memory
            ∷ codes "--cpus"
            ∷ config.cpus
            ∷ codes "--pids-limit"
            ∷ host.show_number config.pids_limit
            ∷ codes "--cap-drop"
            ∷ codes "ALL"
            ∷ codes "--security-opt"
            ∷ codes "no-new-privileges"
            ∷ ((if config.readonly_rootfs && policy.readonly_rootfs
                  then codes "--read-only" ∷ []
                  else [])
                ++ tmpfs))

  docker_network_mode-network_denied :
      docker_network_mode host policy config
      ≡ (if network_denied policy then codes "none" else config.network)
  unfolding docker_network_mode
  docker_network_mode-network_denied = elim (Bool-cases (config.network == codes "none")) [
    | inl e ↦
        let same : config.network ≡ codes "none" = (==_iff config.network (codes "none")).0 e in
        rw e (go (network_denied policy) same)
    | inr e ↦ rw e refl
  ]
    where
      go :
          (b : Bool)
          → config.network ≡ codes "none"
          → codes "none" ≡ (if b then codes "none" else config.network)
      go true same = refl
      go false same = sym same

  tmpfs_args-IsTmpfs : (mounts : List Text) → IsTmpfs mounts (tmpfs_args host policy config mounts)
  unfolding tmpfs_args
  tmpfs_args-IsTmpfs [] = tt
  tmpfs_args-IsTmpfs (mount ∷ mounts) = (refl, refl, tmpfs_args-IsTmpfs mounts)

  pub restrictions-IsRestricted : IsRestricted (restrictions host policy config)
  unfolding restrictions
  restrictions-IsRestricted = (
    tmpfs_args host policy config config.tmpfs_mounts,
    tmpfs_args-IsTmpfs config.tmpfs_mounts,
    ap
        (λ (mode : Text).
          codes "--user"
          ∷ config.user
          ∷ codes "--network"
          ∷ mode
          ∷ drop 4 (restrictions host policy config))
        docker_network_mode-network_denied,
  )
