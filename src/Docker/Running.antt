-- ===== src/Docker/Running.antt =====
-- `DockerSandboxRunner.run` of runeguard/core/docker.py.
use runeguard.Prelude.{
  ℕ, Text, codes, not, ◌||◌, List, [], ◌∷◌, ◌++◌, ◌==◌, list_eq, nat_eq, if◌then◌else◌, some, ◌≡◌,
}
use runeguard.Prelude.Int.{pos}
use runeguard.Decision.{Decision, allow}
use runeguard.Prelude.Int.{ℤ}
use runeguard.Outcome.{ok}
use runeguard.Json.{boolean, int, str, array, Items, nil, cons, Fields, end, field}
use runeguard.Policy.Settings.{Policy}
use runeguard.Policy.FilePath.{FilePath, System, path_text}
use runeguard.Policy.Decide.{Kwargs, no_kwargs}
use runeguard.Correlation.{join_blank}
use runeguard.Logger.{Sink, LogOptions, no_audit_fields, log_decision}
use runeguard.Effects.{Action, lift, follow, ◌>>=◌, ◌>>◌}
use runeguard.ToolProxy.{Judge, gated}
use runeguard.Docker.{DockerSandboxConfig, Host, at_name, workspace, build_docker_argv}
use runeguard.Docker.Workspace.{copy_filtered_workspace}

unfoldable pub texts : List Text → Items
texts [] = nil
texts (text ∷ rest) = cons (str text) (texts rest)

-- The keyword arguments of `policy.decide("shell", ...)`.
abbrev pub shell_kwargs : List Text → Kwargs
shell_kwargs argv = record no_kwargs { command = some (join_blank argv); argv = some argv }

-- The judge allows the shell command.
abbrev pub AllowsCommand : Judge → List Text → Type 0
AllowsCommand judge command =
    (d : Decision) × (judge (codes "shell") (shell_kwargs command) ≡ ok d) × (d.type ≡ allow)

-- A step between the making of the temporary directory and its end, which comes in any case.
unfoldable pub with_temporary : {W A : Type 0} → Host W → (FilePath → Action W A) → Action W A
with_temporary host body w =
    let (made, w') = host.make_temporary w in
    follow made
      (λ tmpdir w''.
        let (exit, after) = body tmpdir w'' in (exit, host.remove_temporary tmpdir after))
      w'

module _ {W : Type 0} (host : Host W) (system : System) (policy : Policy)
    (config : DockerSandboxConfig) (sink : Sink W) (judge : Judge) (options : LogOptions) where
  -- `with self._workspace_mount_source() as mount_source: body`
  unfoldable pub with_mount_source : {A : Type 0} → (FilePath → Action W A) → Action W A
  unfolding with_temporary workspace copy_filtered_workspace
  with_mount_source body =
      if config.unsafe_writable_workspace || not config.filtered_workspace
      then (workspace host policy config >>= body)
      else with_temporary host (λ tmpdir.
        host.mkdir (at_name tmpdir (codes "workspace"))
        >> copy_filtered_workspace host system policy config (at_name tmpdir (codes "workspace"))
        >> body (at_name tmpdir (codes "workspace")))

  unfoldable pub sandbox_fields : FilePath → FilePath → Fields
  unfolding texts
  sandbox_fields above mount_source = field (codes "cpus") (str config.cpus) (
      field (codes "image") (str config.image) (
        field (codes "memory") (str config.memory) (
          field (codes "network") (str config.network) (
            field (codes "pids_limit") (int (pos config.pids_limit)) (
              field (codes "readonly_rootfs") (boolean config.readonly_rootfs) (
                field (codes "tmpfs_mounts") (array (texts config.tmpfs_mounts)) (
                  field (codes "unsafe_writable_workspace")
                    (boolean config.unsafe_writable_workspace)
                    (field (codes "user") (str config.user) (
                      field (codes "workspace") (str (path_text above)) (
                        field (codes "workspace_mount_source") (str (path_text mount_source)) (
                          field (codes "writable_paths") (array (texts policy.writable_paths))
                            end)))))))))))

  -- The body of the `with` of `run`.
  unfoldable pub start_docker : List Text → FilePath → Action W ℤ
  unfolding build_docker_argv sandbox_fields workspace
  start_docker argv mount_source = do
    docker_argv ← build_docker_argv host policy config argv (some mount_source)
    above ← workspace host policy config
    log_decision sink options (codes "sandbox.docker")
        (record { type = allow; reason = codes "starting Docker sandbox" })
        (sandbox_fields above mount_source) no_audit_fields
    host.run docker_argv

  -- `run`
  unfoldable pub run : List Text → Action W ℤ
  unfolding start_docker with_mount_source
  run argv = do
    decision ← lift (judge (codes "shell") (shell_kwargs argv))
    log_decision sink options (codes "sandbox.policy") decision
        (field (codes "argv") (array (texts argv))
          (field (codes "backend") (str (codes "docker")) end))
        no_audit_fields
    gated decision (with_mount_source (start_docker argv))

-- `current_user_container_id`, on the ids of the user and the group.
unfoldable pub current_user_container_id : (ℕ → Text) → ℕ → ℕ → Text
current_user_container_id show_number uid gid =
    if uid == 0 then codes "65532:65532" else show_number uid ++ (codes ":" ++ show_number gid)
