-- ===== src/Agents/Running.antt =====
-- runeguard/agent.py: the command of an agent is run in a container, or on the host behind the
-- policy.
pub mod Cleared
use runeguard.Prelude.{
  ℕ, Text, codes, not, List, [], ◌∷◌, ◌==◌, contains, list_eq, nat_eq, if◌then◌else◌, Option, none,
  some, true, false, Bool,
}
use runeguard.Prelude.Int.{ℤ, pos}
use runeguard.Json.{str, array, Fields, end, field}
use runeguard.Policy.Settings.{Policy, network_denied}
use runeguard.Policy.FilePath.{System}
use runeguard.Correlation.{join_blank}
use runeguard.Logger.{Sink, LogOptions, no_audit_fields, log_decision}
use runeguard.Effects.{Action, pure, fail, lift, ◌>>=◌, ◌>>◌}
use runeguard.ToolProxy.{Judge, gated}
use runeguard.ChildEnv.{Env, filter_child_env}
use runeguard.Docker.{DockerSandboxConfig, Host}
use runeguard.Docker.Running.{texts, shell_kwargs, run}

abbrev pub supported_agents : List Text
supported_agents = codes "codex" ∷ codes "claude" ∷ codes "cursor" ∷ codes "generic" ∷ []

pub record AgentWrapConfig : Type 0 where
  pub agent : Text
  pub command : List Text
  pub workspace : Text
  pub policy_path : Text
  pub audit_log : Text
  pub image : Text
  pub backend : Option Text

-- What the machine gives besides what Docker needs of it.
pub record Machine (W : Type 0) : Type 0 where
  -- `shutil.which(name) is not None`
  pub which : W → Text → Bool
  -- `Policy.from_file(path)`
  pub from_file : Text → Action W Policy
  -- Whether `docker info` ends with 0.
  pub docker_info : Action W Bool
  -- `subprocess.run(command, cwd=cwd, env=env)`, with its return code.
  pub start : List Text → Text → Env → Action W ℤ
  -- `os.environ`
  pub environ : W → Env
  -- `current_user_container_id()`
  pub user_id : W → Text

-- The fields of the configuration that `DockerSandboxConfig` fills itself.
unfoldable pub docker_config : Policy → AgentWrapConfig → Text → DockerSandboxConfig
unfolding network_denied
docker_config policy config user = record {
  image = config.image;
  workspace = config.workspace;
  unsafe_writable_workspace = false;
  readonly_rootfs = policy.readonly_rootfs;
  tmpfs_mounts =
      codes "/tmp:rw,noexec,nosuid,size=64m" ∷ codes "/run:rw,noexec,nosuid,size=16m" ∷ [];
  network = if network_denied policy then codes "none" else policy.network;
  memory = codes "512m";
  cpus = codes "1";
  pids_limit = 256;
  user = user;
  filtered_workspace = true;
}

-- `log_decision(..., audit_log=audit_log)`
unfoldable pub agent_options : AgentWrapConfig → LogOptions
agent_options config = record {
  audit_log = some config.audit_log;
  json_logs = false;
  quiet = false;
}

module _ {W : Type 0} (host : Host W) (system : System) (sink : Sink W) (machine : Machine W)
    (judge : Policy → Judge) (config : AgentWrapConfig) where
  unfoldable pub has_executable : W → List Text → Bool
  has_executable w [] = false
  has_executable w (executable ∷ arguments) = machine.which w executable

  unfoldable pub validate_agent_command : Action W (Unit {0})
  unfolding has_executable
  validate_agent_command w =
      (if not (contains supported_agents config.agent)
          then fail
          else if has_executable w config.command
          then pure tt
          else fail)
        w

  -- `policy or Policy.from_file(str(config.policy_path))`
  unfoldable pub agent_policy : Option Policy → Action W Policy
  agent_policy none = machine.from_file config.policy_path
  agent_policy (some policy) = pure policy

  -- `_docker_daemon_reachable`
  unfoldable pub docker_daemon_reachable : Action W Bool
  docker_daemon_reachable w =
      (if machine.which w (codes "docker") then machine.docker_info else pure false) w

  unfoldable pub reachable_backend : Action W Text
  unfolding docker_daemon_reachable
  reachable_backend = do
    reachable ← docker_daemon_reachable
    pure (if reachable then codes "docker" else codes "host")

  -- `config.backend or ("docker" if _docker_daemon_reachable() else "host")`
  unfoldable pub chosen_backend : Option Text → Action W Text
  unfolding reachable_backend
  chosen_backend none = reachable_backend
  chosen_backend (some []) = reachable_backend
  chosen_backend (some (c ∷ backend)) = pure (c ∷ backend)

  module _ (policy : Policy) where
    unfoldable pub run_in_docker : Action W ℤ
    unfolding run docker_config agent_options
    run_in_docker w =
        (do
          code ←
              run host system policy (docker_config policy config (machine.user_id w)) sink
                (judge policy) (agent_options config) config.command
          pure code)
          w

    unfoldable pub host_fields : Fields
    unfolding texts
    host_fields =
        field (codes "argv") (array (texts config.command))
          (field (codes "command") (str (join_blank config.command)) end)

    unfoldable pub start_on_host : Action W ℤ
    unfolding filter_child_env
    start_on_host w =
        machine.start config.command config.workspace (filter_child_env policy (machine.environ w))
          w

    unfoldable pub run_on_host : Action W ℤ
    unfolding gated host_fields agent_options start_on_host
    run_on_host = do
      decision ← lift (judge policy (codes "shell") (shell_kwargs config.command))
      log_decision sink (agent_options config) (codes "shell") decision host_fields no_audit_fields
      gated decision start_on_host

    unfoldable pub run_behind : Text → Action W ℤ
    unfolding run_in_docker run_on_host
    run_behind backend =
        if backend == codes "docker"
        then run_in_docker
        else if backend == codes "host"
        then run_on_host
        else fail

  unfoldable pub run_agent : Option Policy → Action W ℤ
  unfolding validate_agent_command agent_policy chosen_backend run_behind
  run_agent given = do
    validate_agent_command
    policy ← agent_policy given
    backend ← chosen_backend config.backend
    run_behind policy backend
