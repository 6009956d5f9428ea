-- ===== src/Docker/Refusing.antt =====
-- When `run` of runeguard/core/docker.py starts nothing.
use runeguard.Prelude.{Text, codes, List, ◌≡◌, ◌≢◌, refl}
use runeguard.Outcome.{ok}
use runeguard.Decision.{Decision, allow}
use runeguard.Json.{str, array, field, end}
use runeguard.Policy.Settings.{Policy}
use runeguard.Policy.FilePath.{System}
use runeguard.Logger.{Sink, LogOptions, no_audit_fields, log_decision}
use runeguard.Effects.{Action, Exit, done, refused, failed, refuse, follow, ◌>>◌}
use runeguard.ToolProxy.{Judge, gated}
use runeguard.ToolProxy.Gate.{gated-refused}
use runeguard.Docker.{DockerSandboxConfig, Host}
use runeguard.Docker.Running.{texts, shell_kwargs, start_docker, with_mount_source, run}

module _ {W : Type 0} (host : Host W) (system : System) (policy : Policy)
    (config : DockerSandboxConfig) (sink : Sink W) (judge : Judge) (options : LogOptions) where
  -- A command that the policy does not allow, or only after an approval, is refused with the
  -- policy's reason once the decision is logged, and nothing is done after the logging: no file
  -- is copied and no container is started. Where the logging fails, the run fails.
  pub run-refused :
      (argv : List Text) (decision : Decision) (w : W)
      → judge (codes "shell") (shell_kwargs argv) ≡ ok decision
      → decision.type ≢ allow
      → run host system policy config sink judge options argv w
        ≡ (log_decision sink options
                (codes "sandbox.policy")
                decision
                (field
                  (codes "argv")
                  (array (texts argv))
                  (field (codes "backend") (str (codes "docker")) end))
                no_audit_fields
              >> refuse decision.reason)
            w
  unfolding run
  run-refused argv decision w judged other = rw judged (go (logged w).0 (logged w).1)
    where
      logged : Action W (Unit {0})
      logged =
          log_decision sink options (codes "sandbox.policy") decision
            (field (codes "argv") (array (texts argv))
              (field (codes "backend") (str (codes "docker")) end))
            no_audit_fields

      go :
          (e : Exit (Unit {0})) (w' : W)
          → follow e
              (λ _. gated decision (
                with_mount_source host system policy config sink judge options
                  (start_docker host system policy config sink judge options argv)))
              w'
            ≡ follow e (λ _. refuse decision.reason) w'
      go (done nothing) w' =
          gated-refused decision
            (with_mount_source host system policy config sink judge options
              (start_docker host system policy config sink judge options argv))
            w' other
      go (refused reason) w' = refl
      go failed w' = refl
