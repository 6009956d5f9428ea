-- ===== src/Agents/Running/Cleared.antt =====
-- What stands before the start of an agent (runeguard/agent.py), whichever backend runs it.
use runeguard.Prelude.{
  Text, codes, true, List, ◌≡◌, ◌⊎◌, contains, list_eq, nat_eq, Option, Bool-cases, inl, inr,
  ==_iff, ◌==◌,
}
use runeguard.Prelude.Int.{ℤ}
use runeguard.Decision.{Decision}
use runeguard.Policy.Settings.{Policy}
use runeguard.Policy.FilePath.{System}
use runeguard.Logger.{Sink}
use runeguard.Effects.{done, Action, lift, ◌>>=◌, ◌>>◌, done-cases, lift-done}
use runeguard.ToolProxy.{Judge, gated}
use runeguard.ToolProxy.Gate.{gated-done}
use runeguard.Docker.{Host}
use runeguard.Docker.Running.{shell_kwargs, AllowsCommand, run}
use runeguard.Agents.Running.{
  AgentWrapConfig, Machine, supported_agents, has_executable, docker_config, agent_options,
  validate_agent_command, agent_policy, chosen_backend, run_in_docker, run_on_host, run_behind,
  run_agent,
}

-- A decision, its record and the gate, as on both backends.
asked-AllowsCommand :
    {W A : Type 0} (sink : Sink W) (judge : Judge) (command : List Text)
    (log : Decision → Action W (Unit {0})) (body : Action W A) (w : W) (a : A) (w' : W)
    → (lift (judge (codes "shell") (shell_kwargs command)) >>= λ d. log d >> gated d body) w
      ≡ (done a, w')
    → AllowsCommand judge command
asked-AllowsCommand sink judge command log body w a w' h =
    done-cases (lift (judge (codes "shell") (shell_kwargs command))) _ w h λ d w₁ h₁ h₂.
      done-cases (log d) _ w₁ h₂ λ _ w₂ h₃ h₄. (
        d,
        (lift-done (judge (codes "shell") (shell_kwargs command)) d w w₁ h₁).0,
        (gated-done d body w₂ a w' h₄).0,
      )

module _ {W : Type 0} (host : Host W) (system : System) (sink : Sink W) (machine : Machine W)
    (judge : Policy → Judge) (config : AgentWrapConfig) where
  run_in_docker-AllowsCommand :
      (policy : Policy) (w : W) (code : ℤ) (w' : W)
      → run_in_docker host system sink machine judge config policy w ≡ (done code, w')
      → AllowsCommand (judge policy) config.command
  unfolding run_in_docker run
  run_in_docker-AllowsCommand policy w code w' h =
      done-cases
        (run host system policy (docker_config policy config (machine.user_id w)) sink
          (judge policy) (agent_options config) config.command)
        _ w h λ n w₁ h₁ h₂. asked-AllowsCommand sink (judge policy) config.command _ _ w n w₁ h₁

  run_on_host-AllowsCommand :
      (policy : Policy) (w : W) (code : ℤ) (w' : W)
      → run_on_host host system sink machine judge config policy w ≡ (done code, w')
      → AllowsCommand (judge policy) config.command
  unfolding run_on_host
  run_on_host-AllowsCommand policy w code w' h =
      asked-AllowsCommand sink (judge policy) config.command _ _ w code w' h

  run_behind-AllowsCommand :
      (policy : Policy) (backend : Text) (w : W) (code : ℤ) (w' : W)
      → run_behind host system sink machine judge config policy backend w ≡ (done code, w')
      → AllowsCommand (judge policy) config.command
        × ((backend ≡ codes "docker") ⊎ (backend ≡ codes "host"))
  unfolding run_behind
  run_behind-AllowsCommand policy backend w code w' h =
      elim (Bool-cases (backend == codes "docker")) [
        | inl docker ↦ (
          run_in_docker-AllowsCommand policy w code w' cc,
          inl ((==_iff backend (codes "docker")).0 docker),
        )
        | inr other ↦ elim (Bool-cases (backend == codes "host")) [
          | inl here ↦ (
            run_on_host-AllowsCommand policy w code w' cc,
            inr ((==_iff backend (codes "host")).0 here),
          )
          | inr neither ↦ cc
        ]
      ]

  validate-done :
      (w : W) (u : Unit {0}) (w' : W)
      → validate_agent_command host system sink machine judge config w ≡ (done u, w')
      → (contains supported_agents config.agent ≡ true)
        × (has_executable host system sink machine judge config w config.command ≡ true)
        × (w ≡ w')
  unfolding validate_agent_command
  validate-done w u w' h = elim (Bool-cases (contains supported_agents config.agent)) [
    | inl known ↦
        elim (Bool-cases (has_executable host system sink machine judge config w config.command)) [
          | inl found ↦ (known, found, cc)
          | inr missing ↦ cc
        ]
    | inr unknown ↦ cc
  ]

  -- An agent's command ends with a code, and in a world, only where the agent is one of the
  -- supported ones, the command is not empty and its program is found, the policy that was given,
  -- or else the one read from the file, allows the command as a shell command, the backend that was
  -- chosen is Docker or the host, and running behind that backend ends so.
  pub run_agent-cleared :
      (given : Option Policy) (w : W) (code : ℤ) (w' : W)
      → run_agent host system sink machine judge config given w ≡ (done code, w')
      → (contains supported_agents config.agent ≡ true)
        × (has_executable host system sink machine judge config w config.command ≡ true)
        × ((policy : Policy) × (w₁ : W) × (backend : Text) × (w₂ : W) × (agent_policy host system
                sink machine judge config given w
              ≡ (done policy, w₁))
            × AllowsCommand (judge policy) config.command
            × (chosen_backend host system sink machine judge config config.backend w₁
                ≡ (done backend, w₂))
            × ((backend ≡ codes "docker") ⊎ (backend ≡ codes "host"))
            × (run_behind host system sink machine judge config policy backend w₂
                ≡ (done code, w')))
  unfolding run_agent
  run_agent-cleared given w code w' h =
      done-cases (validate_agent_command host system sink machine judge config) _ w h λ _ w₁ h₁ h₂.
        done-cases (agent_policy host system sink machine judge config given) _ w₁ h₂
          λ policy w₂ h₃ h₄.
            done-cases (chosen_backend host system sink machine judge config config.backend) _ w₂ h₄
              λ backend w₃ h₅ h₆.
                let (valid, found, same) = validate-done w tt w₁ h₁ in
                let (clears, named) = run_behind-AllowsCommand policy backend w₃ code w' h₆ in
                (valid, found, (policy, w₂, backend, w₃, cc, clears, h₅, named, h₆))
