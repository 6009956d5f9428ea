-- ===== src/Landlock/Fallback.antt =====
-- When `LandlockSandboxRunner.run` (runeguard/core/landlock.py) runs a command.
use runeguard.Prelude.{Text, codes, true, List, ◌≡◌, ◌⊎◌, inl, inr, Bool-cases}
use runeguard.Prelude.Int.{ℤ}
use runeguard.Policy.Settings.{Policy}
use runeguard.Policy.FilePath.{System}
use runeguard.Effects.{done, lift, done-cases, lift-done}
use runeguard.ToolProxy.{Judge}
use runeguard.ToolProxy.Gate.{gated-done}
use runeguard.Docker.{Host}
use runeguard.Docker.Running.{shell_kwargs, AllowsCommand}
use runeguard.Landlock.Running.{LandlockConfig, LandlockHost, run_allowed, landlock_run}

module _ {W : Type 0} (host : Host W) (landlock : LandlockHost W) (system : System)
    (policy : Policy) (config : LandlockConfig) where
  -- Landlock is there, or the caller has asked to do without it.
  abbrev pub IsEnforced : W → Type 0
  IsEnforced w = (landlock.is_available w ≡ true) ⊎ (config.allow_weak_fallback ≡ true)

  run_allowed-IsEnforced :
      (argv : List Text) (w : W) (code : ℤ) (w' : W)
      → run_allowed host landlock system policy config argv w ≡ (done code, w')
      → IsEnforced w
  unfolding run_allowed
  run_allowed-IsEnforced argv w code w' h = elim (Bool-cases (landlock.is_available w)) [
    | inl there ↦ inl there
    | inr missing ↦ elim (Bool-cases config.allow_weak_fallback) [
      | inl weak ↦ inr weak
      | inr strict ↦ cc
    ]
  ]

  -- A command is run to an end only where the policy allows it as a shell command, and where
  -- Landlock is available or the configuration allows the weak fallback.
  pub landlock_run-cleared :
      (judge : Judge) (argv : List Text) (w : W) (code : ℤ) (w' : W)
      → landlock_run host landlock system policy config judge argv w ≡ (done code, w')
      → AllowsCommand judge argv × IsEnforced w
  unfolding landlock_run
  landlock_run-cleared judge argv w code w' h =
      done-cases (lift (judge (codes "shell") (shell_kwargs argv))) _ w h λ d w₁ h₁ h₂.
        let (decided, same) = lift-done (judge (codes "shell") (shell_kwargs argv)) d w w₁ h₁ in
        let (allows, ran) =
          gated-done d (run_allowed host landlock system policy config argv) w₁ code w' h₂ in
        ((d, decided, allows), run_allowed-IsEnforced argv w code w' cc)
