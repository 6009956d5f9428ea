-- ===== src/Agents/Guarding.antt =====
-- When a tool decorated by runeguard/agents/openai_codex.py runs.
use runeguard.Prelude.{Text, List, [], ◌∷◌, ◌≡◌, ◌↔◌, ◌∙◌}
use runeguard.Outcome.{ok}
use runeguard.Decision.{Decision, allow}
use runeguard.Json.{Fields}
use runeguard.Logger.{Sink, LogOptions, log_decision}
use runeguard.Effects.{done, Action, lift, done-cases, lift-done}
use runeguard.ToolProxy.{Judge}
use runeguard.ToolProxy.Gate.{gated-allowed, gated-done}
use runeguard.Agents.Codex.{
  Check, checks_or_call, check_decision, check_fields, run_checks, guarded,
}

module _ {W : Type 0} (sink : Sink W) (judge : Judge) (options : LogOptions)
    (function_name : Text) where
  -- Every check is allowed and logged without failure, one after the other, from the one world to
  -- the other.
  unfoldable pub Passes : List Check → W → W → Type 0
  Passes [] w w' = w ≡ w'
  Passes (check ∷ checks) w w' =
      (d : Decision) × (w₁ : W) × (check_decision sink judge options function_name check ≡ ok d)
      × (d.type ≡ allow)
      × (log_decision sink options check.tool_name d check.kwargs (check_fields function_name check)
            w
          ≡ (done tt, w₁))
      × Passes checks w₁ w'

  run_checks-Passes :
      (checks : List Check) (w w' : W)
      → run_checks sink judge options function_name checks w ≡ (done tt, w')
      → Passes checks w w'
  unfolding run_checks Passes
  run_checks-Passes [] w w' h = cc
  run_checks-Passes (check ∷ checks) w w' h =
      done-cases (lift (check_decision sink judge options function_name check)) _ w h λ d w₁ h₁ h₂.
        done-cases
          (log_decision sink options check.tool_name d check.kwargs
            (check_fields function_name check))
          _ w₁ h₂
          λ _ w₂ h₃ h₄.
            let (j, same) =
              lift-done (check_decision sink judge options function_name check) d w w₁ h₁ in
            let (t, rest) =
              gated-done d (run_checks sink judge options function_name checks) w₂ tt w' h₄ in
            (d, w₂, j, t, cc, run_checks-Passes checks w₂ w' rest)

  Passes-run_checks :
      (checks : List Check) (w w' : W)
      → Passes checks w w'
      → run_checks sink judge options function_name checks w ≡ (done tt, w')
  unfolding run_checks Passes
  Passes-run_checks [] w w' h = cc
  Passes-run_checks (check ∷ checks) w w' (d, w₁, j, t, l, rest) =
      rw (j, l)
        (gated-allowed d (run_checks sink judge options function_name checks) w₁ t
          ∙ Passes-run_checks checks w₁ w' rest)

  -- A decorated tool ends with a result, and in a world, exactly when every check that is read off
  -- its keyword arguments, or the call itself where there is none, is allowed by the policy and
  -- logged without failure in order, and the tool called behind them on all its arguments ends
  -- with that result in that world.
  pub guarded-done_iff :
      {P A : Type 0} (func : P → Fields → Action W A) (args : P) (kwargs : Fields) (w : W) (a : A)
      (w' : W)
      → (guarded sink judge options function_name func args kwargs w ≡ (done a, w')) ↔ (
          (w₁ : W) × Passes (checks_or_call sink.show function_name kwargs) w w₁
          × (func args kwargs w₁ ≡ (done a, w')))
  unfolding guarded
  guarded-done_iff func args kwargs w a w' = (
    λ h.
        done-cases
          (run_checks sink judge options function_name
            (checks_or_call sink.show function_name kwargs))
          _ w h λ _ w₁ h₁ h₂. (w₁, run_checks-Passes _ w w₁ h₁, h₂),
    λ (w₁, passes, ran).
        rw (Passes-run_checks (checks_or_call sink.show function_name kwargs) w w₁ passes) ran,
  )
