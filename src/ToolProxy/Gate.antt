-- ===== src/ToolProxy/Gate.antt =====
-- When the call of a guarded tool (runeguard/proxy.py) ends, and with what.
use runeguard.Prelude.{Text, false, ◌≡◌, ◌≢◌, ◌↔◌, refl, sym, ◌∙◌, Bool-cases, inl, inr}
use runeguard.Outcome.{ok}
use runeguard.Decision.{
  Decision, DecisionType, allow, block, require_approval, DecisionType-discrete,
}
use runeguard.Json.{Fields}
use runeguard.Logger.{Sink, LogOptions, AuditFields, log_decision}
use runeguard.Effects.{done, refused, Action, lift, ◌>>=◌, ◌>>◌, done-cases, lift-done}
use runeguard.ToolProxy.{Judge, judged, names_parameter, gated, call}

module _ {W : Type 0} where
  pub gated-allowed :
      {A : Type 0} (d : Decision) (m : Action W A) (w : W) → d.type ≡ allow → gated d m w ≡ m w
  unfolding gated
  gated-allowed d m w e = rw e refl

  -- Behind another decision nothing is done.
  pub gated-refused :
      {A : Type 0} (d : Decision) (m : Action W A) (w : W)
      → d.type ≢ allow
      → gated d m w ≡ (refused d.reason, w)
  unfolding gated
  gated-refused d m w other = go d.type refl
    where
      go : (t : DecisionType) → d.type ≡ t → gated d m w ≡ (refused d.reason, w)
      go allow e = elim (other e) [ ]
      go block e = rw e refl
      go require_approval e = rw e refl

  pub gated-done :
      {A : Type 0} (d : Decision) (m : Action W A) (w : W) (a : A) (w' : W)
      → gated d m w ≡ (done a, w')
      → (d.type ≡ allow) × (m w ≡ (done a, w'))
  gated-done d m w a w' h = elim (DecisionType-discrete d.type allow) [
    | yes e ↦ (e, sym (gated-allowed d m w e) ∙ h)
    | no other ↦ let stops = gated-refused d m w other in cc
  ]

module _ {W : Type 0} (sink : Sink W) (judge : Judge) where
  -- What is left of a call behind its first test.
  decided-done :
      {A : Type 0} (options : LogOptions) (tool_name : Text) (m : Action W A) (given : AuditFields)
      (kwargs : Fields) (w : W) (a : A) (w' : W)
      → (lift (judged judge tool_name kwargs) >>= λ d.
            log_decision sink options tool_name d kwargs given >> gated d m)
          w
        ≡ (done a, w')
      → (d : Decision) × (w₁ : W) × (judged judge tool_name kwargs ≡ ok d)
        × (d.type ≡ allow)
        × (log_decision sink options tool_name d kwargs given w ≡ (done tt, w₁))
        × (m w₁ ≡ (done a, w'))
  decided-done options tool_name m given kwargs w a w' h =
      done-cases (lift (judged judge tool_name kwargs))
        (λ d. log_decision sink options tool_name d kwargs given >> gated d m) w h
        λ d w₁ h₁ h₂.
          done-cases (log_decision sink options tool_name d kwargs given) (λ _. gated d m) w₁ h₂
            λ _ w₂ h₃ h₄.
              let (j, same) = lift-done (judged judge tool_name kwargs) d w w₁ h₁ in
              let (t, f) = gated-done d m w₂ a w' h₄ in (d, w₂, j, t, cc, f)

  -- The call of a tool ends with a result, and in a world, exactly when no keyword is a parameter
  -- of the call itself, the judge allows the tool with the keywords, that decision is logged
  -- without failure, and the tool called behind it ends with that result in that world.
  pub call-done_iff :
      {A : Type 0} (options : LogOptions) (tool_name : Text) (fn : Fields → Action W A)
      (given : AuditFields) (kwargs : Fields) (w : W) (a : A) (w' : W)
      → (call sink judge options tool_name fn given kwargs w ≡ (done a, w')) ↔ (
          (names_parameter kwargs ≡ false)
          × ((d : Decision) × (w₁ : W) × (judged judge tool_name kwargs ≡ ok d)
              × (d.type ≡ allow)
              × (log_decision sink options tool_name d kwargs given w ≡ (done tt, w₁))
              × (fn kwargs w₁ ≡ (done a, w'))))
  unfolding call
  call-done_iff options tool_name fn given kwargs w a w' =
      elim (Bool-cases (names_parameter kwargs)) [
        | inl e ↦ rw e (λ h. cc, λ (e', rest). cc)
        | inr e ↦ rw e (
          λ h. (refl, decided-done options tool_name (fn kwargs) given kwargs w a w' h),
          λ (_, (d, w₁, j, t, l, f)). rw (j, l) (gated-allowed d (fn kwargs) w₁ t ∙ f),
        )
      ]
