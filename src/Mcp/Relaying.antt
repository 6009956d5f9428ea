-- ===== src/Mcp/Relaying.antt =====
-- What the proxy of runeguard/mcp/proxy.py lets through to the server behind it.
use runeguard.Prelude.{
  Text, codes, true, false, [], ◌==◌, list_eq, nat_eq, if◌then◌else◌, some, starts_with, ◌≡◌, ◌≢◌,
  inl, inr, refl, sym, ◌∙◌, ap, arith, Bool-cases,
}
use runeguard.Outcome.{Outcome}
use runeguard.Decision.{Decision, allow}
use runeguard.Json.{Json, str, object, Fields, end, field, get, str_of}
use mathlib.Core.Path.{subst}
use runeguard.Policy.Settings.{Policy}
use runeguard.Policy.Decide.{no_kwargs}
use runeguard.Logger.{Sink, LogOptions, or_json}
use runeguard.Effects.{done, Action, pure, lift, ◌>>◌, done-cases, lift-done}
use runeguard.ToolProxy.{Judge}
use runeguard.Mcp.Messages.{get_or, dict_or_empty}
use runeguard.Mcp.Checking.{is_allow, tool_call_decision}
use runeguard.Mcp.Forwarding.{Allowed, is_allow_iff}
use runeguard.Mcp.Client.{
  Pipes, Checked, passed, stopped, params_of, log, conclude, named_server, proxy_error, check_call,
  check_method, after_server, check_known, check_text_method, check_client_message,
}

module _ {W : Type 0} (pipes : Pipes W) (sink : Sink W) (policy : Policy) (judge : Judge)
    (options : LogOptions) (server_name : Text) where
  -- A conclusion other than an error.
  conclude-passed :
      (msg : Fields) (decision : Decision) (tool_name : Text) (outcome : Checked)
      → conclude pipes sink policy judge options server_name msg decision tool_name ≡ outcome
      → ((response : Json) → outcome ≢ stopped response)
      → (decision.type ≡ allow) × (outcome ≡ passed)
  unfolding conclude
  conclude-passed msg decision tool_name outcome h unstopped =
      elim (Bool-cases (is_allow decision.type)) [
        | inl e ↦ ((is_allow_iff decision.type).0 e, ground arith)
        | inr e ↦
            elim (unstopped
              (proxy_error pipes sink policy judge options server_name msg decision tool_name)
              (ground arith)) [ ]
      ]

  check_call-passed :
      (msg : Fields) (w : W) (outcome : Checked) (w' : W)
      → check_call pipes sink policy judge options server_name msg w ≡ (done outcome, w')
      → ((response : Json) → outcome ≢ stopped response)
      → Allowed
          (tool_call_decision policy judge server_name (get_or (codes "params") (object end) msg))
        × (outcome ≡ passed)
  unfolding check_call
  check_call-passed msg w outcome w' h unstopped =
      done-cases (lift asked) after w h λ decision w₁ h₁ h₂.
        done-cases (logged decision) (λ _. pure (concluded decision)) w₁ h₂
          λ _ w₂ h₃ h₄.
            let same : concluded decision ≡ outcome = cc in
            let (allowed, passes) =
              conclude-passed msg decision
                (if tool_name == [] then codes "tools/call" else tool_name) outcome same
                unstopped in
            ((decision, (lift-done asked decision w w₁ h₁).0, allowed), passes)
    where
      asked : Outcome Decision
      asked = tool_call_decision policy judge server_name (get_or (codes "params") (object end) msg)

      tool_name : Text
      tool_name = str_of sink.show (or_json (get (codes "name") (params_of msg)) (str []))

      logged : Decision → Action W (Unit {0})
      logged decision =
          log pipes sink policy judge options server_name (codes "tools/call") decision (
            field (codes "arguments")
              (object (dict_or_empty (get_or (codes "arguments") (object end) (params_of msg))))
              (field (codes "server_name") (str server_name)
                (field (codes "tool_name") (str tool_name) end)))

      concluded : Decision → Checked
      concluded decision =
          conclude pipes sink policy judge options server_name msg decision
            (if tool_name == [] then codes "tools/call" else tool_name)

      after : Decision → Action W Checked
      after decision = logged decision >> pure (concluded decision)

  call_method-known :
      (msg : Fields)
      → check_text_method pipes sink policy judge options server_name (str (codes "tools/call")) msg
        ≡ check_known pipes sink policy judge options server_name (codes "tools/call") msg
  unfolding check_text_method starts_with nat_eq list_eq
  call_method-known msg = refl

  after_server-allowed :
      (msg : Fields) (decision : Decision)
      → is_allow decision.type ≡ true
      → after_server pipes sink policy judge options server_name (codes "tools/call") msg decision
        ≡ check_call pipes sink policy judge options server_name msg
  unfolding after_server check_method nat_eq list_eq
  after_server-allowed msg decision e = rw e refl

  after_server-stopped :
      (msg : Fields) (decision : Decision) (method : Text)
      → is_allow decision.type ≡ false
      → after_server pipes sink policy judge options server_name method msg decision
        ≡ pure (
            stopped (
              proxy_error pipes sink policy judge options server_name msg decision
                (codes "mcp_server")))
  unfolding after_server
  after_server-stopped msg decision method e = rw e refl

  -- A message that calls a tool, where the check ends without an exception and without an error
  -- to the client, passes the check, so that it is forwarded; and then the judge has allowed the
  -- server, and the call of the tool.
  pub check_client_message-passed :
      (msg : Fields) (w : W) (outcome : Checked) (w' : W)
      → get (codes "method") msg ≡ str (codes "tools/call")
      → check_client_message pipes sink policy judge options server_name (object msg) w
        ≡ (done outcome, w')
      → ((response : Json) → outcome ≢ stopped response)
      → (outcome ≡ passed)
        × Allowed (judge (codes "mcp_server") (record no_kwargs { server_name = some server_name }))
        × Allowed
            (tool_call_decision policy judge server_name (get_or (codes "params") (object end) msg))
  unfolding check_client_message check_known
  check_client_message-passed msg w outcome w' method h unstopped =
      done-cases (lift asked) after w
        (sym (ap (λ m. m w) (call_method-known msg)) ∙ subst CheckedAs method h)
        λ decision w₁ h₁ h₂.
          done-cases (logged decision) (λ _. rest decision) w₁ h₂
            λ _ w₂ h₃ h₄. elim (Bool-cases (is_allow decision.type)) [
              | inl e ↦
                  let (called, passes) =
                    check_call-passed msg w₂ outcome w'
                      (sym (ap (λ m. m w₂) (after_server-allowed msg decision e)) ∙ h₄) unstopped in
                  (
                    passes,
                    (
                      decision,
                      (lift-done asked decision w w₁ h₁).0,
                      (is_allow_iff decision.type).0 e,
                    ),
                    called,
                  )
              | inr e ↦
                  elim (unstopped
                    (proxy_error pipes sink policy judge options server_name msg decision
                      (codes "mcp_server"))
                    (stopped_rest decision w₂ e h₄)) [ ]
            ]
    where
      CheckedAs : Json → Type 0
      CheckedAs m =
          check_text_method pipes sink policy judge options server_name m msg w ≡ (done outcome, w')

      asked : Outcome Decision
      asked = judge (codes "mcp_server") (record no_kwargs { server_name = some server_name })

      logged : Decision → Action W (Unit {0})
      logged decision =
          log pipes sink policy judge options server_name (codes "mcp_server") decision
            (named_server pipes sink policy judge options server_name)

      rest : Decision → Action W Checked
      rest decision =
          after_server pipes sink policy judge options server_name (codes "tools/call") msg decision

      after : Decision → Action W Checked
      after decision = logged decision >> rest decision

      stopped_rest :
          (decision : Decision) (w₂ : W)
          → is_allow decision.type ≡ false
          → rest decision w₂ ≡ (done outcome, w')
          → outcome
            ≡ stopped (
                proxy_error pipes sink policy judge options server_name msg decision
                  (codes "mcp_server"))
      stopped_rest decision w₂ e h' =
          let same =
            sym (ap (λ m. m w₂) (after_server-stopped msg decision (codes "tools/call") e)) ∙ h' in
          cc
