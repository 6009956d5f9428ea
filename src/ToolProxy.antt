-- ===== src/ToolProxy.antt =====
-- runeguard/proxy.py: a tool is called only behind the policy's decision, which is logged first.
pub mod Gate
use runeguard.Prelude.{
  ℕ, Text, codes, Bool, true, false, List, [], ◌∷◌, ◌==◌, list_eq, nat_eq, if◌then◌else◌, Option,
  none, some, ◌||◌,
}
use runeguard.Outcome.{Outcome, ok, raised}
use runeguard.Decision.{Decision, DecisionType, allow, block, require_approval}
use runeguard.Json.{Fields}
use runeguard.Policy.Loading.{has_key}
use runeguard.Policy.Decide.{Kwargs}
use runeguard.Policy.Arguments.{kwargs_of}
use runeguard.Logger.{Sink, LogOptions, AuditFields, log_decision}
use runeguard.Effects.{Exit, done, refused, failed, Action, pure, lift, refuse, fail, ◌>>=◌, ◌>>◌}

-- `Policy.decide`, or the `decide` of a policy behind approvals.
abbrev pub Judge : Type 0
Judge = Text → Kwargs → Outcome Decision

-- The decision of a judge on arguments that come as a dict.
unfoldable pub judged : Judge → Text → Fields → Outcome Decision
judged judge tool_name fields = elim (kwargs_of fields) [
  | raised ↦ raised
  | ok kwargs ↦ judge tool_name kwargs
]

-- A keyword of `**kwargs` that is a parameter of `call` itself is a `TypeError`.
unfoldable pub names_parameter : Fields → Bool
unfolding has_key
names_parameter kwargs =
    has_key (codes "self") kwargs
    || has_key (codes "tool_name") kwargs
    || has_key (codes "fn") kwargs
    || has_key (codes "audit_fields") kwargs

-- The end of `RuneGuardProxy.call`.
unfoldable pub gated : {W A : Type 0} → Decision → Action W A → Action W A
gated decision run = elim decision.type [
  | block ↦ refuse decision.reason
  | require_approval ↦ refuse decision.reason
  | allow ↦ run
]

module _ {W : Type 0} (sink : Sink W) (judge : Judge) where
  -- `RuneGuardProxy.call`; `fn` is applied to the keyword arguments.
  unfoldable pub call :
      {A : Type 0} → LogOptions → Text → (Fields → Action W A) → AuditFields → Fields → Action W A
  unfolding gated judged names_parameter
  call options tool_name fn audit_fields kwargs = if names_parameter kwargs then fail else do
    decision ← lift (judged judge tool_name kwargs)
    log_decision sink options tool_name decision kwargs audit_fields
    gated decision (fn kwargs)
