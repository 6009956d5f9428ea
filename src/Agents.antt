-- ===== src/Agents.antt =====
-- runeguard/agents/base.py and runeguard/agents/openai_tools.py: adapters that route the tools of
-- an agent through the proxy. runeguard/agents/openai_codex.py is in Agents/Codex.antt, and
-- runeguard/agent.py in Agents/Running.antt.
pub mod Codex
pub mod Guarding
pub mod Running
use runeguard.Prelude.{
  Text, codes, ◌||◌, List, [], ◌∷◌, ◌==◌, list_eq, nat_eq, if◌then◌else◌, Option, none, some,
}
use runeguard.Json.{Fields}
use runeguard.Policy.Loading.{has_key}
use runeguard.Logger.{Sink, LogOptions, no_audit_fields}
use runeguard.Effects.{Action, fail}
use runeguard.ToolProxy.{Judge, call}

-- A dict of tools by their names.
abbrev pub Tools : Type 0 → Type 0 → Type 0
Tools W A = List (Text × (Fields → Action W A))

unfoldable pub tool_named : {W A : Type 0} → Text → Tools W A → Option (Fields → Action W A)
tool_named name [] = none
tool_named name ((other, func) ∷ tools) = if name == other then some func else tool_named name tools

-- `self._tools[name] = func`
unfoldable pub register : {W A : Type 0} → Text → (Fields → Action W A) → Tools W A → Tools W A
register name func [] = (name, func) ∷ []
register name func ((other, old) ∷ tools) =
    let rest = register name func tools in
    if name == other then (other, func) ∷ tools else (other, old) ∷ rest

module _ {W : Type 0} (sink : Sink W) (judge : Judge) (options : LogOptions) where
  -- `GuardedAgent.guarded_call`. A keyword that is one of its parameters is a `TypeError`.
  unfoldable pub guarded_call : {A : Type 0} → Text → (Fields → Action W A) → Fields → Action W A
  unfolding has_key
  guarded_call tool_name func kwargs =
      if has_key (codes "self") kwargs
        || has_key (codes "tool_name") kwargs
        || has_key (codes "func") kwargs
      then fail
      else call sink judge options tool_name func no_audit_fields kwargs

  -- `GuardedToolRegistry.call`
  unfoldable pub call_registered : {A : Type 0} → Tools W A → Text → Fields → Action W A
  unfolding has_key tool_named guarded_call
  call_registered tools name kwargs =
      if has_key (codes "self") kwargs || has_key (codes "name") kwargs
      then fail
      else elim (tool_named name tools) [ none ↦ fail | some func ↦ guarded_call name func kwargs ]
