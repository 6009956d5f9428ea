-- ===== src/Tests/Adapters.antt =====
-- Concrete requests, for the theorems on runeguard/daemon.py, runeguard/agents and
-- runeguard/agent.py.
use runeguard.Prelude.{
  ◌≡◌, ◌↔◌, ◌⊎◌, refl, Text, codes, true, [], ◌∷◌, contains, none, some, nat_eq, list_eq,
}
use runeguard.Prelude.Int.{pos}
use runeguard.Json.{str, object, Fields, field, end}
use runeguard.Policy.Settings.{Policy}
use runeguard.Logger.{log_decision}
use runeguard.Effects.{done, Action}
use runeguard.ToolProxy.{Judge}
use runeguard.Daemon.{Connection, answered}
use runeguard.Daemon.Answers.{SaysAllow, ClearedClient, answered-allow_iff}
use runeguard.Agents.Codex.{checks_or_call, guarded}
use runeguard.Agents.Guarding.{Passes, guarded-done_iff}
use runeguard.Agents.Running.{
  AgentWrapConfig, Machine, supported_agents, has_executable, agent_policy, chosen_backend,
  run_behind, run_agent,
}
use runeguard.Agents.Running.Cleared.{run_agent-cleared}
use runeguard.Docker.Running.{AllowsCommand}
use runeguard.Tests.Settings.{offline}
use runeguard.Tests.Calls.{plain_system}
use runeguard.Tests.Serving.{quietly, everything}
use runeguard.Tests.Containers.{Copies, host, sink}

-- A client that asks for a command.
abbrev asked : Fields
asked = field (codes "command") (str (codes "ls")) (field (codes "tool") (str (codes "shell")) end)

abbrev connection : Connection Copies
connection = record {
  recv = λ copies. (done (codes "{}"), copies);
  loads = λ data'. some (object asked);
  sendall = λ answer copies. (done tt, copies);
  close = λ copies. (done tt, copies);
  error_text = λ copies. codes "error";
}

answered-allow_iff_example :
    SaysAllow (answered sink everything quietly connection []).0
    ↔ ClearedClient sink everything quietly connection []
answered-allow_iff_example = answered-allow_iff sink everything quietly connection []

abbrev arguments : Fields
arguments =
    field (codes "command") (str (codes "ls")) (field (codes "path") (str (codes "README.md")) end)

abbrev a_tool : Unit {0} → Fields → Action Copies Text
a_tool args kwargs copies = (done (codes "text"), copies)

guarded-done_iff_example :
    (guarded sink everything quietly (codes "look") a_tool tt arguments []
      ≡ (done (codes "text"), []))
    ↔ ((w₁ : Copies) × Passes sink everything quietly
          (codes "look")
          (checks_or_call sink.show (codes "look") arguments)
          []
          w₁
        × (a_tool tt arguments w₁ ≡ (done (codes "text"), [])))
guarded-done_iff_example =
    guarded-done_iff sink everything quietly (codes "look") a_tool tt arguments [] (codes "text") []

abbrev machine : Machine Copies
machine = record {
  which = λ copies name. true;
  from_file = λ path copies. (done offline, copies);
  docker_info = λ copies. (done true, copies);
  start = λ command workspace env copies. (done (pos 3), copies);
  environ = λ copies. [];
  user_id = λ copies. codes "65532:65532";
}

abbrev wrapped : AgentWrapConfig
wrapped = record {
  agent = codes "codex";
  command = codes "codex" ∷ [];
  workspace = codes ".";
  policy_path = codes "runeguard.yaml";
  audit_log = codes ".runeguard/audit.jsonl";
  image = codes "python:3.12-slim";
  backend = some (codes "host");
}

abbrev judges : Policy → Judge
judges policy = everything

ran_here : run_agent host plain_system sink machine judges wrapped none [] ≡ (done (pos 3), [])
unfolding run_agent log_decision list_eq nat_eq
ran_here = refl

run_agent-cleared_example :
    (contains supported_agents wrapped.agent ≡ true)
    × (has_executable host plain_system sink machine judges wrapped [] wrapped.command ≡ true)
    × ((policy : Policy) × (w₁ : Copies) × (backend : Text) × (w₂ : Copies) × (agent_policy host
            plain_system sink machine judges wrapped none []
          ≡ (done policy, w₁))
        × AllowsCommand (judges policy) wrapped.command
        × (chosen_backend host plain_system sink machine judges wrapped wrapped.backend w₁
            ≡ (done backend, w₂))
        × ((backend ≡ codes "docker") ⊎ (backend ≡ codes "host"))
        × (run_behind host plain_system sink machine judges wrapped policy backend w₂
            ≡ (done (pos 3), [])))
run_agent-cleared_example =
    run_agent-cleared host plain_system sink machine judges wrapped none [] (pos 3) [] ran_here
