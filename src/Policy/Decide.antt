-- ===== src/Policy/Decide.antt =====
-- `Policy.decide` of runeguard/policy.py. The keyword arguments are those that the method reads; a
-- caller that leaves one out, or passes `None`, has `none` there. `command` is never `None` in a
-- call of this program.
use runeguard.Prelude.{
  Text, codes, not, ◌||◌, ◌&&◌, List, [], ◌∷◌, ◌++◌, Option, none, some, ◌==◌, contains, drop,
  starts_with, if◌then◌else◌, list_eq, nat_eq,
}
use runeguard.Outcome.{Outcome, ok, ◌>>=◌}
use runeguard.Decision.{Decision, allow, block, require_approval}
use runeguard.Opa.{OpaSystem, opa_decide}
use runeguard.Policy.Settings.{Policy}
use runeguard.Policy.Glob.{fnmatch}
use runeguard.Policy.Url.{hostname}
use runeguard.Policy.FilePath.{System}
use runeguard.Policy.Domains.{is_allowed_domain}
use runeguard.Policy.Commands.{command_tokens, matches_command_pattern}
use runeguard.Policy.Protected.{is_protected_path}

pub record Kwargs : Type 0 where
  pub path : Option Text
  pub pathname : Option Text
  pub command : Option Text
  pub argv : Option (List Text)
  pub url : Option Text
  pub host : Option Text
  pub server_name : Option Text
  pub server : Option Text
  pub tool_name : Option Text
  pub mcp_tool : Option Text

abbrev pub no_kwargs : Kwargs
no_kwargs = record {
  path = none;
  pathname = none;
  command = none;
  argv = none;
  url = none;
  host = none;
  server_name = none;
  server = none;
  tool_name = none;
  mcp_tool = none;
}

-- `kwargs.get(key, "")`
unfoldable pub get_text : Option Text → Text
get_text none = []
get_text (some text) = text

-- `kwargs.get(first) or kwargs.get(second) or ""`
unfoldable pub either_text : Option Text → Option Text → Text
unfolding get_text
either_text first second = if get_text first == [] then get_text second else get_text first

abbrev pub file_tools : List Text
file_tools = codes "read_file" ∷ codes "write_file" ∷ codes "open" ∷ codes "openat" ∷ []

abbrev pub shell_tools : List Text
shell_tools = codes "shell" ∷ codes "execve" ∷ []

abbrev pub network_tools : List Text
network_tools =
    codes "http_post" ∷ codes "external_http_post" ∷ codes "connect" ∷ codes "socket" ∷ []

abbrev pub mcp_tools : List Text
mcp_tools = codes "mcp_server" ∷ codes "mcp_tool" ∷ []

-- A `return Decision(DecisionType.BLOCK, …)`.
abbrev pub blocked : Text → Text → Option Decision
blocked rule value = some (record { type = block; reason = rule ++ value })

abbrev protected_rule : Text
protected_rule = codes "protected path access: "

-- The first blocked pattern that the command matches.
unfoldable pub first_blocked : Text → Option (List Text) → List Text → Option Text
first_blocked command argv [] = none
first_blocked command argv (pattern ∷ patterns) =
    let later = first_blocked command argv patterns in
    if fnmatch command pattern || matches_command_pattern pattern command argv
    then some pattern
    else later

-- The decision of the first check that returns one.
unfoldable pub settle :
    Option Decision → Option Decision → Option Decision → Option Decision → Decision
settle (some d) _ _ _ = d
settle none (some d) _ _ = d
settle none none (some d) _ = d
settle none none none (some d) = d
settle none none none none = record { type = allow; reason = codes "allowed by policy" }

module _ (system : System) (policy : Policy) where
  -- The loop of `_protected_shell_arg`.
  unfoldable pub first_protected : List Text → Option Text
  first_protected [] = none
  first_protected (token ∷ tokens) =
      let later = first_protected tokens in
      if token == [] || starts_with token (codes "-")
      then later
      else if is_protected_path system policy token
      then some token
      else later

  unfoldable pub protected_shell_arg : Text → Option (List Text) → Option Text
  unfolding first_protected
  protected_shell_arg command argv = first_protected (drop 1 (command_tokens command argv))

  -- Each check is the body of one `if tool_name in {…}`: `none` falls through to the next.
  unfoldable pub check_file : Kwargs → Option Decision
  unfolding either_text
  check_file kwargs =
      let path = either_text kwargs.path kwargs.pathname in
      if is_protected_path system policy path then blocked protected_rule path else none

  unfoldable pub check_shell : Kwargs → Option Decision
  unfolding get_text
  check_shell kwargs =
      let command = get_text kwargs.command in
      elim (first_blocked command kwargs.argv policy.blocked_commands) [
        | some pattern ↦ blocked (codes "blocked shell command pattern: ") pattern
        | none ↦ elim (protected_shell_arg command kwargs.argv) [
          | some token ↦ blocked protected_rule token
          | none ↦ none
        ]
      ]

  unfoldable pub check_domain : Text → Text → Option Decision
  check_domain url domain =
      if domain == []
      then blocked (codes "invalid or missing URL: ") url
      else if is_allowed_domain policy domain
      then none
      else blocked (codes "domain not allowlisted: ") domain

  unfoldable pub check_network : Kwargs → Outcome (Option Decision)
  unfolding get_text check_domain
  check_network kwargs = do
    let url = get_text kwargs.url
    name ← hostname url
    ok (check_domain url (if name == [] then get_text kwargs.host else name))

  unfoldable pub check_mcp : Kwargs → Option Decision
  unfolding either_text
  check_mcp kwargs =
      let server_name = either_text kwargs.server_name kwargs.server in
      let mcp_tool_name = either_text kwargs.tool_name kwargs.mcp_tool in
      if not (server_name == []) && contains policy.denied_mcp_servers server_name
      then blocked (codes "denied MCP server: ") server_name
      else if not (policy.allowed_mcp_servers == [])
          && (not (server_name == []) && not (contains policy.allowed_mcp_servers server_name))
      then blocked (codes "MCP server not allowlisted: ") server_name
      else if not (policy.allowed_mcp_tools == [])
          && (not (mcp_tool_name == []) && not (contains policy.allowed_mcp_tools mcp_tool_name))
      then blocked (codes "MCP tool not allowlisted: ") mcp_tool_name
      else if not (mcp_tool_name == []) && contains policy.denied_mcp_tools mcp_tool_name
      then blocked (codes "denied MCP tool: ") mcp_tool_name
      else none

  abbrev guarded : List Text → Text → Option Decision → Option Decision
  guarded tools tool_name check = if contains tools tool_name then check else none

  -- The checks of the YAML backend, behind the test for approval.
  unfoldable pub checks : Text → Kwargs → Outcome Decision
  unfolding settle
  checks tool_name kwargs = do
    network ← if contains network_tools tool_name then check_network kwargs else ok none
    ok (
        settle (guarded file_tools tool_name (check_file kwargs))
          (guarded shell_tools tool_name (check_shell kwargs)) network
          (guarded mcp_tools tool_name (check_mcp kwargs)))

  unfoldable pub decide : OpaSystem Kwargs → Text → Kwargs → Outcome Decision
  unfolding checks
  decide opa tool_name kwargs =
      if policy.policy_backend == codes "opa"
      then ok (opa_decide opa policy tool_name kwargs)
      else if contains policy.approval_tools tool_name
      then ok (record {
        type = require_approval;
        reason = tool_name ++ codes " requires human approval";
      })
      else checks tool_name kwargs
