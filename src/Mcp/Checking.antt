-- ===== src/Mcp/Checking.antt =====
-- The decisions of `MCPPolicyProxy` of runeguard/mcp/proxy.py on a call and on a resource.
use runeguard.Prelude.{
  Text, codes, Bool, true, false, not, ◌&&◌, List, [], ◌∷◌, ◌++◌, ◌==◌, list_eq, nat_eq,
  if◌then◌else◌, Option, none, some, starts_with, has_part,
}
use runeguard.Outcome.{Outcome, ok, raised, ◌>>=◌}
use runeguard.Decision.{Decision, DecisionType, allow, block, require_approval}
use runeguard.Json.{Json, str, object, Fields, end, field, get, str_of}
use runeguard.Policy.Settings.{Policy}
use runeguard.Policy.Decide.{no_kwargs}
use runeguard.Logger.{or_json}
use runeguard.ToolProxy.{Judge, judged}
use runeguard.Mcp.Messages.{get_or, dict_or_empty}
use runeguard.Mcp.Proxy.{
  looks_like_read, looks_like_write, is_writable, argument_path, argument_command, urls_or_hosts,
}

unfoldable pub is_allow : DecisionType → Bool
is_allow allow = true
is_allow block = false
is_allow require_approval = false

-- A check that returns a decision unless it allows; `none` where the code goes on.
unfoldable pub refusal : Outcome Decision → Outcome (Option Decision)
unfolding is_allow
refusal raised = raised
refusal (ok decision) = ok (if is_allow decision.type then none else some decision)

-- `if test: ...` around a check.
unfoldable pub only_if : Bool → Outcome (Option Decision) → Outcome (Option Decision)
only_if test check = if test then check else ok none

-- The second check where the first goes on.
unfoldable pub and_then :
    Outcome (Option Decision) → Outcome (Option Decision) → Outcome (Option Decision)
and_then raised next = raised
and_then (ok (some decision)) next = ok (some decision)
and_then (ok none) next = next

-- `method.lower()` and the like on a value that has to be a text.
unfoldable pub text_or_raise : Json → Outcome Text
text_or_raise (str text) = ok text
text_or_raise _ = raised

abbrev pub as_url : Text → Text
as_url address = if has_part address (codes "://") then address else codes "https://" ++ address

abbrev pub no_refusal : Decision
no_refusal = record { type = allow; reason = codes "MCP tool call allowed" }

unfoldable pub decided : Outcome (Option Decision) → Outcome Decision
decided raised = raised
decided (ok none) = ok no_refusal
decided (ok (some decision)) = ok decision

module _ (policy : Policy) (judge : Judge) (server_name : Text) where
  unfoldable pub path_call : Text → Text → Outcome (Option Decision)
  unfolding refusal
  path_call tool_name path = refusal (judge tool_name (record no_kwargs { path = some path }))

  unfoldable pub check_writable : Text → Outcome (Option Decision)
  check_writable path =
      if not (policy.writable_paths == []) && not (is_writable policy path)
      then ok (
          some
            (record { type = block; reason = codes "write path not allowed by policy: " ++ path }))
      else ok none

  -- The loop of `_tool_call_decision` over the addresses.
  unfoldable pub check_addresses : List Text → Outcome (Option Decision)
  unfolding and_then refusal
  check_addresses [] = ok none
  check_addresses (address ∷ addresses) =
      and_then
        (refusal (judge (codes "connect") (record no_kwargs { url = some (as_url address) })))
        (check_addresses addresses)

  -- The checks of `_tool_call_decision` behind the first, on the name of the tool.
  unfoldable pub check_read : Text → Text → Outcome (Option Decision)
  unfolding only_if path_call
  check_read tool_name path =
      only_if (looks_like_read tool_name && not (path == [])) (path_call (codes "read_file") path)

  unfoldable pub check_write : Text → Text → Outcome (Option Decision)
  unfolding only_if and_then path_call check_writable
  check_write tool_name path =
      only_if (looks_like_write tool_name && not (path == []))
        (and_then (path_call (codes "write_file") path) (check_writable path))

  unfoldable pub check_command : Text → Outcome (Option Decision)
  unfolding only_if refusal
  check_command command =
      only_if (not (command == []))
        (refusal (judge (codes "shell") (record no_kwargs { command = some command })))

  unfoldable pub check_arguments : Fields → Text → Outcome (Option Decision)
  unfolding and_then check_read check_write check_command check_addresses
  check_arguments arguments tool_name = and_then (check_read tool_name (argument_path arguments)) (
      and_then (check_write tool_name (argument_path arguments)) (
        and_then (check_command (argument_command arguments))
          (check_addresses (urls_or_hosts (object arguments) []))))

  -- `_tool_call_decision`, on `msg.get("params", {})`.
  unfoldable pub tool_call_decision : Json → Outcome Decision
  unfolding decided and_then refusal text_or_raise check_arguments
  tool_call_decision (object params) =
      let tool_name = get_or (codes "name") (str []) params in
      let arguments = dict_or_empty (get_or (codes "arguments") (object end) params) in
      decided (
        and_then
          (refusal (
            judged judge (codes "mcp_tool") (
              field (codes "mcp_tool") tool_name
                (field (codes "server_name") (str server_name) end))))
          (text_or_raise tool_name >>= check_arguments arguments))
  tool_call_decision _ = raised

  -- `url_path` is `urlparse(uri).path`, and `show` is `str`.
  unfoldable pub resource_read_decision : (Text → Text) → (Json → Text) → Fields → Outcome Decision
  unfolding or_json str_of
  resource_read_decision url_path show params =
      let value =
        or_json (get (codes "uri") params) (or_json (get (codes "path") params) (str [])) in
      let uri = str_of show value in
      let path = if starts_with uri (codes "file://") then url_path uri else uri in
      judge (codes "read_file") (record no_kwargs { path = some path })
