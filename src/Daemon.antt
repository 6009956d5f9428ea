-- ===== src/Daemon.antt =====
-- runeguard/daemon.py: a client of the socket asks for a decision and gets one answer.
pub mod Answers
use runeguard.Prelude.{
  Text, codes, Bool, true, false, List, [], ◌∷◌, ◌==◌, list_eq, nat_eq, if◌then◌else◌, Option, none,
  some, contains,
}
use runeguard.Outcome.{Outcome, ok, raised}
use runeguard.Decision.{Decision, DecisionType, allow, block, require_approval}
use runeguard.Json.{Json, boolean, str, array, object, Fields, end, field, get, truthy, str_of}
use runeguard.Policy.Loading.{has_key}
use runeguard.Logger.{Sink, LogOptions, AuditFields, log_decision, type_text, or_json}
use runeguard.ToolProxy.{Judge, judged}
use runeguard.Mcp.Server.{audit_text}
use runeguard.Effects.{Exit, done, refused, failed, Action, pure, fail, lift, ◌>>=◌, ◌>>◌}

-- A connection that was accepted, and what Python makes of bytes and of exceptions.
pub record Connection (W : Type 0) : Type 0 where
  -- `conn.recv(65536)`
  pub recv : Action W Text
  -- `json.loads(data.decode("utf-8"))`, `none` where one of them raises.
  pub loads : Text → Option Json
  -- `conn.sendall(json.dumps(response).encode("utf-8"))`
  pub sendall : Fields → Action W (Unit {0})
  pub close : Action W (Unit {0})
  -- `str(exc)` of the exception that ended the handling.
  pub error_text : W → Text

unfoldable pub response : Text → Text → Bool → Fields
response type reason is_allowed =
    field (codes "allow") (boolean is_allowed)
      (field (codes "reason") (str reason) (field (codes "type") (str type) end))

-- `decision.type == DecisionType.ALLOW`
unfoldable pub is_allow_type : DecisionType → Bool
is_allow_type allow = true
is_allow_type block = false
is_allow_type require_approval = false

abbrev pub envelope_keys : List Text
envelope_keys = codes "tool" ∷ codes "tool_name" ∷ codes "pid" ∷ codes "ppid" ∷ codes "comm" ∷ []

-- The keyword arguments: the request without the keys of its envelope.
unfoldable pub request_kwargs : Fields → Fields
request_kwargs end = end
request_kwargs (field name value rest) =
    let kwargs = request_kwargs rest in
    if contains envelope_keys name then kwargs else field name value kwargs

-- `request.get("tool_name") or request.get("tool")`
unfoldable pub requested_tool : Fields → Json
unfolding or_json
requested_tool request = or_json (get (codes "tool_name") request) (get (codes "tool") request)

-- The name of a tool as the policy sees it. A list or a dict is no member of a set (`TypeError`);
-- any other value is told from the policy's tools as its text is.
unfoldable pub tool_text : (Json → Text) → Json → Outcome Text
tool_text show (array items) = raised
tool_text show (object fields) = raised
tool_text show value = ok (str_of show value)

-- `audit_log` and `json_logs` of the daemon; it never asks for quiet.
unfoldable pub daemon_options : Option Text → Bool → LogOptions
daemon_options audit_log json_logs = record {
  audit_log = audit_log;
  json_logs = json_logs;
  quiet = false;
}

unfoldable pub request_audit_fields : Text → Fields → AuditFields
unfolding audit_text or_json
request_audit_fields tool_name kwargs = record {
  tool_call = some tool_name;
  command = audit_text (codes "command") kwargs;
  path = elim (or_json (get (codes "path") kwargs) (get (codes "pathname") kwargs)) [
    | str text ↦ some text
    | _ ↦ none
  ];
  rule_matched = none;
}

module _ {W : Type 0} (sink : Sink W) (judge : Judge) (options : LogOptions) where
  -- `self.policy.decide(tool_name, **kwargs)`, which takes no keyword `self`.
  unfoldable pub request_decision : Text → Fields → Outcome Decision
  unfolding judged has_key
  request_decision tool_name kwargs =
      if has_key (codes "self") kwargs then raised else judged judge tool_name kwargs

  -- `decide_request` behind the test on the name.
  unfoldable pub decide_named : Text → Fields → Action W Fields
  unfolding request_decision request_audit_fields type_text is_allow_type response
  decide_named tool_name kwargs = do
    decision ← lift (request_decision tool_name kwargs)
    log_decision sink options tool_name decision kwargs (request_audit_fields tool_name kwargs)
    pure (response (type_text decision.type) decision.reason (is_allow_type decision.type))

  unfoldable pub decide_request : Fields → Action W Fields
  unfolding requested_tool tool_text decide_named request_kwargs
  decide_request request =
      if truthy (requested_tool request)
      then (do
        tool_name ← lift (tool_text sink.show (requested_tool request))
        decide_named tool_name (request_kwargs request))
      else pure (response (codes "ERROR") (codes "missing tool_name") false)

  -- `decide_request` on what was parsed: a value that is no dict has no `get`.
  unfoldable pub decide_value : Option Json → Action W Fields
  unfolding decide_request
  decide_value (some (object request)) = decide_request request
  decide_value _ = fail

  module _ (connection : Connection W) where
    -- The `try` of `_handle_client`.
    unfoldable pub respond_to : Text → Action W Fields
    unfolding decide_value
    respond_to [] = pure (response (codes "ERROR") (codes "empty request") false)
    respond_to (c ∷ data') = decide_value (connection.loads (c ∷ data'))

    -- The `except` of `_handle_client`.
    unfoldable pub caught : Exit Fields → W → Fields
    unfolding response
    caught (done answer) w = answer
    caught (refused reason) w = response (codes "ERROR") reason false
    caught failed w = response (codes "ERROR") (connection.error_text w) false

    -- The response as `finally` finds it, and the world.
    unfoldable pub answered : W → Fields × W
    unfolding respond_to caught
    answered w = let (exit, w') = (connection.recv >>= respond_to) w in (caught exit w', w')

    unfoldable pub handle_client : Action W (Unit {0})
    unfolding answered
    handle_client w =
        let (answer, w') = answered w in (connection.sendall answer >> connection.close) w'
