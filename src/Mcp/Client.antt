-- ===== src/Mcp/Client.antt =====
-- `check_client_message` and `_client_to_server` of runeguard/mcp/proxy.py.
use runeguard.Prelude.{
  Text, codes, true, not, List, [], ◌∷◌, ◌++◌, ◌==◌, list_eq, nat_eq, if◌then◌else◌, Option, none,
  some, contains, starts_with,
}
use runeguard.Prelude.Int.{negsuc}
use runeguard.Decision.{Decision, allow}
use runeguard.Json.{Json, int, str, object, Fields, end, field, get, str_of}
use runeguard.Policy.Settings.{Policy}
use runeguard.Policy.Decide.{no_kwargs}
use runeguard.Redaction.{redact_value, redact_fields, redact_text}
use runeguard.Logger.{Sink, LogOptions, no_audit_fields, log_decision, type_text, or_json}
use runeguard.Effects.{Action, pure, lift, fail, ◌>>=◌, ◌>>◌}
use runeguard.ToolProxy.{Judge}
use runeguard.Mcp.Messages.{get_or, dict_or_empty, error_message}
use runeguard.Mcp.Checking.{is_allow, tool_call_decision, resource_read_decision}

-- What is not the program's own: the pipes, and the library's functions on texts.
pub record Pipes (W : Type 0) : Type 0 where
  -- A line to the upstream server, and a message to the client.
  pub forward : Text → Action W (Unit {0})
  pub respond : Json → Action W (Unit {0})
  -- `json.loads(line)`
  pub loads : Text → Option Json
  -- `urlparse(uri).path`
  pub url_path : Text → Text

-- What `check_client_message` returns: `None`, `(True, None)` or `(False, response)`.
pub data Checked : Type 0 where
  unchecked : Checked
  passed : Checked
  stopped : Json → Checked

abbrev checked_methods : List Text
checked_methods =
    codes "tools/list"
    ∷ codes "tools/call"
    ∷ codes "resources/list"
    ∷ codes "resources/read"
    ∷ codes "sampling/createMessage"
    ∷ codes "prompts/list"
    ∷ codes "prompts/get"
    ∷ []

abbrev list_methods : List Text
list_methods = codes "tools/list" ∷ codes "resources/list" ∷ codes "prompts/list" ∷ []

abbrev read_methods : List Text
read_methods = codes "resources/read" ∷ codes "prompts/get" ∷ []

-- `_params`
unfoldable pub params_of : Fields → Fields
params_of msg = dict_or_empty (get_or (codes "params") (object end) msg)

module _ {W : Type 0} (pipes : Pipes W) (sink : Sink W) (policy : Policy) (judge : Judge)
    (options : LogOptions) (server_name : Text) where
  -- `_log`
  unfoldable pub log : Text → Decision → Fields → Action W (Unit {0})
  log tool_name decision kwargs =
      log_decision sink (record options { quiet = true }) tool_name decision (redact_fields kwargs)
        no_audit_fields

  -- `_error`
  unfoldable pub proxy_error : Fields → Decision → Text → Json
  unfolding type_text
  proxy_error msg decision tool_name =
      let reason = redact_text decision.reason in
      error_message (get (codes "id") msg) (
        object (
          field (codes "code") (int (negsuc 32000)) (
            field (codes "data")
              (redact_value (
                object (
                  field (codes "decision") (str (type_text decision.type)) (
                    field (codes "reason") (str reason) (
                      field (codes "server") (str server_name)
                        (field (codes "tool") (str tool_name) end))))))
              (field (codes "message") (str (codes "RuneGuard blocked: " ++ reason)) end))))

  abbrev pub named_server : Fields
  named_server = field (codes "server_name") (str server_name) end

  -- The end of a check: an error to the client, unless the decision allows.
  unfoldable pub conclude : Fields → Decision → Text → Checked
  unfolding proxy_error
  conclude msg decision tool_name =
      if is_allow decision.type then passed else stopped (proxy_error msg decision tool_name)

  unfoldable pub check_list : Text → Action W Checked
  unfolding log
  check_list method =
      log method (record { type = allow; reason = codes "MCP list request allowed" }) named_server
      >> pure passed

  unfoldable pub check_resource : Text → Fields → Action W Checked
  unfolding log params_of conclude
  check_resource method msg = do
    decision ←
        lift
          (resource_read_decision policy judge server_name pipes.url_path sink.show (params_of msg))
    log method decision (params_of msg)
    pure (conclude msg decision method)

  unfoldable pub check_sampling : Fields → Action W Checked
  unfolding log params_of
  check_sampling msg =
      log (codes "sampling/createMessage")
        (record { type = allow; reason = codes "MCP sampling request logged" })
        (field (codes "params") (redact_value (object (params_of msg))) named_server)
      >> pure passed

  unfoldable pub check_call : Fields → Action W Checked
  unfolding log params_of conclude
  check_call msg = do
    decision ←
        lift
          (tool_call_decision policy judge server_name (get_or (codes "params") (object end) msg))
    let tool_name = str_of sink.show (or_json (get (codes "name") (params_of msg)) (str []))
    log (codes "tools/call") decision (
        field (codes "arguments")
          (object (dict_or_empty (get_or (codes "arguments") (object end) (params_of msg))))
          (field (codes "server_name") (str server_name)
            (field (codes "tool_name") (str tool_name) end)))
    pure (conclude msg decision (if tool_name == [] then codes "tools/call" else tool_name))

  -- The checks behind the one of the server.
  unfoldable pub check_method : Text → Fields → Action W Checked
  unfolding check_list check_resource check_sampling check_call
  check_method method msg =
      if contains list_methods method
      then check_list method
      else if contains read_methods method
      then check_resource method msg
      else if method == codes "sampling/createMessage"
      then check_sampling msg
      else check_call msg

  unfoldable pub after_server : Text → Fields → Decision → Action W Checked
  unfolding check_method proxy_error
  after_server method msg decision =
      if is_allow decision.type
      then check_method method msg
      else pure (stopped (proxy_error msg decision (codes "mcp_server")))

  unfoldable pub check_known : Text → Fields → Action W Checked
  unfolding log after_server
  check_known method msg = do
    decision ←
        lift (judge (codes "mcp_server") (record no_kwargs { server_name = some server_name }))
    log (codes "mcp_server") decision named_server
    after_server method msg decision

  unfoldable pub check_unknown : Text → Action W Checked
  unfolding log
  check_unknown method =
      log method
        (record { type = allow; reason = codes "unrecognized MCP method forwarded: " ++ method })
        (field (codes "server_name") (str server_name)
          (field (codes "warning") (str (codes "method not in policy check list")) end))
      >> pure unchecked

  -- `check_client_message`; a message that is no dict has no `get`.
  unfoldable pub check_text_method : Json → Fields → Action W Checked
  unfolding check_known check_unknown
  check_text_method (str method) msg =
      if starts_with method (codes "notifications/")
      then pure unchecked
      else if not (contains checked_methods method)
      then check_unknown method
      else check_known method msg
  check_text_method _ msg = pure unchecked

  unfoldable pub check_client_message : Json → Action W Checked
  unfolding check_text_method
  check_client_message (object msg) = check_text_method (get (codes "method") msg) msg
  check_client_message _ = fail

  -- One round of the loop of `_client_to_server`, on a line.
  unfoldable pub deliver : Text → Checked → Action W (Unit {0})
  deliver line unchecked = pipes.forward line
  deliver line passed = pipes.forward line
  deliver line (stopped response) = pipes.respond response

  unfoldable pub relay_line : Text → Action W (Unit {0})
  unfolding check_client_message deliver
  relay_line line = elim (pipes.loads line) [
    | none ↦ pipes.forward line
    | some msg ↦ check_client_message msg >>= deliver line
  ]

  -- `_client_to_server` on the lines of the client; an exception ends it.
  unfoldable pub client_to_server : List Text → Action W (Unit {0})
  unfolding relay_line
  client_to_server [] = pure tt
  client_to_server (line ∷ lines) = relay_line line >> client_to_server lines
