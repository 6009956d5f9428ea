-- ===== src/Mcp/Server.antt =====
-- The class `RuneGuardMCPServer` of runeguard/mcp/server.py. The files and the shell are the
-- argument `respond`; what was done stands in a history, the latest event first.
use runeguard.Prelude.{
  Text, codes, Bool, true, false, ◌&&◌, List, [], ◌∷◌, ◌++◌, ◌==◌, list_eq, nat_eq, if◌then◌else◌,
  Option, none, some, starts_with, strip, contains,
}
use runeguard.Prelude.Int.{negsuc}
use runeguard.Json.{Json, null, str, object, Fields, end, field, get, str_of}
use runeguard.Policy.Loading.{find}
use runeguard.Correlation.{Process}
use runeguard.Logger.{Sink, LogOptions, AuditFields}
use runeguard.Effects.{Exit, done, refused, failed, Action, pure, fail, ◌>>=◌, ◌>>◌}
use runeguard.ToolProxy.{Judge, call}
use runeguard.Mcp.Messages.{get_or, dict_or_empty, result_message, error_response, tool_response}

-- What the three tools do.
pub data Operation : Type 0 where
  read_text : Text → Operation
  write_text : Text → Text → Operation
  run_shell : Text → Operation

pub data Event : Type 0 where
  recorded : Text → Fields → Event
  printed : Text → Event
  performed : Operation → Event

abbrev pub History : Type 0
History = List Event

-- What the server finds outside itself, after a history.
pub record Surroundings : Type 0 where
  -- Whether a write to the audit log succeeds.
  pub can_append : History → Text → Fields → Bool
  -- The text that an operation gives: the contents of a file, or the output of a command.
  pub respond : History → Operation → Exit Text
  pub process : History → Process
  pub show : Json → Text
  pub dumps : Json → Text
  -- `json.loads(line)`
  pub loads : Text → Option Json
  -- `str(exc)` of the exception that ended the handling of a message.
  pub error_text : History → Text
  pub version : Text
  -- `TOOL_DEFINITIONS`, which the server only hands out.
  pub tool_definitions : Json

unfoldable pub history_sink : Surroundings → Sink History
history_sink outside = record {
  append = λ path fields history.
      if outside.can_append history path fields
      then (done tt, recorded path fields ∷ history)
      else (failed, history);
  print = λ text history. (done tt, printed text ∷ history);
  process = outside.process;
  show = outside.show;
  dumps = outside.dumps;
}

-- An operation is noted when it is begun.
unfoldable pub perform : Surroundings → Operation → Action History Text
perform outside operation history =
    (outside.respond history operation, performed operation ∷ history)

-- No keyword but these; another one is a `TypeError` of the tool.
unfoldable pub no_more : List Text → Fields → Bool
no_more names end = true
no_more names (field name value rest) = contains names name && no_more names rest

unfoldable pub takes_only : List Text → Fields → Action History (Unit {0})
unfolding no_more
takes_only names kwargs = if no_more names kwargs then pure tt else fail

-- A text; any other value, and none, is a `TypeError` of the tool.
unfoldable pub text_or_fail : Option Json → Action History Text
text_or_fail (some (str text)) = pure text
text_or_fail _ = fail

unfoldable pub required : Text → Fields → Action History Text
unfolding text_or_fail
required key kwargs = text_or_fail (find key kwargs)

-- The functions that the server hands to `call`, on their keyword arguments.
unfoldable pub read_tool : Surroundings → Fields → Action History Text
unfolding takes_only required perform
read_tool outside kwargs = do
  takes_only (codes "path" ∷ []) kwargs
  path ← required (codes "path") kwargs
  perform outside (read_text path)

unfoldable pub write_tool : Surroundings → Fields → Action History Text
unfolding takes_only required perform
write_tool outside kwargs = do
  takes_only (codes "path" ∷ codes "content" ∷ []) kwargs
  path ← required (codes "path") kwargs
  content ← required (codes "content") kwargs
  perform outside (write_text path content)

unfoldable pub shell_tool : Surroundings → Fields → Action History Text
unfolding takes_only required perform
shell_tool outside kwargs = do
  takes_only (codes "command" ∷ []) kwargs
  command ← required (codes "command") kwargs
  perform outside (run_shell command)

-- `arguments.get(key)` for the audit fields, which are texts or `None` here.
unfoldable pub audit_text : Text → Fields → Option Text
audit_text key arguments = elim (get key arguments) [ str text ↦ some text | _ ↦ none ]

abbrev pub audit_fields_of : Text → Option Text → Option Text → AuditFields
audit_fields_of tool_name command path = record {
  tool_call = some tool_name;
  command = command;
  path = path;
  rule_matched = none;
}

module _ (outside : Surroundings) (judge : Judge) (options : LogOptions) where
  -- The branches of `_handle_tool_call`, on the arguments of the call.
  unfoldable pub read_file : Fields → Action History (Option Text)
  unfolding history_sink read_tool audit_text
  read_file arguments =
      call (history_sink outside) judge options (codes "read_file") (read_tool outside)
        (audit_fields_of (codes "read_file") none (audit_text (codes "path") arguments)) arguments
      >>= λ text. pure (some text)

  unfoldable pub write_file : Fields → Action History (Option Text)
  unfolding history_sink write_tool audit_text
  write_file arguments =
      call (history_sink outside) judge options (codes "write_file") (write_tool outside)
        (audit_fields_of (codes "write_file") none (audit_text (codes "path") arguments)) arguments
      >>= λ text.
          pure (some (codes "Written: " ++ str_of outside.show (get (codes "path") arguments)))

  unfoldable pub shell : Fields → Action History (Option Text)
  unfolding history_sink shell_tool audit_text
  shell arguments =
      call (history_sink outside) judge options (codes "shell") (shell_tool outside)
        (audit_fields_of (codes "shell") (audit_text (codes "command") arguments) none) arguments
      >>= λ text. pure (some text)

  -- The text of the result, or `none` for an unknown tool.
  unfoldable pub run_tool : Json → Fields → Action History (Option Text)
  unfolding read_file write_file shell
  run_tool (str tool_name) arguments =
      if tool_name == codes "read_file"
      then read_file arguments
      else if tool_name == codes "write_file"
      then write_file arguments
      else if tool_name == codes "shell"
      then shell arguments
      else pure none
  run_tool _ arguments = pure none

  -- The `except PermissionError` and the two ends of `_handle_tool_call`.
  unfoldable pub answered : Json → Json → Exit (Option Text) → Exit Json
  unfolding tool_response error_response
  answered msg_id name (done (some text)) = done (tool_response msg_id text false)
  answered msg_id name (done none) =
      done
        (error_response msg_id (negsuc 32600) (codes "Unknown tool: " ++ str_of outside.show name))
  answered msg_id name (refused reason) =
      done (tool_response msg_id (codes "[BLOCKED by RuneGuard] " ++ reason) true)
  answered msg_id name failed = failed

  unfoldable pub handle_tool_call : Json → Fields → Action History Json
  unfolding run_tool answered
  handle_tool_call msg_id params history =
      let name = get_or (codes "name") (str []) params in
      let arguments = dict_or_empty (get_or (codes "arguments") (object end) params) in
      let (exit, after) = run_tool name arguments history in (answered msg_id name exit, after)

  -- `msg.get("params", {})`, which has to be a dict.
  unfoldable pub call_of_params : Json → Json → Action History Json
  unfolding handle_tool_call
  call_of_params msg_id (object params) = handle_tool_call msg_id params
  call_of_params msg_id _ = fail

  abbrev pub initialized : Json → Json
  initialized msg_id = result_message msg_id (
      object (
        field (codes "capabilities") (object (field (codes "tools") (object end) end)) (
          field (codes "protocolVersion") (str (codes "2024-11-05")) (
            field (codes "serverInfo")
              (object (
                field (codes "name") (str (codes "runeguard"))
                  (field (codes "version") (str outside.version) end)))
              end))))

  -- The branches of `_handle`; `none` where no response is sent.
  unfoldable pub handle_method : Json → Json → Fields → Action History (Option Json)
  unfolding call_of_params
  handle_method msg_id (str method) msg =
      let listed = field (codes "tools") outside.tool_definitions end in
      if method == codes "initialize"
      then pure (some (initialized msg_id))
      else if method == codes "tools/list"
      then pure (some (result_message msg_id (object listed)))
      else if method == codes "tools/call"
      then (call_of_params msg_id (get_or (codes "params") (object end) msg) >>= λ response.
          pure (some response))
      else if starts_with method (codes "notifications/")
      then pure none
      else pure (some (error_response msg_id (negsuc 32600) (codes "Method not found: " ++ method)))
  handle_method msg_id _ msg = fail

  -- `_handle`
  unfoldable pub handle : Fields → Action History (Option Json)
  unfolding handle_method
  handle msg = handle_method (get (codes "id") msg) (get_or (codes "method") (str []) msg) msg

  unfoldable pub handle_message : Option Json → Action History (Option Json)
  unfolding handle
  handle_message (some (object msg)) = handle msg
  handle_message _ = fail

  -- `except Exception` of `serve`; a `PermissionError` is an exception too.
  unfoldable pub caught : Exit (Option Json) → History → List Json
  caught (done (some response)) history = response ∷ []
  caught (done none) history = []
  caught (refused reason) history = error_response null (negsuc 32699) reason ∷ []
  caught failed history = error_response null (negsuc 32699) (outside.error_text history) ∷ []

  -- `serve` on the lines of the standard input: the responses, and the history after them.
  unfoldable pub serve : List Text → History → List Json × History
  unfolding handle_message caught
  serve [] history = ([], history)
  serve (raw ∷ lines) history =
      let line = strip raw in
      let (exit, after) = handle_message (outside.loads line) history in
      let here = if line == [] then [] else caught exit after in
      let (rest, end_history) = serve lines (if line == [] then history else after) in
      (here ++ rest, end_history)
