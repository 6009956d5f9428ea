-- ===== src/Tests/Serving.antt =====
-- Concrete guarded calls, for the theorems on runeguard/proxy.py, runeguard/redaction.py and
-- runeguard/mcp.
use runeguard.Prelude.{
  ◌≡◌, ◌≢◌, ◌↔◌, ◌⊎◌, refl, ◌≤◌, Text, codes, true, false, List, [], ◌∷◌, ◌++◌, length, starts_with,
  lower, none, some, nat_eq, list_eq,
}
use runeguard.Outcome.{ok}
use runeguard.Decision.{Decision, allow}
use runeguard.Json.{Json, str, array, cons, nil, object, Fields, end, field, get}
use runeguard.Policy.Decide.{no_kwargs, decide}
use runeguard.Correlation.{Process}
use runeguard.Logger.{Sink, LogOptions, no_audit_fields, log_decision}
use runeguard.Redaction.{redact_match}
use runeguard.Redaction.Bounds.{redact_match-bound}
use runeguard.Effects.{done}
use runeguard.ToolProxy.{Judge, judged, names_parameter, call}
use runeguard.ToolProxy.Gate.{call-done_iff}
use runeguard.Mcp.Messages.{get_or, dict_or_empty}
use runeguard.Mcp.Server.{Surroundings, History, history_sink, read_tool, serve}
use runeguard.Mcp.Cleared.{IsGuarded}
use runeguard.Mcp.Serving.{serve-IsGuarded}
use runeguard.Mcp.Checking.{is_allow, tool_call_decision}
use runeguard.Mcp.Forwarding.{Allowed, AllowsArguments, tool_call_decision-Allowed_iff}
use runeguard.Policy.Arguments.{kwargs_of}
use runeguard.Regex.{findall}
use runeguard.Mcp.Proxy.{
  looks_like_read, looks_like_write, argument_path, argument_command, urls_or_hosts,
}
use runeguard.Mcp.Client.{Pipes, passed, stopped, check_client_message}
use runeguard.Mcp.Relaying.{check_client_message-passed}
use runeguard.Tests.Settings.{offline}
use runeguard.Tests.Calls.{plain_system, no_opa}

abbrev pub a_process : Process
a_process = record { current = none; environ = []; pid = 7; ppid = 1; now = codes "now" }

abbrev reading_params : Fields
reading_params =
    field (codes "arguments") (object (field (codes "path") (str (codes "README.md")) end))
      (field (codes "name") (str (codes "read_file")) end)

abbrev reading_call : Fields
reading_call = field (codes "id") (str (codes "1")) (
    field (codes "method") (str (codes "tools/call"))
      (field (codes "params") (object reading_params) end))

abbrev pub shown : Json → Text
shown value = codes "{}"

abbrev outside : Surroundings
outside = record {
  can_append = λ history path fields. true;
  respond = λ history operation. done (codes "text");
  process = λ history. a_process;
  show = shown;
  dumps = shown;
  loads = λ line. some (object reading_call);
  error_text = λ history. codes "error";
  version = codes "1";
  tool_definitions = str [];
}

abbrev pub quietly : LogOptions
quietly = record { audit_log = some (codes "audit.jsonl"); json_logs = false; quiet = true }

abbrev by_policy : Judge
by_policy = decide plain_system offline no_opa

abbrev one_line : List Text
one_line = codes "line" ∷ []

serve-IsGuarded_example :
    IsGuarded outside by_policy quietly (serve outside by_policy quietly one_line []).1
serve-IsGuarded_example = serve-IsGuarded outside by_policy quietly one_line [] tt

abbrev pub everything : Judge
everything tool_name kwargs = ok (record { type = allow; reason = codes "allowed by policy" })

-- A URL in a list, and a host under a key that names an address.
abbrev fetched : Fields
fetched =
    field (codes "pages") (array (cons (str (codes "see https://example.com/a")) nil))
      (field (codes "host") (str (codes "api.example.org")) end)

abbrev fetching_params : Fields
fetching_params =
    field (codes "arguments") (object fetched) (field (codes "name") (str (codes "fetch")) end)

tool_call_decision-Allowed_iff_example :
    Allowed (tool_call_decision offline by_policy (codes "web") (object fetching_params)) ↔ (
      Allowed (
        judged by_policy (codes "mcp_tool") (
          field
            (codes "mcp_tool")
            (str (codes "fetch"))
            (field (codes "server_name") (str (codes "web")) end)))
      × AllowsArguments offline by_policy (codes "web") fetched (codes "fetch"))
unfolding get_or list_eq nat_eq dict_or_empty
tool_call_decision-Allowed_iff_example =
    tool_call_decision-Allowed_iff offline by_policy (codes "web") fetching_params (codes "fetch")
      refl

-- What is searched for addresses there.
fetched_addresses :
    urls_or_hosts (object fetched) [] ≡ codes "https://example.com/a" ∷ codes "api.example.org" ∷ []
unfolding urls_or_hosts lower list_eq nat_eq findall
fetched_addresses = refl

redact_match-bound_example :
    (redact_match (codes "sk-ant-0123456789abcdef") ≡ codes "[REDACTED PRIVATE KEY]")
    ⊎ ((redact_match (codes "sk-ant-0123456789abcdef") ≡ codes "[REDACTED]")
        ⊎ ((front : Text) × (rest : Text) × (redact_match (codes "sk-ant-0123456789abcdef")
              ≡ front ++ (codes "..." ++ rest))
            × ((behind : Text) × (codes "sk-ant-0123456789abcdef" ≡ front ++ behind))
            × ((ahead : Text) × (codes "sk-ant-0123456789abcdef" ≡ ahead ++ rest))
            × (length front ≤ 8)
            × (length rest ≡ 4)
            × (9 ≤ length (codes "sk-ant-0123456789abcdef"))))
redact_match-bound_example = redact_match-bound (codes "sk-ant-0123456789abcdef")

abbrev sink : Sink History
sink = history_sink outside

abbrev path_only : Fields
path_only = field (codes "path") (str (codes "README.md")) end

call-done_iff_example :
    (call sink everything quietly
        (codes "read_file")
        (read_tool outside)
        no_audit_fields
        path_only
        []
      ≡ (done (codes "text"), []))
    ↔ ((names_parameter path_only ≡ false)
        × ((d : Decision) × (h : History) × (judged everything (codes "read_file") path_only ≡ ok d)
            × (d.type ≡ allow)
            × (log_decision sink quietly (codes "read_file") d path_only no_audit_fields []
                ≡ (done tt, h))
            × (read_tool outside path_only h ≡ (done (codes "text"), []))))
call-done_iff_example =
    call-done_iff sink everything quietly (codes "read_file") (read_tool outside) no_audit_fields
      path_only [] (codes "text") []

abbrev pipes : Pipes History
pipes = record {
  forward = λ line history. (done tt, history);
  respond = λ response history. (done tt, history);
  loads = λ line. some (object reading_call);
  url_path = λ uri. uri;
}

abbrev unlogged : LogOptions
unlogged = record { audit_log = none; json_logs = false; quiet = true }

check_of_reading :
    check_client_message pipes sink offline everything unlogged
      (codes "files")
      (object reading_call)
      []
    ≡ (done passed, [])
unfolding check_client_message get list_eq nat_eq starts_with log_decision is_allow
    tool_call_decision get_or judged kwargs_of looks_like_read lower argument_path dict_or_empty
    looks_like_write argument_command urls_or_hosts findall
check_of_reading = refl

reading_unstopped : (response : Json) → passed ≢ stopped response
reading_unstopped response h = cc

check_client_message-passed_example :
    (passed ≡ passed)
    × Allowed
        (everything (codes "mcp_server") (record no_kwargs { server_name = some (codes "files") }))
    × Allowed (
        tool_call_decision offline everything
          (codes "files")
          (get_or (codes "params") (object end) reading_call))
unfolding get list_eq nat_eq
check_client_message-passed_example =
    check_client_message-passed pipes sink offline everything unlogged (codes "files") reading_call
      [] passed [] refl check_of_reading reading_unstopped
