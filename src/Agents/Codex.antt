-- ===== src/Agents/Codex.antt =====
-- runeguard/agents/openai_codex.py: a decorated tool runs behind checks that are read off its
-- keyword arguments, which are values of JSON here.
use runeguard.Prelude.{
  Text, codes, true, false, ◌||◌, List, [], ◌∷◌, ◌++◌, contains, list_eq, nat_eq, if◌then◌else◌,
  Option, none, some,
}
use runeguard.Outcome.{Outcome, raised}
use runeguard.Decision.{Decision}
use runeguard.Json.{Json, null, str, Fields, end, field, get, str_of}
use runeguard.Policy.Loading.{has_key}
use runeguard.Logger.{Sink, LogOptions, AuditFields, log_decision, or_json}
use runeguard.Effects.{Action, pure, lift, ◌>>=◌, ◌>>◌}
use runeguard.ToolProxy.{Judge, judged, gated}

abbrev pub path_tool_names : List Text
path_tool_names = codes "read_file" ∷ codes "write_file" ∷ codes "open" ∷ codes "openat" ∷ []

-- A question to the policy, with the fields of its record.
pub record Check : Type 0 where
  pub tool_name : Text
  pub kwargs : Fields
  pub command : Option Text
  pub path : Option Text

-- `show` is Python's `str`.
module _ (show : Json → Text) where
  unfoldable pub command_check : Json → Json → List Check
  command_check null argv = []
  command_check command argv =
      record {
        tool_name = codes "shell";
        kwargs =
            field (codes "argv") argv (field (codes "command") (str (str_of show command)) end);
        command = some (str_of show command);
        path = none;
      }
      ∷ []

  unfoldable pub path_check : Text → Text → Json → List Check
  path_check function_name key null = []
  path_check function_name key path =
      record {
        tool_name =
            if contains path_tool_names function_name then function_name else codes "read_file";
        kwargs = field key (str (str_of show path)) end;
        command = none;
        path = some (str_of show path);
      }
      ∷ []

  unfoldable pub url_check : Json → List Check
  url_check null = []
  url_check url =
      record {
        tool_name = codes "http_post";
        kwargs = field (codes "url") (str (str_of show url)) end;
        command = none;
        path = none;
      }
      ∷ []

  -- `_checks_for_call`
  unfoldable pub checks_for_call : Text → Fields → List Check
  unfolding command_check path_check url_check or_json has_key
  checks_for_call function_name kwargs =
      command_check (get (codes "command") kwargs) (get (codes "argv") kwargs)
      ++ (path_check function_name
            (if has_key (codes "pathname") kwargs then codes "pathname" else codes "path")
            (or_json (get (codes "path") kwargs) (get (codes "pathname") kwargs))
          ++ url_check (get (codes "url") kwargs))

  -- The checks, or where there are none the call itself.
  unfoldable pub checks_or_call : Text → Fields → List Check
  unfolding checks_for_call
  checks_or_call function_name kwargs = elim (checks_for_call function_name kwargs) [
    | [] ↦ record { tool_name = function_name; kwargs = kwargs; command = none; path = none } ∷ []
    | check ∷ checks ↦ check ∷ checks
  ]

-- `audit_log` of the decorator; its records are neither printed nor JSON.
unfoldable pub codex_options : Option Text → LogOptions
codex_options audit_log = record { audit_log = audit_log; json_logs = false; quiet = true }

unfoldable pub check_fields : Text → Check → AuditFields
check_fields function_name check = record {
  tool_call = some function_name;
  command = check.command;
  path = check.path;
  rule_matched = none;
}

module _ {W : Type 0} (sink : Sink W) (judge : Judge) (options : LogOptions)
    (function_name : Text) where
  -- `loaded_policy.decide(tool_name, **decision_kwargs)`
  unfoldable pub check_decision : Check → Outcome Decision
  unfolding has_key judged
  check_decision check =
      if has_key (codes "self") check.kwargs || has_key (codes "tool_name") check.kwargs
      then raised
      else judged judge check.tool_name check.kwargs

  -- The loop of `guarded`.
  unfoldable pub run_checks : List Check → Action W (Unit {0})
  unfolding check_decision check_fields gated
  run_checks [] = pure tt
  run_checks (check ∷ checks) = do
    decision ← lift (check_decision check)
    log_decision sink options check.tool_name decision check.kwargs
        (check_fields function_name check)
    gated decision (run_checks checks)

  -- `guarded`, the decorated function `func` on its arguments by position and by keyword.
  unfoldable pub guarded : {P A : Type 0} → (P → Fields → Action W A) → P → Fields → Action W A
  unfolding run_checks checks_or_call
  guarded func args kwargs =
      run_checks (checks_or_call sink.show function_name kwargs) >> func args kwargs
