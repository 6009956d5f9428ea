-- ===== src/Logger.antt =====
-- runeguard/logger.py and `audit_record` of runeguard/audit.py: what is written of a decision.
use runeguard.Prelude.{
  Text, codes, Bool, List, [], ◌∷◌, ◌++◌, ◌==◌, list_eq, nat_eq, if◌then◌else◌, Option, none, some,
  contains, lower, drop, starts_with, Option,
}
use runeguard.Prelude.Int.{pos}
use runeguard.Decision.{Decision, DecisionType, allow, block, require_approval}
use runeguard.Json.{
  Json, null, int, str, array, object, Items, nil, cons, Fields, end, field, get, truthy, str_of,
}
use runeguard.Redaction.{redact_value, redact_fields}
use runeguard.Correlation.{Process, current_turn, env_full, text_or_null, join_blank}
use runeguard.Effects.{Action, pure, ◌>>=◌}

-- `decision.type.value`
unfoldable pub type_text : DecisionType → Text
type_text allow = codes "ALLOW"
type_text block = codes "BLOCK"
type_text require_approval = codes "REQUIRE_APPROVAL"

-- `_normalize_decision`
unfoldable pub normalize_decision : Text → Text
normalize_decision decision =
    let normalized = lower decision in
    if normalized == codes "require_approval"
    then codes "block"
    else if contains (codes "allow" ∷ codes "block" ∷ codes "audit" ∷ []) normalized
    then normalized
    else codes "audit"

-- `x or y` on values.
unfoldable pub or_json : Json → Json → Json
or_json x y = if truthy x then x else y

-- `reason.split(": ", 1)`, if `": "` is in the reason.
unfoldable pub split_rule : Text → Option (Text × Text)
split_rule [] = none
split_rule (c ∷ reason) =
    let later : Option (Text × Text) = elim (split_rule reason) [
      | none ↦ none
      | some (prefix, matched) ↦ some (c ∷ prefix, matched)
    ] in
    if starts_with (c ∷ reason) (codes ": ") then some ([], drop 1 reason) else later

abbrev pub rule_prefixes : List Text
rule_prefixes =
    codes "protected path access"
    ∷ codes "blocked shell command pattern"
    ∷ codes "domain not allowlisted"
    ∷ []

-- `_rule_from_reason`
unfoldable pub rule_from_reason : Text → Option Text
unfolding split_rule
rule_from_reason reason = elim (split_rule reason) [
  | none ↦ none
  | some (prefix, matched) ↦ if contains rule_prefixes prefix then some matched else none
]

unfoldable pub or_default : Option Text → Option Text → Option Text
or_default none other = other
or_default (some text) other = some text

-- `tool_call or tool_name`
unfoldable pub or_tool : Option Text → Text → Text
or_tool none tool_name = tool_name
or_tool (some []) tool_name = tool_name
or_tool (some (c ∷ text)) tool_name = c ∷ text

-- The arguments of a call that the caller may give, `none` standing for `None`.
pub record AuditFields : Type 0 where
  pub tool_call : Option Text
  pub command : Option Text
  pub path : Option Text
  pub rule_matched : Option Text

abbrev pub no_audit_fields : AuditFields
no_audit_fields = record { tool_call = none; command = none; path = none; rule_matched = none }

-- `show` is Python's `str`.
module _ (show : Json → Text) where
  show_items : Items → List Text
  show_items nil = []
  show_items (cons value items) = str_of show value ∷ show_items items

  command_of : Json → Json → Option Text
  unfolding show_items join_blank
  command_of null (array items) = some (join_blank (show_items items))
  command_of null argv = none
  command_of command argv = some (str_of show command)

  -- `_command_from_kwargs`
  unfoldable pub command_from_kwargs : Fields → Option Text
  unfolding command_of
  command_from_kwargs kwargs = command_of (get (codes "command") kwargs) (get (codes "argv") kwargs)

  -- `_path_from_kwargs`
  unfoldable pub path_from_kwargs : Fields → Option Text
  unfolding or_json
  path_from_kwargs kwargs =
      elim (or_json (get (codes "path") kwargs) (get (codes "pathname") kwargs)) [
        | null ↦ none
        | path ↦ some (str_of show path)
      ]

  module _ (process : Process) where
    -- `os.environ.get("RUNEGUARD_AGENT") or (context.agent if context else "unknown")`
    unfoldable pub agent_text : Text
    unfolding env_full current_turn
    agent_text = elim (env_full process.environ (codes "RUNEGUARD_AGENT")) [
      | some agent ↦ agent
      | none ↦ elim (current_turn process) [ none ↦ codes "unknown" | some context ↦ context.agent ]
    ]

    unfoldable pub run_id_text : Text
    unfolding current_turn
    run_id_text = elim (current_turn process) [
      | none ↦ codes "unknown"
      | some context ↦ context.turn_id
    ]

    -- `audit_record`, in the order of the keys.
    unfoldable pub audit_record :
        Text → Text → Text → Option Text → Option Text → Option Text → Fields
    unfolding agent_text run_id_text normalize_decision
    audit_record tool_call decision reason command path rule_matched =
        field (codes "agent") (str agent_text) (
          field (codes "command") (text_or_null command) (
            field (codes "decision") (str (normalize_decision decision)) (
              field (codes "path") (text_or_null path) (
                field (codes "pid") (int (pos process.pid)) (
                  field (codes "ppid") (int (pos process.ppid)) (
                    field (codes "reason") (str reason) (
                      field (codes "rule_matched") (text_or_null rule_matched) (
                        field (codes "run_id") (str run_id_text) (
                          field (codes "timestamp") (str process.now)
                            (field (codes "tool_call") (str tool_call) end))))))))))

    unfoldable pub decision_record : Text → Decision → Fields → AuditFields → Fields
    unfolding type_text or_default or_tool audit_record command_from_kwargs path_from_kwargs
        rule_from_reason
    decision_record tool_name decision kwargs given =
        audit_record (or_tool given.tool_call tool_name) (type_text decision.type) decision.reason
          (or_default given.command (command_from_kwargs kwargs))
          (or_default given.path (path_from_kwargs kwargs))
          (or_default given.rule_matched (rule_from_reason decision.reason))

-- What logging needs of the world: where records and messages go, and what the process knows.
pub record Sink (W : Type 0) : Type 0 where
  -- `ComplianceAuditLog(path).append(record)`
  pub append : Text → Fields → Action W (Unit {0})
  pub print : Text → Action W (Unit {0})
  pub process : W → Process
  -- `str(value)` and `json.dumps(value, sort_keys=True)`
  pub show : Json → Text
  pub dumps : Json → Text

pub record LogOptions : Type 0 where
  pub audit_log : Option Text
  pub json_logs : Bool
  pub quiet : Bool

module _ {W : Type 0} (sink : Sink W) where
  -- `if audit_log: write_audit_record(audit_log, record)`
  unfoldable pub write_audit_record : Option Text → Fields → Action W (Unit {0})
  write_audit_record none fields = pure tt
  write_audit_record (some []) fields = pure tt
  write_audit_record (some (c ∷ path)) fields = sink.append (c ∷ path) (redact_fields fields)

  -- The message that is printed. The colours of the console are left out.
  unfoldable pub message_of : Text → Decision → Fields → Text
  unfolding type_text
  message_of tool_name decision kwargs =
      (codes "[" ++ (type_text decision.type ++ codes "] "))
      ++ (tool_name
          ++ (codes "("
              ++ (sink.show (redact_value (object kwargs))
                  ++ (codes ") - " ++ str_of sink.show (redact_value (str decision.reason))))))

  unfoldable pub log_decision :
      LogOptions → Text → Decision → Fields → AuditFields → Action W (Unit {0})
  unfolding write_audit_record message_of decision_record
  log_decision options tool_name decision kwargs given w =
      let fields = decision_record sink.show (sink.process w) tool_name decision kwargs given in
      let shown =
        if options.json_logs
        then sink.dumps (redact_value (object fields))
        else message_of tool_name decision kwargs in
      let report = if options.quiet then pure tt else sink.print shown in
      (write_audit_record options.audit_log fields >>= λ _. report) w
