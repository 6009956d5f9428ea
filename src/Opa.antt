-- ===== src/Opa.antt =====
-- runeguard/opa.py: the optional Open Policy Agent backend. What the machine and the `opa` program
-- answer is the argument `OpaSystem`; `str` of a reason that is no text is part of it.
pub mod FailsClosed
use runeguard.Prelude.{
  Text, codes, Bool, true, false, not, List, [], ◌∷◌, ◌++◌, Option, none, some, ◌==◌, strip,
  if◌then◌else◌, list_eq, nat_eq,
}
use runeguard.Decision.{Decision, DecisionType, allow, block}
use runeguard.Json.{Json, array, object, cons, Fields, get, truthy}
use runeguard.Policy.Settings.{Policy}

pub record CompletedProcess : Type 0 where
  -- `returncode != 0`
  pub failed : Bool
  pub stdout : Text
  pub stderr : Text

-- `Kwargs` is the type of the keyword arguments, which the code only passes on.
pub record OpaSystem (Kwargs : Type 0) : Type 0 where
  -- `shutil.which(command) is not None`
  pub which : Text → Bool
  -- `Path(policy).exists()`
  pub exists : Text → Bool
  -- `str(Path(policy))`
  pub path_text : Text → Text
  -- `subprocess.run(argv, input=json.dumps(payload), …)`
  pub run : List Text → Text → Kwargs → CompletedProcess
  -- `json.loads(text)`; `none` is a `JSONDecodeError`.
  pub loads : Text → Option Json
  -- `str(value)`
  pub show : Json → Text
  -- `str(exc)` of what `json.loads` or the subscripts raise.
  pub error_text : Text → Text

first_item : Json → Option Json
first_item (array (cons value items)) = some value
first_item _ = none

item_of : Text → Fields → Option Json
item_of key Fields.end = none
item_of key (Fields.field name value rest) =
    let found = item_of key rest in if name == key then some value else found

value_at : Text → Json → Option Json
unfolding item_of
value_at key (object fields) = item_of key fields
value_at key _ = none

infixl 5 ◌>>=◌
abbrev pub ◌>>=◌ {ℓ κ} : {A : Type ℓ} {B : Type κ} → Option A → (A → Option B) → Option B
none >>= f = none
some a >>= f = f a

-- `_first_expression_value`; `none` where a subscript raises.
unfoldable pub first_expression_value : Json → Option Json
unfolding first_item value_at
first_expression_value result = do
  results ← value_at (codes "result") result
  first ← first_item results
  expressions ← value_at (codes "expressions") first
  expression ← first_item expressions
  value_at (codes "value") expression

default_reason : Bool → Text
default_reason true = codes "allowed by OPA policy"
default_reason false = codes "blocked by OPA policy"

unfoldable pub type_of : Bool → DecisionType
type_of true = allow
type_of false = block

-- The first text that is not empty.
or_text : Text → Text → Text
or_text first second = if first == [] then second else first

module _ {Kwargs : Type 0} (system : OpaSystem Kwargs) where
  reason_of : Json → Bool → Text
  unfolding default_reason
  reason_of reason allowed = if truthy reason then system.show reason else default_reason allowed

  -- The last lines of `decide`.
  unfoldable pub decision_of_value : Json → Decision
  unfolding type_of default_reason reason_of
  decision_of_value (object fields) =
      let allowed = truthy (get (codes "allow") fields) in
      record { type = type_of allowed; reason = reason_of (get (codes "reason") fields) allowed }
  decision_of_value value = record {
    type = type_of (truthy value);
    reason = default_reason (truthy value);
  }

  -- From the finished process on.
  unfoldable pub decision_of_run : CompletedProcess → Decision
  unfolding decision_of_value or_text
  decision_of_run completed =
      let failure =
        or_text (strip completed.stderr)
          (or_text (strip completed.stdout) (codes "OPA evaluation failed")) in
      let invalid = codes "invalid OPA result: " ++ system.error_text completed.stdout in
      let parsed : Option Json = system.loads completed.stdout >>= first_expression_value in
      if completed.failed then record { type = block; reason = failure } else elim parsed [
        | none ↦ record { type = block; reason = invalid }
        | some value ↦ decision_of_value value
      ]

  unfoldable pub opa_argv : Policy → List Text
  opa_argv policy =
      policy.opa_command
      ∷ codes "eval"
      ∷ codes "--format=json"
      ∷ codes "--stdin-input"
      ∷ codes "--data"
      ∷ system.path_text policy.opa_policy
      ∷ policy.opa_query
      ∷ []

  -- `OpaPolicyBackend.decide`, with the configuration that `Policy.decide` takes from the policy.
  unfoldable pub opa_decide : Policy → Text → Kwargs → Decision
  unfolding opa_argv decision_of_run
  opa_decide policy tool_name kwargs =
      if policy.opa_policy == []
      then record { type = block; reason = codes "OPA policy path is required" }
      else if not (system.which policy.opa_command)
      then record {
        type = block;
        reason = codes "OPA executable not found: " ++ policy.opa_command;
      }
      else if not (system.exists policy.opa_policy)
      then record {
        type = block;
        reason = codes "OPA policy file not found: " ++ system.path_text policy.opa_policy;
      }
      else decision_of_run (system.run (opa_argv policy) tool_name kwargs)
