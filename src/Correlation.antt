-- ===== src/Correlation.antt =====
-- runeguard/correlation.py: the turn of the agent that a record belongs to. The context variable
-- and the environment of the process are arguments.
use runeguard.Prelude.{
  ℕ, Text, codes, List, [], ◌∷◌, ◌++◌, take, list_eq, nat_eq, Option, none, some,
}
use runeguard.Json.{Json, null, str, array, Items, nil, cons, Fields, end, field}
use runeguard.ChildEnv.{Env, lookup}

pub record CorrelationContext : Type 0 where
  pub turn_id : Text
  pub agent : Text
  pub parent_turn_id : Option Text
  pub started_at : Text

-- What the process knows of itself.
pub record Process : Type 0 where
  -- `_current_turn.get()`
  pub current : Option CorrelationContext
  pub environ : Env
  pub pid : ℕ
  pub ppid : ℕ
  -- `datetime.now(timezone.utc).isoformat()`
  pub now : Text

-- `os.environ.get(name, default)`
unfoldable pub env_or : Env → Text → Text → Text
env_or environ name default = elim (lookup name environ) [ none ↦ default | some value ↦ value ]

-- `os.environ.get(name) or None`
unfoldable pub env_full : Env → Text → Option Text
env_full environ name = elim (lookup name environ) [
  | none ↦ none
  | some [] ↦ none
  | some (c ∷ value) ↦ some (c ∷ value)
]

unfoldable pub context_from_environment : Env → Option CorrelationContext
unfolding env_or env_full
context_from_environment environ = elim (env_full environ (codes "RUNEGUARD_TURN_ID")) [
  | none ↦ none
  | some turn_id ↦ some (record {
    turn_id = turn_id;
    agent = env_or environ (codes "RUNEGUARD_AGENT") (codes "unknown");
    parent_turn_id = env_full environ (codes "RUNEGUARD_PARENT_TURN_ID");
    started_at = env_or environ (codes "RUNEGUARD_TURN_STARTED_AT") [];
  })
]

unfoldable pub current_turn : Process → Option CorrelationContext
unfolding context_from_environment
current_turn process = elim process.current [
  | none ↦ context_from_environment process.environ
  | some context ↦ some context
]

-- `null` for `None`.
abbrev pub text_or_null : Option Text → Json
text_or_null none = null
text_or_null (some text) = str text

unfoldable pub causal_chain : CorrelationContext → Items
causal_chain context = elim context.parent_turn_id [
  | none ↦ cons (str context.turn_id) nil
  | some [] ↦ cons (str context.turn_id) nil
  | some (c ∷ parent) ↦ cons (str (c ∷ parent)) (cons (str context.turn_id) nil)
]

unfoldable pub as_record : CorrelationContext → Fields
unfolding causal_chain
as_record context = field (codes "agent") (str context.agent) (
    field (codes "causal_chain") (array (causal_chain context)) (
      field (codes "parent_turn_id") (text_or_null context.parent_turn_id) (
        field (codes "started_at") (str context.started_at)
          (field (codes "turn_id") (str context.turn_id) end))))

unfoldable pub join_blank : List Text → Text
join_blank [] = []
join_blank (word ∷ []) = word
join_blank (word ∷ next ∷ words) = word ++ (32 ∷ join_blank (next ∷ words))

-- `command_event_id`; `sha256` is the hexadecimal digest of a text in UTF-8.
unfoldable pub command_event_id : (Text → Text) → Option Text → Option (List Text) → Text
unfolding join_blank
command_event_id sha256 command argv =
    let words : Text = elim argv [ none ↦ [] | some words ↦ join_blank words ] in
    let material : Text = elim command [
      | none ↦ words
      | some [] ↦ words
      | some (c ∷ text) ↦ c ∷ text
    ] in
    codes "cmd_" ++ take 16 (sha256 material)
