-- ===== src/Approval/Session.antt =====
-- The answers of a session over time (runeguard/approval.py).
use runeguard.Prelude.{
  Text, codes, Bool, false, ◌||◌, List, [], ◌∷◌, ◌==◌, contains, if◌then◌else◌, list_eq, nat_eq,
  ◌≡◌, refl, arith, ==_iff,
}
use runeguard.Outcome.{ok}
use runeguard.Decision.{Decision, allow, block}
use runeguard.Opa.{OpaSystem}
use runeguard.Policy.Settings.{Policy}
use runeguard.Policy.FilePath.{System}
use runeguard.Policy.Decide.{Kwargs, no_kwargs}
use runeguard.Policy.Decide as Decide
use runeguard.Approval.{
  ApprovalManager, action_key, added_to, allow_for_session, deny_for_session, decide_session,
  decide_with_approval,
}

-- An answer of the human to one call.
pub data Answer : Type 0 where
  allows : Text → Kwargs → Answer
  denies : Text → Kwargs → Answer

abbrev pub fresh_manager : ApprovalManager
fresh_manager = record { session_allows = []; session_denies = [] }

-- The manager after the answers, the latest first.
abbrev pub after_answers : List Answer → ApprovalManager
after_answers [] = fresh_manager
after_answers (allows tool_name kwargs ∷ answers) =
    allow_for_session (after_answers answers) tool_name kwargs
after_answers (denies tool_name kwargs ∷ answers) =
    deny_for_session (after_answers answers) tool_name kwargs

-- What the history of answers says of a key.
abbrev pub was_allowed : List Answer → Text → Bool
was_allowed [] key = false
was_allowed (allows tool_name kwargs ∷ answers) key =
    key == action_key tool_name kwargs || was_allowed answers key
was_allowed (denies tool_name kwargs ∷ answers) key = was_allowed answers key

abbrev pub was_denied : List Answer → Text → Bool
was_denied [] key = false
was_denied (denies tool_name kwargs ∷ answers) key =
    key == action_key tool_name kwargs || was_denied answers key
was_denied (allows tool_name kwargs ∷ answers) key = was_denied answers key

contains-added_to :
    (key other : Text) (keys : List Text)
    → contains (added_to key keys) other ≡ (other == key || contains keys other)
unfolding added_to
contains-added_to key other keys = ground (arith, ==_iff other key)

session_allows-after_answers :
    (answers : List Answer) (key : Text)
    → contains (after_answers answers).session_allows key ≡ was_allowed answers key
unfolding allow_for_session deny_for_session
session_allows-after_answers [] key = refl
session_allows-after_answers (allows tool_name kwargs ∷ answers) key = ground (
  arith,
  contains-added_to (action_key tool_name kwargs) key (after_answers answers).session_allows,
  session_allows-after_answers answers key,
)
session_allows-after_answers (denies tool_name kwargs ∷ answers) key =
    session_allows-after_answers answers key

session_denies-after_answers :
    (answers : List Answer) (key : Text)
    → contains (after_answers answers).session_denies key ≡ was_denied answers key
unfolding allow_for_session deny_for_session
session_denies-after_answers [] key = refl
session_denies-after_answers (denies tool_name kwargs ∷ answers) key = ground (
  arith,
  contains-added_to (action_key tool_name kwargs) key (after_answers answers).session_denies,
  session_denies-after_answers answers key,
)
session_denies-after_answers (allows tool_name kwargs ∷ answers) key =
    session_denies-after_answers answers key

-- Where the policy answers, and after any answers of the human: a call is allowed if a call with
-- its tool and target was allowed before, however often it was denied before or after; otherwise
-- it is blocked if one was denied; otherwise the policy's decision stands.
pub decide_with_approval-history :
    (system : System) (policy : Policy) (opa : OpaSystem Kwargs) (answers : List Answer)
    (tool_name : Text) (kwargs : Kwargs) (base : Decision)
    → Decide.decide system policy opa tool_name kwargs ≡ ok base
    → decide_with_approval system policy opa (after_answers answers) tool_name kwargs
      ≡ ok (
          if was_allowed answers (action_key tool_name kwargs)
          then record { type = allow; reason = codes "allowed by session approval" }
          else if was_denied answers (action_key tool_name kwargs)
          then record { type = block; reason = codes "denied by session approval" }
          else base)
unfolding decide_with_approval decide_session
decide_with_approval-history system policy opa answers tool_name kwargs base decided =
    rw
      (
        decided,
        session_allows-after_answers answers (action_key tool_name kwargs),
        session_denies-after_answers answers (action_key tool_name kwargs),
      )
      refl
