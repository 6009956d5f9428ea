-- ===== src/Approval.antt =====
-- runeguard/approval.py: the answers of a human for this session, which stand before the policy. A
-- set is the list of its members.
pub mod Session
use runeguard.Prelude.{
  ℕ, Text, codes, Bool, true, false, not, ◌||◌, ◌&&◌, List, [], ◌∷◌, ◌++◌, ◌==◌, any, contains,
  lower, has_part, if◌then◌else◌, list_eq, nat_eq, ◌≡◌, ◌≢◌, ◌⊎◌, inl, inr, refl, arith, ==_iff,
  ==_refl, Option,
}
use runeguard.Outcome.{Outcome, ok, raised, ◌>>=◌, ◌>>◌}
use runeguard.Decision.{Decision, DecisionType, allow, block}
use runeguard.Opa.{OpaSystem}
use runeguard.Policy.Settings.{Policy}
use runeguard.Policy.FilePath.{System}
use runeguard.Policy.Decide.{Kwargs, get_text, either_text}
use runeguard.Policy.Decide as Decide

pub record ApprovalManager : Type 0 where
  pub session_allows : List Text
  pub session_denies : List Text

-- `kwargs.get("url") or kwargs.get("host") or kwargs.get("path") or kwargs.get("command") or ""`
unfoldable pub target_of : Kwargs → Text
unfolding get_text
target_of kwargs =
    let url = get_text kwargs.url in
    let host = get_text kwargs.host in
    let path = get_text kwargs.path in
    if not (url == [])
    then url
    else if not (host == [])
    then host
    else if not (path == [])
    then path
    else get_text kwargs.command

unfoldable pub action_key : Text → Kwargs → Text
unfolding target_of
action_key tool_name kwargs = tool_name ++ (codes ":" ++ target_of kwargs)

abbrev protected_read_markers : List Text
protected_read_markers =
    codes ".env"
    ∷ codes ".ssh"
    ∷ codes ".aws"
    ∷ codes "PRIVATE KEY"
    ∷ codes "id_rsa"
    ∷ codes "service-account"
    ∷ []

abbrev read_tools : List Text
read_tools = codes "read_file" ∷ codes "open" ∷ codes "openat" ∷ []

unfoldable pub is_never_approvable : Text → Kwargs → Bool
unfolding either_text
is_never_approvable tool_name kwargs =
    contains read_tools tool_name
    && any (λ marker. has_part (lower (either_text kwargs.path kwargs.pathname)) (lower marker))
        protected_read_markers

unfoldable pub decide_session : ApprovalManager → Text → Kwargs → Decision → Decision
decide_session manager tool_name kwargs base_decision =
    if contains manager.session_allows (action_key tool_name kwargs)
    then record { type = allow; reason = codes "allowed by session approval" }
    else if contains manager.session_denies (action_key tool_name kwargs)
    then record { type = block; reason = codes "denied by session approval" }
    else base_decision

-- `set.add`
unfoldable pub added_to : Text → List Text → List Text
added_to key keys = if contains keys key then keys else key ∷ keys

unfoldable pub allow_for_session : ApprovalManager → Text → Kwargs → ApprovalManager
unfolding added_to
allow_for_session manager tool_name kwargs = record manager {
  session_allows = added_to (action_key tool_name kwargs) manager.session_allows;
}

unfoldable pub deny_for_session : ApprovalManager → Text → Kwargs → ApprovalManager
unfolding added_to
deny_for_session manager tool_name kwargs = record manager {
  session_denies = added_to (action_key tool_name kwargs) manager.session_denies;
}

-- `ApprovalPolicy.decide`
unfoldable pub decide_with_approval :
    System → Policy → OpaSystem Kwargs → ApprovalManager → Text → Kwargs → Outcome Decision
decide_with_approval system policy opa manager tool_name kwargs = do
  decision ← Decide.decide system policy opa tool_name kwargs
  ok (decide_session manager tool_name kwargs decision)
