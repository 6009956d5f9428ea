-- ===== src/Daemon/Answers.antt =====
-- When the daemon (runeguard/daemon.py) answers that a call is allowed.
use runeguard.Prelude.{
  Text, codes, Bool, true, false, [], ◌∷◌, ◌≡◌, ◌≢◌, ◌↔◌, refl, sym, ◌∙◌, ap, Option, none, some,
  list_eq, nat_eq, Bool-cases, inl, inr,
}
use runeguard.Outcome.{ok}
use runeguard.Decision.{Decision, DecisionType, allow, block, require_approval}
use runeguard.Json.{Json, null, boolean, int, float, str, array, object, Fields, get, truthy}
use runeguard.Logger.{Sink, LogOptions, log_decision, type_text}
use runeguard.ToolProxy.{Judge}
use runeguard.Effects.{
  Exit, done, refused, failed, Action, pure, lift, ◌>>=◌, done-cases, lift-done, pure-done,
}
use runeguard.Daemon.{
  Connection, response, is_allow_type, request_kwargs, requested_tool, tool_text,
  request_audit_fields, request_decision, decide_named, decide_request, decide_value, respond_to,
  caught, answered,
}

-- A client reads that the call is allowed.
abbrev pub SaysAllow : Fields → Type 0
SaysAllow answer = get (codes "allow") answer ≡ boolean true

get-response :
    (type reason : Text) (b : Bool) → get (codes "allow") (response type reason b) ≡ boolean b
unfolding get response list_eq nat_eq
get-response type reason b = refl

boolean-injective : (b c : Bool) → boolean b ≡ boolean c → b ≡ c
boolean-injective b c h = cc

response-SaysAllow : (type reason : Text) (b : Bool) → SaysAllow (response type reason b) → b ≡ true
response-SaysAllow type reason b h = boolean-injective b true (sym (get-response type reason b) ∙ h)

is_allow_type-allow : (t : DecisionType) → is_allow_type t ≡ true → t ≡ allow
unfolding is_allow_type
is_allow_type-allow allow h = refl
is_allow_type-allow block h = cc
is_allow_type-allow require_approval h = cc

module _ {W : Type 0} (sink : Sink W) (judge : Judge) (options : LogOptions) where
  -- The policy allows the named tool, and that decision is logged without failure.
  abbrev pub ClearedTool : Text → Fields → W → Type 0
  ClearedTool tool_name kwargs w =
      (d : Decision) × (w' : W) × (request_decision sink judge options tool_name kwargs ≡ ok d)
      × (d.type ≡ allow)
      × (log_decision sink options tool_name d kwargs (request_audit_fields tool_name kwargs) w
          ≡ (done tt, w'))

  -- The request names a tool and is cleared without the keys of its envelope.
  abbrev pub ClearedRequest : Fields → W → Type 0
  ClearedRequest request w =
      (tool_name : Text) × (truthy (requested_tool request) ≡ true)
      × (tool_text sink.show (requested_tool request) ≡ ok tool_name)
      × ClearedTool tool_name (request_kwargs request) w

  -- How an action ends that answers that the call is allowed.
  abbrev pub Allows : Action W Fields → W → Type 0
  Allows m w = (answer : Fields) × (w' : W) × (m w ≡ (done answer, w')) × SaysAllow answer

  decide_named-Allows :
      (tool_name : Text) (kwargs : Fields) (w : W)
      → Allows (decide_named sink judge options tool_name kwargs) w
      → ClearedTool tool_name kwargs w
  unfolding decide_named
  decide_named-Allows tool_name kwargs w (answer, w', h, says) =
      done-cases (lift (request_decision sink judge options tool_name kwargs)) _ w h λ d w₁ h₁ h₂.
        done-cases
          (log_decision sink options tool_name d kwargs (request_audit_fields tool_name kwargs)) _
          w₁ h₂
          λ _ w₂ h₃ h₄.
            let (j, same) =
              lift-done (request_decision sink judge options tool_name kwargs) d w w₁ h₁ in
            let type = type_text d.type in
            let (same_answer, _) =
              pure-done (response type d.reason (is_allow_type d.type)) answer w₂ w' h₄ in
            (
              d,
              w₂,
              j,
              is_allow_type-allow d.type (
                  response-SaysAllow type d.reason (is_allow_type d.type)
                    (ap (get (codes "allow")) same_answer ∙ says)),
              cc,
            )

  ClearedTool-Allows :
      (tool_name : Text) (kwargs : Fields) (w : W)
      → ClearedTool tool_name kwargs w
      → Allows (decide_named sink judge options tool_name kwargs) w
  unfolding decide_named is_allow_type
  ClearedTool-Allows tool_name kwargs w (d, w', j, t, l) = (
    response (type_text allow) d.reason true,
    w',
    rw (j, l, t) refl,
    get-response (type_text allow) d.reason true,
  )

  -- An error is no leave.
  error-refuses :
      {C : Type 0} (type reason : Text) (w : W) → Allows (pure (response type reason false)) w → C
  error-refuses type reason w (answer, w', h, says) =
      let (same, _) = pure-done (response type reason false) answer w w' h in
      let absurd = response-SaysAllow type reason false (ap (get (codes "allow")) same ∙ says) in cc

  decide_request-Allows_iff :
      (request : Fields) (w : W)
      → Allows (decide_request sink judge options request) w ↔ ClearedRequest request w
  unfolding decide_request
  decide_request-Allows_iff request w = elim (Bool-cases (truthy (requested_tool request))) [
    | inr e ↦ rw e (
      λ allows. error-refuses (codes "ERROR") (codes "missing tool_name") w allows,
      λ (tool_name, e', s, rest). cc,
    )
    | inl e ↦ rw e (
      λ (answer, w', h, says).
          done-cases (lift (tool_text sink.show (requested_tool request))) _ w h
            λ tool_name w₁ h₁ h₂.
              let (named, same) =
                lift-done (tool_text sink.show (requested_tool request)) tool_name w w₁ h₁ in
              (
                tool_name,
                refl,
                named,
                decide_named-Allows tool_name (request_kwargs request) w (answer, w', cc, says),
              ),
      λ (tool_name, e', named, rest).
          let (answer, w', h, says) =
            ClearedTool-Allows tool_name (request_kwargs request) w rest in
          (answer, w', rw named h, says),
    )
  ]

  module _ (connection : Connection W) where
    -- The client sends bytes that are the JSON of a dict, and that request is cleared.
    abbrev pub ClearedClient : W → Type 0
    ClearedClient w =
        (data' : Text) × (request : Fields) × (w' : W) × (connection.recv w ≡ (done data', w'))
        × (data' ≢ [])
        × (connection.loads data' ≡ some (object request))
        × ClearedRequest request w'

    caught-SaysAllow :
        (exit : Exit Fields) (w : W)
        → SaysAllow (caught sink judge options connection exit w)
        → (answer : Fields) × (exit ≡ done answer) × SaysAllow answer
    unfolding caught
    caught-SaysAllow (done answer) w says = (answer, refl, says)
    caught-SaysAllow (refused reason) w says =
        error-refuses (codes "ERROR") reason w (_, w, refl, says)
    caught-SaysAllow failed w says =
        error-refuses (codes "ERROR") (connection.error_text w) w (_, w, refl, says)

    decide_value-Allows :
        (value : Option Json) (w : W)
        → Allows (decide_value sink judge options value) w
        → (request : Fields) × (value ≡ some (object request)) × ClearedRequest request w
    unfolding decide_value
    decide_value-Allows none w (answer, w', h, says) = cc
    decide_value-Allows (some (object request)) w allows =
        (request, refl, (decide_request-Allows_iff request w).0 allows)
    decide_value-Allows (some null) w (answer, w', h, says) = cc
    decide_value-Allows (some (boolean b)) w (answer, w', h, says) = cc
    decide_value-Allows (some (int n)) w (answer, w', h, says) = cc
    decide_value-Allows (some (float text)) w (answer, w', h, says) = cc
    decide_value-Allows (some (str text)) w (answer, w', h, says) = cc
    decide_value-Allows (some (array items)) w (answer, w', h, says) = cc

    respond_to-Allows :
        (data' : Text) (w : W)
        → Allows (respond_to sink judge options connection data') w
        → (request : Fields) × (data' ≢ [])
          × (connection.loads data' ≡ some (object request))
          × ClearedRequest request w
    unfolding respond_to
    respond_to-Allows [] w allows = error-refuses (codes "ERROR") (codes "empty request") w allows
    respond_to-Allows (c ∷ data') w allows =
        let (request, parsed, rest) = decide_value-Allows (connection.loads (c ∷ data')) w allows in
        (request, (λ h. cc), parsed, rest)

    cleared-Allows :
        (data' : Text) (request : Fields) (w : W)
        → data' ≢ []
        → connection.loads data' ≡ some (object request)
        → ClearedRequest request w
        → Allows (respond_to sink judge options connection data') w
    unfolding respond_to decide_value
    cleared-Allows [] request w full parsed rest = elim (full refl) [ ]
    cleared-Allows (c ∷ data') request w full parsed rest =
        rw parsed ((decide_request-Allows_iff request w).1 rest)

    -- The answer that the daemon sends to a client says that the call is allowed exactly when what
    -- it received is not empty and is the JSON of a dict that names a tool, the policy allows that
    -- tool with the rest of the request, and that decision is logged without failure. A request
    -- that raises anywhere is answered by an error that allows nothing.
    pub answered-allow_iff :
        (w : W) → SaysAllow (answered sink judge options connection w).0 ↔ ClearedClient w
    unfolding answered
    answered-allow_iff w =
        let served = connection.recv >>= respond_to sink judge options connection in
        (
          λ says.
              let (answer, e, says') = caught-SaysAllow (served w).0 (served w).1 says in
              done-cases connection.recv (respond_to sink judge options connection) w
                (ap (λ exit. (exit, (served w).1)) e)
                λ data' w₁ h₁ h₂.
                  let (request, full, parsed, rest) =
                    respond_to-Allows data' w₁ (answer, _, h₂, says') in
                  (data', request, w₁, h₁, full, parsed, rest),
          λ (data', request, w₁, h₁, full, parsed, rest).
              let (answer, w₂, h₂, says) = cleared-Allows data' request w₁ full parsed rest in
              let ends : served w ≡ (done answer, w₂) = rw h₁ h₂ in
              ap (λ (exit, w'). get (codes "allow") (caught sink judge options connection exit w'))
                ends
              ∙ says,
        )
