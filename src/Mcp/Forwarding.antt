-- ===== src/Mcp/Forwarding.antt =====
-- When the proxy of runeguard/mcp/proxy.py allows a call of a tool.
use runeguard.Prelude.{
  Text, codes, Bool, true, false, not, ◌&&◌, ◌++◌, ==_iff, List, [], ◌∷◌, ◌==◌, list_eq, nat_eq,
  if◌then◌else◌, Option, none, some, ◌≡◌, ◌≢◌, ◌↔◌, ◌⊎◌, inl, inr, refl, ◌∙◌, ap, Bool-cases, All,
  has_part,
}
use runeguard.Outcome.{Outcome, ok, raised}
use runeguard.Decision.{Decision, DecisionType, allow, block, require_approval}
use runeguard.Json.{str, object, Fields, end, field}
use runeguard.Policy.Settings.{Policy}
use runeguard.Policy.Decide.{no_kwargs}
use runeguard.ToolProxy.{Judge, judged}
use runeguard.Mcp.Messages.{get_or, dict_or_empty}
use runeguard.Mcp.Proxy.{
  looks_like_read, looks_like_write, is_writable, argument_path, argument_command, urls_or_hosts,
}
use runeguard.Mcp.Addresses.{ReachesFields, urls_or_hosts-Reaches}
use runeguard.Mcp.Checking.{
  is_allow, refusal, only_if, and_then, text_or_raise, as_url, decided, no_refusal, path_call,
  check_writable, check_read, check_write, check_command, check_addresses, check_arguments,
  tool_call_decision,
}

-- A decision that lets a request through.
abbrev pub Allowed : Outcome Decision → Type 0
Allowed o = (d : Decision) × (o ≡ ok d) × (d.type ≡ allow)

pub is_allow_iff : (t : DecisionType) → (is_allow t ≡ true) ↔ (t ≡ allow)
unfolding is_allow
is_allow_iff allow = (λ h. refl, λ h. refl)
is_allow_iff block = (λ h. cc, λ h. cc)
is_allow_iff require_approval = (λ h. cc, λ h. cc)

refusal-none_iff : (o : Outcome Decision) → (refusal o ≡ ok none) ↔ Allowed o
unfolding refusal
refusal-none_iff raised = (λ h. cc, λ (d, h, a). cc)
refusal-none_iff (ok d) = elim (Bool-cases (is_allow d.type)) [
  | inl e ↦ rw e (λ h. (d, refl, (is_allow_iff d.type).0 e), λ h. refl)
  | inr e ↦ rw e (
    λ h. cc,
    λ (d', h, a).
        let same : d ≡ d' = cc in
        let e' : is_allow d.type ≡ true =
          (is_allow_iff d.type).1 (ap (λ (x : Decision). x.type) same ∙ a) in
        cc,
  )
]

-- A check goes on exactly where a condition holds, and else returns no decision that allows.
abbrev Refuses : Outcome (Option Decision) → Type 0
Refuses (ok (some d)) = d.type ≢ allow
Refuses (ok none) = Unit
Refuses raised = Unit

abbrev Checks : Outcome (Option Decision) → Type 0 → Type 0
Checks m P = Refuses m × ((m ≡ ok none) ↔ P)

refusal-Checks : (o : Outcome Decision) → Checks (refusal o) (Allowed o)
unfolding refusal
refusal-Checks raised = (tt, refusal-none_iff raised)
refusal-Checks (ok d) = (
  elim (Bool-cases (is_allow d.type)) [
    | inl e ↦ rw e tt
    | inr e ↦ rw e (λ h. let e' = (is_allow_iff d.type).1 h in cc)
  ],
  refusal-none_iff (ok d),
)

and_then-Checks :
    {P Q : Type 0} (m n : Outcome (Option Decision))
    → Checks m P
    → Checks n Q
    → Checks (and_then m n) (P × Q)
unfolding and_then
and_then-Checks raised n (_, hp) hq = (tt, (λ h. cc, λ (p, q). cc (hp.1 p)))
and_then-Checks (ok none) n (_, hp) (rq, hq) = (rq, (λ h. (hp.0 refl, hq.0 h), λ (p, q). hq.1 q))
and_then-Checks (ok (some d)) n (rp, hp) hq = (rp, (λ h. cc, λ (p, q). cc (hp.1 p)))

only_if-Checks :
    {P : Type 0} (b : Bool) (m : Outcome (Option Decision))
    → Checks m P
    → Checks (only_if b m) ((b ≡ false) ⊎ P)
unfolding only_if
only_if-Checks true m (r, hp) =
    (r, (λ h. inr (hp.0 h), λ x. elim x [ inl e ↦ cc | inr p ↦ hp.1 p ]))
only_if-Checks false m hp = (tt, (λ h. inl refl, λ x. refl))

decided-Allowed_iff :
    {P : Type 0} (m : Outcome (Option Decision)) → Checks m P → Allowed (decided m) ↔ P
unfolding decided
decided-Allowed_iff raised (_, hp) = (λ (d, e, a). cc, λ p. cc (hp.1 p))
decided-Allowed_iff (ok none) (_, hp) = (λ x. hp.0 refl, λ p. (no_refusal, refl, refl))
decided-Allowed_iff (ok (some d)) (r, hp) = (
  λ (d', e, a). let same : d ≡ d' = cc in elim (r (ap (λ (x : Decision). x.type) same ∙ a)) [ ],
  λ p. cc (hp.1 p),
)

module _ (policy : Policy) (judge : Judge) (server_name : Text) where
  check_writable-Checks :
      (path : Text)
      → Checks
          (check_writable policy judge server_name path)
          ((policy.writable_paths ≡ []) ⊎ (is_writable policy path ≡ true))
  unfolding check_writable
  check_writable-Checks path =
      go (policy.writable_paths == []) (is_writable policy path) (==_iff policy.writable_paths [])
    where
      refused : Decision
      refused = record { type = block; reason = codes "write path not allowed by policy: " ++ path }

      go :
          {P : Type 0} (b c : Bool)
          → (b ≡ true) ↔ P
          → Checks (if not b && not c then ok (some refused) else ok none) (P ⊎ (c ≡ true))
      go true c hp = (tt, (λ h. inl (hp.0 refl), λ h. refl))
      go false true hp = (tt, (λ h. inr refl, λ h. refl))
      go false false hp = (λ h. cc, (λ h. cc, λ x. elim x [ inl p ↦ cc (hp.1 p) | inr e ↦ cc ]))

  -- The judge allows a connection to an address, as `https` where no scheme is given.
  abbrev pub AllowsAddress : Text → Type 0
  AllowsAddress address = Allowed (
      judge (codes "connect") (record no_kwargs {
        url =
            some (if has_part address (codes "://") then address else codes "https://" ++ address);
      }))

  check_each-Checks :
      (addresses : List Text)
      → Checks (check_addresses policy judge server_name addresses) (All AllowsAddress addresses)
  unfolding check_addresses
  check_each-Checks [] = (tt, (λ h. tt, λ h. refl))
  check_each-Checks (address ∷ addresses) =
      let connected = judge (codes "connect") (record no_kwargs { url = some (as_url address) }) in
      and_then-Checks (refusal connected) (check_addresses policy judge server_name addresses)
        (refusal-Checks connected) (check_each-Checks addresses)

  check_addresses-Checks :
      (arguments : Fields)
      → Checks
          (check_addresses policy judge server_name (urls_or_hosts (object arguments) []))
          (ReachesFields AllowsAddress arguments)
  check_addresses-Checks arguments =
      let (refuses, (there, back)) = check_each-Checks (urls_or_hosts (object arguments) []) in
      let (read, write) = urls_or_hosts-Reaches AllowsAddress (object arguments) [] in
      (refuses, (λ h. read (there h), λ h. back (write h)))

  -- The judge allows a request on a path.
  abbrev pub AllowsPath : Text → Text → Type 0
  AllowsPath tool_name path = Allowed (judge tool_name (record no_kwargs { path = some path }))

  abbrev pub AllowsRead : Text → Text → Type 0
  AllowsRead tool_name path =
      ((looks_like_read tool_name && not (path == [])) ≡ false)
      ⊎ AllowsPath (codes "read_file") path

  abbrev pub AllowsWrite : Text → Text → Type 0
  AllowsWrite tool_name path =
      ((looks_like_write tool_name && not (path == [])) ≡ false)
      ⊎ (AllowsPath (codes "write_file") path
          × ((policy.writable_paths ≡ []) ⊎ (is_writable policy path ≡ true)))

  abbrev pub AllowsCommand : Text → Type 0
  AllowsCommand command =
      (not (command == []) ≡ false)
      ⊎ Allowed (judge (codes "shell") (record no_kwargs { command = some command }))

  check_read-Checks :
      (tool_name path : Text)
      → Checks (check_read policy judge server_name tool_name path) (AllowsRead tool_name path)
  unfolding check_read path_call
  check_read-Checks tool_name path =
      let judged = judge (codes "read_file") (record no_kwargs { path = some path }) in
      only_if-Checks (looks_like_read tool_name && not (path == [])) (refusal judged)
        (refusal-Checks judged)

  check_write-Checks :
      (tool_name path : Text)
      → Checks (check_write policy judge server_name tool_name path) (AllowsWrite tool_name path)
  unfolding check_write path_call
  check_write-Checks tool_name path =
      let judged = judge (codes "write_file") (record no_kwargs { path = some path }) in
      let writable = check_writable policy judge server_name path in
      only_if-Checks (looks_like_write tool_name && not (path == []))
        (and_then (refusal judged) writable)
        (and_then-Checks (refusal judged) writable (refusal-Checks judged)
          (check_writable-Checks path))

  check_command-Checks :
      (command : Text)
      → Checks (check_command policy judge server_name command) (AllowsCommand command)
  unfolding check_command
  check_command-Checks command =
      let judged = judge (codes "shell") (record no_kwargs { command = some command }) in
      only_if-Checks (not (command == [])) (refusal judged) (refusal-Checks judged)

  -- What the checks on the arguments of a tool ask for, each where it applies.
  abbrev pub AllowsArguments : Fields → Text → Type 0
  AllowsArguments arguments tool_name =
      AllowsRead tool_name (argument_path arguments)
      × (AllowsWrite tool_name (argument_path arguments)
          × (AllowsCommand (argument_command arguments) × ReachesFields AllowsAddress arguments))

  check_arguments-Checks :
      (arguments : Fields) (tool_name : Text)
      → Checks
          (check_arguments policy judge server_name arguments tool_name)
          (AllowsArguments arguments tool_name)
  unfolding check_arguments
  check_arguments-Checks arguments tool_name =
      and_then-Checks reading (and_then writing (and_then running connecting))
        (check_read-Checks tool_name (argument_path arguments))
        (and_then-Checks writing (and_then running connecting)
          (check_write-Checks tool_name (argument_path arguments))
          (and_then-Checks running connecting (check_command-Checks (argument_command arguments))
            (check_addresses-Checks arguments)))
    where
      reading : Outcome (Option Decision)
      reading = check_read policy judge server_name tool_name (argument_path arguments)

      writing : Outcome (Option Decision)
      writing = check_write policy judge server_name tool_name (argument_path arguments)

      running : Outcome (Option Decision)
      running = check_command policy judge server_name (argument_command arguments)

      connecting : Outcome (Option Decision)
      connecting = check_addresses policy judge server_name (urls_or_hosts (object arguments) [])

  -- A call of a tool by name is let through exactly when the judge allows the tool of this
  -- server; the path, where the tool looks like one that reads and there is a path; the path and
  -- the writable paths, where it looks like one that writes; the command, where there is one; and
  -- a connection to every URL in a text at any depth of the arguments and, where the text stands
  -- under a key that names an address, to every host in it that is no part of an address before it.
  pub tool_call_decision-Allowed_iff :
      (params : Fields) (tool_name : Text)
      → get_or (codes "name") (str []) params ≡ str tool_name
      → Allowed (tool_call_decision policy judge server_name (object params)) ↔ (
          Allowed (
            judged judge (codes "mcp_tool") (
              field
                (codes "mcp_tool")
                (str tool_name)
                (field (codes "server_name") (str server_name) end)))
          × AllowsArguments
              (dict_or_empty (get_or (codes "arguments") (object end) params))
              tool_name)
  unfolding tool_call_decision text_or_raise
  tool_call_decision-Allowed_iff params tool_name named = rw named (
      decided-Allowed_iff (and_then (refusal asked) checked) (
        and_then-Checks (refusal asked) checked (refusal-Checks asked)
          (check_arguments-Checks arguments tool_name)))
    where
      arguments : Fields
      arguments = dict_or_empty (get_or (codes "arguments") (object end) params)

      asked : Outcome Decision
      asked = judged judge (codes "mcp_tool") (
          field (codes "mcp_tool") (str tool_name)
            (field (codes "server_name") (str server_name) end))

      checked : Outcome (Option Decision)
      checked = check_arguments policy judge server_name arguments tool_name
