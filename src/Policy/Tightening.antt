-- ===== src/Policy/Tightening.antt =====
-- `Policy.decide` of runeguard/policy.py under a policy with longer deny lists.
use runeguard.Prelude.{
  Text, codes, Bool, true, false, List, [], ◌∷◌, ◌++◌, ◌≡◌, ◌≢◌, ◌⊎◌, inl, inr, refl, any, All,
  contains, arith, list_eq, nat_eq, drop,
}
use runeguard.Outcome.{ok}
use runeguard.Decision.{Decision, allow}
use runeguard.Opa.{OpaSystem}
use runeguard.Policy.Settings.{Policy}
use runeguard.Policy.FilePath.{System}
use runeguard.Policy.Domains.{is_allowed_domain}
use runeguard.Policy.Commands.{command_tokens}
use runeguard.Policy.Protected.{
  denied_by, normalized, normalize_path, protects, is_denied_workspace_path, is_protected_path,
}
use runeguard.Policy.Decide.{Kwargs, get_text, either_text, decide}
use runeguard.Policy.Allowing.{Permitted, Harmless, ListsPermit, CallsHost}
use runeguard.Policy.Verdict.{decide-Permitted_iff}

-- The policy with more on each deny list.
abbrev pub tightened : Policy → List Text → List Text → List Text → List Text → List Text → Policy
tightened policy paths commands servers tools approvals = record policy {
  protected_paths = policy.protected_paths ++ paths;
  blocked_commands = policy.blocked_commands ++ commands;
  denied_mcp_servers = policy.denied_mcp_servers ++ servers;
  denied_mcp_tools = policy.denied_mcp_tools ++ tools;
  approval_tools = policy.approval_tools ++ approvals;
}

any-append-false :
    (test : Text → Bool) (entries more : List Text)
    → any test (entries ++ more) ≡ false
    → any test entries ≡ false
any-append-false test [] more h = refl
any-append-false test (entry ∷ entries) more h = ground (arith, any-append-false test entries more)

contains-append-false :
    (entries more : List Text) (name : Text)
    → contains (entries ++ more) name ≡ false
    → contains entries name ≡ false
contains-append-false [] more name h = refl
contains-append-false (entry ∷ entries) more name h =
    ground (arith, contains-append-false entries more name)

All-append-left :
    (P : Text → Type 0) (entries more : List Text) → All P (entries ++ more) → All P entries
All-append-left P [] more h = tt
All-append-left P (entry ∷ entries) more (p, h) = (p, All-append-left P entries more h)

All-map :
    {P Q : Text → Type 0} (entries : List Text)
    → ((entry : Text) → P entry → Q entry)
    → All P entries
    → All Q entries
All-map [] f h = tt
All-map (entry ∷ entries) f (p, h) = (f entry p, All-map entries f h)

right_kept : {A B C : Type 0} → (B → C) → A ⊎ B → A ⊎ C
right_kept f (inl a) = inl a
right_kept f (inr b) = inr (f b)

module _ (system : System) (policy : Policy)
    (paths commands servers tools approvals : List Text) where
  abbrev tight : Policy
  tight = tightened policy paths commands servers tools approvals

  is_protected_path-tightened :
      (path : Text)
      → is_protected_path system tight path ≡ false
      → is_protected_path system policy path ≡ false
  unfolding is_protected_path is_denied_workspace_path
  is_protected_path-tightened path h =
      let denied =
        any-append-false (denied_by system (normalized system path)) policy.protected_paths paths in
      let protected =
        any-append-false (protects system (normalize_path system path)) policy.protected_paths
          paths in
      ground (arith, denied, protected)

  Harmless-tightened :
      (kwargs : Kwargs) → Harmless system tight kwargs → Harmless system policy kwargs
  Harmless-tightened kwargs (patterns, words) = (
    All-append-left _ policy.blocked_commands commands patterns,
    All-map (drop 1 (command_tokens (get_text kwargs.command) kwargs.argv))
        (λ token. right_kept (right_kept (is_protected_path-tightened token))) words,
  )

  ListsPermit-tightened :
      (permitted denied more : List Text) (name : Text)
      → ListsPermit permitted (denied ++ more) name
      → ListsPermit permitted denied name
  ListsPermit-tightened permitted denied more name (inl empty) = inl empty
  ListsPermit-tightened permitted denied more name (inr (free, listed)) =
      inr (contains-append-false denied more name free, listed)

  Permitted-tightened :
      (tool : Text) (kwargs : Kwargs)
      → Permitted system tight tool kwargs
      → Permitted system policy tool kwargs
  unfolding is_allowed_domain
  Permitted-tightened tool kwargs (waits, files, shells, networks, mcps) = (
    contains-append-false policy.approval_tools approvals tool waits,
    right_kept (is_protected_path-tightened (either_text kwargs.path kwargs.pathname)) files,
    right_kept (Harmless-tightened kwargs) shells,
    right_kept host_kept networks,
    right_kept
        (λ (server, named). (
          ListsPermit-tightened policy.allowed_mcp_servers policy.denied_mcp_servers servers
              (either_text kwargs.server_name kwargs.server) server,
          ListsPermit-tightened policy.allowed_mcp_tools policy.denied_mcp_tools tools
              (either_text kwargs.tool_name kwargs.mcp_tool) named,
        ))
        mcps,
  )
    where
      host_kept :
          ((domain : Text) × CallsHost kwargs domain
            × (domain ≢ [])
            × (is_allowed_domain tight domain ≡ true))
          → (domain : Text) × CallsHost kwargs domain
            × (domain ≢ [])
            × (is_allowed_domain policy domain ≡ true)
      host_kept h = h

  -- More protected paths, blocked commands, denied MCP servers and tools, and tools that need
  -- approval never open anything: with the YAML backend, a call that the longer lists allow is
  -- allowed by the policy that they extend.
  pub decide-tightened :
      (opa : OpaSystem Kwargs) (tool : Text) (kwargs : Kwargs) (d : Decision)
      → policy.policy_backend ≢ codes "opa"
      → decide system tight opa tool kwargs ≡ ok d
      → d.type ≡ allow
      → (d' : Decision) × (decide system policy opa tool kwargs ≡ ok d') × (d'.type ≡ allow)
  decide-tightened opa tool kwargs d backend h a =
      (decide-Permitted_iff system policy kwargs opa tool backend).1 (
        Permitted-tightened tool kwargs
          ((decide-Permitted_iff system tight kwargs opa tool backend).0 (d, h, a)))
