-- ===== src/Policy/Allowing.antt =====
-- When `Policy.decide` of runeguard/policy.py allows a call.
use runeguard.Prelude.{
  Text, codes, true, false, List, [], ◌∷◌, Option, none, ◌≡◌, ◌≢◌, ◌↔◌, ◌==◌, contains, All, arith,
  list_eq, nat_eq, if◌then◌else◌, refl, starts_with, drop, ◌⊎◌,
}
use runeguard.Outcome.{Outcome, ok, raised, ◌>>=◌}
use runeguard.Decision.{Decision, allow}
use runeguard.Policy.Settings.{Policy}
use runeguard.Policy.Glob.{fnmatch}
use runeguard.Policy.Url.{hostname}
use runeguard.Policy.FilePath.{System}
use runeguard.Policy.Domains.{is_allowed_domain}
use runeguard.Policy.Commands.{command_tokens, matches_command_pattern}
use runeguard.Policy.Protected.{is_protected_path}
use runeguard.Policy.Decide.{
  Kwargs, get_text, either_text, file_tools, shell_tools, network_tools, mcp_tools, first_blocked,
  first_protected, protected_shell_arg, check_file, check_shell, check_domain, check_network,
  check_mcp,
}

abbrev pub allowed : Decision
allowed = record { type = allow; reason = codes "allowed by policy" }

-- What a shell command must not look like.
abbrev pub Harmless : System → Policy → Kwargs → Type 0
Harmless system policy kwargs =
    let command = get_text kwargs.command in
    All
      (λ pattern.
        (fnmatch command pattern ≡ false)
        × (matches_command_pattern pattern command kwargs.argv ≡ false))
      policy.blocked_commands
    × All
        (λ token.
          (token ≡ [])
          ⊎ (starts_with token (codes "-") ≡ true)
          ⊎ (is_protected_path system policy token ≡ false))
        (drop 1 (command_tokens command kwargs.argv))

-- The host of a network call: that of the url, or else the argument `host`.
abbrev pub CallsHost : Kwargs → Text → Type 0
CallsHost kwargs domain =
    (name : Text) × (hostname (get_text kwargs.url) ≡ ok name)
    × (domain ≡ (if name == [] then get_text kwargs.host else name))

-- A server or tool of an MCP call that is named is on no deny list, and on the allow list if that
-- is set.
abbrev pub ListsPermit : List Text → List Text → Text → Type 0
ListsPermit permitted denied name =
    (name ≡ [])
    ⊎ ((contains denied name ≡ false) × ((permitted ≡ []) ⊎ (contains permitted name ≡ true)))

-- What a call has to satisfy to be allowed, check by check: each concerns only the tools that it
-- names.
abbrev pub Permitted : System → Policy → Text → Kwargs → Type 0
Permitted system policy tool kwargs =
    (contains policy.approval_tools tool ≡ false)
    × ((contains file_tools tool ≡ false)
        ⊎ (is_protected_path system policy (either_text kwargs.path kwargs.pathname) ≡ false))
    × ((contains shell_tools tool ≡ false) ⊎ Harmless system policy kwargs)
    × ((contains network_tools tool ≡ false)
        ⊎ ((domain : Text) × CallsHost kwargs domain
            × (domain ≢ [])
            × (is_allowed_domain policy domain ≡ true)))
    × ((contains mcp_tools tool ≡ false)
        ⊎ (ListsPermit policy.allowed_mcp_servers policy.denied_mcp_servers
              (either_text kwargs.server_name kwargs.server)
            × ListsPermit policy.allowed_mcp_tools policy.denied_mcp_tools
                (either_text kwargs.tool_name kwargs.mcp_tool)))

first_blocked-none_iff :
    (command : Text) (argv : Option (List Text)) (patterns : List Text)
    → (first_blocked command argv patterns ≡ none)
      ↔ All
          (λ pattern.
            (fnmatch command pattern ≡ false)
            × (matches_command_pattern pattern command argv ≡ false))
          patterns
unfolding first_blocked
first_blocked-none_iff command argv [] = (λ h. tt, λ h. refl)
first_blocked-none_iff command argv (pattern ∷ patterns) =
    ground (arith, first_blocked-none_iff command argv patterns)

first_protected-none_iff :
    (system : System) (policy : Policy) (tokens : List Text)
    → (first_protected system policy tokens ≡ none)
      ↔ All
          (λ token.
            (token ≡ [])
            ⊎ (starts_with token (codes "-") ≡ true)
            ⊎ (is_protected_path system policy token ≡ false))
          tokens
unfolding first_protected
first_protected-none_iff system policy [] = (λ h. tt, λ h. refl)
first_protected-none_iff system policy (token ∷ tokens) =
    ground (arith, first_protected-none_iff system policy tokens)

-- The sets of tool names have no name in common.
pub file_only :
    (tool : Text)
    → contains file_tools tool ≡ true
    → (contains shell_tools tool ≡ false)
      × (contains network_tools tool ≡ false)
      × (contains mcp_tools tool ≡ false)
file_only tool h = ground arith

pub shell_only :
    (tool : Text)
    → contains shell_tools tool ≡ true
    → (contains network_tools tool ≡ false) × (contains mcp_tools tool ≡ false)
shell_only tool h = ground arith

pub network_only :
    (tool : Text) → contains network_tools tool ≡ true → contains mcp_tools tool ≡ false
network_only tool h = ground arith

module _ (system : System) (policy : Policy) (kwargs : Kwargs) where
  pub check_file-none_iff :
      (check_file system policy kwargs ≡ none)
      ↔ (is_protected_path system policy (either_text kwargs.path kwargs.pathname) ≡ false)
  unfolding check_file
  check_file-none_iff = ground arith

  pub check_shell-none_iff :
      (check_shell system policy kwargs ≡ none) ↔ Harmless system policy kwargs
  unfolding check_shell protected_shell_arg
  check_shell-none_iff = ground (
    arith,
    first_blocked-none_iff (get_text kwargs.command) kwargs.argv policy.blocked_commands,
    first_protected-none_iff system policy
        (drop 1 (command_tokens (get_text kwargs.command) kwargs.argv)),
  )

  pub check_mcp-none_iff : (check_mcp system policy kwargs ≡ none) ↔ (
      ListsPermit policy.allowed_mcp_servers policy.denied_mcp_servers
        (either_text kwargs.server_name kwargs.server)
      × ListsPermit policy.allowed_mcp_tools policy.denied_mcp_tools
          (either_text kwargs.tool_name kwargs.mcp_tool))
  unfolding check_mcp
  check_mcp-none_iff = ground arith

  check_domain-none_iff :
      (url domain : Text)
      → (check_domain system policy url domain ≡ none)
        ↔ ((domain ≢ []) × (is_allowed_domain policy domain ≡ true))
  unfolding check_domain
  check_domain-none_iff url domain = ground arith

  pub check_network-none_iff : (check_network system policy kwargs ≡ ok none) ↔ (
      (domain : Text) × CallsHost kwargs domain
      × (domain ≢ [])
      × (is_allowed_domain policy domain ≡ true))
  unfolding check_network
  check_network-none_iff = go (hostname (get_text kwargs.url))
    where
      go :
          (found : Outcome Text)
          → ((found >>= λ name. ok (
                check_domain system policy
                  (get_text kwargs.url)
                  (if name == [] then get_text kwargs.host else name)))
              ≡ ok none)
            ↔ ((domain : Text) × ((name : Text) × (found ≡ ok name)
                  × (domain ≡ (if name == [] then get_text kwargs.host else name)))
                × (domain ≢ [])
                × (is_allowed_domain policy domain ≡ true))
      go raised = (λ h. cc, λ h. let e = h.1.1 in cc)
      go (ok name) =
          let domain = if name == [] then get_text kwargs.host else name in
          let passes = check_domain-none_iff (get_text kwargs.url) domain in
          (
            λ h. let (full, listed) = passes.0 (cc) in (domain, (name, refl, refl), full, listed),
            λ h.
                let (domain', (name', found, named), full, listed) = h in
                let none_left : check_domain system policy (get_text kwargs.url) domain ≡ none =
                  passes.1 (ground arith, ground arith) in
                cc,
          )
