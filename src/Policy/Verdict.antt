-- ===== src/Policy/Verdict.antt =====
-- The two directions of `Policy.decide` (runeguard/policy.py): what it allows is what is permitted.
use runeguard.Prelude.{
  Text, codes, Bool, false, none, ◌≡◌, ◌≢◌, ◌↔◌, ◌==◌, ==_iff, ◌++◌, contains, arith, list_eq,
  nat_eq, if◌then◌else◌, ◌⊎◌, inl, inr, refl,
}
use runeguard.Outcome.{Outcome, ok}
use runeguard.Decision.{Decision, allow, require_approval}
use runeguard.Opa.{OpaSystem, opa_decide}
use runeguard.Policy.Settings.{Policy}
use runeguard.Policy.FilePath.{System}
use runeguard.Policy.Decide.{
  Kwargs, file_tools, shell_tools, network_tools, mcp_tools, check_file, check_shell, check_network,
  check_mcp, checks, decide,
}
use runeguard.Policy.Allowing.{
  allowed, Permitted, check_file-none_iff, check_shell-none_iff, check_network-none_iff,
  check_mcp-none_iff,
}
use runeguard.Policy.Settled.{
  guarded-Blocks, guarded-BlocksOutcome, guarded-none_iff, guarded-ok_none_iff, settled-allowed_iff,
  settled-type, check_file-Blocks, check_shell-Blocks, check_network-Blocks, check_mcp-Blocks,
}

other_backend : (backend : Text) → backend ≢ codes "opa" → (backend == codes "opa") ≡ false
other_backend backend h = ground (arith, ==_iff backend (codes "opa"))

right_map : {A B C : Type 0} → (B → C) → A ⊎ B → A ⊎ C
right_map f (inl a) = inl a
right_map f (inr b) = inr (f b)

-- The tests of `decide` before the checks.
reached_iff :
    (is_opa waits : Bool) (asked : Decision) (reason : Text) (o : Outcome Decision)
    → is_opa ≡ false
    → ((if is_opa
          then ok asked
          else if waits
          then ok (record { type = require_approval; reason = reason })
          else o)
        ≡ ok allowed)
      ↔ ((waits ≡ false) × (o ≡ ok allowed))
reached_iff is_opa waits asked reason o h = ground arith

-- The only allowing decision behind the tests is the one that they fall through to.
reached-type :
    (is_opa waits : Bool) (asked : Decision) (reason : Text) (o : Outcome Decision) (d : Decision)
    → is_opa ≡ false
    → d.type ≡ allow
    → (if is_opa
        then ok asked
        else if waits
        then ok (record { type = require_approval; reason = reason })
        else o)
      ≡ ok d
    → o ≡ ok d
reached-type is_opa waits asked reason o d off a h = ground arith

module _ (system : System) (policy : Policy) (kwargs : Kwargs) where
  -- What the four checks permit, each for the tools that it is about.
  checks-allowed_iff :
      (tool : Text)
      → (checks system policy tool kwargs ≡ ok allowed) ↔ (
          ((contains file_tools tool ≡ false) ⊎ (check_file system policy kwargs ≡ none))
          × ((contains shell_tools tool ≡ false) ⊎ (check_shell system policy kwargs ≡ none))
          × ((contains network_tools tool ≡ false) ⊎ (check_network system policy kwargs ≡ ok none))
          × ((contains mcp_tools tool ≡ false) ⊎ (check_mcp system policy kwargs ≡ none)))
  unfolding checks
  checks-allowed_iff tool =
      let is_file = contains file_tools tool in
      let is_shell = contains shell_tools tool in
      let is_network = contains network_tools tool in
      let is_mcp = contains mcp_tools tool in
      let f = check_file system policy kwargs in
      let s = check_shell system policy kwargs in
      let n = check_network system policy kwargs in
      let m = check_mcp system policy kwargs in
      let settled =
        settled-allowed_iff (if is_file then f else none) (if is_shell then s else none)
          (if is_mcp then m else none) (if is_network then n else ok none)
          (guarded-Blocks is_file f (check_file-Blocks system policy kwargs))
          (guarded-Blocks is_shell s (check_shell-Blocks system policy kwargs))
          (guarded-Blocks is_mcp m (check_mcp-Blocks system policy kwargs))
          (guarded-BlocksOutcome is_network n (check_network-Blocks system policy kwargs)) in
      let files = guarded-none_iff is_file f in
      let shells = guarded-none_iff is_shell s in
      let networks = guarded-ok_none_iff is_network n in
      let mcps = guarded-none_iff is_mcp m in
      (
        λ h. let (a, b, c, d) = settled.0 h in (files.0 a, shells.0 b, networks.0 c, mcps.0 d),
        λ (a, b, c, d). settled.1 (files.1 a, shells.1 b, networks.1 c, mcps.1 d),
      )

  -- The decision that allows, as the call's conditions.
  decide-allowed_iff :
      (opa : OpaSystem Kwargs) (tool : Text)
      → policy.policy_backend ≢ codes "opa"
      → (decide system policy opa tool kwargs ≡ ok allowed) ↔ Permitted system policy tool kwargs
  unfolding decide
  decide-allowed_iff opa tool backend =
      let all = checks-allowed_iff tool in
      let files = check_file-none_iff system policy kwargs in
      let shells = check_shell-none_iff system policy kwargs in
      let networks = check_network-none_iff system policy kwargs in
      let mcps = check_mcp-none_iff system policy kwargs in
      let reached =
        reached_iff (policy.policy_backend == codes "opa") (contains policy.approval_tools tool)
          (opa_decide opa policy tool kwargs) (tool ++ codes " requires human approval")
          (checks system policy tool kwargs) (other_backend policy.policy_backend backend) in
      (
        λ h.
            let (waits, passes) = reached.0 h in
            let (a, b, c, d) = all.0 passes in
            (
              waits,
              right_map files.0 a,
              right_map shells.0 b,
              right_map networks.0 c,
              right_map mcps.0 d,
            ),
        λ (waits, a, b, c, d). reached.1 (
          waits,
          all.1 (
            right_map files.1 a,
            right_map shells.1 b,
            right_map networks.1 c,
            right_map mcps.1 d,
          ),
        ),
      )

  checks-type :
      (tool : Text) (d : Decision)
      → checks system policy tool kwargs ≡ ok d
      → d.type ≡ allow
      → d ≡ allowed
  unfolding checks
  checks-type tool d h a =
      let is_file = contains file_tools tool in
      let is_shell = contains shell_tools tool in
      let is_network = contains network_tools tool in
      let is_mcp = contains mcp_tools tool in
      let f = check_file system policy kwargs in
      let s = check_shell system policy kwargs in
      let n = check_network system policy kwargs in
      let m = check_mcp system policy kwargs in
      settled-type (if is_file then f else none) (if is_shell then s else none)
        (if is_mcp then m else none) (if is_network then n else ok none) d
        (guarded-Blocks is_file f (check_file-Blocks system policy kwargs))
        (guarded-Blocks is_shell s (check_shell-Blocks system policy kwargs))
        (guarded-Blocks is_mcp m (check_mcp-Blocks system policy kwargs))
        (guarded-BlocksOutcome is_network n (check_network-Blocks system policy kwargs)) h a

  -- With the YAML backend `decide` returns an allowing decision exactly when the call needs no
  -- approval and each check that is about its tool lets it pass: no protected path is opened, the
  -- command matches no blocked pattern and has no protected path among its arguments, the host is
  -- there and is allowed, and the MCP server and tool are permitted by the allow and deny lists.
  pub decide-Permitted_iff :
      (opa : OpaSystem Kwargs) (tool : Text)
      → policy.policy_backend ≢ codes "opa"
      → ((d : Decision) × (decide system policy opa tool kwargs ≡ ok d) × (d.type ≡ allow))
        ↔ Permitted system policy tool kwargs
  unfolding decide
  decide-Permitted_iff opa tool backend =
      let exact = decide-allowed_iff opa tool backend in
      (
        λ (d, h, a).
            let passes : checks system policy tool kwargs ≡ ok d =
              reached-type (policy.policy_backend == codes "opa")
                (contains policy.approval_tools tool) (opa_decide opa policy tool kwargs)
                (tool ++ codes " requires human approval") (checks system policy tool kwargs) d
                (other_backend policy.policy_backend backend) a h in
            let same = checks-type tool d passes a in exact.0 (cc),
        λ h. (allowed, exact.1 h, refl),
      )
