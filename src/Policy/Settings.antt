-- ===== src/Policy/Settings.antt =====
-- The attributes of a validated `Policy` (runeguard/policy.py), with the types that `_validate`
-- has checked.
use runeguard.Prelude.{ℕ, Text, codes, Bool, List, [], ◌∷◌, contains, list_eq, nat_eq}

pub record Policy : Type 0 where
  pub version : ℕ
  pub policy_backend : Text
  pub sandbox_backend : Text
  pub fs_enforcement : Text
  pub network : Text
  pub readonly_rootfs : Bool
  pub readonly_workspace : Bool
  pub protected_paths : List Text
  pub allowed_paths : List Text
  pub writable_paths : List Text
  pub allowed_domains : List Text
  pub blocked_commands : List Text
  pub approval_tools : List Text
  pub allowed_env_vars : List Text
  pub env_var_strip_pattern : List Text
  pub allowed_mcp_servers : List Text
  pub denied_mcp_servers : List Text
  pub allowed_mcp_tools : List Text
  pub denied_mcp_tools : List Text
  pub max_file_size_mb : ℕ
  pub opa_policy : Text
  pub opa_query : Text
  pub opa_command : Text

-- `policy.network in {"deny", "deny_all", "none"}`
unfoldable pub network_denied : Policy → Bool
network_denied p = contains (codes "deny" ∷ codes "deny_all" ∷ codes "none" ∷ []) p.network
