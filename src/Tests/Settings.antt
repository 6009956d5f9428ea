-- ===== src/Tests/Settings.antt =====
-- Policies for the tests.
use runeguard.Prelude.{codes, true, false, [], ◌∷◌}
use runeguard.Policy.Settings.{Policy}

abbrev pub offline : Policy
offline = record {
  version = 1;
  policy_backend = codes "yaml";
  sandbox_backend = codes "none";
  fs_enforcement = codes "none";
  network = codes "deny";
  readonly_rootfs = true;
  readonly_workspace = false;
  protected_paths = codes ".env" ∷ [];
  allowed_paths = [];
  writable_paths = [];
  allowed_domains = codes "*.example.com" ∷ [];
  blocked_commands = codes "rm -rf" ∷ [];
  approval_tools = codes "deploy" ∷ [];
  allowed_env_vars = codes "PATH" ∷ [];
  env_var_strip_pattern = codes "*_TOKEN" ∷ [];
  allowed_mcp_servers = [];
  denied_mcp_servers = [];
  allowed_mcp_tools = [];
  denied_mcp_tools = [];
  max_file_size_mb = 5;
  opa_policy = codes "policy.rego";
  opa_query = codes "data.runeguard.decision";
  opa_command = codes "opa";
}
