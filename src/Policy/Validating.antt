-- ===== src/Policy/Validating.antt =====
-- `Policy.__init__` and `Policy._validate` of runeguard/policy.py: the settings with their types,
-- or an error.
use runeguard.Prelude.{
  ℕ, zero, suc, Text, codes, Bool, true, List, [], ◌∷◌, ◌==◌, contains, none, some, if◌then◌else◌,
  list_eq, nat_eq,
}
use runeguard.Prelude.Int.{ℤ, pos}
use runeguard.Outcome.{Outcome, ok, raised, ◌>>=◌}
use runeguard.Json.{Json, null, boolean, int, float, str, array, object, Items, nil, cons, Fields}
use runeguard.Policy.Settings.{Policy}
use runeguard.Policy.Loading.{Setting, find, from_mapping, settings}

-- The default of a setting.
unfoldable pub fallback_of : Text → List Setting → Json
fallback_of key [] = null
fallback_of key (setting ∷ rest) =
    let later = fallback_of key rest in if key == setting.name then setting.fallback else later

-- An attribute of the configuration: the keyword argument, or else the default.
unfoldable pub attribute : Fields → Text → Json
unfolding fallback_of
attribute config key = elim (find key config) [
  | none ↦ fallback_of key settings
  | some value ↦ value
]

-- Every item is a string.
unfoldable pub only_texts : Items → Outcome (List Text)
only_texts nil = ok []
only_texts (cons (str text) items) = do texts ← only_texts items; ok (text ∷ texts)
only_texts (cons _ items) = raised

unfoldable pub text_list : Json → Outcome (List Text)
unfolding only_texts
text_list (array items) = only_texts items
text_list _ = raised

unfoldable pub any_text : Json → Outcome Text
any_text (str text) = ok text
any_text _ = raised

unfoldable pub full_text : Json → Outcome Text
full_text (str []) = raised
full_text (str (c ∷ text)) = ok (c ∷ text)
full_text _ = raised

-- `value in choices`, which no value but a string satisfies.
unfoldable pub choice : List Text → Json → Outcome Text
choice choices (str text) = if contains choices text then ok text else raised
choice choices _ = raised

unfoldable pub flag : Json → Outcome Bool
flag (boolean b) = ok b
flag _ = raised

-- A positive integer; `True` is one.
unfoldable pub size : Json → Outcome ℕ
size (int (pos (suc n))) = ok (suc n)
size (boolean true) = ok 1
size _ = raised

-- `version != 1` raises; `True` and `1.0` are equal to 1.
unfoldable pub version_one : Json → Outcome ℕ
version_one (int n) = one_of n
  where
    one_of : ℤ → Outcome ℕ
    one_of (pos (suc zero)) = ok 1
    one_of _ = raised
version_one (boolean true) = ok 1
version_one (float text) = if text == codes "1.0" then ok 1 else raised
version_one _ = raised

abbrev pub policy_backends : List Text
policy_backends = codes "yaml" ∷ codes "opa" ∷ []

abbrev pub sandbox_backends : List Text
sandbox_backends = codes "docker" ∷ codes "host" ∷ codes "landlock" ∷ []

abbrev pub fs_enforcements : List Text
fs_enforcements = codes "none" ∷ codes "landlock" ∷ []

abbrev pub networks : List Text
networks = codes "deny" ∷ codes "deny_all" ∷ codes "none" ∷ codes "host" ∷ codes "bridge" ∷ []

unfoldable pub validate : Fields → Outcome Policy
unfolding attribute text_list any_text full_text choice flag size version_one
validate config = do
  protected_paths ← text_list (attribute config (codes "protected_paths"))
  allowed_paths ← text_list (attribute config (codes "allowed_paths"))
  writable_paths ← text_list (attribute config (codes "writable_paths"))
  allowed_domains ← text_list (attribute config (codes "allowed_domains"))
  blocked_commands ← text_list (attribute config (codes "blocked_commands"))
  approval_tools ← text_list (attribute config (codes "require_approval"))
  allowed_env_vars ← text_list (attribute config (codes "allowed_env_vars"))
  env_var_strip_pattern ← text_list (attribute config (codes "env_var_strip_pattern"))
  allowed_mcp_servers ← text_list (attribute config (codes "allowed_mcp_servers"))
  denied_mcp_servers ← text_list (attribute config (codes "denied_mcp_servers"))
  allowed_mcp_tools ← text_list (attribute config (codes "allowed_mcp_tools"))
  denied_mcp_tools ← text_list (attribute config (codes "denied_mcp_tools"))
  max_file_size_mb ← size (attribute config (codes "max_file_size_mb"))
  policy_backend ← choice policy_backends (attribute config (codes "policy_backend"))
  opa_policy ← any_text (attribute config (codes "opa_policy"))
  opa_query ← full_text (attribute config (codes "opa_query"))
  opa_command ← full_text (attribute config (codes "opa_command"))
  sandbox_backend ← choice sandbox_backends (attribute config (codes "sandbox_backend"))
  fs_enforcement ← choice fs_enforcements (attribute config (codes "fs_enforcement"))
  network ← choice networks (attribute config (codes "network"))
  readonly_rootfs ← flag (attribute config (codes "readonly_rootfs"))
  readonly_workspace ← flag (attribute config (codes "readonly_workspace"))
  version ← version_one (attribute config (codes "version"))
  ok (record {
    version = version;
    policy_backend = policy_backend;
    sandbox_backend = sandbox_backend;
    fs_enforcement = fs_enforcement;
    network = network;
    readonly_rootfs = readonly_rootfs;
    readonly_workspace = readonly_workspace;
    protected_paths = protected_paths;
    allowed_paths = allowed_paths;
    writable_paths = writable_paths;
    allowed_domains = allowed_domains;
    blocked_commands = blocked_commands;
    approval_tools = approval_tools;
    allowed_env_vars = allowed_env_vars;
    env_var_strip_pattern = env_var_strip_pattern;
    allowed_mcp_servers = allowed_mcp_servers;
    denied_mcp_servers = denied_mcp_servers;
    allowed_mcp_tools = allowed_mcp_tools;
    denied_mcp_tools = denied_mcp_tools;
    max_file_size_mb = max_file_size_mb;
    opa_policy = opa_policy;
    opa_query = opa_query;
    opa_command = opa_command;
  })

-- `Policy(data)`: a mapping is loaded and validated, and any other value is refused.
unfoldable pub load_policy : Json → Outcome Policy
unfolding validate from_mapping
load_policy (object mapping) = do config ← from_mapping mapping; validate config
load_policy _ = raised
