-- ===== src/Tests/Mappings.antt =====
-- Concrete policy mappings, for the theorems on the loading of runeguard/policy.py.
use runeguard.Prelude.{codes, true, false, [], ◌∷◌, ◌≡◌, refl, any, list_eq, nat_eq}
use runeguard.Outcome.{ok}
use runeguard.Json.{str, array, object, cons, nil, end, field, Fields}
use runeguard.Policy.Settings.{Policy}
use runeguard.Policy.Loading.{
  has_key, find, section_of, sections, settings, first_of, filled, known_key, all_known,
  normalize_policy_mapping, from_mapping,
}
use runeguard.Policy.Validating.{
  attribute, fallback_of, text_list, only_texts, any_text, full_text, choice, flag, size,
  version_one, validate, load_policy,
}
use runeguard.Policy.Loaded.{IsValid, load_policy-IsValid}
use runeguard.Policy.StrayKeys.{read_by, load_policy-stray_key}

-- `files: {deny: [.env]}`
abbrev deny_env : Fields
deny_env =
    field (codes "files")
      (object (field (codes "deny") (array (cons (str (codes ".env")) nil)) end)) end

abbrev env_policy : Policy
env_policy = record {
  version = 1;
  policy_backend = codes "yaml";
  sandbox_backend = codes "docker";
  fs_enforcement = codes "none";
  network = codes "deny";
  readonly_rootfs = true;
  readonly_workspace = true;
  protected_paths = codes ".env" ∷ [];
  allowed_paths = [];
  writable_paths = [];
  allowed_domains = [];
  blocked_commands = [];
  approval_tools = [];
  allowed_env_vars = [];
  env_var_strip_pattern = [];
  allowed_mcp_servers = [];
  denied_mcp_servers = [];
  allowed_mcp_tools = [];
  denied_mcp_tools = [];
  max_file_size_mb = 10;
  opa_policy = [];
  opa_query = codes "data.runeguard.allow";
  opa_command = codes "opa";
}

load_policy-deny_env : load_policy (object deny_env) ≡ ok env_policy
unfolding load_policy from_mapping normalize_policy_mapping filled first_of find section_of has_key
    all_known known_key validate attribute fallback_of text_list only_texts any_text full_text
    choice flag size version_one list_eq nat_eq
load_policy-deny_env = refl

load_policy-IsValid_example : IsValid env_policy
load_policy-IsValid_example = load_policy-IsValid (object deny_env) env_policy load_policy-deny_env

deny_env_sectioned : any (λ section. has_key section deny_env) sections ≡ true
unfolding has_key list_eq nat_eq
deny_env_sectioned = refl

misspelt-unread : read_by (codes "blocked_command") settings ≡ false
unfolding list_eq nat_eq
misspelt-unread = refl

misspelt-unknown : known_key (codes "blocked_command") settings ≡ false
unfolding known_key list_eq nat_eq
misspelt-unknown = refl

misspelt-flat :
    any (λ section. has_key section (field (codes "blocked_command") (array nil) end)) sections
    ≡ false
unfolding has_key list_eq nat_eq
misspelt-flat = refl

load_policy-stray_key_example :
    load_policy (object (field (codes "blocked_command") (array nil) deny_env))
    ≡ load_policy (object deny_env)
load_policy-stray_key_example =
    load_policy-stray_key (codes "blocked_command") (array nil) deny_env deny_env_sectioned
      misspelt-unread
