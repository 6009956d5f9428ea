-- ===== src/Tests/Environments.antt =====
-- Concrete environments, for the theorems on the environment of a child process.
use runeguard.Prelude.{
  Text, codes, true, ◌||◌, [], ◌∷◌, ◌==◌, contains, if◌then◌else◌, list_eq, nat_eq, none, some, ◌≡◌,
}
use runeguard.Outcome.{ok}
use runeguard.ChildEnv.{
  Env, InterceptorConfig, lookup, filter_child_env, is_stripped, ShimFirst, base_or_environ,
  interceptor_env, lookup-filter_child_env, interceptor_env-lookup,
}
use runeguard.Tests.Settings.{offline}

abbrev parent : Env
parent = (codes "PATH", codes "/usr/bin") ∷ (codes "LD_PRELOAD", codes "/lib/other.so") ∷ []

abbrev careful : InterceptorConfig
careful = record {
  shim_path = codes "/shim/rg_preload.so";
  socket_path = codes "/tmp/runeguard.sock";
  policy_path = codes "policies/default.yaml";
  audit_log = some (codes "audit.jsonl");
  fail_closed = true;
}

lookup-filter_child_env_example : lookup (codes "PATH") (filter_child_env offline parent) ≡ (
    if is_stripped offline.env_var_strip_pattern (codes "PATH")
    then none
    else if offline.allowed_env_vars == [] || contains offline.allowed_env_vars (codes "PATH")
    then lookup (codes "PATH") parent
    else none)
lookup-filter_child_env_example = lookup-filter_child_env offline parent (codes "PATH")

interceptor_env-lookup_example :
    (env : Env) × (interceptor_env careful true parent none ≡ ok env)
    × ((value : Text) × (lookup (codes "LD_PRELOAD") env ≡ some value)
        × ShimFirst careful.shim_path
            (lookup (codes "LD_PRELOAD") (base_or_environ none parent))
            value)
    × (lookup (codes "RUNEGUARD_FAIL_CLOSED") env
        ≡ some (if careful.fail_closed then codes "1" else codes "0"))
interceptor_env-lookup_example = interceptor_env-lookup careful parent none
