-- ===== src/ChildEnv.antt =====
-- `filter_child_env` of runeguard/core/sandbox.py and `RuneGuardInterceptor.env` of
-- runeguard/core/interceptor.py: the environment that a child process is given. A dict is the list
-- of its items, each name once.
use runeguard.Prelude.{
  Text, codes, Bool, true, false, not, ◌||◌, List, [], ◌∷◌, ◌==◌, ==_iff, any, contains,
  if◌then◌else◌, list_eq, nat_eq, Option, none, some, ◌≡◌, ◌≢◌, ◌⊎◌, inl, inr, refl, ap, ◌∙◌, ◌++◌,
  arith,
}
use runeguard.Outcome.{Outcome, ok, raised}
use runeguard.Policy.Settings.{Policy}
use runeguard.Policy.Glob.{fnmatch}

abbrev pub Env : Type 0
Env = List (Text × Text)

-- `{name: value for name, value in env.items() if keep(name)}`
unfoldable pub kept : (Text → Bool) → Env → Env
kept keep [] = []
kept keep ((name, value) ∷ env) =
    let rest = kept keep env in if keep name then (name, value) ∷ rest else rest

-- The first filter, which an empty allow list turns off.
unfoldable pub allowed_env : List Text → Env → Env
unfolding kept
allowed_env allowed_env_vars env =
    if allowed_env_vars == [] then env else kept (contains allowed_env_vars) env

unfoldable pub is_stripped : List Text → Text → Bool
is_stripped patterns name = any (λ pattern. fnmatch name pattern) patterns

unfoldable pub filter_child_env : Policy → Env → Env
unfolding allowed_env is_stripped
filter_child_env policy env =
    kept (λ name. not (is_stripped policy.env_var_strip_pattern name))
      (allowed_env policy.allowed_env_vars env)

-- `env.get(name)`
abbrev pub lookup : Text → Env → Option Text
lookup name [] = none
lookup name ((key, value) ∷ env) = if name == key then some value else lookup name env

-- `env[name] = value`
unfoldable pub set_item : Text → Text → Env → Env
set_item name value [] = (name, value) ∷ []
set_item name value ((key, old) ∷ env) =
    let rest = set_item name value env in
    if name == key then (key, value) ∷ env else (key, old) ∷ rest

pub record InterceptorConfig : Type 0 where
  pub shim_path : Text
  pub socket_path : Text
  pub policy_path : Text
  pub audit_log : Option Text
  pub fail_closed : Bool

-- `base_env or os.environ`
unfoldable pub base_or_environ : Option Env → Env → Env
base_or_environ none environ = environ
base_or_environ (some []) environ = environ
base_or_environ (some (item ∷ env)) environ = item ∷ env

-- The entries of `LD_PRELOAD`, with the shim first.
unfoldable pub preload_value : Text → Option Text → Text
preload_value shim none = shim
preload_value shim (some []) = shim
preload_value shim (some (c ∷ existing)) = shim ++ (b' ' ∷ c ∷ existing)

unfoldable pub with_audit : Option Text → Env → Env
with_audit none env = env
with_audit (some []) env = env
with_audit (some (c ∷ path)) env = set_item (codes "RUNEGUARD_AUDIT") (c ∷ path) env

-- `available` is the answer of the method of that name.
unfoldable pub interceptor_env : InterceptorConfig → Bool → Env → Option Env → Outcome Env
unfolding set_item base_or_environ preload_value with_audit
interceptor_env config available environ base_env =
    let env = base_or_environ base_env environ in
    let preload = preload_value config.shim_path (lookup (codes "LD_PRELOAD") env) in
    let shimmed = set_item (codes "LD_PRELOAD") preload env in
    let reached =
      set_item (codes "RUNEGUARD_POLICY") config.policy_path
        (set_item (codes "RUNEGUARD_SOCKET") config.socket_path shimmed) in
    let closed = if config.fail_closed then codes "1" else codes "0" in
    if available
    then ok (set_item (codes "RUNEGUARD_FAIL_CLOSED") closed (with_audit config.audit_log reached))
    else raised

lookup-kept :
    (keep : Text → Bool) (name : Text) (env : Env)
    → lookup name (kept keep env) ≡ (if keep name then lookup name env else none)
unfolding kept
lookup-kept keep name [] = ground arith
lookup-kept keep name ((key, value) ∷ env) =
    let same : (name == key) ≡ true → keep name ≡ keep key = λ h. ap keep ((==_iff name key).0 h) in
    ground (arith, lookup-kept keep name env, same)

-- The child sees exactly the variables of the parent that are on the allow list, where there is
-- one, and match no pattern to strip, each with the parent's value.
pub lookup-filter_child_env :
    (policy : Policy) (env : Env) (name : Text)
    → lookup name (filter_child_env policy env) ≡ (
        if is_stripped policy.env_var_strip_pattern name
        then none
        else if policy.allowed_env_vars == [] || contains policy.allowed_env_vars name
        then lookup name env
        else none)
unfolding filter_child_env allowed_env
lookup-filter_child_env policy env name = ground (
  arith,
  lookup-kept (λ key. not (is_stripped policy.env_var_strip_pattern key)) name
      (allowed_env policy.allowed_env_vars env),
  lookup-kept (contains policy.allowed_env_vars) name env,
)

lookup-set_item :
    (name value other : Text) (env : Env)
    → lookup other (set_item name value env)
      ≡ (if other == name then some value else lookup other env)
unfolding set_item
lookup-set_item name value other [] = refl
lookup-set_item name value other ((key, old) ∷ env) = ground (
  arith,
  lookup-set_item name value other env,
  ==_iff other name,
  ==_iff name key,
  ==_iff other key,
)

lookup-set_item_same :
    (name value : Text) (env : Env) → lookup name (set_item name value env) ≡ some value
lookup-set_item_same name value env = ground (arith, lookup-set_item name value name env)

lookup-set_item_other :
    (name value other : Text) (env : Env)
    → (other == name) ≡ false
    → lookup other (set_item name value env) ≡ lookup other env
lookup-set_item_other name value other env h = ground (arith, lookup-set_item name value other env)

lookup-with_audit :
    (audit_log : Option Text) (env : Env) (name : Text)
    → (name == codes "RUNEGUARD_AUDIT") ≡ false
    → lookup name (with_audit audit_log env) ≡ lookup name env
unfolding with_audit
lookup-with_audit none env name h = refl
lookup-with_audit (some []) env name h = refl
lookup-with_audit (some (c ∷ path)) env name h =
    ground (arith, lookup-set_item (codes "RUNEGUARD_AUDIT") (c ∷ path) name env)

-- The value of `LD_PRELOAD` where the shim is loaded before what was preloaded.
abbrev pub ShimFirst : Text → Option Text → Text → Type 0
ShimFirst shim existing value =
    (((existing ≡ none) ⊎ (existing ≡ some [])) × (value ≡ shim))
    ⊎ ((old : Text) × (existing ≡ some old) × (old ≢ []) × (value ≡ shim ++ (codes " " ++ old)))

preload_value-ShimFirst :
    (shim : Text) (existing : Option Text) → ShimFirst shim existing (preload_value shim existing)
unfolding preload_value
preload_value-ShimFirst shim none = inl (inl refl, refl)
preload_value-ShimFirst shim (some []) = inl (inr refl, refl)
preload_value-ShimFirst shim (some (c ∷ old)) = inr (c ∷ old, refl, (λ h. cc), refl)

-- The child's `LD_PRELOAD` is the shim alone where the parent preloads nothing, and else the shim,
-- a blank and then what the parent preloads; and the child is told to fail closed exactly where the
-- configuration says so.
pub interceptor_env-lookup :
    (config : InterceptorConfig) (environ : Env) (base_env : Option Env)
    → (env : Env) × (interceptor_env config true environ base_env ≡ ok env)
      × ((value : Text) × (lookup (codes "LD_PRELOAD") env ≡ some value)
          × ShimFirst config.shim_path
              (lookup (codes "LD_PRELOAD") (base_or_environ base_env environ))
              value)
      × (lookup (codes "RUNEGUARD_FAIL_CLOSED") env
          ≡ some (if config.fail_closed then codes "1" else codes "0"))
unfolding interceptor_env list_eq nat_eq
interceptor_env-lookup config environ base_env =
    let preload = codes "LD_PRELOAD" in
    let closed = codes "RUNEGUARD_FAIL_CLOSED" in
    let mode = if config.fail_closed then codes "1" else codes "0" in
    let env = base_or_environ base_env environ in
    let shims = preload_value config.shim_path (lookup preload env) in
    let shimmed = set_item preload shims env in
    let listening = set_item (codes "RUNEGUARD_SOCKET") config.socket_path shimmed in
    let governed = set_item (codes "RUNEGUARD_POLICY") config.policy_path listening in
    let audited = with_audit config.audit_log governed in
    (
      set_item closed mode audited,
      refl,
      (
        shims,
        lookup-set_item_other closed mode preload audited refl
            ∙ lookup-with_audit config.audit_log governed preload refl
            ∙ lookup-set_item_other (codes "RUNEGUARD_POLICY") config.policy_path preload listening
                refl
            ∙ lookup-set_item_other (codes "RUNEGUARD_SOCKET") config.socket_path preload shimmed
                refl
            ∙ lookup-set_item_same preload shims env,
        preload_value-ShimFirst config.shim_path (lookup preload env),
      ),
      lookup-set_item_same closed mode audited,
    )
