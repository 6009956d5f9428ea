-- ===== src/Policy/Loaded.antt =====
-- What a policy that runeguard/policy.py has loaded satisfies, and which keys it reads.
use runeguard.Prelude.{
  ℕ, zero, suc, ◌≤◌, Text, codes, true, false, List, [], ◌∷◌, contains, list_eq, nat_eq, ◌≡◌, ◌≢◌,
  arith,
}
use mathlib.Core.Path.{subst}
use runeguard.Prelude.Int.{pos, negsuc}
use runeguard.Outcome.{ok, >>=-cases}
use runeguard.Json.{Json, null, boolean, int, float, str, array, object, Fields}
use runeguard.Policy.Settings.{Policy}
use runeguard.Policy.Loading.{from_mapping}
use runeguard.Policy.Validating.{
  attribute, text_list, any_text, full_text, choice, flag, size, version_one, policy_backends,
  sandbox_backends, fs_enforcements, networks, validate, load_policy,
}

choice_member :
    (choices : List Text) (value : Json) {t : Text}
    → choice choices value ≡ ok t
    → contains choices t ≡ true
unfolding choice
choice_member choices (str text) h = ground arith
choice_member choices null h = cc
choice_member choices (boolean b) h = cc
choice_member choices (int n) h = cc
choice_member choices (float text) h = cc
choice_member choices (array items) h = cc
choice_member choices (object fields) h = cc

full_text_ne_nil : (value : Json) {t : Text} → full_text value ≡ ok t → t ≢ []
unfolding full_text
full_text_ne_nil (str []) h = cc
full_text_ne_nil (str (c ∷ text)) h = λ e. cc
full_text_ne_nil null h = cc
full_text_ne_nil (boolean b) h = cc
full_text_ne_nil (int n) h = cc
full_text_ne_nil (float text) h = cc
full_text_ne_nil (array items) h = cc
full_text_ne_nil (object fields) h = cc

size_positive : (value : Json) {n : ℕ} → size value ≡ ok n → 1 ≤ n
unfolding size
size_positive (int (pos zero)) h = cc
size_positive (int (pos (suc k))) h = ground arith
size_positive (int (negsuc k)) h = cc
size_positive (boolean true) h = ground arith
size_positive (boolean false) h = cc
size_positive null h = cc
size_positive (str text) h = cc
size_positive (float text) h = cc
size_positive (array items) h = cc
size_positive (object fields) h = cc

version_one_eq : (value : Json) {n : ℕ} → version_one value ≡ ok n → n ≡ 1
unfolding version_one
version_one_eq (int (pos zero)) h = cc
version_one_eq (int (pos (suc zero))) h = ground arith
version_one_eq (int (pos (suc (suc k)))) h = cc
version_one_eq (int (negsuc k)) h = cc
version_one_eq (boolean true) h = ground arith
version_one_eq (boolean false) h = cc
version_one_eq null h = cc
version_one_eq (str text) h = cc
version_one_eq (float text) h = ground arith
version_one_eq (array items) h = cc
version_one_eq (object fields) h = cc

-- The conditions of `_validate` on the attributes that are no lists.
abbrev pub IsValid : Policy → Type 0
IsValid p =
    (p.version ≡ 1)
    × (contains policy_backends p.policy_backend ≡ true)
    × (contains sandbox_backends p.sandbox_backend ≡ true)
    × (contains fs_enforcements p.fs_enforcement ≡ true)
    × (contains networks p.network ≡ true)
    × (1 ≤ p.max_file_size_mb)
    × (p.opa_query ≢ [])
    × (p.opa_command ≢ [])

IsValid-ok : (a p : Policy) → ok a ≡ ok p → IsValid a → IsValid p
IsValid-ok a p h valid = let e : a ≡ p = cc in subst IsValid e valid

validate-IsValid : (config : Fields) {p : Policy} → validate config ≡ ok p → IsValid p
unfolding validate
validate-IsValid config {p} h0 =
    >>=-cases (text_list (attribute config (codes "protected_paths"))) h0 λ protected_paths _ h1.
      >>=-cases (text_list (attribute config (codes "allowed_paths"))) h1 λ allowed_paths _ h2.
        >>=-cases (text_list (attribute config (codes "writable_paths"))) h2 λ writable_paths _ h3.
          >>=-cases (text_list (attribute config (codes "allowed_domains"))) h3
            λ allowed_domains _ h4.
              >>=-cases (text_list (attribute config (codes "blocked_commands"))) h4
                λ blocked_commands _ h5.
                  >>=-cases (text_list (attribute config (codes "require_approval"))) h5
                    λ approval_tools _ h6.
                      >>=-cases (text_list (attribute config (codes "allowed_env_vars"))) h6
                        λ allowed_env_vars _ h7.
                          >>=-cases (text_list (attribute config (codes "env_var_strip_pattern")))
                            h7
                            λ env_var_strip_pattern _ h8.
                              >>=-cases (text_list (attribute config (codes "allowed_mcp_servers")))
                                h8
                                λ allowed_mcp_servers _ h9.
                                  >>=-cases
                                    (text_list (attribute config (codes "denied_mcp_servers"))) h9
                                    λ denied_mcp_servers _ h10.
                                      >>=-cases
                                        (text_list (attribute config (codes "allowed_mcp_tools")))
                                        h10
                                        λ allowed_mcp_tools _ h11.
                                          >>=-cases
                                            (text_list
                                              (attribute config (codes "denied_mcp_tools")))
                                            h11
                                            λ denied_mcp_tools _ h12.
                                              >>=-cases
                                                (size (attribute config (codes "max_file_size_mb")))
                                                h12
                                                λ max_file_size_mb a_size h13.
                                                  >>=-cases
                                                    (choice policy_backends
                                                      (attribute config (codes "policy_backend")))
                                                    h13
                                                    λ policy_backend a_backend h14.
                                                      >>=-cases
                                                        (any_text
                                                          (attribute config (codes "opa_policy")))
                                                        h14
                                                        λ opa_policy _ h15.
                                                          >>=-cases
                                                            (full_text
                                                            (attribute config (codes "opa_query")))
                                                            h15
                                                            λ opa_query a_query h16.
                                                            >>=-cases
                                                            (full_text (
                                                            attribute config (codes "opa_command")))
                                                            h16
                                                            λ opa_command a_command h17.
                                                            >>=-cases
                                                            (choice sandbox_backends (
                                                            attribute config
                                                            (codes "sandbox_backend")))
                                                            h17
                                                            λ sandbox_backend a_sandbox h18.
                                                            >>=-cases
                                                            (choice fs_enforcements (
                                                            attribute config
                                                            (codes "fs_enforcement")))
                                                            h18
                                                            λ fs_enforcement a_fs h19.
                                                            >>=-cases
                                                            (choice networks
                                                            (attribute config (codes "network")))
                                                            h19
                                                            λ network a_network h20.
                                                            >>=-cases
                                                            (flag (
                                                            attribute config
                                                            (codes "readonly_rootfs")))
                                                            h20
                                                            λ readonly_rootfs _ h21.
                                                            >>=-cases
                                                            (flag (
                                                            attribute config
                                                            (codes "readonly_workspace")))
                                                            h21
                                                            λ readonly_workspace _ h22.
                                                            >>=-cases
                                                            (version_one
                                                            (attribute config (codes "version")))
                                                            h22
                                                            λ version a_version h23.
                                                            IsValid-ok _ p h23 (
                                                            version_one_eq _ a_version,
                                                            choice_member policy_backends _
                                                            a_backend,
                                                            choice_member sandbox_backends _
                                                            a_sandbox,
                                                            choice_member fs_enforcements _ a_fs,
                                                            choice_member networks _ a_network,
                                                            size_positive _ a_size,
                                                            full_text_ne_nil _ a_query,
                                                            full_text_ne_nil _ a_command,
                                                            )

-- A value is loaded as a policy only where every condition of `_validate` holds of the result: the
-- version is 1, the two backends, the enforcement and the network mode are among the known ones,
-- the size limit is positive, and the query and the command of OPA are not empty.
pub load_policy-IsValid : (value : Json) (p : Policy) → load_policy value ≡ ok p → IsValid p
unfolding load_policy
load_policy-IsValid (object mapping) p h =
    >>=-cases (from_mapping mapping) h λ config _ valid. validate-IsValid config valid
load_policy-IsValid null p h = cc
load_policy-IsValid (boolean b) p h = cc
load_policy-IsValid (int n) p h = cc
load_policy-IsValid (float text) p h = cc
load_policy-IsValid (str text) p h = cc
load_policy-IsValid (array items) p h = cc
