-- ===== src/Tests/Calls.antt =====
-- Concrete tool calls, for the theorems on runeguard/policy.py.
use runeguard.Prelude.{
  ◌≡◌, ◌≢◌, ◌↔◌, ◌⊎◌, refl, Text, codes, true, false, [], ◌∷◌, ◌++◌, none, some, if◌then◌else◌,
  nat_eq, list_eq, starts_with, ends_with, has_part, rstrip,
}
use runeguard.Outcome.{ok}
use runeguard.Decision.{Decision, allow, block}
use runeguard.Opa.{OpaSystem, opa_argv, opa_decide}
use runeguard.Opa.FailsClosed.{GivesAllow, opa_decide-allow_iff}
use runeguard.Policy.Settings.{Policy}
use runeguard.Policy.Words.{split_command}
use runeguard.Policy.FilePath.{
  System, to_path, parts, path_text, name_of, is_relative_to, same_path,
}
use runeguard.Policy.Glob.{fnmatch, glob_match, glob_items, accepts, spans, bracket, up_to_bracket}
use runeguard.Policy.Domains.{plain_domain, is_allowed_domain}
use runeguard.Policy.Commands.{command_tokens, matches_command_pattern}
use runeguard.Policy.Protected.{
  is_protected_path, is_denied_workspace_path, denied_by, normalized, normalize_path, protects,
  matches_pattern, is_filename_only, ends_with_parts, strip_current_dir, at_or_below,
  subtree_prefix, home_relative, normalized_pattern, matches_secret_subtree, contains_directory,
}
use runeguard.Policy.Decide.{Kwargs, no_kwargs, either_text, check_file, decide}
use runeguard.Policy.Allowing.{allowed, Permitted}
use runeguard.Policy.Verdict.{decide-Permitted_iff}
use runeguard.Policy.Matching.{Entry, Slice, is_allowed_domain_iff, matches_command_pattern_iff}
use runeguard.Policy.Tightening.{tightened, decide-tightened}
use runeguard.Approval.{action_key, decide_with_approval}
use runeguard.Approval.Session.{
  allows, after_answers, was_allowed, was_denied, decide_with_approval-history,
}
use runeguard.Tests.Settings.{offline}

abbrev pub plain_system : System
plain_system = record { expanduser = λ path. path; resolve = λ path. path }

abbrev pub no_opa : OpaSystem Kwargs
no_opa = record {
  error_text = λ text. text;
  show = λ value. [];
  loads = λ text. none;
  run = λ command query kwargs. record { failed = true; stdout = []; stderr = [] };
  path_text = λ path. path;
  exists = λ path. false;
  which = λ command. false;
}

abbrev readme : Kwargs
readme = record no_kwargs { path = some (codes "README.md") }

offline_backend : offline.policy_backend ≢ codes "opa"
offline_backend h = cc

decide-Permitted_iff_example :
    ((d : Decision) × (decide plain_system offline no_opa (codes "read_file") readme ≡ ok d)
      × (d.type ≡ allow))
    ↔ Permitted plain_system offline (codes "read_file") readme
decide-Permitted_iff_example =
    decide-Permitted_iff plain_system offline readme no_opa (codes "read_file") offline_backend

is_allowed_domain_iff_example :
    (is_allowed_domain offline (codes "API.example.com") ≡ true)
    ↔ Entry
        (λ entry.
          (plain_domain (codes "API.example.com") ≡ plain_domain entry)
          ⊎ ((suffix : Text) × (plain_domain entry ≡ codes "*." ++ suffix)
              × ((plain_domain (codes "API.example.com") ≡ suffix)
                  ⊎ ((front : Text) × (plain_domain (codes "API.example.com")
                        ≡ front ++ (codes "." ++ suffix))))))
        (codes "*.example.com" ∷ [])
is_allowed_domain_iff_example = is_allowed_domain_iff offline (codes "API.example.com")

matches_command_pattern_iff_example :
    (matches_command_pattern (codes "rm -rf") (codes "sudo rm -rf /") none ≡ true) ↔ (
      (split_command (codes "rm -rf") ≢ [])
      × Slice (split_command (codes "rm -rf")) (command_tokens (codes "sudo rm -rf /") none))
matches_command_pattern_iff_example =
    matches_command_pattern_iff (codes "rm -rf") (codes "sudo rm -rf /") none

-- The tighter policy protects one more directory.
abbrev strict : Policy
strict = tightened offline (codes "secrets/" ∷ []) [] [] [] []

decide-readme : decide plain_system strict no_opa (codes "read_file") readme ≡ ok allowed
unfolding decide check_file either_text is_protected_path is_denied_workspace_path denied_by
    normalized normalize_path protects matches_pattern is_filename_only ends_with_parts
    strip_current_dir at_or_below subtree_prefix home_relative normalized_pattern
    matches_secret_subtree contains_directory to_path parts path_text name_of is_relative_to
    same_path fnmatch glob_match glob_items starts_with ends_with has_part rstrip list_eq nat_eq
    accepts spans bracket up_to_bracket
decide-readme = refl

decide-tightened_example :
    (d : Decision) × (decide plain_system offline no_opa (codes "read_file") readme ≡ ok d)
    × (d.type ≡ allow)
decide-tightened_example =
    decide-tightened plain_system offline (codes "secrets/" ∷ []) [] [] [] [] no_opa
      (codes "read_file") readme allowed offline_backend decide-readme refl

abbrev dot_env : Kwargs
dot_env = record no_kwargs { path = some (codes ".env") }

abbrev leaked : Decision
leaked = record { type = block; reason = codes "protected path access: .env" }

decide-dot_env : decide plain_system offline no_opa (codes "read_file") dot_env ≡ ok leaked
unfolding decide check_file either_text is_protected_path is_denied_workspace_path denied_by
    normalized normalize_path protects matches_pattern is_filename_only ends_with_parts
    strip_current_dir at_or_below subtree_prefix home_relative normalized_pattern
    matches_secret_subtree contains_directory to_path parts path_text name_of is_relative_to
    same_path fnmatch glob_match glob_items starts_with ends_with has_part rstrip list_eq nat_eq
    accepts spans bracket up_to_bracket
decide-dot_env = refl

decide_with_approval-history_example :
    decide_with_approval plain_system offline no_opa
      (after_answers (allows (codes "read_file") dot_env ∷ []))
      (codes "read_file")
      dot_env
    ≡ ok (
        if was_allowed
          (allows (codes "read_file") dot_env ∷ [])
          (action_key (codes "read_file") dot_env)
        then record { type = allow; reason = codes "allowed by session approval" }
        else if was_denied
            (allows (codes "read_file") dot_env ∷ [])
            (action_key (codes "read_file") dot_env)
        then record { type = block; reason = codes "denied by session approval" }
        else leaked)
decide_with_approval-history_example =
    decide_with_approval-history plain_system offline no_opa
      (allows (codes "read_file") dot_env ∷ []) (codes "read_file") dot_env leaked decide-dot_env

-- An `opa` program that is found and whose answer is no JSON.
abbrev garbled_opa : OpaSystem Kwargs
garbled_opa = record no_opa {
  run = λ command query kwargs. record { failed = false; stdout = codes "?"; stderr = [] };
  exists = λ path. true;
  which = λ command. true;
}

opa_decide-allow_iff_example :
    ((opa_decide garbled_opa offline (codes "shell") readme).type ≡ allow) ↔ (
      (offline.opa_policy ≢ [])
      × (garbled_opa.which offline.opa_command ≡ true)
      × (garbled_opa.exists offline.opa_policy ≡ true)
      × GivesAllow garbled_opa
          (garbled_opa.run (opa_argv garbled_opa offline) (codes "shell") readme))
opa_decide-allow_iff_example = opa_decide-allow_iff garbled_opa offline (codes "shell") readme
