-- ===== src/Policy/Loading.antt =====
-- How runeguard/policy.py makes a policy of the mapping that YAML gives:
-- `normalize_policy_mapping`, `PolicyConfig.from_mapping` and `Policy._validate`. The keys are
-- strings. A `ValueError` or `TypeError` is `raised`, whatever its message, so that the order of
-- the checks does not show.
use runeguard.Prelude.{
  Text, codes, Bool, true, false, ◌||◌, List, [], ◌∷◌, ◌==◌, any, Option, none, some, if◌then◌else◌,
  list_eq, nat_eq,
}
use runeguard.Prelude.Int.{pos}
use runeguard.Outcome.{Outcome, ok, raised}
use runeguard.Json.{Json, boolean, int, str, array, object, nil, Fields, end, field}

-- `data.get(key)`, with `none` for a missing key.
unfoldable pub find : Text → Fields → Option Json
find key end = none
find key (field name value rest) =
    let later = find key rest in if key == name then some value else later

-- `key in data`
unfoldable pub has_key : Text → Fields → Bool
has_key key end = false
has_key key (field name value rest) = key == name || has_key key rest

-- `_section`
unfoldable pub section_of : Option Json → Fields
section_of (some (object fields)) = fields
section_of _ = end

-- Where a setting may stand: under a key of a section, or under a key of the mapping.
pub data Place : Type 0 where
  within : Text → Text → Place
  at_top : Text → Place

unfoldable pub find_place : Fields → Place → Option Json
unfolding find section_of
find_place mapping (within section key) = find key (section_of (find section mapping))
find_place mapping (at_top key) = find key mapping

unfoldable pub or_later : Option Json → Json → Json
or_later none later = later
or_later (some value) later = value

-- `first.get(…, second.get(…, fallback))`
unfoldable pub first_of : Fields → List Place → Json → Json
unfolding find_place or_later
first_of mapping [] fallback = fallback
first_of mapping (place ∷ places) fallback =
    or_later (find_place mapping place) (first_of mapping places fallback)

pub record Setting : Type 0 where
  pub name : Text
  pub places : List Place
  pub fallback : Json

abbrev one_place : Text → Json → Setting
one_place name fallback = record { name = name; places = at_top name ∷ []; fallback = fallback }

abbrev two_places : Text → Text → Text → Json → Setting
two_places section key name fallback = record {
  name = name;
  places = within section key ∷ at_top name ∷ [];
  fallback = fallback;
}

abbrev no_texts : Json
no_texts = array nil

-- The mapping that `normalize_policy_mapping` returns, setting by setting; the defaults are those
-- of `PolicyConfig`.
abbrev pub settings : List Setting
settings =
    one_place (codes "version") (int (pos 1))
    ∷ two_places (codes "policy") (codes "backend") (codes "policy_backend") (str (codes "yaml"))
    ∷ two_places (codes "sandbox") (codes "backend") (codes "sandbox_backend")
        (str (codes "docker"))
    ∷ two_places (codes "sandbox") (codes "fs_enforcement") (codes "fs_enforcement")
        (str (codes "none"))
    ∷ record {
      name = codes "network";
      places =
          within (codes "network") (codes "default")
          ∷ within (codes "sandbox") (codes "network")
          ∷ at_top (codes "network")
          ∷ [];
      fallback = str (codes "deny");
    }
    ∷ two_places (codes "sandbox") (codes "readonly_rootfs") (codes "readonly_rootfs")
        (boolean true)
    ∷ two_places (codes "sandbox") (codes "readonly_workspace") (codes "readonly_workspace")
        (boolean true)
    ∷ two_places (codes "files") (codes "deny") (codes "protected_paths") no_texts
    ∷ two_places (codes "files") (codes "allow") (codes "allowed_paths") no_texts
    ∷ two_places (codes "sandbox") (codes "writable_paths") (codes "writable_paths") no_texts
    ∷ two_places (codes "network") (codes "allow_domains") (codes "allowed_domains") no_texts
    ∷ two_places (codes "shell") (codes "deny_patterns") (codes "blocked_commands") no_texts
    ∷ one_place (codes "require_approval") no_texts
    ∷ one_place (codes "allowed_env_vars") no_texts
    ∷ one_place (codes "env_var_strip_pattern") no_texts
    ∷ two_places (codes "mcp") (codes "allow_servers") (codes "allowed_mcp_servers") no_texts
    ∷ two_places (codes "mcp") (codes "deny_servers") (codes "denied_mcp_servers") no_texts
    ∷ two_places (codes "mcp") (codes "allow_tools") (codes "allowed_mcp_tools") no_texts
    ∷ two_places (codes "mcp") (codes "deny_tools") (codes "denied_mcp_tools") no_texts
    ∷ one_place (codes "max_file_size_mb") (int (pos 10))
    ∷ two_places (codes "opa") (codes "policy") (codes "opa_policy") (str [])
    ∷ two_places (codes "opa") (codes "query") (codes "opa_query")
        (str (codes "data.runeguard.allow"))
    ∷ two_places (codes "opa") (codes "command") (codes "opa_command") (str (codes "opa"))
    ∷ []

abbrev pub sections : List Text
sections =
    codes "sandbox"
    ∷ codes "files"
    ∷ codes "network"
    ∷ codes "shell"
    ∷ codes "policy"
    ∷ codes "opa"
    ∷ codes "mcp"
    ∷ []

unfoldable pub filled : Fields → List Setting → Fields
unfolding first_of
filled mapping [] = end
filled mapping (setting ∷ rest) =
    field setting.name (first_of mapping setting.places setting.fallback) (filled mapping rest)

unfoldable pub normalize_policy_mapping : Fields → Fields
unfolding filled has_key
normalize_policy_mapping mapping =
    if any (λ section. has_key section mapping) sections then filled mapping settings else mapping

unfoldable pub known_key : Text → List Setting → Bool
known_key key [] = false
known_key key (setting ∷ rest) = key == setting.name || known_key key rest

-- No key of the mapping is missing among `__dataclass_fields__`.
unfoldable pub all_known : Fields → Bool
unfolding known_key
all_known end = true
all_known (field name value rest) =
    let later = all_known rest in if known_key name settings then later else false

-- `PolicyConfig.from_mapping`: the keyword arguments of the constructor.
unfoldable pub from_mapping : Fields → Outcome Fields
unfolding normalize_policy_mapping all_known
from_mapping mapping =
    let normal = normalize_policy_mapping mapping in if all_known normal then ok normal else raised
