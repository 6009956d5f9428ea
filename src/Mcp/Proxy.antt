-- ===== src/Mcp/Proxy.antt =====
-- The class `MCPPolicyProxy` of runeguard/mcp/proxy.py: which messages of the client are forwarded.
use runeguard.Prelude.{
  ℕ, Text, codes, Bool, not, ◌||◌, List, [], ◌∷◌, ◌++◌, ◌==◌, list_eq, nat_eq, if◌then◌else◌, map,
  any, contains, starts_with, has_part, lower, lstrip, rstrip,
}
use runeguard.Json.{
  Json, null, boolean, int, float, str, array, object, Items, nil, cons, Fields, end, field, get,
}
use runeguard.Policy.Settings.{Policy}
use runeguard.Regex.{
  Regex, seq, alt, empty, one, boundary, literal, at_least, is_alnum, is_letter, is_space, findall,
}

abbrev read_tool_names : List Text
read_tool_names =
    codes "read_file"
    ∷ codes "readfile"
    ∷ codes "read"
    ∷ codes "cat"
    ∷ codes "resources/read"
    ∷ codes "get_file_contents"
    ∷ codes "fetch_file"
    ∷ codes "load_file"
    ∷ codes "open_file"
    ∷ codes "view_file"
    ∷ codes "show_file"
    ∷ codes "display_file"
    ∷ []

abbrev read_tool_prefixes : List Text
read_tool_prefixes =
    codes "read_"
    ∷ codes "fetch_file"
    ∷ codes "get_file"
    ∷ codes "load_file"
    ∷ codes "open_file"
    ∷ []

abbrev write_tool_names : List Text
write_tool_names =
    codes "write_file"
    ∷ codes "writefile"
    ∷ codes "write"
    ∷ codes "save_file"
    ∷ codes "save"
    ∷ codes "put_file"
    ∷ codes "store_file"
    ∷ codes "create_file"
    ∷ codes "append_file"
    ∷ codes "edit_file"
    ∷ codes "patch_file"
    ∷ codes "update_file"
    ∷ []

abbrev write_tool_prefixes : List Text
write_tool_prefixes =
    codes "write_"
    ∷ codes "save_file"
    ∷ codes "create_file"
    ∷ codes "edit_file"
    ∷ codes "append_file"
    ∷ codes "patch_file"
    ∷ codes "update_file"
    ∷ []

unfoldable pub looks_like_read : Text → Bool
looks_like_read tool_name =
    contains read_tool_names (lower tool_name)
    || any (λ prefix. starts_with (lower tool_name) prefix) read_tool_prefixes

unfoldable pub looks_like_write : Text → Bool
looks_like_write tool_name =
    contains write_tool_names (lower tool_name)
    || any (λ prefix. starts_with (lower tool_name) prefix) write_tool_prefixes

-- `value.replace("\\", "/")`
unfoldable pub with_slashes : Text → Text
with_slashes = map (λ c. if c == 92 then b'/' else c)

-- One round of the loop of `_is_writable`, on the normalized path.
unfoldable pub covers : Text → Text → Bool
unfolding with_slashes
covers normalized writable =
    let candidate = rstrip (codes "/") (lstrip (codes "./") (with_slashes writable)) in
    normalized == candidate || starts_with normalized (candidate ++ codes "/")

unfoldable pub is_writable : Policy → Text → Bool
unfolding with_slashes covers
is_writable policy path =
    any (covers (lstrip (codes "./") (with_slashes path))) policy.writable_paths

-- The first text under one of the keys.
unfoldable pub first_text : List Text → Fields → Text
first_text [] arguments = []
first_text (key ∷ keys) arguments =
    let later = first_text keys arguments in
    elim (get key arguments) [ str text ↦ text | _ ↦ later ]

unfoldable pub argument_path : Fields → Text
unfolding first_text
argument_path =
    first_text
      (codes "path" ∷ codes "file" ∷ codes "filepath" ∷ codes "file_path" ∷ codes "uri" ∷ [])

unfoldable pub argument_command : Fields → Text
unfolding first_text
argument_command = first_text (codes "command" ∷ codes "cmd" ∷ codes "shell" ∷ [])

-- `https?://[^\s"'<>]+`
abbrev pub url_pattern : Regex
url_pattern = seq (literal (codes "http")) (
    seq (alt (literal (codes "s")) empty) (
      seq (literal (codes "://"))
        (at_least 1 (one (λ c. not (is_space c || contains (34 ∷ 39 ∷ 60 ∷ 62 ∷ []) c))))))

abbrev is_host_code : ℕ → Bool
is_host_code c = is_alnum c || c == b'-'

-- `\b(?:[a-zA-Z0-9-]+\.)+[a-zA-Z]{2}\b`
abbrev pub host_pattern : Regex
host_pattern = seq boundary (
    seq (at_least 1 (seq (at_least 1 (one is_host_code)) (literal (codes "."))))
      (seq (at_least 2 (one is_letter)) boundary))

abbrev address_keys : List Text
address_keys =
    codes "url"
    ∷ codes "uri"
    ∷ codes "host"
    ∷ codes "hostname"
    ∷ codes "domain"
    ∷ codes "endpoint"
    ∷ []

-- The hosts that are no part of what was found before them.
unfoldable pub add_hosts : List Text → List Text → List Text
add_hosts found [] = found
add_hosts found (host ∷ hosts) =
    add_hosts
      (if any (λ existing. has_part existing host) found then found else found ++ (host ∷ [])) hosts

unfoldable pub addresses_in : Text → Text → List Text
unfolding add_hosts
addresses_in text key_hint =
    if contains address_keys (lower key_hint)
    then add_hosts (findall url_pattern text) (findall host_pattern text)
    else findall url_pattern text

-- `_urls_or_hosts`
unfoldable mutual
  unfolding addresses_in

  pub urls_or_hosts : Json → Text → List Text
  urls_or_hosts (object fields) key_hint = urls_in_fields fields
  urls_or_hosts (array items) key_hint = urls_in_items items key_hint
  urls_or_hosts (str text) key_hint = addresses_in text key_hint
  urls_or_hosts null key_hint = []
  urls_or_hosts (boolean b) key_hint = []
  urls_or_hosts (int n) key_hint = []
  urls_or_hosts (float text) key_hint = []

  pub urls_in_items : Items → Text → List Text
  urls_in_items nil key_hint = []
  urls_in_items (cons value items) key_hint =
      urls_or_hosts value key_hint ++ urls_in_items items key_hint

  pub urls_in_fields : Fields → List Text
  urls_in_fields end = []
  urls_in_fields (field name value fields) = urls_or_hosts value name ++ urls_in_fields fields
