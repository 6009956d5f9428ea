-- ===== src/Tests/Servers.antt =====
-- A concrete MCP configuration, for runeguard/mcp/inspect.py.
use runeguard.Prelude.{◌≡◌, refl, codes, [], ◌∷◌, nat_eq, list_eq, lower, starts_with, has_part}
use runeguard.Outcome.{ok}
use runeguard.Json.{Json, str, array, object, nil, cons, field, end, get, str_of}
use runeguard.Policy.Loading.{find}
use runeguard.Mcp.Messages.{get_or}
use runeguard.Mcp.Inspecting.{McpServerInfo, inspect_mcp_config}
use runeguard.Tests.Serving.{shown}

abbrev settings : Json
settings = object (
    field (codes "mcpServers")
      (object (
        field (codes "files")
          (object (
            field (codes "args") (array (cons (str (codes "https://x.example")) nil)) (
              field (codes "command") (str (codes "npx")) (
                field (codes "env") (object (field (codes "API_TOKEN") (str (codes "1")) end))
                  end))))
          end))
      end)

abbrev files_server : McpServerInfo
files_server = record {
  name = codes "files";
  command = codes "npx";
  args = codes "https://x.example" ∷ [];
  env_keys = codes "API_TOKEN" ∷ [];
  risks =
      codes "interpreter launch"
      ∷ codes "network-capable args"
      ∷ codes "env may include secrets"
      ∷ [];
}

inspected_settings : inspect_mcp_config shown settings ≡ ok (files_server ∷ [])
unfolding inspect_mcp_config get_or find get nat_eq list_eq lower starts_with has_part str_of
inspected_settings = refl
