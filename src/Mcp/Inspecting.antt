-- ===== src/Mcp/Inspecting.antt =====
-- runeguard/mcp/inspect.py: the servers of an MCP configuration and what is risky in them. `show`
-- is Python's `str`.
use runeguard.Prelude.{
  ◌-◌, Text, codes, Bool, true, false, ◌&&◌, ◌||◌, List, [], ◌∷◌, ◌++◌, ◌==◌, any, contains, leb,
  map, lower, has_part, starts_with, list_eq, nat_eq, if◌then◌else◌,
}
use runeguard.Outcome.{Outcome, ok, raised, ◌>>=◌}
use runeguard.Json.{Json, null, str, array, object, Items, nil, cons, Fields, end, field, str_of}
use runeguard.Correlation.{join_blank}
use runeguard.Mcp.Messages.{get_or}

pub record McpServerInfo : Type 0 where
  pub name : Text
  pub command : Text
  pub args : List Text
  pub env_keys : List Text
  pub risks : List Text

-- `value.upper()` on ASCII.
unfoldable pub upper : Text → Text
upper = map (λ c. if leb b'a' c && leb c b'z' then c - 32 else c)

unfoldable pub risk_if : Bool → Text → List Text
risk_if false risk = []
risk_if true risk = risk ∷ []

-- `sep.join(texts)`
unfoldable pub join_with : Text → List Text → Text
join_with separator [] = []
join_with separator (text ∷ []) = text
join_with separator (text ∷ next ∷ texts) =
    text ++ (separator ++ join_with separator (next ∷ texts))

module _ (show : Json → Text) where
  -- The loop over the variables.
  unfoldable pub has_secret_name : Fields → Bool
  unfolding upper
  has_secret_name end = false
  has_secret_name (field key value env) =
      let combined = upper (key ++ (codes "=" ++ str_of show value)) in
      let later = has_secret_name env in
      any (λ marker. has_part combined marker)
        (codes "KEY" ∷ codes "TOKEN" ∷ codes "SECRET" ∷ codes "PASSWORD" ∷ [])
      || later

  -- `_risks`
  unfoldable pub risks_of : Text → List Text → Fields → List Text
  unfolding risk_if has_secret_name join_blank
  risks_of command args env =
      risk_if (command == []) (codes "missing command")
      ++ (risk_if
            (starts_with (lower command) (codes "/tmp/")
              || starts_with (lower command) (codes "/var/tmp/")
              || has_part command (codes ".."))
            (codes "suspicious command path")
          ++ (risk_if
                (contains
                  (codes "sh"
                    ∷ codes "bash"
                    ∷ codes "zsh"
                    ∷ codes "python"
                    ∷ codes "node"
                    ∷ codes "npx"
                    ∷ [])
                  (lower command))
                (codes "interpreter launch")
              ++ (risk_if
                    (any (λ token. has_part (lower (join_blank args)) token)
                      (codes "http://" ∷ codes "https://" ∷ codes "curl" ∷ codes "wget" ∷ []))
                    (codes "network-capable args")
                  ++ risk_if (has_secret_name env) (codes "env may include secrets"))))

  -- The arguments that are texts or numbers; a bool is a number.
  unfoldable pub item_args : Items → List Text
  item_args nil = []
  item_args (cons null items) = item_args items
  item_args (cons (array value) items) = item_args items
  item_args (cons (object value) items) = item_args items
  item_args (cons value items) = str_of show value ∷ item_args items

  field_names : Fields → List Text
  field_names end = []
  field_names (field name value fields) = name ∷ field_names fields

  -- What a `for` over the value of `args` goes through; other values cannot be gone through.
  unfoldable pub args_of : Json → Outcome (List Text)
  unfolding item_args field_names
  args_of (array items) = ok (item_args items)
  args_of (str text) = ok (map (λ c. c ∷ []) text)
  args_of (object fields) = ok (field_names fields)
  args_of _ = raised

  -- The variables, where they are a dict.
  unfoldable pub env_of : Json → Fields
  env_of (object env) = env
  env_of _ = end

  unfoldable pub server_of : Text → Fields → Outcome McpServerInfo
  unfolding args_of env_of risks_of field_names
  server_of name config = do
    args ← args_of (get_or (codes "args") (array nil) config)
    let command = str_of show (get_or (codes "command") (str []) config)
    let env = env_of (get_or (codes "env") (object end) config)
    ok (record {
      name = name;
      command = command;
      args = args;
      env_keys = field_names env;
      risks = risks_of command args env;
    })

  -- The loop of `inspect_mcp_config`.
  unfoldable pub inspected : Fields → Outcome (List McpServerInfo)
  unfolding server_of
  inspected end = ok []
  inspected (field name (object config) servers) = do
    server ← server_of name config
    rest ← inspected servers
    ok (server ∷ rest)
  inspected (field name value servers) = inspected servers

  unfoldable pub servers_of : Json → Outcome (List McpServerInfo)
  unfolding inspected
  servers_of (object servers) = inspected servers
  servers_of _ = raised

  -- `inspect_mcp_config`, on the parsed file.
  unfoldable pub inspect_mcp_config : Json → Outcome (List McpServerInfo)
  unfolding servers_of
  inspect_mcp_config (object data') =
      servers_of (get_or (codes "mcpServers") (get_or (codes "servers") (object data') data') data')
  inspect_mcp_config _ = raised

unfoldable pub or_text : Text → Text → Text
or_text [] other = other
or_text (c ∷ text) other = c ∷ text

unfoldable pub server_row : McpServerInfo → Text
unfolding or_text join_with join_blank
server_row server = join_with (codes "  ") (
    server.name
    ∷ or_text server.command (codes "-")
    ∷ or_text (join_blank server.args) (codes "-")
    ∷ or_text (join_with (codes ", ") server.env_keys) (codes "-")
    ∷ or_text (join_with (codes ", ") server.risks) (codes "none")
    ∷ [])

-- The lines that `render_mcp_inspection` joins, without `json_output`.
unfoldable pub render_mcp_inspection : List McpServerInfo → List Text
unfolding server_row
render_mcp_inspection [] = codes "No MCP servers found." ∷ []
render_mcp_inspection (server ∷ servers) =
    codes "Name  Command  Args  Env  Risks"
    ∷ codes "----  -------  ----  ---  -----"
    ∷ map server_row (server ∷ servers)
