-- ===== src/Mcp/Messages.antt =====
-- The JSON-RPC messages of runeguard/mcp.
use runeguard.Prelude.{Text, codes, Bool, list_eq, nat_eq, none, some}
use runeguard.Prelude.Int.{ℤ}
use runeguard.Json.{Json, boolean, int, str, array, object, nil, cons, Fields, end, field}
use runeguard.Policy.Loading.{find}

-- `message.get(key, default)`
unfoldable pub get_or : Text → Json → Fields → Json
unfolding find
get_or key default fields = elim (find key fields) [ none ↦ default | some value ↦ value ]

-- `value if isinstance(value, dict) else {}`
unfoldable pub dict_or_empty : Json → Fields
dict_or_empty (object fields) = fields
dict_or_empty _ = end

unfoldable pub result_message : Json → Json → Json
result_message msg_id result = object (
    field (codes "id") msg_id
      (field (codes "jsonrpc") (str (codes "2.0")) (field (codes "result") result end)))

unfoldable pub error_message : Json → Json → Json
error_message msg_id problem = object (
    field (codes "error") problem
      (field (codes "id") msg_id (field (codes "jsonrpc") (str (codes "2.0")) end)))

-- `RuneGuardMCPServer._error`
unfoldable pub error_response : Json → ℤ → Text → Json
unfolding error_message
error_response msg_id code message =
    error_message msg_id
      (object (field (codes "code") (int code) (field (codes "message") (str message) end)))

-- The result of a tool call.
unfoldable pub tool_response : Json → Text → Bool → Json
unfolding result_message
tool_response msg_id text is_error = result_message msg_id (
    object (
      field (codes "content")
        (array (
          cons
            (object
              (field (codes "text") (str text) (field (codes "type") (str (codes "text")) end)))
            nil))
        (field (codes "isError") (boolean is_error) end)))
