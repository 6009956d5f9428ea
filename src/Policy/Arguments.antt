-- ===== src/Policy/Arguments.antt =====
-- The keyword arguments of `Policy.decide` (runeguard/policy.py) out of a dict of JSON values.
use runeguard.Prelude.{
  Text, codes, List, [], ◌∷◌, Option, none, some, ◌&&◌, if◌then◌else◌, list_eq, nat_eq,
}
use runeguard.Outcome.{Outcome, ok, raised, ◌>>=◌}
use runeguard.Json.{Json, null, str, array, Items, nil, cons, Fields, get, is_none}
use runeguard.Policy.Loading.{has_key}
use runeguard.Policy.Decide.{Kwargs}

-- A value under a key that the policy reads: a text, or `None`. Another value, which can only come
-- in a message of a client, is `raised` here; the policy's tests on texts raise on it.
unfoldable pub text_of : Json → Outcome (Option Text)
text_of null = ok none
text_of (str text) = ok (some text)
text_of _ = raised

-- The command, which may be absent. `None` raises there too.
unfoldable pub given_command : Fields → Outcome (Option Text)
unfolding has_key text_of
given_command fields =
    if has_key (codes "command") fields && is_none (get (codes "command") fields)
    then raised
    else text_of (get (codes "command") fields)

unfoldable pub words_of : Items → Outcome (List Text)
words_of nil = ok []
words_of (cons (str word) items) = do words ← words_of items; ok (word ∷ words)
words_of (cons _ items) = raised

unfoldable pub argv_of : Json → Outcome (Option (List Text))
unfolding words_of
argv_of null = ok none
argv_of (array items) = do words ← words_of items; ok (some words)
argv_of _ = raised

unfoldable pub kwargs_of : Fields → Outcome Kwargs
unfolding text_of given_command argv_of
kwargs_of fields = do
  path ← text_of (get (codes "path") fields)
  pathname ← text_of (get (codes "pathname") fields)
  command ← given_command fields
  argv ← argv_of (get (codes "argv") fields)
  url ← text_of (get (codes "url") fields)
  host ← text_of (get (codes "host") fields)
  server_name ← text_of (get (codes "server_name") fields)
  server ← text_of (get (codes "server") fields)
  tool_name ← text_of (get (codes "tool_name") fields)
  mcp_tool ← text_of (get (codes "mcp_tool") fields)
  ok (record {
    path = path;
    pathname = pathname;
    command = command;
    argv = argv;
    url = url;
    host = host;
    server_name = server_name;
    server = server;
    tool_name = tool_name;
    mcp_tool = mcp_tool;
  })
