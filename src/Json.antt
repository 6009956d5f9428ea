-- ===== src/Json.antt =====
-- The Python values that `json` reads and writes. A dict is the list of its items in the order of
-- their keys, each key once; the search for addresses in runeguard/mcp/proxy.py alone reads them in
-- order, and sees the order of insertion only if the parser that is its argument keeps it. A float
-- is kept as its text.
use runeguard.Prelude.{Text, codes, Bool, true, false, ◌==◌, list_eq, nat_eq, if◌then◌else◌}
use runeguard.Prelude.Int.{ℤ, pos, int_eq}

mutual
  pub data Json : Type 0 where
    null : Json
    boolean : Bool → Json
    int : ℤ → Json
    float : Text → Json
    str : Text → Json
    array : Items → Json
    object : Fields → Json

  pub data Items : Type 0 where
    nil : Items
    cons : Json → Items → Items

  pub data Fields : Type 0 where
    end : Fields
    field : Text → Json → Fields → Fields

-- `record.get(key)`: `None` where the key is missing.
unfoldable pub get : Text → Fields → Json
get key end = null
get key (field name value rest) = if name == key then value else get key rest

-- `bool(value)`
unfoldable pub truthy : Json → Bool
truthy null = false
truthy (boolean b) = b
truthy (int n) = if n == pos 0 then false else true
truthy (float text) =
    if text == codes "0.0" then false else if text == codes "-0.0" then false else true
truthy (str text) = if text == codes "" then false else true
truthy (array nil) = false
truthy (array (cons value items)) = true
truthy (object end) = false
truthy (object (field name value fields)) = true

unfoldable pub is_none : Json → Bool
is_none null = true
is_none _ = false

-- `str(value)`, where `show` is it on values that are no texts.
unfoldable pub str_of : (Json → Text) → Json → Text
str_of show (str text) = text
str_of show value = show value
