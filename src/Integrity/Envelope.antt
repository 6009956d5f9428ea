-- ===== src/Integrity/Envelope.antt =====
-- The envelopes of runeguard/integrity.py and their digests.
use runeguard.Prelude.{
  ℕ, Text, codes, Bool, true, false, List, [], ◌∷◌, ◌++◌, all, ltb, Option, none, some,
  if◌then◌else◌, list_eq, nat_eq, ◌&&◌, ◌+◌, ◌/◌, ◌%◌, leb,
}
use runeguard.Prelude.Int.{ℤ, pos, int_text}
use runeguard.Outcome.{Outcome, ok, raised, ◌>>=◌}
use runeguard.Json.{Json, boolean, int, str, object, Fields, get, truthy}
use runeguard.Integrity.Runtime.{Bytes, Runtime}

abbrev pub domain : Bytes
domain = codes "runeguard.audit.v1"

-- `"0" * 64`
abbrev pub genesis_prev : Text
genesis_prev = codes "0000000000000000000000000000000000000000000000000000000000000000"

-- `text.encode("ascii")`
unfoldable pub encode_ascii : Text → Outcome Bytes
encode_ascii text = if all (λ c. ltb c 128) text then ok text else raised

-- The bytes of one code point in UTF-8. A surrogate cannot be encoded.
unfoldable pub utf8_code : ℕ → Outcome Bytes
utf8_code c =
    if ltb c 128
    then ok (c ∷ [])
    else if ltb c 2048
    then ok ((192 + c / 64) ∷ (128 + c % 64) ∷ [])
    else if leb 55296 c && leb c 57343
    then raised
    else if ltb c 65536
    then ok ((224 + c / 4096) ∷ (128 + c / 64 % 64) ∷ (128 + c % 64) ∷ [])
    else ok ((240 + c / 262144) ∷ (128 + c / 4096 % 64) ∷ (128 + c / 64 % 64) ∷ (128 + c % 64) ∷ [])

-- `text.encode("utf-8")`
unfoldable pub encode_utf8 : Text → Outcome Bytes
unfolding utf8_code
encode_utf8 [] = ok []
encode_utf8 (c ∷ text) = do first ← utf8_code c; rest ← encode_utf8 text; ok (first ++ rest)

-- A value that passes `isinstance(value, int)`: a bool does.
pub data PyInt : Type 0 where
  whole : ℤ → PyInt
  truth : Bool → PyInt

-- The integer that it compares as.
unfoldable pub int_value : PyInt → ℤ
int_value (whole n) = n
int_value (truth true) = pos 1
int_value (truth false) = pos 0

-- `str(seq)`
unfoldable pub seq_text : PyInt → Text
seq_text (whole n) = int_text n
seq_text (truth true) = codes "True"
seq_text (truth false) = codes "False"

-- `(value or "")` as it is encoded: what is true and no string has no `encode`.
unfoldable pub or_empty : Json → Outcome Text
or_empty (str text) = ok text
or_empty value = if truthy value then raised else ok []

-- `b"\x00".join(parts)`
unfoldable pub join_nul : Bytes → List Bytes → Bytes
join_nul part [] = part
join_nul part (next ∷ parts) = part ++ (0 ∷ join_nul next parts)

module _ (R : Runtime) where
  -- `_canonical`. The dumped text is ASCII, so that UTF-8 encodes it as itself.
  unfoldable pub canonical : Fields → Bytes
  canonical payload = R.dumps (object payload)

  -- The choice at the end of both digests.
  unfoldable pub hash_material : Option Bytes → Bytes → Text
  hash_material none material = R.sha256 material
  hash_material (some key) material = R.hmac_sha256 key material

  -- `_digest`
  unfoldable pub digest : Option Bytes → PyInt → Text → Fields → Json → Json → Outcome Text
  unfolding hash_material canonical join_nul
  digest key seq prev_hash payload ts mode = do
    prev ← encode_ascii prev_hash
    ts_text ← or_empty ts
    ts_bytes ← encode_utf8 ts_text
    mode_text ← or_empty mode
    mode_bytes ← encode_ascii mode_text
    let parts = seq_text seq ∷ prev ∷ ts_bytes ∷ mode_bytes ∷ canonical payload ∷ []
    ok (hash_material key (join_nul domain parts))

  -- `_legacy_digest`
  unfoldable pub legacy_digest : Option Bytes → PyInt → Text → Fields → Outcome Text
  unfolding hash_material canonical join_nul
  legacy_digest key seq prev_hash payload = do
    prev ← encode_ascii prev_hash
    ok (hash_material key (join_nul domain (seq_text seq ∷ prev ∷ canonical payload ∷ [])))

-- What the code reads of an envelope by `env[…]` and `env.get(…)`.
pub record Envelope : Type 0 where
  pub seq : PyInt
  pub prev_hash : Text
  pub payload : Fields
  pub hash : Text
  pub ts : Json
  pub mode : Json

as_int : Json → Option PyInt
as_int (int n) = some (whole n)
as_int (boolean b) = some (truth b)
as_int _ = none

as_str : Json → Option Text
as_str (str text) = some text
as_str _ = none

as_dict : Json → Option Fields
as_dict (object fields) = some fields
as_dict _ = none

-- The four `isinstance` tests in one place.
checked : Option PyInt → Option Text → Option Fields → Option Text → Json → Json → Option Envelope
checked (some seq) (some prev_hash) (some payload) (some hash) ts mode = some (record {
  seq = seq;
  prev_hash = prev_hash;
  payload = payload;
  hash = hash;
  ts = ts;
  mode = mode;
})
checked _ _ _ _ ts mode = none

-- `is_integrity_envelope`, with the fields of a record that passes it.
unfoldable pub read_envelope : Json → Option Envelope
unfolding checked as_int as_str as_dict
read_envelope (object fields) =
    checked (as_int (get (codes "seq") fields)) (as_str (get (codes "prev_hash") fields))
      (as_dict (get (codes "payload") fields)) (as_str (get (codes "hash") fields))
      (get (codes "ts") fields) (get (codes "mode") fields)
read_envelope _ = none

-- `unwrap_payload`
unfoldable pub unwrap_payload : Json → Json
unwrap_payload value = elim (read_envelope value) [
  | none ↦ value
  | some envelope ↦ object envelope.payload
]
