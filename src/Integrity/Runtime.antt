-- ===== src/Integrity/Runtime.antt =====
-- What runeguard/integrity.py takes from `hashlib`, `hmac` and `json`, and what is documented of
-- it.
use runeguard.Prelude.{ℕ, ◌≡◌, ◌≢◌, ◌<◌, Text, List, [], All, Option, some, strip}
use runeguard.Json.{Json}

abbrev pub Bytes : Type 0
Bytes = List ℕ

pub record Runtime : Type 0 where
  -- `hashlib.sha256(material).hexdigest()`
  pub sha256 : Bytes → Text
  -- `hmac.new(key, material, hashlib.sha256).hexdigest()`
  pub hmac_sha256 : Bytes → Bytes → Text
  -- `json.dumps(value, sort_keys=True, separators=(",", ":"))`
  pub dumps : Json → Text
  -- `json.loads(text)`; `none` is a `JSONDecodeError`.
  pub loads : Text → Option Json

-- A character of a printed ASCII text.
abbrev pub IsPrinted : ℕ → Type 0
IsPrinted c = (31 < c) × (c < 128)

-- Digests are printed in hexadecimal. A dumped value is one line of printed ASCII with nothing to
-- strip, and is read back as itself.
pub record IsLawful (R : Runtime) : Type 0 where
  pub sha256_printed : (material : Bytes) → All IsPrinted (R.sha256 material)
  pub hmac_printed : (key material : Bytes) → All IsPrinted (R.hmac_sha256 key material)
  pub dumps_printed : (value : Json) → All IsPrinted (R.dumps value)
  pub dumps_ne_nil : (value : Json) → R.dumps value ≢ []
  pub strip-dumps : (value : Json) → strip (R.dumps value) ≡ R.dumps value
  pub loads-dumps : (value : Json) → R.loads (R.dumps value) ≡ some value
