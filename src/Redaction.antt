-- ===== src/Redaction.antt =====
-- runeguard/redaction.py: secrets are cut short in every text that is logged.
pub mod Bounds
use runeguard.Prelude.{
  ℕ, zero, suc, ◌+◌, ◌-◌, Text, codes, Bool, true, false, not, ◌&&◌, ◌||◌, List, [], ◌∷◌, ◌++◌,
  length, take, drop, any, contains, leb, ltb, ◌==◌, nat_eq, list_eq, if◌then◌else◌, has_part,
  starts_with,
}
use runeguard.Json.{
  Json, null, boolean, int, float, str, array, object, Items, nil, cons, Fields, end, field,
}
use runeguard.Regex.{
  Regex, empty, one, seq, alt, many, few, not_after, not_before, literal, times, at_least, one_of,
  among, is_alnum, is_digit, is_upper, is_word, sub,
}

abbrev word_or_dash : ℕ → Bool
word_or_dash c = is_word c || c == b'-'

abbrev upper_or_digit : ℕ → Bool
upper_or_digit c = is_upper c || is_digit c

abbrev upper_or_blank : ℕ → Bool
upper_or_blank c = is_upper c || c == 32

abbrev private_key_line : Text → Regex
private_key_line word =
    seq (literal (codes "-----" ++ (word ++ codes " ")))
      (seq (many (one upper_or_blank)) (literal (codes "PRIVATE KEY-----")))

-- `SECRET_PATTERNS`
abbrev pub secret_patterns : List Regex
secret_patterns =
    seq (literal (codes "sk-")) (at_least 20 (one word_or_dash))
    ∷ seq (literal (codes "sk-ant-")) (at_least 20 (one word_or_dash))
    ∷ seq (literal (codes "AIza")) (at_least 30 (one word_or_dash))
    ∷ seq (literal (codes "gh"))
        (seq (one (among (codes "pousr"))) (seq (literal (codes "_")) (at_least 20 (one is_word))))
    ∷ seq (literal (codes "AKIA")) (times 16 (one upper_or_digit))
    ∷ seq (literal (codes "ASIA")) (times 16 (one upper_or_digit))
    ∷ seq (one_of (literal (codes "rk")) (literal (codes "sk") ∷ literal (codes "pk") ∷ [])) (
        seq (literal (codes "_")) (
          seq (one_of (literal (codes "live")) (literal (codes "test") ∷ []))
            (seq (literal (codes "_")) (at_least 16 (one is_alnum)))))
    ∷ seq (private_key_line (codes "BEGIN"))
        (seq (few (one (λ c. true))) (private_key_line (codes "END")))
    ∷ seq (not_after is_alnum) (seq (at_least 48 (one word_or_dash)) (not_before is_alnum))
    ∷ []

abbrev begins_with_any : Text → List Text → Bool
begins_with_any value prefixes = any (λ prefix. starts_with value prefix) prefixes

unfoldable pub prefix_length : Text → ℕ
prefix_length value =
    if begins_with_any value (
      codes "sk-ant-"
      ∷ codes "sk-live-"
      ∷ codes "sk-test-"
      ∷ codes "pk-live-"
      ∷ codes "pk-test-"
      ∷ [])
    then if ltb (length value) 8 then length value else 8
    else if begins_with_any value
        (codes "ghp_" ∷ codes "gho_" ∷ codes "ghu_" ∷ codes "ghs_" ∷ codes "ghr_" ∷ [])
    then 4
    else if begins_with_any value (codes "AKIA" ∷ codes "ASIA" ∷ codes "AIza" ∷ [])
    then 4
    else 3

unfoldable pub redact_match : Text → Text
unfolding prefix_length
redact_match value =
    let suffix : Text = if ltb 8 (length value) then drop (length value - 4) value else [] in
    if has_part value (codes "PRIVATE KEY")
    then codes "[REDACTED PRIVATE KEY]"
    else if suffix == []
    then codes "[REDACTED]"
    else take (prefix_length value) value ++ (codes "..." ++ suffix)

-- The loop of `redact_text` over the patterns.
unfoldable pub redact_by : List Regex → Text → Text
unfolding redact_match
redact_by [] redacted = redacted
redact_by (pattern ∷ patterns) redacted = redact_by patterns (sub redact_match pattern redacted)

unfoldable pub redact_text : Text → Text
unfolding redact_by
redact_text value = redact_by secret_patterns value

unfoldable mutual
  unfolding redact_text

  pub redact_value : Json → Json
  redact_value (str text) = str (redact_text text)
  redact_value (object fields) = object (redact_fields fields)
  redact_value (array items) = array (redact_items items)
  redact_value null = null
  redact_value (boolean b) = boolean b
  redact_value (int n) = int n
  redact_value (float text) = float text

  pub redact_items : Items → Items
  redact_items nil = nil
  redact_items (cons value items) = cons (redact_value value) (redact_items items)

  pub redact_fields : Fields → Fields
  redact_fields end = end
  redact_fields (field name value fields) = field name (redact_value value) (redact_fields fields)
