-- ===== src/Tests/Codec.antt =====
-- A codec of JSON values as texts of `a` and `b`, for the tests of the audit log: it stands where
-- the program has `json.dumps` and `json.loads`.
use runeguard.Prelude.{
  ℕ, zero, suc, ◌≤◌, ◌≡◌, refl, ap, true, false, List, [], ◌∷◌, ◌++◌, length, length-append, take,
  drop, Option, none, some, nat_eq, arith, append_assoc,
}
use runeguard.Prelude.Int.{pos, negsuc}
use runeguard.Json.{
  Json, null, boolean, int, float, str, array, object, Items, nil, cons, Fields, end, field,
}

unfoldable mutual
  pub tokens : Json → List ℕ
  tokens null = 0 ∷ []
  tokens (boolean false) = 1 ∷ []
  tokens (boolean true) = 2 ∷ []
  tokens (int (pos n)) = 3 ∷ n ∷ []
  tokens (int (negsuc n)) = 4 ∷ n ∷ []
  tokens (float text) = 5 ∷ length text ∷ text
  tokens (str text) = 6 ∷ length text ∷ text
  tokens (array items) = 7 ∷ tokens_items items
  tokens (object fields) = 8 ∷ tokens_fields fields

  pub tokens_items : Items → List ℕ
  tokens_items nil = 0 ∷ []
  tokens_items (cons value items) = 1 ∷ (tokens value ++ tokens_items items)

  pub tokens_fields : Fields → List ℕ
  tokens_fields end = 0 ∷ []
  tokens_fields (field name value fields) =
      1 ∷ length name ∷ (name ++ (tokens value ++ tokens_fields fields))

unfoldable then_parse : {A B : Type 0} → Option (A × List ℕ) → (A → List ℕ → Option B) → Option B
then_parse none f = none
then_parse (some (a, rest)) f = f a rest

unfoldable mutual
  unfolding then_parse

  pub parse : ℕ → List ℕ → Option (Json × List ℕ)
  parse (suc fuel) (zero ∷ rest) = some (null, rest)
  parse (suc fuel) ((suc zero) ∷ rest) = some (boolean false, rest)
  parse (suc fuel) ((suc (suc zero)) ∷ rest) = some (boolean true, rest)
  parse (suc fuel) ((suc (suc (suc zero))) ∷ n ∷ rest) = some (int (pos n), rest)
  parse (suc fuel) ((suc (suc (suc (suc zero)))) ∷ n ∷ rest) = some (int (negsuc n), rest)
  parse (suc fuel) ((suc (suc (suc (suc (suc zero))))) ∷ n ∷ rest) =
      some (float (take n rest), drop n rest)
  parse (suc fuel) ((suc (suc (suc (suc (suc (suc zero)))))) ∷ n ∷ rest) =
      some (str (take n rest), drop n rest)
  parse (suc fuel) ((suc (suc (suc (suc (suc (suc (suc zero))))))) ∷ rest) =
      then_parse (parse_items fuel rest) (λ items left. some (array items, left))
  parse (suc fuel) ((suc (suc (suc (suc (suc (suc (suc (suc zero)))))))) ∷ rest) =
      then_parse (parse_fields fuel rest) (λ fields left. some (object fields, left))
  parse _ _ = none

  pub parse_items : ℕ → List ℕ → Option (Items × List ℕ)
  parse_items (suc fuel) (zero ∷ rest) = some (nil, rest)
  parse_items (suc fuel) ((suc zero) ∷ rest) = then_parse (parse fuel rest) (λ value more.
      then_parse (parse_items fuel more) (λ items left. some (cons value items, left)))
  parse_items _ _ = none

  pub parse_fields : ℕ → List ℕ → Option (Fields × List ℕ)
  parse_fields (suc fuel) (zero ∷ rest) = some (end, rest)
  parse_fields (suc fuel) ((suc zero) ∷ n ∷ rest) =
      then_parse (parse fuel (drop n rest)) (λ value more.
        then_parse (parse_fields fuel more)
          (λ fields left. some (field (take n rest) value fields, left)))
  parse_fields _ _ = none

take-append : (xs ys : List ℕ) → take (length xs) (xs ++ ys) ≡ xs
take-append [] ys = refl
take-append (x ∷ xs) ys = ap (λ s. x ∷ s) (take-append xs ys)

drop-append : (xs ys : List ℕ) → drop (length xs) (xs ++ ys) ≡ ys
drop-append [] ys = refl
drop-append (x ∷ xs) ys = drop-append xs ys

pub tokens_full : (value : Json) → suc 0 ≤ length (tokens value)
unfolding tokens
tokens_full null = omega arith
tokens_full (boolean false) = omega arith
tokens_full (boolean true) = omega arith
tokens_full (int (pos n)) = omega arith
tokens_full (int (negsuc n)) = omega arith
tokens_full (float text) = omega arith
tokens_full (str text) = omega arith
tokens_full (array items) = omega arith
tokens_full (object fields) = omega arith

tokens_items_full : (items : Items) → suc 0 ≤ length (tokens_items items)
unfolding tokens
tokens_items_full nil = omega arith
tokens_items_full (cons value items) = omega arith

tokens_fields_full : (fields : Fields) → suc 0 ≤ length (tokens_fields fields)
unfolding tokens
tokens_fields_full end = omega arith
tokens_fields_full (field name value fields) = omega arith

mutual
  unfolding tokens parse then_parse

  pub parse-tokens :
      (fuel : ℕ) (value : Json) (rest : List ℕ)
      → length (tokens value) ≤ fuel
      → parse fuel (tokens value ++ rest) ≡ some (value, rest)
  parse-tokens zero value rest h = absurd (omega (arith, tokens_full value))
  parse-tokens (suc fuel) null rest h = refl
  parse-tokens (suc fuel) (boolean false) rest h = refl
  parse-tokens (suc fuel) (boolean true) rest h = refl
  parse-tokens (suc fuel) (int (pos n)) rest h = refl
  parse-tokens (suc fuel) (int (negsuc n)) rest h = refl
  parse-tokens (suc fuel) (float text) rest h =
      rw (take-append text rest, drop-append text rest) refl
  parse-tokens (suc fuel) (str text) rest h = rw (take-append text rest, drop-append text rest) refl
  parse-tokens (suc fuel) (array items) rest h =
      rw (parse_items-tokens_items fuel items rest (omega arith)) refl
  parse-tokens (suc fuel) (object fields) rest h =
      rw (parse_fields-tokens_fields fuel fields rest (omega arith)) refl

  parse_items-tokens_items :
      (fuel : ℕ) (items : Items) (rest : List ℕ)
      → length (tokens_items items) ≤ fuel
      → parse_items fuel (tokens_items items ++ rest) ≡ some (items, rest)
  parse_items-tokens_items (suc fuel) nil rest h = refl
  parse_items-tokens_items (suc fuel) (cons value items) rest h =
      let long = length-append (tokens value) (tokens_items items) in
      rw
        (
          append_assoc,
          parse-tokens fuel value (tokens_items items ++ rest) (omega arith),
          parse_items-tokens_items fuel items rest (omega arith),
        )
        refl
  parse_items-tokens_items zero items rest h = absurd (omega (arith, tokens_items_full items))

  parse_fields-tokens_fields :
      (fuel : ℕ) (fields : Fields) (rest : List ℕ)
      → length (tokens_fields fields) ≤ fuel
      → parse_fields fuel (tokens_fields fields ++ rest) ≡ some (fields, rest)
  parse_fields-tokens_fields (suc fuel) end rest h = refl
  parse_fields-tokens_fields (suc fuel) (field name value fields) rest h =
      let tail = tokens value ++ tokens_fields fields in
      let whole = length-append name tail in
      let long = length-append (tokens value) (tokens_fields fields) in
      rw
        (
          append_assoc name tail rest,
          take-append,
          drop-append,
          append_assoc (tokens value),
          parse-tokens fuel value (tokens_fields fields ++ rest) (omega arith),
          parse_fields-tokens_fields fuel fields rest (omega arith),
        )
        refl
  parse_fields-tokens_fields zero fields rest h = absurd (omega (arith, tokens_fields_full fields))
