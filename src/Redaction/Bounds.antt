-- ===== src/Redaction/Bounds.antt =====
-- How much of a secret runeguard/redaction.py leaves to be read.
use runeguard.Prelude.{
  ℕ, zero, suc, ◌-◌, ◌≤◌, Text, codes, true, false, List, [], ◌∷◌, ◌++◌, length, take, drop,
  has_part, ltb, ◌==◌, nat_eq, list_eq, ◌≡◌, ◌⊎◌, inl, inr, refl, arith, Bool-cases, ==_iff, ap,
}
use runeguard.Redaction.{prefix_length, redact_match}

length-take {ℓ} : {A : Type ℓ} (n : ℕ) (xs : List A) → length (take n xs) ≤ n
length-take zero xs = omega arith
length-take (suc n) [] = omega arith
length-take (suc n) (x ∷ xs) = omega (arith, length-take n xs)

take-drop {ℓ} : {A : Type ℓ} (n : ℕ) (xs : List A) → xs ≡ take n xs ++ drop n xs
take-drop zero xs = refl
take-drop (suc n) [] = refl
take-drop (suc n) (x ∷ xs) = ap (λ ys. x ∷ ys) (take-drop n xs)

length-drop {ℓ} : {A : Type ℓ} (n : ℕ) (xs : List A) → length (drop n xs) ≡ length xs - n
length-drop zero xs = omega arith
length-drop (suc n) [] = omega arith
length-drop (suc n) (x ∷ xs) = omega (arith, length-drop n xs)

prefix_length-bound : (value : Text) → prefix_length value ≤ 8
unfolding prefix_length
prefix_length-bound value = ground arith

last_four :
    (value : Text) → ltb 8 (length value) ≡ true → length (drop (length value - 4) value) ≡ 4
last_four value long = ground (arith, length-drop (length value - 4) value)

last_four-full :
    (value : Text) → ltb 8 (length value) ≡ true → (drop (length value - 4) value == []) ≡ false
last_four-full value long = elim (Bool-cases (drop (length value - 4) value == [])) [
  | inr e ↦ e
  | inl e ↦
      let none_left : length (drop (length value - 4) value) ≡ 0 =
        ap (λ text. length text) ((==_iff (drop (length value - 4) value) []).0 e) in
      let four = last_four value long in
      let wrong : ⊥ = omega (arith, none_left, four) in elim wrong [ ]
]

-- What stands for a match of any length has at most 22 characters. Unless it is the notice of a
-- private key, it has at most 15: three dots between at most 8 characters that the match begins
-- with and the 4 that it ends with, and no character of it if the match has 8 or fewer.
pub redact_match-bound :
    (value : Text)
    → (redact_match value ≡ codes "[REDACTED PRIVATE KEY]")
      ⊎ ((redact_match value ≡ codes "[REDACTED]")
          ⊎ ((front : Text) × (rest : Text) × (redact_match value ≡ front ++ (codes "..." ++ rest))
              × ((behind : Text) × (value ≡ front ++ behind))
              × ((ahead : Text) × (value ≡ ahead ++ rest))
              × (length front ≤ 8)
              × (length rest ≡ 4)
              × (9 ≤ length value)))
unfolding redact_match list_eq
redact_match-bound value = elim (Bool-cases (has_part value (codes "PRIVATE KEY"))) [
  | inl key ↦ rw key (inl refl)
  | inr key ↦ rw key (elim (Bool-cases (ltb 8 (length value))) [
    | inr short ↦ rw short (inr (inl refl))
    | inl long ↦
        rw (long, last_four-full value long)
          (inr (
            inr (
              take (prefix_length value) value,
              drop (length value - 4) value,
              refl,
              (drop (prefix_length value) value, take-drop (prefix_length value) value),
              (take (length value - 4) value, take-drop (length value - 4) value),
              omega (arith, length-take (prefix_length value) value, prefix_length-bound value),
              last_four value long,
              ground arith,
            )))
  ])
]
