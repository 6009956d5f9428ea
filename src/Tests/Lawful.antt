-- ===== src/Tests/Lawful.antt =====
-- A concrete runtime for the audit log, with a weak hash, and the proof that it is lawful.
use mathlib.Core.List.{reverse, reverse-cons, reverse-reverse}
use runeguard.Prelude.{
  ℕ, zero, suc, ◌+◌, ◌≤◌, ◌≡◌, ◌≢◌, refl, ap, ◌∙◌, Text, List, [], ◌∷◌, ◌++◌, length, Option, none,
  some, ◌==◌, if◌then◌else◌, nat_eq, arith, append-nil, All, ◌⊎◌, inl, inr, strip, lstrip, rstrip,
  white_space,
}
use runeguard.Json.{Json}
use runeguard.Integrity.Runtime.{Bytes, Runtime, IsLawful, IsPrinted}
use runeguard.Tests.Codec.{tokens, parse, parse-tokens, tokens_full}

-- A number in unary.
unfoldable pub unary : ℕ → Text
unary zero = b'b' ∷ []
unary (suc n) = b'a' ∷ unary n

unfoldable pub printed : List ℕ → Text
unfolding unary
printed [] = []
printed (n ∷ ns) = unary n ++ printed ns

-- The numbers of a printed text, with the letters of the first counted.
unfoldable pub scanned : ℕ → Text → List ℕ
scanned count [] = []
scanned count (c ∷ text) =
    let more = scanned (suc count) text in
    let next = scanned 0 text in if c == b'a' then more else count ∷ next

scanned-unary :
    (n count : ℕ) (text : Text) → scanned count (unary n ++ text) ≡ (n + count) ∷ scanned 0 text
unfolding unary scanned nat_eq
scanned-unary zero count text = ground arith
scanned-unary (suc n) count text =
    scanned-unary n (suc count) text ∙ ap (λ k. k ∷ scanned 0 text) (omega arith)

scanned-printed : (ns : List ℕ) → scanned 0 (printed ns) ≡ ns
unfolding printed scanned
scanned-printed [] = refl
scanned-printed (n ∷ ns) = rw (scanned-unary n 0 (printed ns), scanned-printed ns) (ground arith)

abbrev IsLetter : ℕ → Type 0
IsLetter c = (c ≡ b'a') ⊎ (c ≡ b'b')

letters-append : (xs ys : Text) → All IsLetter xs → All IsLetter ys → All IsLetter (xs ++ ys)
letters-append [] ys h k = k
letters-append (x ∷ xs) ys (p, h) k = (p, letters-append xs ys h k)

unary-IsLetter : (n : ℕ) → All IsLetter (unary n)
unfolding unary
unary-IsLetter zero = (inr refl, tt)
unary-IsLetter (suc n) = (inl refl, unary-IsLetter n)

printed-IsLetter : (ns : List ℕ) → All IsLetter (printed ns)
unfolding printed
printed-IsLetter [] = tt
printed-IsLetter (n ∷ ns) =
    letters-append (unary n) (printed ns) (unary-IsLetter n) (printed-IsLetter ns)

letters-IsPrinted : (text : Text) → All IsLetter text → All IsPrinted text
letters-IsPrinted [] h = tt
letters-IsPrinted (c ∷ text) (p, h) = (ground arith, letters-IsPrinted text h)

lstrip-letters : (text : Text) → All IsLetter text → lstrip white_space text ≡ text
unfolding lstrip
lstrip-letters [] h = refl
lstrip-letters (c ∷ text) (p, h) = ground (arith, lstrip-letters text h)

reverse-IsLetter : (text : Text) → All IsLetter text → All IsLetter (reverse text)
reverse-IsLetter [] h = tt
reverse-IsLetter (c ∷ text) (p, h) =
    rw reverse-cons (letters-append (reverse text) (c ∷ []) (reverse-IsLetter text h) (p, tt))

strip-letters : (text : Text) → All IsLetter text → strip text ≡ text
unfolding strip rstrip
strip-letters text h =
    rw (lstrip-letters (reverse text) (reverse-IsLetter text h), reverse-reverse)
      (lstrip-letters text h)

-- A check sum in place of a hash.
unfoldable pub weight : Bytes → ℕ
weight [] = 1
weight (b ∷ bytes) = b + weight bytes

parsed_value : Option (Json × List ℕ) → Option Json
parsed_value none = none
parsed_value (some (value, rest)) = some value

-- There is fuel for every number.
unfoldable pub value_of : List ℕ → Option Json
unfolding parsed_value
value_of ns = parsed_value (parse (length ns) ns)

value_of-tokens : (value : Json) → value_of (tokens value) ≡ some value
unfolding value_of
value_of-tokens value =
    ap parsed_value (rw append-nil at (parse-tokens (length (tokens value)) value [] (omega arith)))

abbrev pub toy_runtime : Runtime
toy_runtime = record {
  sha256 = λ material. unary (weight material);
  hmac_sha256 = λ key material. unary (weight key + weight material);
  dumps = λ value. printed (tokens value);
  loads = λ text. value_of (scanned 0 text);
}

unary_ne_nil : (n : ℕ) (text : Text) → unary n ++ text ≢ []
unfolding unary
unary_ne_nil zero text h = cc
unary_ne_nil (suc n) text h = cc

printed_ne_nil : (ns : List ℕ) → suc 0 ≤ length ns → printed ns ≢ []
unfolding printed
printed_ne_nil [] h = absurd (omega arith)
printed_ne_nil (n ∷ ns) h = unary_ne_nil n (printed ns)

toy_loads-dumps : (value : Json) → toy_runtime.loads (toy_runtime.dumps value) ≡ some value
toy_loads-dumps value = ap value_of (scanned-printed (tokens value)) ∙ value_of-tokens value

pub toy_runtime-IsLawful : IsLawful toy_runtime
toy_runtime-IsLawful = record {
  sha256_printed = λ material. letters-IsPrinted _ (unary-IsLetter (weight material));
  hmac_printed =
      λ key material. letters-IsPrinted _ (unary-IsLetter (weight key + weight material));
  dumps_printed = λ value. letters-IsPrinted _ (printed-IsLetter (tokens value));
  dumps_ne_nil = λ value. printed_ne_nil (tokens value) (tokens_full value);
  strip-dumps = λ value. strip-letters _ (printed-IsLetter (tokens value));
  loads-dumps = toy_loads-dumps;
}
