-- ===== src/Integrity/Material.antt =====
-- The bytes that runeguard/integrity.py hashes: what can be read back from them.
use mathlib.Core.List.{List, [], ◌∷◌, ◌++◌}
use runeguard.Prelude.{
  ℕ, suc, ◌<◌, ◌≡◌, refl, sym, Text, Bool, true, false, ◌||◌, ◌==◌, if◌then◌else◌, nat_eq, list_eq,
  All, arith,
}
use runeguard.Prelude.Int.{ℤ, pos, negsuc, int_text, nat_text, nat_text-IsDigit, int_text-injective}
use mathlib.Core.Path.{subst}
use runeguard.Integrity.Runtime.{Bytes, IsPrinted}
use runeguard.Integrity.Envelope.{PyInt, whole, truth, int_value, seq_text}

abbrev pub NulFree : Bytes → Type 0
NulFree = All (λ (c : ℕ). 0 < c)

-- A field that holds no NUL ends at the first one.
pub first_field :
    (a a' b b' : Bytes)
    → NulFree a
    → NulFree a'
    → a ++ (0 ∷ b) ≡ a' ++ (0 ∷ b')
    → (a ≡ a') × (b ≡ b')
first_field [] [] b b' h h' p = (refl, cc)
first_field (c ∷ a) (d ∷ a') b b' (h, more) (h', more') p =
    let (same, rest) = first_field a a' b b' more more' (cc) in (cc, rest)
first_field [] (d ∷ a') b b' h (h', more') p =
    let zero_eq : ◌≡◌ {A = ℕ} 0 d = cc in absurd (omega arith)
first_field (c ∷ a) [] b b' (h, more) h' p = let zero_eq : c ≡ 0 = cc in absurd (omega arith)

has_nul : Bytes → Bool
has_nul [] = false
has_nul (c ∷ b) = c == 0 || has_nul b

-- What stands behind the last NUL, or everything where there is none.
pub last_field : Bytes → Bytes
last_field [] = []
last_field (c ∷ b) =
    let rest = last_field b in if has_nul b then rest else if c == 0 then b else c ∷ b

has_nul-NulFree : (b : Bytes) → NulFree b → has_nul b ≡ false
unfolding has_nul
has_nul-NulFree [] h = refl
has_nul-NulFree (c ∷ b) (h, more) = ground (arith, has_nul-NulFree b more)

has_nul-append : (a b : Bytes) → has_nul (a ++ (0 ∷ b)) ≡ true
unfolding has_nul
has_nul-append [] b = ground arith
has_nul-append (c ∷ a) b = ground (arith, has_nul-append a b)

pub last_field-NulFree : (b : Bytes) → NulFree b → last_field b ≡ b
unfolding last_field
last_field-NulFree [] h = refl
last_field-NulFree (c ∷ b) (h, more) = ground (arith, has_nul-NulFree b more)

last_field_of_none : (b : Bytes) → has_nul b ≡ false → last_field b ≡ b
unfolding last_field has_nul
last_field_of_none [] h = refl
last_field_of_none (c ∷ b) h = ground arith

pub last_field-append : (a b : Bytes) → last_field (a ++ (0 ∷ b)) ≡ last_field b
unfolding last_field
last_field-append [] b = ground (arith, last_field_of_none b)
last_field-append (c ∷ a) b = ground (arith, has_nul-append a b, last_field-append a b)

module _ {ℓ κ} {A : Type ℓ} {P Q : A → Type κ} where
  pub All-map : ((a : A) → P a → Q a) → (xs : List A) → All P xs → All Q xs
  All-map f [] h = tt
  All-map f (x ∷ xs) (h, more) = (f x h, All-map f xs more)

pub printed-NulFree : (text : Text) → All IsPrinted text → NulFree text
printed-NulFree = All-map (λ c (h : IsPrinted c). omega arith)

nat_text-NulFree : (n : ℕ) → NulFree (nat_text n)
nat_text-NulFree n = All-map (λ c h. omega arith) (nat_text n) (nat_text-IsDigit n)

pub seq_text-NulFree : (seq : PyInt) → NulFree (seq_text seq)
unfolding seq_text int_text
seq_text-NulFree (whole (pos n)) = nat_text-NulFree n
seq_text-NulFree (whole (negsuc n)) = (omega arith, nat_text-NulFree (suc n))
seq_text-NulFree (truth true) = omega arith
seq_text-NulFree (truth false) = omega arith

-- No integer is written like a bool.
int_text-ne-letter : (n : ℤ) (c : ℕ) (text : Text) → 57 < c → ¬ (int_text n ≡ c ∷ text)
unfolding int_text
int_text-ne-letter (pos n) c text big p =
    let shown : All (λ d. (47 < d) × (d < 58)) (c ∷ text) = subst (All _) p (nat_text-IsDigit n) in
    absurd (omega (arith, shown.0.1))
int_text-ne-letter (negsuc n) c text big p = let e : ◌≡◌ {A = ℕ} b'-' c = cc in absurd (omega arith)

-- Records with the same written sequence number have the same number.
pub seq_text_determines : (a b : PyInt) → seq_text a ≡ seq_text b → int_value a ≡ int_value b
unfolding seq_text int_value
seq_text_determines (whole m) (whole n) p = int_text-injective m n p
seq_text_determines (truth true) (truth true) p = refl
seq_text_determines (truth false) (truth false) p = refl
seq_text_determines (truth true) (truth false) p = cc
seq_text_determines (truth false) (truth true) p = cc
seq_text_determines (whole m) (truth true) p = absurd (int_text-ne-letter m b'T' _ (omega arith) p)
seq_text_determines (whole m) (truth false) p = absurd (int_text-ne-letter m b'F' _ (omega arith) p)
seq_text_determines (truth true) (whole n) p =
    absurd (int_text-ne-letter n b'T' _ (omega arith) (sym p))
seq_text_determines (truth false) (whole n) p =
    absurd (int_text-ne-letter n b'F' _ (omega arith) (sym p))
