-- ===== src/Prelude/Int.antt =====
-- Python integers, and their decimal text `str(n)`.
use Prim.Native.Nat.{ℕ, zero, suc, ◌+◌, ◌*◌, ◌-◌, ◌/◌, ◌%◌, ◌<◌}
use mathlib.Core.Path.{◌≡◌, refl, sym, ap, subst, ◌∙◌}
use mathlib.Core.Logic.{◌≢◌}
use mathlib.Core.List.{[], ◌∷◌}
use native.Mathlib.Omega.{arith}
use native.Mathlib.Decide.{ℕ_discrete}
use runeguard.Prelude.Equality.{Eq, if◌then◌else◌}
use runeguard.Prelude.Tests.{ltb}
use runeguard.Prelude.Lists.{All}
use runeguard.Prelude.Characters.{Text}

-- `negsuc n` is -(n + 1).
pub data ℤ : Type 0 where
  pos : ℕ → ℤ
  negsuc : ℕ → ℤ

ℤ-discrete : Discrete ℤ
ℤ-discrete = hlevel ℕ_discrete

instance unfoldable pub int_eq : Eq ℤ
unfolding ℤ-discrete
int_eq = record { dec = ℤ-discrete }

-- `n + 1`
unfoldable pub suc_ℤ : ℤ → ℤ
suc_ℤ (pos n) = pos (suc n)
suc_ℤ (negsuc zero) = pos 0
suc_ℤ (negsuc (suc n)) = negsuc n

-- `n - 1`
unfoldable pub pred_ℤ : ℤ → ℤ
pred_ℤ (pos zero) = negsuc 0
pred_ℤ (pos (suc n)) = pos n
pred_ℤ (negsuc n) = negsuc (suc n)

pub suc_ℤ-pred_ℤ : (n : ℤ) → suc_ℤ (pred_ℤ n) ≡ n
unfolding suc_ℤ pred_ℤ
suc_ℤ-pred_ℤ (pos zero) = refl
suc_ℤ-pred_ℤ (pos (suc n)) = refl
suc_ℤ-pred_ℤ (negsuc n) = refl

-- The digits of `n` in front of `text`. The fuel is above `n`, and each round divides it by ten.
digits : ℕ → ℕ → Text → Text
digits zero n text = text
digits (suc fuel) n text =
    let more = digits fuel (n / 10) ((48 + n % 10) ∷ text) in
    if ltb n 10 then (48 + n) ∷ text else more

unfoldable pub nat_text : ℕ → Text
unfolding digits
nat_text n = digits (suc n) n []

unfoldable pub int_text : ℤ → Text
unfolding nat_text
int_text (pos n) = nat_text n
int_text (negsuc n) = b'-' ∷ nat_text (suc n)

-- The number that a row of digits continues.
value : ℕ → Text → ℕ
value n [] = n
value n (d ∷ text) = value (n * 10 + (d - 48)) text

last_digit : (n : ℕ) → 0 * 10 + (48 + n - 48) ≡ n
last_digit n = omega arith

all_digits : (n : ℕ) → n / 10 * 10 + (48 + n % 10 - 48) ≡ n
all_digits n = omega arith

value-digits : (fuel n : ℕ) (text : Text) → n < fuel → value 0 (digits fuel n text) ≡ value n text
unfolding value digits
value-digits zero n text h = elim h [ ]
value-digits (suc fuel) n text h = ground (
  arith,
  value-digits fuel (n / 10) ((48 + n % 10) ∷ text),
  ap (λ (k : ℕ). value k text) (last_digit n),
  ap (λ (k : ℕ). value k text) (all_digits n),
)

nat_text-injective : (m n : ℕ) → nat_text m ≡ nat_text n → m ≡ n
unfolding nat_text value
nat_text-injective m n p =
    sym (value-digits (suc m) m [] (omega arith))
    ∙ ap (value 0) p
    ∙ value-digits (suc n) n [] (omega arith)

abbrev pub IsDigit : ℕ → Type 0
IsDigit c = (47 < c) × (c < 58)

digits-IsDigit : (fuel n : ℕ) (text : Text) → All IsDigit text → All IsDigit (digits fuel n text)
unfolding digits
digits-IsDigit zero n text h = h
digits-IsDigit (suc fuel) n text h =
    ground (arith, digits-IsDigit fuel (n / 10) ((48 + n % 10) ∷ text) (omega arith, h))

pub nat_text-IsDigit : (n : ℕ) → All IsDigit (nat_text n)
unfolding nat_text
nat_text-IsDigit n = digits-IsDigit (suc n) n [] tt

not-minus : (m : ℕ) (text : Text) → nat_text m ≢ b'-' ∷ text
not-minus m text p =
    let minus : All IsDigit (b'-' ∷ text) = subst (All IsDigit) p (nat_text-IsDigit m) in
    absurd (omega (arith, minus.0.0))

-- Distinct integers have distinct decimal texts.
pub int_text-injective : (m n : ℤ) → int_text m ≡ int_text n → m ≡ n
unfolding int_text
int_text-injective (pos m) (pos n) p = ap pos (nat_text-injective m n p)
int_text-injective (negsuc m) (negsuc n) p =
    let same : suc m ≡ suc n = nat_text-injective (suc m) (suc n) (cc) in cc
int_text-injective (pos m) (negsuc n) p = absurd (not-minus m _ p)
int_text-injective (negsuc m) (pos n) p = absurd (not-minus n _ (sym p))

pub pred_ℤ-suc_ℤ : (n : ℤ) → pred_ℤ (suc_ℤ n) ≡ n
unfolding suc_ℤ pred_ℤ
pred_ℤ-suc_ℤ (pos n) = refl
pred_ℤ-suc_ℤ (negsuc zero) = refl
pred_ℤ-suc_ℤ (negsuc (suc n)) = refl

-- The two sides of an integer, for arithmetic: it is their difference.
abbrev pub pos_part : ℤ → ℕ
pos_part (pos n) = n
pos_part (negsuc n) = 0

abbrev pub neg_part : ℤ → ℕ
neg_part (pos n) = 0
neg_part (negsuc n) = suc n

pub suc_ℤ_parts : (n : ℤ) → pos_part (suc_ℤ n) + neg_part n ≡ neg_part (suc_ℤ n) + pos_part n + 1
unfolding suc_ℤ
suc_ℤ_parts (pos n) = omega arith
suc_ℤ_parts (negsuc zero) = omega arith
suc_ℤ_parts (negsuc (suc n)) = omega arith
