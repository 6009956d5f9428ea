-- ===== src/Prelude/Equality.antt =====
-- Python's `==` and `in`, for every type whose equality can be decided, and the conditional.
use Prim.Native.Nat.{ℕ}
use mathlib.Core.Path.{◌≡◌, refl, ap}
use mathlib.Core.Logic.{ite, dite, ◌↔◌}
use mathlib.Core.Bool.{Bool, true, false, cond, ◌||◌, ◌&&◌, Bool-discrete}
use mathlib.Core.Option.{Option, none, some, none-ne-some, some-ne-none, some-injective}
use mathlib.Core.List.{List, [], ◌∷◌}
use native.Mathlib.Omega.{arith}
use native.Mathlib.Decide.{ℕ_discrete}

infix 1 if◌then◌else◌
abbrev pub if◌then◌else◌ {ℓ} : {A : Type ℓ} → Bool → A → A → A
if b then x else y = cond b x y

pub record Eq {ℓ} (A : Type ℓ) : Type ℓ where
  pub dec : Discrete A

module _ {ℓ} {A : Type ℓ} ⦃e : Eq A⦄ where
  infix 50 ◌==◌
  abbrev pub ◌==◌ : A → A → Bool
  a == b = ite (e.dec a b) true false

  abbrev pub contains : List A → A → Bool
  contains [] a = false
  contains (x ∷ xs) a = a == x || contains xs a

  pub ==_refl : (a : A) → (a == a) ≡ true
  ==_refl a = ground arith

  pub ==_iff : (a b : A) → ((a == b) ≡ true) ↔ (a ≡ b)
  ==_iff a b = ground arith

instance unfoldable pub nat_eq : Eq ℕ
unfolding ℕ_discrete
nat_eq = record { dec = ℕ_discrete }

-- Equality of lists, one element at a time.
module _ {ℓ} {A : Type ℓ} ⦃e : Eq A⦄ where
  pub list_beq : List A → List A → Bool
  list_beq [] [] = true
  list_beq (x ∷ xs) (y ∷ ys) = x == y && list_beq xs ys
  list_beq _ _ = false

  pub list_beq_sound : (xs ys : List A) → list_beq xs ys ≡ true → xs ≡ ys
  unfolding list_beq
  list_beq_sound [] [] h = refl
  list_beq_sound (x ∷ xs) (y ∷ ys) h = ground (arith, list_beq_sound xs ys)
  list_beq_sound [] (y ∷ ys) h = cc
  list_beq_sound (x ∷ xs) [] h = cc

  list_beq_refl : (xs : List A) → list_beq xs xs ≡ true
  unfolding list_beq
  list_beq_refl [] = refl
  list_beq_refl (x ∷ xs) = ground (arith, list_beq_refl xs)

  pub list_beq_complete : (xs ys : List A) → xs ≡ ys → list_beq xs ys ≡ true
  list_beq_complete xs ys p = rw p (list_beq_refl ys)

  instance unfoldable pub list_eq : Eq (List A)
  unfolding list_beq
  list_eq = record {
    dec = λ xs ys.
        dite (Bool-discrete (list_beq xs ys) true) (λ same. yes (list_beq_sound xs ys same))
          (λ differ. no (λ p. differ (list_beq_complete xs ys p)));
  }

module _ {ℓ} {A : Type ℓ} ⦃e : Eq A⦄ where
  option_dec : Discrete (Option A)
  option_dec none none = yes refl
  option_dec none (some b) = no (none-ne-some b)
  option_dec (some a) none = no (some-ne-none a)
  option_dec (some a) (some b) =
      dite (e.dec a b) (λ p. yes (ap some p)) (λ n. no (λ p. n (some-injective a b p)))

  instance unfoldable pub option_eq : Eq (Option A)
  unfolding option_dec
  option_eq = record { dec = option_dec }
