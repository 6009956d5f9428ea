-- ===== src/Outcome.antt =====
-- What a Python function that may raise gives back.
use runeguard.Prelude.{◌≡◌, refl, ◌⊎◌, inl, inr}

pub data Outcome {ℓ} (A : Type ℓ) : Type ℓ where
  ok : A → Outcome A
  raised : Outcome A

infixl 5 ◌>>=◌ ◌>>◌
abbrev pub ◌>>=◌ {ℓ κ} : {A : Type ℓ} {B : Type κ} → Outcome A → (A → Outcome B) → Outcome B
ok a >>= f = f a
raised >>= f = raised

abbrev pub ◌>>◌ {ℓ} : {B : Type ℓ} → Outcome (Unit {0}) → Outcome B → Outcome B
m >> k = m >>= λ _. k

-- A goal that follows from every way for a bind to succeed.
pub >>=-cases {ℓ κ ι} :
    {A : Type ℓ} {B : Type κ} {C : Type ι} (m : Outcome A) {f : A → Outcome B} {b : B}
    → (m >>= f) ≡ ok b
    → ((a : A) → m ≡ ok a → f a ≡ ok b → C)
    → C
>>=-cases (ok a) h k = k a refl h
>>=-cases raised h k = cc

-- To split on a call and keep the equation.
pub Outcome-cases {ℓ} : {A : Type ℓ} (m : Outcome A) → (m ≡ raised) ⊎ ((a : A) × (m ≡ ok a))
Outcome-cases (ok a) = inr (a, refl)
Outcome-cases raised = inl refl
