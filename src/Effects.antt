-- ===== src/Effects.antt =====
-- A call that acts on the world and may raise. What it did before it raised stays done.
pub mod Keeping
use runeguard.Prelude.{Text, ◌≡◌, refl, ap, ◌∙◌}
use runeguard.Outcome.{Outcome, ok, raised}

-- `refused` is a `PermissionError` with its message, `failed` any other exception.
pub data Exit {ℓ} (A : Type ℓ) : Type ℓ where
  done : A → Exit A
  refused : Text → Exit A
  failed : Exit A

-- A call in a world of type `W`.
abbrev pub Action : Type 0 → Type 0 → Type 0
Action W A = W → Exit A × W

module _ {W : Type 0} where
  abbrev pub pure : {A : Type 0} → A → Action W A
  pure a w = (done a, w)

  abbrev pub refuse : {A : Type 0} → Text → Action W A
  refuse reason w = (refused reason, w)

  abbrev pub fail : {A : Type 0} → Action W A
  fail w = (failed, w)

  -- A computation that may raise and does nothing else.
  abbrev pub lift : {A : Type 0} → Outcome A → Action W A
  lift (ok a) w = (done a, w)
  lift raised w = (failed, w)

  abbrev pub follow : {A B : Type 0} → Exit A → (A → Action W B) → Action W B
  follow (done a) f w = f a w
  follow (refused reason) f w = (refused reason, w)
  follow failed f w = (failed, w)

  infixl 5 ◌>>=◌ ◌>>◌
  abbrev pub ◌>>=◌ : {A B : Type 0} → Action W A → (A → Action W B) → Action W B
  ◌>>=◌ m f w = let (exit, w') = m w in follow exit f w'

  abbrev pub ◌>>◌ : {B : Type 0} → Action W (Unit {0}) → Action W B → Action W B
  m >> k = m >>= λ _. k

  follow-cases {ℓ} :
      {A B : Type 0} {C : Type ℓ} (e : Exit A) (f : A → Action W B) (w : W) {b : B} {w' : W}
      → follow e f w ≡ (done b, w')
      → ((a : A) → e ≡ done a → f a w ≡ (done b, w') → C)
      → C
  follow-cases (done a) f w h k = k a refl h
  follow-cases (refused reason) f w h k = cc
  follow-cases failed f w h k = cc

  -- A goal that follows from every way for a bind to succeed.
  pub done-cases {ℓ} :
      {A B : Type 0} {C : Type ℓ} (m : Action W A) (f : A → Action W B) (w : W) {b : B} {w' : W}
      → (m >>= f) w ≡ (done b, w')
      → ((a : A) (w₁ : W) → m w ≡ (done a, w₁) → f a w₁ ≡ (done b, w') → C)
      → C
  done-cases m f w h k = follow-cases (m w).0 f (m w).1 h (λ a e h'. k a (m w).1 (cc) h')

  pub lift-done :
      {A : Type 0} (o : Outcome A) (a : A) (w w' : W)
      → lift o w ≡ (done a, w')
      → (o ≡ ok a) × (w ≡ w')
  lift-done (ok b) a w w' h = let same : b ≡ a = cc in (ap ok same, cc)
  lift-done raised a w w' h = cc

  pub pure-done :
      {A : Type 0} (a b : A) (w w' : W) → pure {A = A} a w ≡ (done b, w') → (a ≡ b) × (w ≡ w')
  pure-done a b w w' h = let same : a ≡ b = cc in (same, cc)

  -- The call comes to a result.
  abbrev pub Ends : {A : Type 0} → Action W A → W → Type 0
  Ends {A} m w = (a : A) × (w' : W) × (m w ≡ (done a, w'))

  pub bind-Ends :
      {A B : Type 0} (m : Action W A) (f : A → Action W B) (a : A) (w w' : W)
      → m w ≡ (done a, w')
      → Ends (f a) w'
      → Ends (m >>= f) w
  bind-Ends m f a w w' ran (b, w'', more) = (b, w'', ap (λ r. follow r.0 f r.1) ran ∙ more)
