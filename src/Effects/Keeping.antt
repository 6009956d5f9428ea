-- ===== src/Effects/Keeping.antt =====
-- Properties of the world that an action keeps.
use runeguard.Prelude.{Bool, true, false, if◌then◌else◌, ◌≡◌, refl, ap}
use runeguard.Effects.{Exit, done, refused, failed, Action, follow, ◌>>=◌}

-- An action keeps a property of the world, also where it raises.
abbrev pub Keeps : {W A : Type 0} → (W → Type 0) → Action W A → Type 0
Keeps I m = (w : _) → I w → I (m w).1

module _ {W : Type 0} (I : W → Type 0) where
  pub follow-Keeps :
      {A B : Type 0} (e : Exit A) (f : A → Action W B)
      → ((a : A) → Keeps I (f a))
      → Keeps I (follow e f)
  follow-Keeps (done a) f keeps w i = keeps a w i
  follow-Keeps (refused reason) f keeps w i = i
  follow-Keeps failed f keeps w i = i

  pub bind-Keeps :
      {A B : Type 0} (m : Action W A) (f : A → Action W B)
      → Keeps I m
      → ((a : A) → Keeps I (f a))
      → Keeps I (m >>= f)
  bind-Keeps m f first rest w i = follow-Keeps (m w).0 f rest (m w).1 (first w i)

  follow-Keeps_done :
      {A B : Type 0} (e : Exit A) (f : A → Action W B) (w : W)
      → ((a : A) → e ≡ done a → I (f a w).1)
      → I w
      → I (follow e f w).1
  follow-Keeps_done (done a) f w keeps i = keeps a refl
  follow-Keeps_done (refused reason) f w keeps i = i
  follow-Keeps_done failed f w keeps i = i

  -- What follows is only asked for the results that the first action comes to.
  pub bind-Keeps_done :
      {A B : Type 0} (m : Action W A) (f : A → Action W B)
      → Keeps I m
      → ((a : A) (w w' : W) → m w ≡ (done a, w') → Keeps I (f a))
      → Keeps I (m >>= f)
  bind-Keeps_done m f first rest w i =
      follow-Keeps_done (m w).0 f (m w).1
        (λ a e. rest a w (m w).1 (ap (λ exit. (exit, (m w).1)) e) (m w).1 (first w i)) (first w i)

  pub if-Keeps :
      {A : Type 0} (b : Bool) (m n : Action W A)
      → Keeps I m
      → Keeps I n
      → Keeps I (if b then m else n)
  if-Keeps true m n hm hn = hm
  if-Keeps false m n hm hn = hn
