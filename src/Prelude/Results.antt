-- ===== src/Prelude/Results.antt =====
-- Code that may throw. What was written before a throw stays written, so the state comes back
-- beside the error as well as beside the value.
use mathlib.Core.Bool.{Bool, true, false}
use mathlib.Core.Path.{◌≡◌, refl}
use mathlib.Core.Logic.{◌⊎◌, inl, inr}
use native.Mathlib.Omega.{arith}

pub data Result {ℓ κ} (E : Type ℓ) (A : Type κ) : Type (ℓ ⊔ κ) where
  ok : A → Result E A
  err : E → Result E A

pub Result-cases {ℓ κ} :
    {E : Type ℓ} {A : Type κ} (r : Result E A) → ((a : A) × (r ≡ ok a)) ⊎ ((e : E) × (r ≡ err e))
Result-cases (ok a) = inl (a, refl)
Result-cases (err e) = inr (e, refl)

abbrev pub Exec : Type 0 → Type 0 → Type 0 → Type 0
Exec S E A = S → Result E A × S

module _ {S E A : Type 0} where
  abbrev pub pure : A → Exec S E A
  pure a s = (ok a, s)

  abbrev pub throw : E → Exec S E A
  throw e s = (err e, s)

  -- the state after the call, whether it returned or threw
  abbrev pub after : Exec S E A → S → S
  after m s = (m s).1

  abbrev pub result : Exec S E A → S → Result E A
  result m s = (m s).0

module _ {S E : Type 0} where
  abbrev pub get : Exec S E S
  get s = (ok s, s)

  abbrev pub put : S → Exec S E (Unit {0})
  put s' s = (ok tt, s')

  -- `if (!test) throw e`
  abbrev pub require : Bool → E → Exec S E (Unit {0})
  require true e s = (ok tt, s)
  require false e s = (err e, s)

module _ {S E A B : Type 0} where
  abbrev pub continue : Result E A → (A → Exec S E B) → Exec S E B
  continue (ok a) f s = f a s
  continue (err e) f s = (err e, s)

  infixl 5 ◌>>=◌ ◌>>◌
  abbrev pub ◌>>=◌ : Exec S E A → (A → Exec S E B) → Exec S E B
  ◌>>=◌ m f s = let (r, s') = m s in continue r f s'

  abbrev pub ◌>>◌ : Exec S E A → Exec S E B → Exec S E B
  m >> n = m >>= λ _. n

module _ {S E F A : Type 0} where
  -- a call whose errors are wrapped by the caller's error type
  abbrev pub map_err : (E → F) → Exec S E A → Exec S F A
  map_err f m s = let (r, s') = m s in (elim r [ ok a ↦ ok a | err e ↦ err (f e) ], s')

-- What holds after a call, and is kept by what follows where the call returns, holds after both.
module _ {S E A B : Type 0} (P : S → Type 0) where
  continue-after :
      (r : Result E A) (f : A → Exec S E B) (s : S)
      → P s
      → ((a : A) → P (after (f a) s))
      → P (after (continue r f) s)
  continue-after (ok a) f s p h = h a
  continue-after (err e) f s p h = p

  pub bind-after :
      (m : Exec S E A) (f : A → Exec S E B) (s : S)
      → P (after m s)
      → ((a : A) → P (after (f a) (after m s)))
      → P (after (m >>= f) s)
  bind-after m f s p h = continue-after (m s).0 f (m s).1 p h

module _ {S E A B : Type 0} (m : Exec S E A) (f : A → Exec S E B) (s : S) where
  pub bind-ok : (a : A) → result m s ≡ ok a → (m >>= f) s ≡ f a (after m s)
  bind-ok a h = rw h refl

  pub bind-err : (e : E) → result m s ≡ err e → (m >>= f) s ≡ (err e, after m s)
  bind-err e h = rw h refl

-- A chain that returned a value went through its first call.
module _ {S E A B : Type 0} where
  pub bind-through :
      (m : Exec S E A) (f : A → Exec S E B) (s : S) (b : B)
      → result (m >>= f) s ≡ ok b
      → (a : A) × (result m s ≡ ok a) × ((m >>= f) s ≡ f a (after m s))
  bind-through m f s b h = elim (Result-cases (result m s)) [
    | inl (a, e) ↦ (a, e, bind-ok m f s a e)
    | inr (x, e) ↦ absurd (ground (arith, h, bind-err m f s x e))
  ]

module _ {S E B : Type 0} where
  pub require-through :
      (t : Bool) (x : E) (n : Exec S E B) (s : S) (b : B)
      → result (require t x >> n) s ≡ ok b
      → (t ≡ true) × ((require t x >> n) s ≡ n s)
  require-through true x n s b h = (refl, refl)
  require-through false x n s b h = absurd (ground (arith, h))
