-- ===== src/Prelude/Exec.antt =====
-- Calls that act on the outside world and may fail. What was done before a failure stays done, so
-- the world comes back beside the error too.
use mathlib.Core.Bool.{Bool, true, false}
use mathlib.Core.Path.{◌≡◌, refl}
use native.Mathlib.Omega.{arith}

pub data Result (E A : Type 0) : Type 0 where
  ok : A → Result E A
  err : E → Result E A

abbrev pub Exec : Type 0 → Type 0 → Type 0 → Type 0
Exec W E A = W → Result E A × W

abbrev pub is_ok : {E A : Type 0} → Result E A → Bool
is_ok (ok a) = true
is_ok (err e) = false

-- `if err != nil { return fmt.Errorf("…: %w", err) }`
abbrev pub map_err : {E F A : Type 0} → (E → F) → Result E A → Result F A
map_err f (ok a) = ok a
map_err f (err e) = err (f e)

module _ {W E A : Type 0} where
  abbrev pub pure : A → Exec W E A
  pure a w = (ok a, w)

  abbrev pub raise : E → Exec W E A
  raise e w = (err e, w)

  -- The result of a call as a value, for code that looks at the error and goes on.
  abbrev pub attempt : {F : Type 0} → Exec W E A → Exec W F (Result E A)
  attempt m w = let (r, w') = m w in (ok r, w')

module _ {W E F A : Type 0} where
  abbrev pub wrap : (E → F) → Exec W E A → Exec W F A
  wrap f m w = let (r, w') = m w in (map_err f r, w')

module _ {W E A B : Type 0} where
  abbrev pub continue : Result E A → (A → Exec W E B) → Exec W E B
  continue (ok a) f w = f a w
  continue (err e) f w = (err e, w)

  infixl 10 ◌>>=◌ ◌>>◌
  abbrev pub ◌>>=◌ : Exec W E A → (A → Exec W E B) → Exec W E B
  ◌>>=◌ m f w = let (r, w') = m w in continue r f w'

  abbrev pub ◌>>◌ : Exec W E A → Exec W E B → Exec W E B
  m >> n = m >>= λ _. n

module _ {W E A B : Type 0} where
  -- A chain that succeeds has a first call that succeeds.
  pub bind_ok :
      (m : Exec W E A) (f : A → Exec W E B) (w : W) (b : B)
      → ((m >>= f) w).0 ≡ ok b
      → (a : A) × ((m w).0 ≡ ok a) × ((m >>= f) w ≡ f a (m w).1)
  bind_ok m f w b h = go (m w).0 refl
    where
      go : (r : Result E A) → (m w).0 ≡ r → (a : A) × ((m w).0 ≡ ok a) × ((m >>= f) w ≡ f a (m w).1)
      go (ok a) e = (a, e, ground arith)
      go (err x) e = absurd (ground arith)

pub wrap_ok : {E F A : Type 0} (f : E → F) (r : Result E A) {a : A} → map_err f r ≡ ok a → r ≡ ok a
wrap_ok f (ok b) h = ground arith
wrap_ok f (err e) h = absurd (ground arith)
