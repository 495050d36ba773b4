-- ===== src/Prelude/Equality.antt =====
-- Types with a Boolean equality, as Go's comparable types.
use mathlib.Core.Path.{◌≡◌, refl}
use mathlib.Core.Logic.{◌↔◌}
use mathlib.Core.Bool.{Bool, true, false, ◌&&◌}
use mathlib.Core.List.{List, [], ◌∷◌}
use native.Mathlib.Omega.{arith}
use Prim.Native.Nat.{ℕ}
use k8s_cex_dra_driver.Prelude.Tests.{nat_beq}

-- A Go string is its bytes.
abbrev pub Text : Type 0
Text = List ℕ

unfoldable pub text_beq : Text → Text → Bool
text_beq [] [] = true
text_beq (a ∷ s) (b ∷ t) = nat_beq a b && text_beq s t
text_beq _ _ = false

pub text_beq_iff : (s t : Text) → (text_beq s t ≡ true) ↔ (s ≡ t)
unfolding text_beq
text_beq_iff [] [] = ground arith
text_beq_iff [] (b ∷ t) = ground arith
text_beq_iff (a ∷ s) [] = ground arith
text_beq_iff (a ∷ s) (b ∷ t) = ground (arith, text_beq_iff s t)

pub record Eq {ℓ} (C : Type ℓ) : Type ℓ where
  pub beq : C → C → Bool
  pub beq_iff : (x y : C) → (beq x y ≡ true) ↔ (x ≡ y)

instance abbrev pub text_eq : Eq Text
text_eq = record { beq = text_beq; beq_iff = text_beq_iff }

module _ {ℓ} {C : Type ℓ} ⦃comparable : Eq C⦄ where
  infix 50 ◌==◌
  abbrev pub ◌==◌ : C → C → Bool
  ◌==◌ = comparable.beq

module _ {ℓ} {A : Type ℓ} ⦃e : Eq A⦄ where
  pub ==_refl : (a : A) → (a == a) ≡ true
  ==_refl a = (e.beq_iff a a).1 refl

  pub ==→eq : {a b : A} → (a == b) ≡ true → a ≡ b
  ==→eq {a} {b} h = (e.beq_iff a b).0 h
