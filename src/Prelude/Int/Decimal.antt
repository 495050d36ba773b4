-- ===== src/Prelude/Int/Decimal.antt =====
-- Decimal numbers are read back as they were written.
use Prim.Native.Nat.{ℕ, zero, suc, ◌+◌, ◌*◌, ◌/◌, ◌%◌, ◌^◌, ◌<◌}
use native.Mathlib.Nat.{pow-succ'}
use mathlib.Core.Path.{◌≡◌, refl, sym, subst}
use mathlib.Core.Logic.{inl, inr}
use mathlib.Core.Bool.{Bool, true, ◌&&◌}
use mathlib.Core.Option.{some}
use mathlib.Core.List.{[], ◌∷◌}
use native.Mathlib.Omega.{arith}
use k8s_cex_dra_driver.Prelude.Tests.{leb, ltb, Bool-cases}
use k8s_cex_dra_driver.Prelude.Equality.{Text}
use k8s_cex_dra_driver.Prelude.Strings.{all}
use k8s_cex_dra_driver.Prelude.Int.{pos, digits, parse_digits, atoi, format_nat, format_int}

digits-format_nat :
    (fuel n : ℕ) (out : Text) → n < 10 ^ fuel → digits 0 (format_nat fuel n out) ≡ digits n out
unfolding digits format_nat
digits-format_nat zero n out h = let e : n ≡ 0 = omega arith in rw e refl
digits-format_nat (suc fuel) n out h = elim (Bool-cases (ltb n 10)) [
  | inl one ↦ rw one (ground arith)
  | inr more ↦
      let bound : n < 10 * 10 ^ fuel = rw (← pow-succ' 10 fuel) h in
      rw more
        (ground (arith, digits-format_nat fuel (n / 10) ((b'0' + n % 10) ∷ out) (omega arith)))
]

abbrev pub is_digit : ℕ → Bool
is_digit c = leb b'0' c && leb c b'9'

-- The text begins with a digit.
abbrev pub StartsWithDigit : Text → Type 0
StartsWithDigit s = (c : ℕ) × (t : Text) × (s ≡ c ∷ t) × (is_digit c ≡ true)

format_nat-StartsWithDigit :
    (fuel n c : ℕ) (out : Text) → is_digit c ≡ true → StartsWithDigit (format_nat fuel n (c ∷ out))
unfolding format_nat
format_nat-StartsWithDigit zero n c out h = (c, out, refl, h)
format_nat-StartsWithDigit (suc fuel) n c out h = elim (Bool-cases (ltb n 10)) [
  | inl one ↦ rw one (b'0' + n, c ∷ out, refl, ground arith)
  | inr more ↦
      rw more (format_nat-StartsWithDigit fuel (n / 10) (b'0' + n % 10) (c ∷ out) (ground arith))
]

pub format_int-StartsWithDigit : (n : ℕ) → StartsWithDigit (format_int (pos n))
unfolding format_int format_nat
format_int-StartsWithDigit n = elim (Bool-cases (ltb n 10)) [
  | inl one ↦ rw one (b'0' + n, [], refl, ground arith)
  | inr more ↦ rw more (format_nat-StartsWithDigit 19 (n / 10) (b'0' + n % 10) [] (ground arith))
]

format_nat-all :
    (fuel n : ℕ) (out : Text)
    → all is_digit out ≡ true
    → all is_digit (format_nat fuel n out) ≡ true
unfolding format_nat all
format_nat-all zero n out h = h
format_nat-all (suc fuel) n out h = elim (Bool-cases (ltb n 10)) [
  | inl one ↦ rw one (ground arith)
  | inr more ↦ rw more (format_nat-all fuel (n / 10) ((b'0' + n % 10) ∷ out) (ground arith))
]

pub format_int-all : (n : ℕ) → all is_digit (format_int (pos n)) ≡ true
unfolding format_int all
format_int-all n = format_nat-all 20 n [] refl

atoi-digits :
    (c n : ℕ) (t : Text)
    → is_digit c ≡ true
    → digits 0 (c ∷ t) ≡ some n
    → n < 2 ^ 63
    → atoi (c ∷ t) ≡ some (pos n)
unfolding atoi parse_digits
atoi-digits c n t d e h = ground arith

-- Twenty digits are enough for 64 bits.
pub atoi-format_int : (n : ℕ) → n < 2 ^ 63 → atoi (format_int (pos n)) ≡ some (pos n)
atoi-format_int n h =
    let (c, t, e, d) = format_int-StartsWithDigit n in
    let value : digits 0 (format_int (pos n)) ≡ some n =
      unfold format_int digits in digits-format_nat 20 n [] (omega arith) in
    subst (λ s. digits 0 s ≡ some n → atoi s ≡ some (pos n)) (sym e) (λ v. atoi-digits c n t d v h)
      value
