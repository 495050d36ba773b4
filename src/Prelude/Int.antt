-- ===== src/Prelude/Int.antt =====
-- Go's `int` and `int64`, and their decimal form in `strconv`.
pub mod Decimal
use Prim.Native.Nat.{ℕ, zero, suc, ◌+◌, ◌-◌, ◌*◌, ◌/◌, ◌%◌, ◌^◌}
use mathlib.Core.Bool.{Bool, true, false, ◌&&◌}
use mathlib.Core.Option.{Option, none, some}
use mathlib.Core.List.{[], ◌∷◌}
use k8s_cex_dra_driver.Prelude.Tests.{leb, ltb, nat_beq, if◌then◌else◌}
use k8s_cex_dra_driver.Prelude.Equality.{Text}

-- `negsuc n` is -(n + 1).
pub data ℤ : Type 0 where
  pos : ℕ → ℤ
  negsuc : ℕ → ℤ

unfoldable pub digits : ℕ → Text → Option ℕ
digits acc [] = some acc
digits acc (c ∷ s) =
    let rest = digits (acc * 10 + (c - b'0')) s in if leb b'0' c && leb c b'9' then rest else none

-- At least one digit, and nothing else.
unfoldable pub parse_digits : Text → Option ℕ
parse_digits [] = none
parse_digits (c ∷ s) = digits 0 (c ∷ s)

-- `strconv.Atoi`: an optional sign and decimal digits, within the 64 bits of an `int`.
unfoldable pub atoi : Text → Option ℤ
unfolding digits parse_digits
atoi [] = none
atoi (c ∷ s) =
    if nat_beq c b'-'
    then elim (parse_digits s) [
      | none ↦ none
      | some zero ↦ some (pos 0)
      | some (suc n) ↦ if ltb n (2 ^ 63) then some (negsuc n) else none
    ]
    else elim (parse_digits (if nat_beq c b'+' then s else c ∷ s)) [
      | none ↦ none
      | some n ↦ if ltb n (2 ^ 63) then some (pos n) else none
    ]

-- The decimal digits of a number below 10 ^ fuel, in front of `out`.
unfoldable pub format_nat : ℕ → ℕ → Text → Text
format_nat zero n out = out
format_nat (suc fuel) n out =
    let more = format_nat fuel (n / 10) ((b'0' + n % 10) ∷ out) in
    if ltb n 10 then (b'0' + n) ∷ out else more

-- `strconv.FormatInt(i, 10)`: twenty digits hold every 64-bit number.
unfoldable pub format_int : ℤ → Text
unfolding format_nat
format_int (pos n) = format_nat 20 n []
format_int (negsuc n) = b'-' ∷ format_nat 20 (n + 1) []

-- `i++` on an `int64`, which wraps around.
unfoldable pub increment : ℤ → ℤ
increment (pos n) = if ltb (n + 1) (2 ^ 63) then pos (n + 1) else negsuc (2 ^ 63 - 1)
increment (negsuc zero) = pos 0
increment (negsuc (suc n)) = negsuc n

-- The `int64` of the low 64 bits
unfoldable pub wrapped : ℕ → ℤ
wrapped n = let m = n % 2 ^ 64 in if ltb m (2 ^ 63) then pos m else negsuc (2 ^ 64 - 1 - m)

-- `k * i` on an `int64`, which wraps around.
unfoldable pub multiply : ℕ → ℤ → ℤ
unfolding wrapped
multiply k (pos n) = wrapped (k * n)
multiply k (negsuc n) = wrapped (2 ^ 64 - (k * (n + 1)) % 2 ^ 64)

abbrev negate : ℕ → ℤ
negate zero = pos 0
negate (suc n) = negsuc n

-- `i / k`, which truncates toward zero, for a positive `k`
unfoldable pub quotient : ℤ → ℕ → ℤ
quotient (pos n) k = pos (n / k)
quotient (negsuc n) k = negate ((n + 1) / k)

unfoldable pub is_positive : ℤ → Bool
is_positive (pos n) = ltb 0 n
is_positive (negsuc n) = false
