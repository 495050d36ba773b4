-- ===== src/Preflight/Checks/Masks.antt =====
-- Masks as numbers: the kernel prints one hexadecimal digit for four bits, behind 0x.
use native.Mathlib.Nat.{mul-le-mul_right, pow-succ'}
use k8s_cex_dra_driver.Prelude.{
  ℕ, suc, ◌+◌, ◌-◌, ◌*◌, ◌^◌, ◌≤◌, ◌<◌, Text, [], ◌∷◌, ◌++◌, Bool, true, false, not, ◌&&◌, ◌||◌,
  ◌≡◌, ◌≢◌, ◌↔◌, refl, length, leb, nat_beq, Bool-cases, inl, inr, arith, if◌then◌else◌,
}
use k8s_cex_dra_driver.Prelude.Strings.{
  bytes, all, trim_prefix, has_prefix, is_space, trim_left, trim_right, trim_space, without,
}
use k8s_cex_dra_driver.Prelude.Strings.Laws.{all_mono, trim_right-newline}
use k8s_cex_dra_driver.Sysfs.Masks.{normalize_mask}
use k8s_cex_dra_driver.Preflight.Checks.{is_f, mask_all_ones}

abbrev pub is_hex : ℕ → Bool
is_hex c = (leb b'0' c && leb c b'9') || ((leb b'a' c && leb c b'f') || (leb b'A' c && leb c b'F'))

abbrev pub digit : ℕ → ℕ
digit c = if leb c b'9' then c - b'0' else if leb c b'F' then c - b'7' else c - b'W'

-- The number that hexadecimal digits stand for, the highest first.
unfoldable pub hex_value : Text → ℕ
hex_value [] = 0
hex_value (c ∷ s) = digit c * 16 ^ length s + hex_value s

digit-le : (c : ℕ) → is_hex c ≡ true → digit c ≤ 15
digit-le c h = ground arith

digit_15_iff : (c : ℕ) → is_hex c ≡ true → (digit c ≡ 15) ↔ (is_f c ≡ true)
digit_15_iff c h = ground arith

-- The highest digit and the rest are full together.
weigh :
    (d p v : ℕ)
    → d ≤ 15
    → v < p
    → (d * p + v < 16 * p) × ((suc (d * p + v) ≡ 16 * p) ↔ ((d ≡ 15) × (suc v ≡ p)))
weigh d p v h k = elim (Bool-cases (nat_beq d 15)) [
  | inl top ↦ let full : d ≡ 15 = ground arith in rw full (ground arith)
  | inr low ↦ let less : d ≤ 14 = ground arith in ground (arith, mul-le-mul_right p less)
]

hex_value-lt : (s : Text) → all is_hex s ≡ true → hex_value s < 16 ^ length s
unfolding all hex_value
hex_value-lt [] h = omega arith
hex_value-lt (c ∷ s) h =
    rw (pow-succ' 16 (length s))
      (weigh (digit c) (16 ^ length s) (hex_value s) (digit-le c (ground arith))
        (hex_value-lt s (ground arith))).0

-- All digits are `f` exactly if no greater number has as many digits.
all_f_iff :
    (s : Text) → all is_hex s ≡ true → (all is_f s ≡ true) ↔ (suc (hex_value s) ≡ 16 ^ length s)
unfolding all hex_value
all_f_iff [] h = ground arith
all_f_iff (c ∷ s) h =
    let hs : all is_hex s ≡ true = ground arith in
    rw (pow-succ' 16 (length s)) (
      ground (
        arith,
        (weigh (digit c) (16 ^ length s) (hex_value s) (digit-le c (ground arith))
            (hex_value-lt s hs)).1,
        digit_15_iff c (ground arith),
        all_f_iff s hs,
      ))

-- A mask with at least one digit, and with every bit set.
abbrev pub IsFull : Text → Type 0
IsFull s = (s ≢ []) × (suc (hex_value s) ≡ 16 ^ length s)

-- The content of the file of a mask
unfoldable pub printed : Text → Text
printed s = b'0' ∷ b'x' ∷ s ++ (b'\n' ∷ [])

without-eq : (sep : ℕ) (s : Text) → all (λ c. not (nat_beq c sep)) s ≡ true → without sep s ≡ s
unfolding without all
without-eq sep [] h = refl
without-eq sep (c ∷ s) h = ground (arith, without-eq sep s)

is_hex-not_space : (c : ℕ) → is_hex c ≡ true → not (is_space c) ≡ true
unfolding is_space
is_hex-not_space c h = ground arith

normalize_mask-printed :
    (s : Text) → all is_hex s ≡ true → normalize_mask (printed s) ≡ b'0' ∷ b'x' ∷ s
unfolding normalize_mask printed trim_space trim_left without is_space trim_right all
normalize_mask-printed s h = ground (
  arith,
  trim_right-newline (b'0' ∷ b'x' ∷ s) (all_mono is_hex _ s is_hex-not_space h),
  without-eq b',' s (all_mono is_hex _ s (λ c k. ground arith) h),
  without-eq b'\n' s (all_mono is_hex _ s (λ c k. ground arith) h),
)

trim_prefix-hex : (s : Text) → all is_hex s ≡ true → trim_prefix s (bytes "0X") ≡ s
unfolding trim_prefix has_prefix bytes all
trim_prefix-hex [] h = refl
trim_prefix-hex (c ∷ []) h = ground arith
trim_prefix-hex (c ∷ d ∷ s) h = ground arith

-- A mask that the kernel prints passes exactly if it has every bit set.
pub mask_all_ones-printed :
    (s : Text)
    → all is_hex s ≡ true
    → (mask_all_ones (normalize_mask (printed s)) ≡ true) ↔ IsFull s
unfolding mask_all_ones trim_prefix hex_value bytes has_prefix
mask_all_ones-printed s h = rw (normalize_mask-printed s h, trim_prefix-hex s h) (split s h)
  where
    split :
        (s : Text)
        → all is_hex s ≡ true
        → ((elim s [ [] ↦ false | c ∷ t ↦ all is_f (c ∷ t) ]) ≡ true) ↔ IsFull s
    split [] h = ground arith
    split (c ∷ s) h = ground (arith, all_f_iff (c ∷ s) h)
