-- ===== src/ApScanner/CardType.antt =====
-- The types of cards, as the kernel prints them: CEX, the generation, and a letter.
use k8s_cex_dra_driver.Prelude.{
  ℕ, suc, ◌^◌, ◌<◌, Text, [], ◌∷◌, ◌++◌, Bool, true, false, not, some, ◌≡◌, refl, ltb, length,
  length-append, drop, arith,
}
use mathlib.Core.List.{append_assoc}
use k8s_cex_dra_driver.Prelude.Int.{pos, format_int}
use k8s_cex_dra_driver.Prelude.Int.Decimal.{
  is_digit, format_int-all, format_int-StartsWithDigit, atoi-format_int,
}
use k8s_cex_dra_driver.Prelude.Strings.{bytes, all, is_space, has_prefix, trim_space, trim_left}
use k8s_cex_dra_driver.Prelude.Strings.Laws.{all_mono, all-append, trim_right-newline}
use k8s_cex_dra_driver.Sysfs.Mkvp.{cca, ep11}
use k8s_cex_dra_driver.ApScanner.{
  accel, split_last, card_type_of, type_and_generation, type_of_char,
}

pub data Kind : Type 0 where
  coprocessor secure_key accelerator : Kind

abbrev pub letter : Kind → ℕ
letter coprocessor = b'C'
letter secure_key = b'P'
letter accelerator = b'A'

abbrev pub type_of : Kind → Text
type_of coprocessor = cca
type_of secure_key = ep11
type_of accelerator = accel

-- The content of a card's `type` file
unfoldable pub print_type : ℕ → Kind → Text
print_type generation kind =
    b'C' ∷ b'E' ∷ b'X' ∷ (format_int (pos generation) ++ (letter kind ∷ b'\n' ∷ []))

split_last-snoc : (s : Text) (c : ℕ) → split_last (s ++ (c ∷ [])) ≡ some (s, c)
unfolding split_last
split_last-snoc [] c = refl
split_last-snoc (d ∷ s) c = rw (split_last-snoc s c) refl

abbrev not_space : ℕ → Bool
not_space c = not (is_space c)

trimmed : (g : ℕ) (k : Kind) → Text
trimmed g k = b'C' ∷ b'E' ∷ b'X' ∷ (format_int (pos g) ++ (letter k ∷ []))

trimmed-not_space : (g : ℕ) (k : Kind) → all not_space (trimmed g k) ≡ true
unfolding trimmed all is_space
trimmed-not_space g k =
    all-append not_space (b'C' ∷ b'E' ∷ b'X' ∷ format_int (pos g)) (letter k ∷ [])
      (all_mono is_digit not_space (format_int (pos g)) (λ c h. ground arith) (format_int-all g))
      (one k)
  where
    one : (k : Kind) → all not_space (letter k ∷ []) ≡ true
    one coprocessor = refl
    one secure_key = refl
    one accelerator = refl

trim_space-print_type : (g : ℕ) (k : Kind) → trim_space (print_type g k) ≡ trimmed g k
unfolding trim_space trim_left print_type trimmed is_space
trim_space-print_type g k =
    rw (← append_assoc (format_int (pos g)) (letter k ∷ []) (b'\n' ∷ []))
      (trim_right-newline (trimmed g k) (trimmed-not_space g k))

length-trimmed : (g : ℕ) (k : Kind) → ltb (length (trimmed g k)) 5 ≡ false
unfolding trimmed
length-trimmed g k =
    let (c, t, e, _) = format_int-StartsWithDigit g in
    let long : length (format_int (pos g)) ≡ suc (length t) = rw e refl in
    ground (arith, length-append (format_int (pos g)) (letter k ∷ []))

-- The type of every kind of card, of any generation of 63 bits, is read as the kernel prints it.
pub card_type_of-print_type :
    (generation : ℕ) (kind : Kind)
    → generation < 2 ^ 63
    → card_type_of (print_type generation kind) ≡ some (type_of kind, pos generation)
unfolding card_type_of trimmed has_prefix bytes drop
card_type_of-print_type generation kind h =
    rw
      (
        trim_space-print_type generation kind,
        length-trimmed generation kind,
        split_last-snoc (format_int (pos generation)) (letter kind),
        atoi-format_int generation h,
      )
      (lettered kind)
  where
    lettered :
        (kind : Kind)
        → type_and_generation (some (pos generation)) (type_of_char (letter kind))
          ≡ some (type_of kind, pos generation)
    lettered coprocessor = refl
    lettered secure_key = refl
    lettered accelerator = refl
