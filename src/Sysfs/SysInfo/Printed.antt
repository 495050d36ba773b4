-- ===== src/Sysfs/SysInfo/Printed.antt =====
-- The machine identifier of a sysinfo file, as the kernel prints it.
use mathlib.Core.List.{append_assoc}
use k8s_cex_dra_driver.Prelude.{
  ℕ, Text, [], ◌∷◌, ◌++◌, Bool, true, false, not, ◌&&◌, some, ◌≡◌, ◌∙◌, ◌≢◌, refl, text_eq,
  text_beq_iff, nat_beq, arith,
}
use k8s_cex_dra_driver.Prelude.Exec.{ok}
use k8s_cex_dra_driver.Prelude.Strings.{bytes, all, has_prefix, to_lower}
use k8s_cex_dra_driver.Prelude.Strings.Laws.{
  has_prefix-append, trim_prefix-append, all-append, all_mono,
}
use k8s_cex_dra_driver.Sysfs.SysInfo.{
  is_re_space, skip_spaces, word, match_here, parse_sysinfo_field, dashed, machine_id_from_sysinfo,
  non_empty,
}

abbrev no_colon : ℕ → Bool
no_colon c = not (nat_beq c b':')

abbrev is_word_char : ℕ → Bool
is_word_char c = not (is_re_space c) && no_colon c

-- A value and the spaces that fill its column.
pub record Field : Type 0 where
  pub value : Text
  pub trail : Text

abbrev pub IsField : Field → Type 0
IsField f =
    (f.value ≢ []) × (all is_word_char f.value ≡ true) × (all (λ c. nat_beq c 32) f.trail ≡ true)

abbrev pub line : Text → Field → Text → Text
line heading f rest = heading ++ (f.value ++ (f.trail ++ (b'\n' ∷ rest)))

pub record SysInfo : Type 0 where
  pub manufacturer : Field
  pub machine_type : Field
  pub lic : Text
  pub model : Text
  pub sequence_code : Field
  pub plant : Field
  pub rest : Text

abbrev pub IsSysInfo : SysInfo → Type 0
IsSysInfo i =
    IsField i.manufacturer
    × IsField i.machine_type
    × (all no_colon i.lic ≡ true)
    × (all no_colon i.model ≡ true)
    × IsField i.sequence_code
    × IsField i.plant

unfoldable pub print_sysinfo : SysInfo → Text
print_sysinfo i = line (bytes "Manufacturer:         ") i.manufacturer (
    line (bytes "Type:                 ") i.machine_type (
      bytes "LIC Identifier:       "
      ++ (i.lic
          ++ (b'\n'
              ∷ (bytes "Model:                "
                  ++ (i.model
                      ++ (b'\n'
                          ∷ line (bytes "Sequence Code:        ") i.sequence_code
                              (line (bytes "Plant:                ") i.plant i.rest))))))))

-- A key does not match across the end of a line without a colon.
has_prefix-line :
    (k s rest : Text)
    → all (λ c. not (nat_beq c b'\n')) k ≡ true
    → all no_colon s ≡ true
    → has_prefix (s ++ (b'\n' ∷ rest)) (k ++ (b':' ∷ [])) ≡ false
unfolding has_prefix all
has_prefix-line [] [] rest h g = refl
has_prefix-line (d ∷ k) [] rest h g = ground arith
has_prefix-line [] (c ∷ s) rest h g = ground arith
has_prefix-line (d ∷ k) (c ∷ s) rest h g = ground (arith, has_prefix-line k s rest)

skip_line :
    (k s rest : Text)
    → all (λ c. not (nat_beq c b'\n')) k ≡ true
    → all no_colon s ≡ true
    → parse_sysinfo_field (k ++ (b':' ∷ [])) (s ++ (b'\n' ∷ rest))
      ≡ parse_sysinfo_field (k ++ (b':' ∷ [])) rest
unfolding parse_sysinfo_field match_here all
skip_line k [] rest h g = ground (arith, has_prefix-line k [] rest h g)
skip_line k (c ∷ s) rest h g =
    ground (arith, has_prefix-line k (c ∷ s) rest h g, skip_line k s rest h)

skip_spaces-append :
    (pad v rest : Text)
    → all (λ c. nat_beq c 32) pad ≡ true
    → v ≢ []
    → all is_word_char v ≡ true
    → skip_spaces (pad ++ (v ++ rest)) ≡ v ++ rest
unfolding skip_spaces is_re_space all
skip_spaces-append [] [] rest h n g = absurd (n refl)
skip_spaces-append [] (c ∷ v) rest h n g = ground arith
skip_spaces-append (c ∷ pad) v rest h n g = ground (arith, skip_spaces-append pad v rest)

word-append :
    (v trail rest : Text)
    → all is_word_char v ≡ true
    → all (λ c. nat_beq c 32) trail ≡ true
    → word (v ++ (trail ++ (b'\n' ∷ rest))) ≡ v
unfolding word is_re_space all
word-append [] [] rest h g = refl
word-append [] (c ∷ trail) rest h g = ground arith
word-append (c ∷ v) trail rest h g = ground (arith, word-append v trail rest)

abbrev column : Field → Text → Text
column f rest = f.value ++ (f.trail ++ (b'\n' ∷ rest))

match_here-line :
    (key pad : Text) (f : Field) (rest : Text)
    → all (λ c. nat_beq c 32) pad ≡ true
    → IsField f
    → match_here key (key ++ (32 ∷ pad ++ column f rest)) ≡ some f.value
unfolding match_here is_re_space all
match_here-line key pad f rest h (n, g, t) =
    rw
      (
        has_prefix-append key (32 ∷ pad ++ column f rest),
        trim_prefix-append key (32 ∷ pad ++ column f rest),
        skip_spaces-append (32 ∷ pad) f.value (f.trail ++ (b'\n' ∷ rest)) h n g,
        word-append f.value f.trail rest g t,
      )
      (filled f.value n)
  where
    filled : (v : Text) → v ≢ [] → non_empty v ≡ some v
    filled [] n = absurd (n refl)
    filled (c ∷ v) n = refl

parse_sysinfo_field-line :
    (c : ℕ) (key pad : Text) (f : Field) (rest : Text)
    → all (λ c. nat_beq c 32) pad ≡ true
    → IsField f
    → parse_sysinfo_field (c ∷ key) ((c ∷ key) ++ (32 ∷ pad ++ column f rest)) ≡ f.value
unfolding parse_sysinfo_field
parse_sysinfo_field-line c key pad f rest h g =
    ground (arith, match_here-line (c ∷ key) pad f rest h g)

module _ (i : SysInfo) (fit : IsSysInfo i) where
  manufacturer_lem :
      parse_sysinfo_field (bytes "Manufacturer:") (print_sysinfo i) ≡ i.manufacturer.value
  unfolding print_sysinfo bytes all
  manufacturer_lem =
      parse_sysinfo_field-line b'M' (bytes "anufacturer:") (bytes "        ") i.manufacturer _ refl
        fit.0

  skip_field :
      (k : Text) (f : Field) (rest : Text)
      → all (λ c. not (nat_beq c b'\n')) k ≡ true
      → IsField f
      → parse_sysinfo_field (k ++ (b':' ∷ [])) (column f rest)
        ≡ parse_sysinfo_field (k ++ (b':' ∷ [])) rest
  skip_field k f rest h (n, g, t) = rw (← append_assoc f.value f.trail (b'\n' ∷ rest)) (
      skip_line k (f.value ++ f.trail) rest h (
        all-append no_colon f.value f.trail
          (all_mono is_word_char no_colon f.value (λ c w. ground arith) g)
          (all_mono _ no_colon f.trail (λ c s. ground arith) t)))

  type_lem : parse_sysinfo_field (bytes "Type:") (print_sysinfo i) ≡ i.machine_type.value
  unfolding print_sysinfo bytes all parse_sysinfo_field match_here has_prefix
  type_lem =
      let (m, t, _, _, _, _) = fit in
      skip_field (bytes "Type") i.manufacturer _ refl m
      ∙ parse_sysinfo_field-line b'T' (bytes "ype:") (bytes "                ") i.machine_type _
          refl t

  sequence_lem :
      parse_sysinfo_field (bytes "Sequence Code:") (print_sysinfo i) ≡ i.sequence_code.value
  unfolding print_sysinfo bytes all parse_sysinfo_field match_here has_prefix
  sequence_lem =
      let (m, t, l, o, s, _) = fit in
      let k = bytes "Sequence Code" in
      skip_field k i.manufacturer _ refl m
      ∙ skip_field k i.machine_type _ refl t
      ∙ skip_line k i.lic _ refl l
      ∙ skip_line k i.model _ refl o
      ∙ parse_sysinfo_field-line b'S' (bytes "equence Code:") (bytes "       ") i.sequence_code _
          refl s

  plant_lem : parse_sysinfo_field (bytes "Plant:") (print_sysinfo i) ≡ i.plant.value
  unfolding print_sysinfo bytes all parse_sysinfo_field match_here has_prefix
  plant_lem =
      let (m, t, l, o, s, p) = fit in
      let k = bytes "Plant" in
      skip_field k i.manufacturer _ refl m
      ∙ skip_field k i.machine_type _ refl t
      ∙ skip_line k i.lic _ refl l
      ∙ skip_line k i.model _ refl o
      ∙ skip_field k i.sequence_code _ refl s
      ∙ parse_sysinfo_field-line b'P' (bytes "lant:") (bytes "               ") i.plant _ refl p

  -- Of a file that the kernel prints, the identifier is the manufacturer, the type, the plant and the
  -- sequence code, in lower case and joined by dashes.
  pub machine_id-print_sysinfo :
      machine_id_from_sysinfo (print_sysinfo i)
      ≡ ok (
          to_lower
            (dashed i.manufacturer.value i.machine_type.value i.plant.value i.sequence_code.value))
  unfolding machine_id_from_sysinfo
  machine_id-print_sysinfo =
      let (m, t, _, _, s, p) = fit in
      ground (
        arith,
        manufacturer_lem,
        type_lem,
        plant_lem,
        sequence_lem,
        text_beq_iff i.manufacturer.value [],
        text_beq_iff i.machine_type.value [],
        text_beq_iff i.plant.value [],
        text_beq_iff i.sequence_code.value [],
      )
