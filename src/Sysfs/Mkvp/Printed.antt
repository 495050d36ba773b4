-- ===== src/Sysfs/Mkvp/Printed.antt =====
-- The file of the registers of a queue is read as it was printed.
use k8s_cex_dra_driver.Prelude.{
  ℕ, zero, suc, ◌≤◌, sym, ap, take, length, ltb, Text, List, [], ◌∷◌, ◌++◌, true, Option, none,
  some, ◌≡◌, refl, ◌∙◌, ◌==◌, text_eq, text_beq, All, Bool-cases, inl, inr, arith, if◌then◌else◌,
}
use k8s_cex_dra_driver.Prelude.Exec.{Result, ok, err}
use k8s_cex_dra_driver.Prelude.Dict.{get, put, or_default}
use k8s_cex_dra_driver.Prelude.Strings.{
  bytes, is_space, trim_left, trim_right, trim_space, split, all, has_prefix, trim_prefix,
}
use k8s_cex_dra_driver.Prelude.Strings.Laws.{split-append, all-append, all_mono}
use k8s_cex_dra_driver.Sysfs.Mkvp.{
  Mkvps, MkvpError, placeholder_state, cca, ep11, cca_mkvp_key_map, ep11_mkvp_key_map, until_space,
  is_placeholder_state, extract_hex_value, truncate_wkvp, parse_entry, parse_line, parse_mkvp_lines,
  mkvps_path, parse_mkvps,
}
use k8s_cex_dra_driver.Os.{Os, FilePath}
use k8s_cex_dra_driver.Sysfs.Mkvp.Lines.{
  IsPattern, IsRegister, Register, is_state_char, no_newline, parse_line-print_line, plain,
  print_line, print_pattern, print_registers, print_value, starts_plain, starts_plain-append,
  state-starts_plain, trim_left-head,
}

abbrev digits_of : Option Text → Text
digits_of none = []
digits_of (some hex) = hex

-- The attribute of a register, "" for one that is not published.
abbrev attribute_of : Text → Text → Text
attribute_of card_type key =
    if card_type == cca
    then or_default [] (get key cca_mkvp_key_map)
    else if card_type == ep11
    then or_default [] (get key ep11_mkvp_key_map)
    else []

-- Of an EP11 key the first 16 bytes identify it.
abbrev published_value : Text → Option Text → Text
published_value card_type pattern =
    if card_type == cca then digits_of pattern else take 32 (digits_of pattern)

-- The published attributes with their patterns, unless a published register has no state.
unfoldable pub read_registers : Text → List Register → Mkvps → Result MkvpError Mkvps
read_registers card_type [] m = ok m
read_registers card_type (r ∷ registers) m =
    let attribute = attribute_of card_type r.key in
    let skipped = read_registers card_type registers m in
    let stored =
      read_registers card_type registers (put attribute (published_value card_type r.pattern) m) in
    if attribute == []
    then skipped
    else if r.state == bytes "-"
    then err (placeholder_state r.key)
    else stored

until_space-state :
    (state rest : Text)
    → all is_state_char state ≡ true
    → until_space (state ++ (32 ∷ rest)) ≡ state
unfolding until_space all is_space
until_space-state [] rest h = refl
until_space-state (c ∷ state) rest h = ground (arith, until_space-state state rest)

is_placeholder_state-print_value :
    (r : Register) → IsRegister r → is_placeholder_state (print_value r) ≡ (r.state == bytes "-")
unfolding is_placeholder_state
is_placeholder_state-print_value r (_, _, _, _, n, s, p) =
    let begins =
      starts_plain-append r.state (32 ∷ print_pattern r.pattern) (state-starts_plain r.state n s) in
    rw
      (
        trim_left-plain (print_value r) begins,
        until_space-state r.state (print_pattern r.pattern) s,
      )
      refl
  where
    trim_left-plain : (s : Text) → starts_plain s ≡ true → trim_left s ≡ s
    trim_left-plain [] h = absurd (ground arith)
    trim_left-plain (c ∷ s) h = trim_left-head c s (ground arith)

extract_hex_value-state :
    (state rest : Text)
    → all is_state_char state ≡ true
    → extract_hex_value (state ++ (32 ∷ rest)) ≡ extract_hex_value rest
unfolding extract_hex_value all has_prefix bytes
extract_hex_value-state [] rest h = refl
extract_hex_value-state (c ∷ state) rest h = ground (arith, extract_hex_value-state state rest)

extract_hex_value-pattern : (p : Option Text) → extract_hex_value (print_pattern p) ≡ digits_of p
unfolding extract_hex_value has_prefix trim_prefix bytes
extract_hex_value-pattern none = refl
extract_hex_value-pattern (some hex) = refl

truncate_wkvp-take : (s : Text) → truncate_wkvp s ≡ take 32 s
unfolding truncate_wkvp
truncate_wkvp-take s = elim (Bool-cases (ltb 32 (length s))) [
  | inl long ↦ rw long refl
  | inr short ↦ rw short (sym (take_all 32 s (ground arith)))
]
  where
    take_all : (n : ℕ) (s : Text) → length s ≤ n → take n s ≡ s
    take_all zero [] h = unfold take in refl
    take_all zero (c ∷ s) h = absurd (omega arith)
    take_all (suc n) [] h = unfold take in refl
    take_all (suc n) (c ∷ s) h = unfold take in ap (λ r. c ∷ r) (take_all n s (omega arith))

parse_entry-print_value :
    (card_type : Text) (r : Register) (m : Mkvps)
    → IsRegister r
    → parse_entry card_type r.key (print_value r) m ≡ (
        if attribute_of card_type r.key == []
        then ok m
        else if r.state == bytes "-"
        then err (placeholder_state r.key)
        else ok (put (attribute_of card_type r.key) (published_value card_type r.pattern) m))
unfolding parse_entry text_beq
parse_entry-print_value card_type r m h =
    let (_, _, _, _, _, s, p) = h in
    let value : extract_hex_value (print_value r) ≡ digits_of r.pattern =
      extract_hex_value-state r.state (print_pattern r.pattern) s
      ∙ extract_hex_value-pattern r.pattern in
    ground
      (arith, value, truncate_wkvp-take (digits_of r.pattern), is_placeholder_state-print_value r h)

print_pattern-no_newline : (p : Option Text) → IsPattern p → all no_newline (print_pattern p) ≡ true
unfolding all is_space
print_pattern-no_newline none h = refl
print_pattern-no_newline (some hex) h = all_mono plain no_newline hex (λ c k. ground arith) h

print_line-no_newline : (r : Register) → IsRegister r → all no_newline (print_line r) ≡ true
unfolding print_line all is_space
print_line-no_newline r (_, _, _, key, _, s, p) =
    all-append no_newline r.key (b':' ∷ 32 ∷ print_value r) key (
      all-append no_newline r.state (32 ∷ print_pattern r.pattern)
        (all_mono is_state_char no_newline r.state (λ c k. ground arith) s)
        (print_pattern-no_newline r.pattern p))

parse_mkvp_lines-print_registers :
    (card_type : Text) (registers : List Register) (m : Mkvps)
    → All IsRegister registers
    → parse_mkvp_lines card_type (split b'\n' (print_registers registers)) m
      ≡ read_registers card_type registers m
unfolding print_registers parse_mkvp_lines read_registers
parse_mkvp_lines-print_registers card_type [] m h =
    unfold split parse_line trim_space trim_left trim_right text_beq in refl
parse_mkvp_lines-print_registers card_type (r ∷ registers) m (h, hs) =
    let rest = parse_mkvp_lines-print_registers card_type registers in
    ground (
      arith,
      split-append b'\n' (print_line r) (print_registers registers) (print_line-no_newline r h),
      parse_line-print_line card_type r m h,
      parse_entry-print_value card_type r m h,
      rest m hs,
      rest (put (attribute_of card_type r.key) (published_value card_type r.pattern) m) hs,
    )

-- Of a file that lists registers as the kernel does, each with a key, a state and a pattern or a dash,
-- the reader makes the attributes of the registers that are published for the type of the card, each
-- with its pattern; a published register in the state - fails it with the key of the first such.
pub parse_mkvps-print_registers :
    (os : Os) (queue_path : FilePath) (card_type : Text) (registers : List Register)
    (w w' : os.World)
    → os.read_file (mkvps_path queue_path) w ≡ (ok (print_registers registers), w')
    → All IsRegister registers
    → parse_mkvps os queue_path card_type w ≡ (read_registers card_type registers [], w')
unfolding parse_mkvps
parse_mkvps-print_registers os queue_path card_type registers w w' reads h =
    ground (arith, parse_mkvp_lines-print_registers card_type registers [] h)
