-- ===== src/Sysfs/Mkvp/Lines.antt =====
-- A line of the registers of a queue, in the form of the kernel: a key, a state, and a pattern or a
-- dash.
use k8s_cex_dra_driver.Prelude.{
  ℕ, Text, List, [], ◌∷◌, ◌++◌, Bool, true, false, not, ◌&&◌, Option, none, some, ◌≡◌, ◌≢◌, refl,
  ◌==◌, text_eq, text_beq, nat_beq, arith, if◌then◌else◌,
}
use mathlib.Core.List.{append_assoc}
use k8s_cex_dra_driver.Prelude.Strings.{is_space, trim_left, trim_right, trim_space, cut, all}
use k8s_cex_dra_driver.Prelude.Strings.Laws.{cut-append}
use k8s_cex_dra_driver.Sysfs.Mkvp.{Mkvps, parse_entry, parse_line}

pub record Register : Type 0 where
  pub key : Text
  pub state : Text
  -- The hexadecimal digits, or a dash
  pub pattern : Option Text

abbrev pub plain : ℕ → Bool
plain c = not (is_space c)

abbrev pub no_colon : ℕ → Bool
no_colon c = not (nat_beq c b':')

-- A word of a state has neither white space nor the digit of 0x.
abbrev pub is_state_char : ℕ → Bool
is_state_char c = not (is_space c) && not (nat_beq c b'0')

abbrev pub no_newline : ℕ → Bool
no_newline c = not (nat_beq c b'\n')

abbrev pub IsPattern : Option Text → Type 0
IsPattern none = Unit
IsPattern (some hex) = all plain hex ≡ true

abbrev pub starts_plain : Text → Bool
starts_plain [] = false
starts_plain (c ∷ s) = plain c

abbrev pub IsRegister : Register → Type 0
IsRegister r =
    (trim_space r.key ≡ r.key)
    × (starts_plain r.key ≡ true)
    × (all no_colon r.key ≡ true)
    × (all no_newline r.key ≡ true)
    × (r.state ≢ [])
    × (all is_state_char r.state ≡ true)
    × IsPattern r.pattern

abbrev pub print_pattern : Option Text → Text
print_pattern none = b'-' ∷ []
print_pattern (some hex) = b'0' ∷ b'x' ∷ hex

abbrev pub print_value : Register → Text
print_value r = r.state ++ (32 ∷ print_pattern r.pattern)

unfoldable pub print_line : Register → Text
print_line r = r.key ++ (b':' ∷ 32 ∷ print_value r)

unfoldable pub print_registers : List Register → Text
unfolding print_line
print_registers [] = []
print_registers (r ∷ registers) = print_line r ++ (b'\n' ∷ print_registers registers)

-- Trimming

pub trim_left-head : (c : ℕ) (s : Text) → is_space c ≡ false → trim_left (c ∷ s) ≡ c ∷ s
unfolding trim_left
trim_left-head c s h = ground arith

pub trim_right-word : (s : Text) → all plain s ≡ true → trim_right s ≡ s
unfolding trim_right all
trim_right-word [] h = refl
trim_right-word (c ∷ s) h = ground (arith, trim_right-word s)

pub trim_right-append :
    (s : Text) (c : ℕ) (t : Text)
    → all plain (c ∷ t) ≡ true
    → trim_right (s ++ (c ∷ t)) ≡ s ++ (c ∷ t)
unfolding trim_right text_beq
trim_right-append [] c t h = trim_right-word (c ∷ t) h
trim_right-append (d ∷ s) c t h = rw (trim_right-append s c t h) (go s)
  where
    go :
        (s : Text)
        → (if is_space d && text_beq (s ++ (c ∷ t)) [] then [] else d ∷ (s ++ (c ∷ t)))
          ≡ d ∷ (s ++ (c ∷ t))
    go [] = ground arith
    go (x ∷ s) = ground arith

-- A text that begins and ends in a word has nothing to trim.
pub trim_space-words :
    (b : ℕ) (s : Text) (c : ℕ) (t : Text)
    → is_space b ≡ false
    → all plain (c ∷ t) ≡ true
    → trim_space (b ∷ (s ++ (c ∷ t))) ≡ b ∷ (s ++ (c ∷ t))
unfolding trim_space
trim_space-words b s c t h k =
    rw (trim_left-head b (s ++ (c ∷ t)) h) (trim_right-append (b ∷ s) c t k)

-- The last word of a line
unfoldable pub pattern_head : Option Text → ℕ
pattern_head none = b'-'
pattern_head (some hex) = b'0'

unfoldable pub pattern_tail : Option Text → Text
pattern_tail none = []
pattern_tail (some hex) = b'x' ∷ hex

pub print_pattern-eq : (p : Option Text) → print_pattern p ≡ pattern_head p ∷ pattern_tail p
unfolding pattern_head pattern_tail
print_pattern-eq none = refl
print_pattern-eq (some hex) = refl

pub print_pattern-plain :
    (p : Option Text) → IsPattern p → all plain (pattern_head p ∷ pattern_tail p) ≡ true
unfolding pattern_head pattern_tail all is_space
print_pattern-plain none h = refl
print_pattern-plain (some hex) h = ground arith

-- A text in front of the pattern, as one that ends in a word
pub onto_pattern :
    (s : Text) (p : Option Text)
    → s ++ (32 ∷ print_pattern p) ≡ (s ++ (32 ∷ [])) ++ (pattern_head p ∷ pattern_tail p)
onto_pattern s p =
    rw (append_assoc s (32 ∷ []) (pattern_head p ∷ pattern_tail p), print_pattern-eq p) refl

-- What ends in a pattern and does not begin with a space has nothing to trim.
pub trim_space-pattern :
    (s : Text) (p : Option Text)
    → starts_plain s ≡ true
    → IsPattern p
    → trim_space (s ++ (32 ∷ print_pattern p)) ≡ s ++ (32 ∷ print_pattern p)
trim_space-pattern [] p n h = absurd (ground arith)
trim_space-pattern (c ∷ s) p n h = rw (onto_pattern s p) (
    trim_space-words c (s ++ (32 ∷ [])) (pattern_head p) (pattern_tail p) (ground arith)
      (print_pattern-plain p h))

pub state-starts_plain :
    (state : Text) → state ≢ [] → all is_state_char state ≡ true → starts_plain state ≡ true
unfolding all
state-starts_plain [] n h = absurd (n refl)
state-starts_plain (c ∷ state) n h = ground arith

pub trim_space-space : (s : Text) → trim_space (32 ∷ s) ≡ trim_space s
unfolding trim_space trim_left is_space
trim_space-space s = refl

pub line-eq :
    (r : Register)
    → print_line r ≡ (r.key ++ (b':' ∷ 32 ∷ r.state)) ++ (32 ∷ print_pattern r.pattern)
unfolding print_line
line-eq r = rw (append_assoc r.key (b':' ∷ 32 ∷ r.state) (32 ∷ print_pattern r.pattern)) refl

pub starts_plain-append : (s t : Text) → starts_plain s ≡ true → starts_plain (s ++ t) ≡ true
starts_plain-append [] t h = absurd (ground arith)
starts_plain-append (c ∷ s) t h = h

pub starts_plain-ne : (s : Text) → starts_plain s ≡ true → (s == []) ≡ false
unfolding text_beq
starts_plain-ne [] h = absurd (ground arith)
starts_plain-ne (c ∷ s) h = refl

pub parse_line-print_line :
    (card_type : Text) (r : Register) (m : Mkvps)
    → IsRegister r
    → parse_line card_type (print_line r) m ≡ parse_entry card_type r.key (print_value r) m
unfolding parse_line
parse_line-print_line card_type r m (t, k, colon, _, n, s, p) =
    let front = r.key ++ (b':' ∷ 32 ∷ r.state) in
    let begins : starts_plain front ≡ true = starts_plain-append r.key _ k in
    let trimmed : trim_space (print_line r) ≡ print_line r =
      rw (line-eq r) (trim_space-pattern front r.pattern begins p) in
    let some_line : (print_line r == []) ≡ false =
      rw (line-eq r) (starts_plain-ne _ (starts_plain-append front _ begins)) in
    let divided : cut b':' (print_line r) ≡ some (r.key, 32 ∷ print_value r) =
      unfold print_line in cut-append b':' r.key (32 ∷ print_value r) colon in
    rw
      (
        trimmed,
        some_line,
        divided,
        t,
        trim_space-space (print_value r),
        trim_space-pattern r.state r.pattern (state-starts_plain r.state n s) p,
      )
      refl
