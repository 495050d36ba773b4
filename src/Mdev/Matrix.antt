-- ===== src/Mdev/Matrix.antt =====
-- The kernel's `matrix` file, one line for each queue, is read back by `parse_matrix`.
use k8s_cex_dra_driver.Prelude.{
  ℕ, Text, some, List, [], ◌∷◌, ◌++◌, Bool, true, false, ◌&&◌, ◌||◌, not, text_eq, ◌≡◌, refl, ◌∙◌,
  ap, arith, leb, nat_beq, All, text_beq,
}
use mathlib.Core.List.{append-nil, append_assoc}
use k8s_cex_dra_driver.Prelude.Exec.{ok}
use k8s_cex_dra_driver.Prelude.Strings.{is_space, all, trim_space, cut, split}
use k8s_cex_dra_driver.Prelude.Strings.Laws.{
  cut-append, split-append, trim_space-eq, all-append, all_mono,
}
use k8s_cex_dra_driver.Mdev.{Apqn, parse_lines, parse_matrix}

unfoldable pub is_hex_digit : ℕ → Bool
is_hex_digit c = (leb b'0' c && leb c b'9') || (leb b'a' c && leb c b'f')

-- Both numbers are written in lowercase hexadecimal.
pub record IsHex (q : Apqn) : Type 0 where
  pub apid_hex : all is_hex_digit q.apid ≡ true
  pub apqi_hex : all is_hex_digit q.apqi ≡ true

abbrev pub matrix_line : Apqn → Text
matrix_line q = q.apid ++ (b'.' ∷ q.apqi)

-- The format in which the vfio_ap module prints a matrix.
unfoldable pub print_matrix : List Apqn → Text
print_matrix [] = []
print_matrix (q ∷ qs) = matrix_line q ++ (b'\n' ∷ print_matrix qs)

hex_or_dot : ℕ → Bool
hex_or_dot c = is_hex_digit c || nat_beq c b'.'

line-hex_or_dot : (q : Apqn) → IsHex q → all hex_or_dot (matrix_line q) ≡ true
unfolding all hex_or_dot is_hex_digit
line-hex_or_dot q h =
    all-append hex_or_dot q.apid (b'.' ∷ q.apqi)
      (all_mono is_hex_digit hex_or_dot q.apid (λ c d. ground arith) h.apid_hex)
      (all_mono is_hex_digit hex_or_dot q.apqi (λ c d. ground arith) h.apqi_hex)

line-no_newline : (q : Apqn) → IsHex q → all (λ c. not (nat_beq c b'\n')) (matrix_line q) ≡ true
unfolding hex_or_dot is_hex_digit
line-no_newline q h =
    all_mono hex_or_dot _ (matrix_line q) (λ c d. ground arith) (line-hex_or_dot q h)

line-no_space : (q : Apqn) → IsHex q → all (λ c. not (is_space c)) (matrix_line q) ≡ true
unfolding hex_or_dot is_hex_digit is_space
line-no_space q h =
    all_mono hex_or_dot _ (matrix_line q) (λ c d. ground arith) (line-hex_or_dot q h)

cut-line : (q : Apqn) → IsHex q → cut b'.' (matrix_line q) ≡ some (q.apid, q.apqi)
unfolding is_hex_digit
cut-line q h =
    cut-append b'.' q.apid q.apqi (all_mono is_hex_digit _ q.apid (λ c d. ground arith) h.apid_hex)

line-ne-nil : (s t : Text) (c : ℕ) → text_beq (s ++ (c ∷ t)) [] ≡ false
unfolding text_beq
line-ne-nil [] t c = refl
line-ne-nil (d ∷ s) t c = refl

parse_lines-matrix_line :
    (q : Apqn) (lines : List Text) (out : List Apqn)
    → IsHex q
    → parse_lines (matrix_line q ∷ lines) out ≡ parse_lines lines (out ++ (q ∷ []))
unfolding parse_lines
parse_lines-matrix_line q lines out h =
    rw
      (
        trim_space-eq (matrix_line q) (line-no_space q h),
        line-ne-nil q.apid q.apqi b'.',
        cut-line q h,
      )
      refl

parse_lines-print :
    (qs out : List Apqn)
    → All IsHex qs
    → parse_lines (split b'\n' (print_matrix qs)) out ≡ ok (out ++ qs)
unfolding print_matrix
parse_lines-print [] out h = unfold parse_lines split trim_space text_beq in rw append-nil
parse_lines-print (q ∷ qs) out (hq, hqs) =
    rw (split-append b'\n' (matrix_line q) (print_matrix qs) (line-no_newline q hq)) (
      parse_lines-matrix_line q _ out hq
      ∙ parse_lines-print qs (out ++ (q ∷ [])) hqs
      ∙ ap ok (append_assoc out (q ∷ []) qs))

-- Reading back what the kernel prints gives the queues, in order, when both numbers of each are
-- written in lowercase hexadecimal.
pub parse_matrix-print_matrix :
    (qs : List Apqn) → All IsHex qs → parse_matrix (print_matrix qs) ≡ ok qs
unfolding parse_matrix
parse_matrix-print_matrix qs h = parse_lines-print qs [] h
