-- ===== src/Prelude/Strings/Laws.antt =====
-- What cutting, splitting and trimming do to a text that lacks the separator.
use Prim.Native.Nat.{ℕ}
use mathlib.Core.Path.{◌≡◌, refl}
use mathlib.Core.Bool.{true, not}
use mathlib.Core.Option.{Option, none, some}
use mathlib.Core.List.{[], ◌∷◌, ◌++◌}
use native.Mathlib.Omega.{arith}
use k8s_cex_dra_driver.Prelude.Tests.{nat_beq}
use k8s_cex_dra_driver.Prelude.Equality.{Text, text_beq}
use k8s_cex_dra_driver.Prelude.Strings.{
  is_space, trim_left, trim_right, trim_space, has_prefix, trim_prefix, cut, split, all,
}

pub cut-append :
    (sep : ℕ) (s rest : Text)
    → all (λ c. not (nat_beq c sep)) s ≡ true
    → cut sep (s ++ (sep ∷ rest)) ≡ some (s, rest)
unfolding cut all
cut-append sep [] rest h = ground arith
cut-append sep (c ∷ s) rest h = ground (arith, cut-append sep s rest)

pub split-append :
    (sep : ℕ) (s rest : Text)
    → all (λ c. not (nat_beq c sep)) s ≡ true
    → split sep (s ++ (sep ∷ rest)) ≡ s ∷ split sep rest
unfolding split all
split-append sep [] rest h = ground arith
split-append sep (c ∷ s) rest h = ground (arith, split-append sep s rest)

trim_left-eq : (s : Text) → all (λ c. not (is_space c)) s ≡ true → trim_left s ≡ s
unfolding trim_left all
trim_left-eq [] h = refl
trim_left-eq (c ∷ s) h = ground arith

trim_right-eq : (s : Text) → all (λ c. not (is_space c)) s ≡ true → trim_right s ≡ s
unfolding trim_right all
trim_right-eq [] h = refl
trim_right-eq (c ∷ s) h = ground (arith, trim_right-eq s)

pub trim_space-eq : (s : Text) → all (λ c. not (is_space c)) s ≡ true → trim_space s ≡ s
unfolding trim_space
trim_space-eq s h = ground (arith, trim_left-eq s h, trim_right-eq s h)

pub all-append : (p : ℕ → _) (s t : Text) → all p s ≡ true → all p t ≡ true → all p (s ++ t) ≡ true
unfolding all
all-append p [] t h k = k
all-append p (c ∷ s) t h k = ground (arith, all-append p s t)

pub all_mono :
    (p q : ℕ → _) (s : Text) → ((c : ℕ) → p c ≡ true → q c ≡ true) → all p s ≡ true → all q s ≡ true
unfolding all
all_mono p q [] h k = refl
all_mono p q (c ∷ s) h k = ground (arith, all_mono p q s h, h c)

pub has_prefix-append : (p s : Text) → has_prefix (p ++ s) p ≡ true
unfolding has_prefix
has_prefix-append [] s = refl
has_prefix-append (c ∷ p) s = ground (arith, has_prefix-append p s)

pub trim_prefix-append : (p s : Text) → trim_prefix (p ++ s) p ≡ s
unfolding trim_prefix
trim_prefix-append [] s = refl
trim_prefix-append (c ∷ p) s = ground (arith, has_prefix-append p s, trim_prefix-append p s)

-- What `cut` finds, put together again, is the text, and the first part lacks the separator.
pub cut-eq_some :
    (sep : ℕ) (s a b : Text)
    → cut sep s ≡ some (a, b)
    → (s ≡ a ++ (sep ∷ b)) × (all (λ c. not (nat_beq c sep)) a ≡ true)
unfolding cut all
cut-eq_some sep [] a b h = ground arith
cut-eq_some sep (c ∷ s) a b h = go (cut-eq_some sep s) (cut sep s) refl
  where
    go :
        ((x y : Text)
          → cut sep s ≡ some (x, y)
          → (s ≡ x ++ (sep ∷ y)) × (all (λ c. not (nat_beq c sep)) x ≡ true))
        → (r : Option (Text × Text)) → cut sep s ≡ r
        → (c ∷ s ≡ a ++ (sep ∷ b)) × (all (λ c. not (nat_beq c sep)) a ≡ true)
    go ih none e = ground arith
    go ih (some (x, y)) e = ground (arith, ih x y e)

pub append-trim_prefix : (p s : Text) → has_prefix s p ≡ true → s ≡ p ++ trim_prefix s p
unfolding has_prefix trim_prefix
append-trim_prefix [] s h = refl
append-trim_prefix (c ∷ p) [] h = ground arith
append-trim_prefix (c ∷ p) (d ∷ s) h = ground (arith, append-trim_prefix p s)

-- The newline behind a text without white space is trimmed.
pub trim_right-newline :
    (s : Text) → all (λ c. not (is_space c)) s ≡ true → trim_right (s ++ (b'\n' ∷ [])) ≡ s
unfolding trim_right is_space text_beq all
trim_right-newline [] h = refl
trim_right-newline (c ∷ s) h = ground (arith, trim_right-newline s)
