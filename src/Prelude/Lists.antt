-- ===== src/Prelude/Lists.antt =====
-- Lists measured by native numbers, and lists without repetition as the sets of keys of Go maps.
use Prim.Native.Nat.{ℕ, zero, suc, ◌+◌, ◌≤◌}
use mathlib.Core.Path.{◌≡◌, refl}
use mathlib.Core.Logic.{inl, inr}
use mathlib.Core.Bool.{Bool, true, false, ◌||◌}
use mathlib.Core.List.{List, [], ◌∷◌, ◌++◌}
use native.Mathlib.Omega.{arith}
use k8s_cex_dra_driver.Prelude.Tests.{if◌then◌else◌, Bool-cases}
use k8s_cex_dra_driver.Prelude.Equality.{Eq, ◌==◌, ==_refl}

module _ {ℓ} {A : Type ℓ} where
  abbrev pub length : List A → ℕ
  length [] = 0
  length (x ∷ xs) = suc (length xs)

  pub length-append : (xs ys : List A) → length (xs ++ ys) ≡ length xs + length ys
  length-append [] ys = omega arith
  length-append (x ∷ xs) ys = omega (arith, length-append xs ys)

module _ {ℓ} {A : Type ℓ} where
  abbrev pub All {κ} : (A → Type κ) → List A → Type κ
  All P [] = Unit
  All P (x ∷ xs) = P x × All P xs

  pub All-snoc {κ} :
      (P : A → Type κ) (xs : List A) (x : A) → All P xs → P x → All P (xs ++ (x ∷ []))
  All-snoc P [] x h p = (p, tt)
  All-snoc P (y ∷ xs) x (q, h) p = (q, All-snoc P xs x h p)

module _ {ℓ} {A : Type ℓ} ⦃e : Eq A⦄ where
  unfoldable pub contains : List A → A → Bool
  contains [] a = false
  contains (x ∷ xs) a = x == a || contains xs a

  -- Insertion into a Go map used as a set.
  unfoldable pub insert : A → List A → List A
  unfolding contains
  insert a xs = if contains xs a then xs else xs ++ (a ∷ [])

  pub All-insert {κ} : (P : A → Type κ) (x : A) (xs : List A) → All P xs → P x → All P (insert x xs)
  unfolding insert
  All-insert P x xs h p = elim (Bool-cases (contains xs x)) [
    | inl old ↦ rw old h
    | inr new ↦ rw new (All-snoc P xs x h p)
  ]

  pub All-contains {κ} :
      (P : A → Type κ) (xs : List A) → ((a : A) → contains xs a ≡ true → P a) → All P xs
  unfolding contains
  All-contains P [] h = tt
  All-contains P (x ∷ xs) h =
      (h x (ground (arith, ==_refl x)), All-contains P xs (λ a m. h a (ground arith)))

  abbrev pub IsNodup : List A → Type 0
  IsNodup [] = Unit
  IsNodup (x ∷ xs) = (contains xs x ≡ false) × IsNodup xs

  pub contains-append :
      (xs ys : List A) (a : A) → contains (xs ++ ys) a ≡ (contains xs a || contains ys a)
  unfolding contains
  contains-append [] ys a = refl
  contains-append (x ∷ xs) ys a = ground (arith, contains-append xs ys a)

  pub contains-insert :
      (b : A) (xs : List A) (a : A) → contains (insert b xs) a ≡ (contains xs a || b == a)
  unfolding insert
  contains-insert b xs a =
      ground (arith, contains-append xs (b ∷ []) a, e.beq_iff b a, contains xs a)

  pub contains-insert_self : (a : A) (xs : List A) → contains (insert a xs) a ≡ true
  contains-insert_self a xs = ground (arith, contains-insert a xs a, ==_refl a)

  pub contains-insert_mono :
      (b : A) (xs : List A) (a : A) → contains xs a ≡ true → contains (insert b xs) a ≡ true
  contains-insert_mono b xs a h = ground (arith, contains-insert b xs a)

  IsNodup-snoc :
      (xs : List A) (a : A) → IsNodup xs → contains xs a ≡ false → IsNodup (xs ++ (a ∷ []))
  unfolding contains
  IsNodup-snoc [] a u h = (refl, tt)
  IsNodup-snoc (x ∷ xs) a (fresh, u) h = (
    ground (arith, contains-append xs (a ∷ []) x, e.beq_iff a x, e.beq_iff x a),
    IsNodup-snoc xs a u (ground arith),
  )

  pub insert-IsNodup : (a : A) (xs : List A) → IsNodup xs → IsNodup (insert a xs)
  unfolding insert
  insert-IsNodup a xs u = elim (Bool-cases (contains xs a)) [
    | inl old ↦ rw old u
    | inr new ↦ rw new (IsNodup-snoc xs a u new)
  ]

  -- The list without the first occurrence of `a`.
  erase : A → List A → List A
  erase a [] = []
  erase a (x ∷ xs) = if x == a then xs else x ∷ erase a xs

  length-erase :
      (a : A) (xs : List A) → contains xs a ≡ true → suc (length (erase a xs)) ≡ length xs
  unfolding erase contains
  length-erase a [] h = ground arith
  length-erase a (x ∷ xs) h = ground (arith, length-erase a xs)

  contains-erase_ne :
      (a b : A) (xs : List A) → (a == b) ≡ false → contains (erase a xs) b ≡ contains xs b
  unfolding erase contains
  contains-erase_ne a b [] h = refl
  contains-erase_ne a b (x ∷ xs) h =
      ground (arith, contains-erase_ne a b xs h, e.beq_iff a b, e.beq_iff x a, e.beq_iff x b)

  -- Removing a member that `xs` lacks keeps what `ys` has of `xs`.
  contains-erase_fresh :
      (x : A) (xs ys : List A)
      → contains xs x ≡ false
      → ((a : A) → contains xs a ≡ true → contains ys a ≡ true)
      → (b : A) → contains xs b ≡ true
      → contains (erase x ys) b ≡ true
  contains-erase_fresh x xs ys fresh sub b hb = elim (Bool-cases (x == b)) [
    | inl same ↦ absurd (differ same)
    | inr other ↦ rw (contains-erase_ne x b ys other) (sub b hb)
  ]
    where
      differ : (x == b) ≡ true → ⊥
      differ same = ground (arith, e.beq_iff x b)

  -- A list without repetition is no longer than one that contains it.
  pub length-le_of_contains :
      (xs ys : List A)
      → IsNodup xs
      → ((a : A) → contains xs a ≡ true → contains ys a ≡ true)
      → length xs ≤ length ys
  unfolding contains
  length-le_of_contains [] ys u sub = omega arith
  length-le_of_contains (x ∷ xs) ys (fresh, u) sub = omega (
    arith,
    length-erase x ys (sub x (rw ==_refl refl)),
    length-le_of_contains xs (erase x ys) u
        (contains-erase_fresh x xs ys fresh (λ a m. sub a (ground arith))),
  )

  -- A list without repetition that is contained in one no longer than itself contains it in turn.
  pub contains_of_length :
      (xs ys : List A)
      → IsNodup xs
      → ((a : A) → contains xs a ≡ true → contains ys a ≡ true)
      → length ys ≤ length xs
      → (a : A) → contains ys a ≡ true
      → contains xs a ≡ true
  unfolding contains
  contains_of_length [] [] u sub short a h = h
  contains_of_length [] (y ∷ ys) u sub short a h = absurd (omega arith)
  contains_of_length (x ∷ xs) ys (fresh, u) sub short a h = elim (Bool-cases (x == a)) [
    | inl same ↦ rw same refl
    | inr other ↦ rw other (
        contains_of_length xs (erase x ys) u
          (contains-erase_fresh x xs ys fresh (λ b m. sub b (ground arith)))
          (omega (arith, length-erase x ys (sub x (rw ==_refl refl)))) a
          (rw (contains-erase_ne x a ys other) h))
  ]

module _ {ℓ} {A : Type ℓ} where
  unfoldable pub take : ℕ → List A → List A
  take zero xs = []
  take (suc n) [] = []
  take (suc n) (x ∷ xs) = x ∷ take n xs

  unfoldable pub drop : ℕ → List A → List A
  drop zero xs = xs
  drop (suc n) [] = []
  drop (suc n) (x ∷ xs) = drop n xs
