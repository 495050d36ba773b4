-- ===== src/Prelude/Sort/Laws.antt =====
-- The order of strings is total, and sorting by distinct keys does not depend on the order before it.
use mathlib.Core.Path.{◌≡◌, ◌∙◌, refl}
use mathlib.Core.Logic.{inl, inr}
use mathlib.Core.Bool.{true, false}
use mathlib.Core.List.{List, [], ◌∷◌, map}
use native.Mathlib.Omega.{arith}
use k8s_cex_dra_driver.Prelude.Tests.{Bool-cases}
use k8s_cex_dra_driver.Prelude.Equality.{Text, text_eq, text_beq_iff, ◌==◌}
use k8s_cex_dra_driver.Prelude.Lists.{contains, IsNodup}
use k8s_cex_dra_driver.Prelude.Sort.{
  text_leb, insert_sorted, sort_by, Reorder, nothing, keep, exchange, in_turn,
}

text_leb_total : (s t : Text) → text_leb s t ≡ false → text_leb t s ≡ true
unfolding text_leb
text_leb_total [] t h = ground arith
text_leb_total (a ∷ s) [] h = refl
text_leb_total (a ∷ s) (b ∷ t) h = ground (arith, text_leb_total s t)

text_leb_antisym : (s t : Text) → text_leb s t ≡ true → text_leb t s ≡ true → s ≡ t
unfolding text_leb
text_leb_antisym [] [] h k = refl
text_leb_antisym [] (b ∷ t) h k = ground arith
text_leb_antisym (a ∷ s) [] h k = ground arith
text_leb_antisym (a ∷ s) (b ∷ t) h k = ground (arith, text_leb_antisym s t)

text_leb_trans : (s t u : Text) → text_leb s t ≡ true → text_leb t u ≡ true → text_leb s u ≡ true
unfolding text_leb
text_leb_trans [] t u h k = refl
text_leb_trans (a ∷ s) [] u h k = ground arith
text_leb_trans (a ∷ s) (b ∷ t) [] h k = ground arith
text_leb_trans (a ∷ s) (b ∷ t) (c ∷ u) h k = ground (arith, text_leb_trans s t u)

module _ {A : Type 0} (key : A → Text) where
  insert_sorted_comm :
      (a b : A) (xs : List A)
      → (key a == key b) ≡ false
      → insert_sorted key a (insert_sorted key b xs) ≡ insert_sorted key b (insert_sorted key a xs)
  unfolding insert_sorted
  insert_sorted_comm a b [] h = ground (
    arith,
    text_leb_total (key a) (key b),
    text_leb_antisym (key a) (key b),
    text_beq_iff (key a) (key b),
  )
  insert_sorted_comm a b (x ∷ xs) h = ground (
    arith,
    insert_sorted_comm a b xs h,
    text_leb_total (key a) (key b),
    text_leb_antisym (key a) (key b),
    text_beq_iff (key a) (key b),
    text_leb_trans (key a) (key b) (key x),
    text_leb_trans (key b) (key a) (key x),
    text_leb_total (key a) (key x),
    text_leb_total (key b) (key x),
    text_leb_trans (key a) (key x) (key b),
    text_leb_trans (key b) (key x) (key a),
  )

  contains-Reorder :
      {xs ys : List A} (k : Text)
      → Reorder xs ys
      → contains (map key xs) k ≡ contains (map key ys) k
  unfolding contains
  contains-Reorder k nothing = refl
  contains-Reorder k (keep a r) = rw (contains-Reorder k r) refl
  contains-Reorder k (exchange a b xs) = ground arith
  contains-Reorder k (in_turn r t) = contains-Reorder k r ∙ contains-Reorder k t

  pub reorder-IsNodup :
      {xs ys : List A} → Reorder xs ys → IsNodup (map key xs) → IsNodup (map key ys)
  unfolding contains
  reorder-IsNodup nothing u = u
  reorder-IsNodup (keep a r) (fresh, u) =
      (rw (← contains-Reorder (key a) r) fresh, reorder-IsNodup r u)
  reorder-IsNodup (exchange a b xs) (fresh, (old, u)) = (
    ground (arith, text_beq_iff (key a) (key b), text_beq_iff (key b) (key a)),
    (ground arith, u),
  )
  reorder-IsNodup (in_turn r t) u = reorder-IsNodup t (reorder-IsNodup r u)

  -- Sorting by distinct keys forgets the order.
  pub sort_by-Reorder :
      {xs ys : List A} → Reorder xs ys → IsNodup (map key xs) → sort_by key xs ≡ sort_by key ys
  unfolding sort_by contains
  sort_by-Reorder nothing u = refl
  sort_by-Reorder (keep a r) (fresh, u) = rw (sort_by-Reorder r u) refl
  sort_by-Reorder (exchange a b xs) (fresh, (old, u)) =
      insert_sorted_comm a b (sort_by key xs)
        (ground (arith, text_beq_iff (key a) (key b), text_beq_iff (key b) (key a)))
  sort_by-Reorder (in_turn r t) u = sort_by-Reorder r u ∙ sort_by-Reorder t (reorder-IsNodup r u)

module _ {A B : Type 0} (key : B → Text) (g : A → B) where
  insert_sorted-map :
      (a : A) (xs : List A)
      → insert_sorted key (g a) (map g xs) ≡ map g (insert_sorted (λ x. key (g x)) a xs)
  unfolding insert_sorted
  insert_sorted-map a [] = refl
  insert_sorted-map a (x ∷ xs) = elim (Bool-cases (text_leb (key (g a)) (key (g x)))) [
    | inl here ↦ rw here refl
    | inr later ↦ rw (later, insert_sorted-map a xs) refl
  ]

  -- What is sorted may be mapped before it, if the keys stay.
  pub sort_by-map : (xs : List A) → sort_by key (map g xs) ≡ map g (sort_by (λ x. key (g x)) xs)
  unfolding sort_by
  sort_by-map [] = refl
  sort_by-map (a ∷ xs) = rw (sort_by-map xs, insert_sorted-map a) refl
