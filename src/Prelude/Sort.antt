-- ===== src/Prelude/Sort.antt =====
-- Go's `sort`, by keys that are strings.
pub mod Laws
use mathlib.Core.Bool.{Bool, true, false}
use mathlib.Core.List.{List, [], ◌∷◌}
use k8s_cex_dra_driver.Prelude.Tests.{ltb, nat_beq, if◌then◌else◌}
use k8s_cex_dra_driver.Prelude.Equality.{Text}

-- The order of Go strings.
unfoldable pub text_leb : Text → Text → Bool
text_leb [] t = true
text_leb (a ∷ s) [] = false
text_leb (a ∷ s) (b ∷ t) = let rest = text_leb s t in if nat_beq a b then rest else ltb a b

module _ {A : Type 0} (key : A → Text) where
  unfoldable pub insert_sorted : A → List A → List A
  unfolding text_leb
  insert_sorted a [] = a ∷ []
  insert_sorted a (b ∷ xs) =
      let rest = b ∷ insert_sorted a xs in if text_leb (key a) (key b) then a ∷ b ∷ xs else rest

  -- `sort.Strings` and `sort.Slice`; the order among equal keys is left open by the latter.
  unfoldable pub sort_by : List A → List A
  unfolding insert_sorted
  sort_by [] = []
  sort_by (a ∷ xs) = insert_sorted a (sort_by xs)

-- The same entries in another order, as the range over a Go map may have it.
pub data Reorder {A : Type 0} : List A → List A → Type 0 where
  nothing : Reorder [] []
  keep : {xs ys : List A} (a : A) → Reorder xs ys → Reorder (a ∷ xs) (a ∷ ys)
  exchange : (a b : A) (xs : List A) → Reorder (a ∷ b ∷ xs) (b ∷ a ∷ xs)
  in_turn : {xs ys zs : List A} → Reorder xs ys → Reorder ys zs → Reorder xs zs
