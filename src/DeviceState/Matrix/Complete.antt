-- ===== src/DeviceState/Matrix/Complete.antt =====
-- When `mdevMatrixEquals` calls an mdev complete.
use k8s_cex_dra_driver.Prelude.{
  List, [], ◌∷◌, Bool, true, ◌≡◌, ◌↔◌, refl, text_eq, nat_beq_iff, length, contains,
  contains_of_length, length-le_of_contains, IsNodup, arith,
}
use k8s_cex_dra_driver.Mdev.{Apqn, apqn_eq, apqn_beq_iff}
use k8s_cex_dra_driver.DeviceState.Allocation.{}
use k8s_cex_dra_driver.DeviceState.Build.{all_allocated, matrix_equals}

all_allocated-contains :
    (allocated queues : List Apqn) (q : Apqn)
    → all_allocated allocated queues ≡ true
    → contains queues q ≡ true
    → contains allocated q ≡ true
unfolding all_allocated contains
all_allocated-contains allocated [] q h m = ground arith
all_allocated-contains allocated (x ∷ queues) q h m =
    ground (arith, all_allocated-contains allocated queues q, apqn_beq_iff x q)

contains-all_allocated :
    (allocated queues : List Apqn)
    → ((q : Apqn) → contains queues q ≡ true → contains allocated q ≡ true)
    → all_allocated allocated queues ≡ true
unfolding all_allocated contains
contains-all_allocated allocated [] h = refl
contains-all_allocated allocated (x ∷ queues) h = ground (
  arith,
  h x,
  apqn_beq_iff x x,
  contains-all_allocated allocated queues (λ q m. h q (ground arith)),
)

-- An mdev's matrix without repeated rows passes for complete exactly if it holds the allocated queues
-- and no others.
pub matrix_equals_iff :
    (queues allocated : List Apqn)
    → IsNodup queues
    → IsNodup allocated
    → (matrix_equals queues allocated ≡ true)
      ↔ ((q : Apqn) → contains queues q ≡ contains allocated q)
unfolding matrix_equals
matrix_equals_iff queues allocated u v = (forth, back)
  where
    forth :
        matrix_equals queues allocated ≡ true
        → (q : Apqn) → contains queues q ≡ contains allocated q
    forth h q =
        let sub = all_allocated-contains allocated queues in
        both (sub q (ground arith)) (
          contains_of_length queues allocated u (λ p. sub p (ground arith))
            (ground (arith, nat_beq_iff (length queues) (length allocated))) q)
      where
        both : {a b : Bool} → (a ≡ true → b ≡ true) → (b ≡ true → a ≡ true) → a ≡ b
        both {a} {b} f g = ground arith

    back :
        ((q : Apqn) → contains queues q ≡ contains allocated q)
        → matrix_equals queues allocated ≡ true
    back h = ground (
      arith,
      length-le_of_contains queues allocated u (λ q m. ground (arith, h q)),
      length-le_of_contains allocated queues v (λ q m. ground (arith, h q)),
      nat_beq_iff (length queues) (length allocated),
      contains-all_allocated allocated queues (λ q m. ground (arith, h q)),
    )
