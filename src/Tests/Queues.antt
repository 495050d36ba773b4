-- ===== src/Tests/Queues.antt =====
-- A VM claim for two queues, beside a queue of another card.
use k8s_cex_dra_driver.Binding.{}
use k8s_cex_dra_driver.Prelude.{
  Text, List, [], true, false, Bool-cases, inl, inr, subst, ==→eq, ◌≡◌, refl, sym, ◌==◌, text_eq,
  text_beq, contains, some, arith,
}
use k8s_cex_dra_driver.Prelude.Strings.{bytes}
use k8s_cex_dra_driver.Mdev.{Apqn, apqn_eq}
use k8s_cex_dra_driver.Resource.{Allocation}
use k8s_cex_dra_driver.Binding.Kernel.{SameQueue}
use k8s_cex_dra_driver.DeviceState.Allocation.{}
use k8s_cex_dra_driver.DeviceState.Matrix.{allocates}
use k8s_cex_dra_driver.DeviceState.Rollback.{id_of}
use k8s_cex_dra_driver.DeviceState.Prepare.{prepare}
use k8s_cex_dra_driver.DeviceState.Prepare.Queues.{prepare_same}
use k8s_cex_dra_driver.Sample.Node.{node_os, node_kernel, bus}
use k8s_cex_dra_driver.Sample.Claim.{env, state, allocation, vm_claim, named, first, second}

abbrev given : Allocation
given = allocation (bytes "a") []

-- A queue of another card
abbrev bystander : Text
bystander = bytes "03.0042"

visits :
    (w : node_os.World) (queues : List Apqn) (q : Apqn)
    → contains (env.range_apqns w queues) q ≡ contains queues q
visits w queues q = refl

first_apart : (id_of first == bystander) ≡ false
unfolding bytes text_beq
first_apart = refl

second_apart : (id_of second == bystander) ≡ false
unfolding bytes text_beq
second_apart = refl

others :
    (a : Allocation) (q : Apqn)
    → vm_claim.allocation ≡ some a
    → allocates state.driver_name state.allocatable a.results q ≡ true
    → (id_of q == bystander) ≡ false
others a q e m =
    let same : given ≡ a = ground arith in
    let m' : allocates state.driver_name state.allocatable given.results q ≡ true =
      subst (λ (b : Allocation). allocates state.driver_name state.allocatable b.results q ≡ true)
        (sym same) m in
    elim (Bool-cases (first == q)) [
      | inl eq ↦ subst (λ (p : Apqn). (id_of p == bystander) ≡ false) (==→eq eq) first_apart
      | inr apart ↦
          subst (λ (p : Apqn). (id_of p == bystander) ≡ false)
            (==→eq {a = second} {b = q} (ground (arith, named q))) second_apart
    ]

prepare_same_example :
    SameQueue node_os node_kernel bystander bus (prepare node_os env state vm_claim bus).1
prepare_same_example =
    prepare_same node_os node_kernel env state vm_claim visits bystander bus others
