-- ===== src/DeviceState/Matrix.antt =====
-- What the matrix constraint buys: the cross product of the assigned sets is the allocation.
pub mod Complete
use k8s_cex_dra_driver.Prelude.{
  ℕ, ◌*◌, ◌≤◌, Text, List, [], ◌∷◌, ◌++◌, Bool, true, false, not, ◌&&◌, ◌||◌, Option, none, some,
  ◌≡◌, ◌↔◌, refl, ◌==◌, text_eq, text_beq, text_beq_iff, nat_beq, nat_beq_iff, length,
  length-append, insert, contains, contains-append, contains-insert, contains_of_length,
  length-le_of_contains, insert-IsNodup, IsNodup, Bool-cases, inl, inr, arith, if◌then◌else◌,
}
use k8s_cex_dra_driver.Prelude.Exec.{Result, ok, err}
use k8s_cex_dra_driver.Prelude.Dict.{Dict, get}
use k8s_cex_dra_driver.Mdev.{Apqn, apqn_eq, apqn_beq, apqn_beq_iff}
use k8s_cex_dra_driver.Resource.{Device, AllocationResult}
use k8s_cex_dra_driver.DeviceState.Allocation.{
  Collected, nothing_collected, PrepareError, add_queue, queue_of_device, collect_result,
  collect_results, check_matrix, collect_allocated_apqns,
}
use k8s_cex_dra_driver.DeviceState.Build.{all_allocated, matrix_equals}

unfoldable pub row : Text → List Text → List Apqn
row a [] = []
row a (d ∷ domains) = record { apid = a; apqi = d } ∷ row a domains

unfoldable pub cross : List Text → List Text → List Apqn
unfolding row
cross [] domains = []
cross (a ∷ adapters) domains = row a domains ++ cross adapters domains

length-row : (a : Text) (domains : List Text) → length (row a domains) ≡ length domains
unfolding row
length-row a [] = refl
length-row a (d ∷ domains) = omega (arith, length-row a domains)

length-cross :
    (adapters domains : List Text)
    → length (cross adapters domains) ≡ length adapters * length domains
unfolding cross
length-cross [] domains = omega arith
length-cross (a ∷ adapters) domains = grind (
  arith,
  length-append (row a domains) (cross adapters domains),
  length-row a domains,
  length-cross adapters domains,
)

contains-row :
    (a : Text) (domains : List Text) (q : Apqn)
    → contains (row a domains) q ≡ (a == q.apid && contains domains q.apqi)
unfolding row contains
contains-row a [] q = ground arith
contains-row a (d ∷ domains) q = ground (arith, contains-row a domains q)

pub contains-cross :
    (adapters domains : List Text) (q : Apqn)
    → contains (cross adapters domains) q ≡ (contains adapters q.apid && contains domains q.apqi)
unfolding cross contains
contains-cross [] domains q = refl
contains-cross (a ∷ adapters) domains q = ground (
  arith,
  contains-append (row a domains) (cross adapters domains) q,
  contains-row a domains q,
  contains-cross adapters domains q,
)

-- The sets have no repetition, and the queues lie in the cross product.
record IsCollected (c : Collected) : Type 0 where
  nodup : IsNodup c.allocated
  within :
      (q : Apqn)
      → contains c.allocated q ≡ true
      → (contains c.adapters q.apid ≡ true) × (contains c.domains q.apqi ≡ true)

add_queue-IsCollected :
    (apid apqi : Text) (c : Collected) → IsCollected c → IsCollected (add_queue apid apqi c)
add_queue-IsCollected apid apqi c h = record {
  nodup = insert-IsNodup (record { apid = apid; apqi = apqi }) c.allocated h.nodup;
  within = λ q m. ground (
    arith,
    contains-insert (record { apid = apid; apqi = apqi }) c.allocated q,
    contains-insert apid c.adapters q.apid,
    contains-insert apqi c.domains q.apqi,
    h.within q,
  );
}

nothing-IsCollected : IsCollected nothing_collected
unfolding contains
nothing-IsCollected = record { nodup = tt; within = λ q m. ground arith }

-- The queue that a device of the last scan stands for.
unfoldable pub queue_named : Dict Text Device → Text → Option (Text × Text)
queue_named allocatable name = elim (get name allocatable) [
  | none ↦ none
  | some d ↦ queue_of_device d
]

abbrev is_queue : Option (Text × Text) → Apqn → Bool
is_queue none q = false
is_queue (some (apid, apqi)) q = apqn_beq (record { apid = apid; apqi = apqi }) q

-- A result that is collected stands for a queue, and adds it.
collect_result-eq_ok :
    (allocatable : Dict Text Device) (name : Text) (c c' : Collected)
    → collect_result allocatable name c ≡ ok c'
    → (apid apqi : Text) × (queue_named allocatable name ≡ some (apid, apqi))
      × (c' ≡ add_queue apid apqi c)
unfolding collect_result queue_named
collect_result-eq_ok allocatable name c c' e = device (get name allocatable) refl
  where
    queue :
        (d : Device) (o : Option (Text × Text))
        → get name allocatable ≡ some d
        → queue_of_device d ≡ o
        → (apid apqi : Text) × (queue_named allocatable name ≡ some (apid, apqi))
          × (c' ≡ add_queue apid apqi c)
    queue d none f g = ground arith
    queue d (some (apid, apqi)) f g = (apid, apqi, ground arith, ground arith)

    device :
        (o : Option Device)
        → get name allocatable ≡ o
        → (apid apqi : Text) × (queue_named allocatable name ≡ some (apid, apqi))
          × (c' ≡ add_queue apid apqi c)
    device none f = ground arith
    device (some d) f = queue d (queue_of_device d) f refl

module _ (driver_name : Text) (allocatable : Dict Text Device) where
  -- Some result of this driver names a device that stands for the queue.
  unfoldable pub allocates : List AllocationResult → Apqn → Bool
  allocates [] q = false
  allocates (r ∷ results) q =
      (r.driver == driver_name && is_queue (queue_named allocatable r.device) q)
      || allocates results q

  record Step (c c' : Collected) (added : Apqn → Bool) : Type 0 where
    kept : IsCollected c'
    holds : (q : Apqn) → contains c'.allocated q ≡ (contains c.allocated q || added q)

  collect_result-Step :
      (name : Text) (c c' : Collected)
      → collect_result allocatable name c ≡ ok c'
      → IsCollected c
      → Step c c' (is_queue (queue_named allocatable name))
  collect_result-Step name c c' e h =
      let (apid, apqi, named, eq) = collect_result-eq_ok allocatable name c c' e in
      rw eq (record {
        kept = add_queue-IsCollected apid apqi c h;
        holds = λ q. rw named (contains-insert (record { apid = apid; apqi = apqi }) c.allocated q);
      })

  collect_results-Step :
      (results : List AllocationResult) (c c' : Collected)
      → collect_results driver_name allocatable results c ≡ ok c'
      → IsCollected c
      → Step c c' (allocates results)
  unfolding collect_results allocates
  collect_results-Step [] c c' e h =
      let same : c ≡ c' = cc in rw (← same) (record { kept = h; holds = λ q. ground arith })
  collect_results-Step (r ∷ results) c c' e h = elim (Bool-cases (r.driver == driver_name)) [
    | inr other ↦
        let rest = collect_results-Step results c c' (ground arith) h in
        record { kept = rest.kept; holds = λ q. ground (arith, rest.holds q) }
    | inl ours ↦
        middle (collect_results-Step results) ours (collect_result allocatable r.device c) refl
  ]
    where
      middle :
          ((mid last : Collected)
            → collect_results driver_name allocatable results mid ≡ ok last
            → IsCollected mid
            → Step mid last (allocates results))
          → (r.driver == driver_name) ≡ true
          → (m : Result PrepareError Collected) → collect_result allocatable r.device c ≡ m
          → Step c c' (allocates (r ∷ results))
      middle ih ours (err x) f = ground arith
      middle ih ours (ok mid) f =
          let first = collect_result-Step r.device c mid f h in
          let rest = ih mid c' (ground arith) first.kept in
          record { kept = rest.kept; holds = λ q. ground (arith, first.holds q, rest.holds q) }

  check_matrix-eq_ok :
      (results : List AllocationResult) (c : Collected)
      → collect_allocated_apqns driver_name allocatable results ≡ ok c
      → (collect_results driver_name allocatable results nothing_collected ≡ ok c)
        × (length c.adapters * length c.domains ≡ length c.allocated)
  unfolding collect_allocated_apqns
  check_matrix-eq_ok results c e =
      go (collect_results driver_name allocatable results nothing_collected) refl
    where
      go :
          (m : Result PrepareError Collected)
          → collect_results driver_name allocatable results nothing_collected ≡ m
          → (collect_results driver_name allocatable results nothing_collected ≡ ok c)
            × (length c.adapters * length c.domains ≡ length c.allocated)
      go (err x) f = ground arith
      go (ok c') f =
          ground (arith, nat_beq_iff (length c'.adapters * length c'.domains) (length c'.allocated))

  -- When the collection succeeds, the queues that the mdev's adapters and domains span, each adapter
  -- with each domain, are the collected queues, and these are exactly the ones that the claim's results
  -- for this driver name.
  pub matrix_spans_allocation :
      (results : List AllocationResult) (c : Collected)
      → collect_allocated_apqns driver_name allocatable results ≡ ok c
      → (q : Apqn)
      → ((contains c.adapters q.apid && contains c.domains q.apqi) ≡ contains c.allocated q)
        × (contains c.allocated q ≡ allocates results q)
  unfolding contains
  matrix_spans_allocation results c e q =
      let (collected, size) = check_matrix-eq_ok results c e in
      let step = collect_results-Step results nothing_collected c collected nothing-IsCollected in
      let spanned : (contains (cross c.adapters c.domains) q ≡ true)
          → (contains c.allocated q ≡ true) =
        contains_of_length c.allocated (cross c.adapters c.domains) step.kept.nodup
          (λ p m. ground (arith, contains-cross c.adapters c.domains p, step.kept.within p m))
          (omega (arith, length-cross c.adapters c.domains)) q in
      (
        within_both spanned (step.kept.within q) (contains-cross c.adapters c.domains q),
        step.holds q,
      )
    where
      within_both :
          {a b x m : Bool}
          → (x ≡ true → m ≡ true)
          → (m ≡ true → (a ≡ true) × (b ≡ true))
          → x ≡ (a && b)
          → (a && b) ≡ m
      within_both {a} {b} {x} {m} f g e = ground arith

  pub collected-IsNodup :
      (results : List AllocationResult) (c : Collected)
      → collect_allocated_apqns driver_name allocatable results ≡ ok c
      → IsNodup c.allocated
  collected-IsNodup results c e =
      let (collected, size) = check_matrix-eq_ok results c e in
      (collect_results-Step results nothing_collected c collected nothing-IsCollected).kept.nodup
