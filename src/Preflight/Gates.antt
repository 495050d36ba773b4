-- ===== src/Preflight/Gates.antt =====
-- Which checks run, and when the start is aborted.
use k8s_cex_dra_driver.Prelude.{
  ◌==◌, ◌||◌, text_eq, ℕ, ◌+◌, ◌<◌, Text, List, [], ◌∷◌, ◌++◌, Bool, false, some, ◌≡◌, ◌↔◌, refl,
  ◌∙◌, sym, ap, text_eq, Bool-cases, inl, inr, arith, if◌then◌else◌,
}
use mathlib.Core.List.{append_assoc, append-nil}
use k8s_cex_dra_driver.Prelude.Dict.{Dict}
use k8s_cex_dra_driver.Preflight.{
  Check, Counts, Status, status_ok, status_warn, status_error, count, no_counts, is_active,
  partition_from, partition_by_gate, run_one, run_checks, run, skip_mode,
}

module _ {World : Type 0} (enabled : Text → Bool) where
  -- The checks without a gate, or with an enabled one.
  unfoldable pub actives : List (Check World) → List (Check World)
  actives [] = []
  actives (c ∷ checks) =
      let rest = actives checks in if c.gate == [] || enabled c.gate then c ∷ rest else rest

  partition_from-active :
      (checks active : List (Check World)) (skipped : Dict Text (List Text))
      → (partition_from enabled checks active skipped).0 ≡ active ++ actives checks
  unfolding partition_from is_active actives
  partition_from-active [] active skipped = sym (append-nil active)
  partition_from-active (c ∷ checks) active skipped =
      elim (Bool-cases (c.gate == [] || enabled c.gate)) [
        | inl on ↦ rw on (
            partition_from-active checks (active ++ (c ∷ [])) skipped
            ∙ append_assoc active (c ∷ []) (actives checks))
        | inr off ↦ rw off (partition_from-active checks active _)
      ]

  actives_idem : (checks : List (Check World)) → actives (actives checks) ≡ actives checks
  unfolding actives
  actives_idem [] = refl
  actives_idem (c ∷ checks) = elim (Bool-cases (c.gate == [] || enabled c.gate)) [
    | inl on ↦ rw (on, on) (ap (λ r. c ∷ r) (actives_idem checks))
    | inr off ↦ rw off (actives_idem checks)
  ]

  -- A check of a disabled gate makes no demand on the node: the run ends as the run without it, in the
  -- same world.
  pub run-actives :
      (raw : Text) (checks : List (Check World)) (w : World)
      → run enabled raw checks w ≡ run enabled raw (actives checks) w
  unfolding run partition_by_gate
  run-actives raw checks w = ground (
    arith,
    partition_from-active checks [] [],
    partition_from-active (actives checks) [] [],
    actives_idem checks,
  )

-- How many checks of a run end in an error.
unfoldable pub is_error : Status → ℕ
is_error status_error = 1
is_error _ = 0

unfoldable pub errors : {World : Type 0} → List (Check World) → World → ℕ
unfolding is_error
errors [] w = 0
errors (c ∷ checks) w = let (status, w') = run_one c w in is_error status + errors checks w'

module _ {World : Type 0} where
  run_checks-errors :
      (checks : List (Check World)) (counts : Counts) (w : World)
      → (run_checks false checks counts w).0.n_err ≡ counts.n_err + errors checks w
  unfolding run_checks errors
  run_checks-errors [] counts w = omega arith
  run_checks-errors (c ∷ checks) counts w = step (run_one c w).0 (run_checks-errors checks) refl
    where
      step :
          (status : Status)
          → ((counts : Counts) (w : World)
              → (run_checks false checks counts w).0.n_err ≡ counts.n_err + errors checks w)
          → (run_one c w).0 ≡ status
          → (run_checks false (c ∷ checks) counts w).0.n_err ≡ counts.n_err + errors (c ∷ checks) w
      step status_ok ih e = ground (arith, ih (count status_ok counts) (run_one c w).1)
      step status_warn ih e = ground (arith, ih (count status_warn counts) (run_one c w).1)
      step status_error ih e = ground (arith, ih (count status_error counts) (run_one c w).1)

  -- The start is aborted with a number of errors exactly if skip mode is off and this number, which is
  -- not zero, is how many checks without a gate or with an enabled one end in an error.
  pub run_aborts_iff :
      (enabled : Text → Bool) (raw : Text) (checks : List (Check World)) (w : World) (n : ℕ)
      → ((run enabled raw checks w).0 ≡ some n)
        ↔ ((skip_mode raw ≡ false) × (errors (actives enabled checks) w ≡ n) × (0 < n))
  unfolding run partition_by_gate
  run_aborts_iff enabled raw checks w n = ground (
    arith,
    partition_from-active enabled checks [] [],
    run_checks-errors (actives enabled checks) no_counts w,
  )
