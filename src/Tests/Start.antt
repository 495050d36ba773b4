-- ===== src/Tests/Start.antt =====
-- Preflight runs over three checks, and the liveness check.
use k8s_cex_dra_driver.Prelude.{
  true, ◌⊎◌, ◌≤◌, ℕ, ◌+◌, ◌<◌, Text, List, [], ◌∷◌, Bool, false, some, ◌≡◌, ◌↔◌, refl, ◌==◌,
  text_eq, text_beq,
}
use k8s_cex_dra_driver.Prelude.Strings.{bytes, trim_space}
use k8s_cex_dra_driver.Prelude.Int.{pos}
use k8s_cex_dra_driver.Health
use k8s_cex_dra_driver.Health.{watch, age}
use k8s_cex_dra_driver.Health.Edges.{Alternates, last_is_stale, watch-Alternates, check_iff}
use k8s_cex_dra_driver.Preflight.{
  Check, severity_warn, severity_error, returned, panicked, status_error, partition_by_gate, run,
  skip_mode,
}
use k8s_cex_dra_driver.Preflight.Gates.{actives, errors, run_aborts_iff, run-actives}

-- The world counts the bodies that ran.
abbrev check : Text → Text → Check ℕ
check name gate = record {
  name = name;
  severity = severity_error;
  body = λ n. (returned status_error, n + 1);
  gate = gate;
}

abbrev checks : List (Check ℕ)
checks =
    check (bytes "apmask") (bytes "VirtualMachineWorkload")
    ∷ check (bytes "ap_bus") []
    ∷ record {
      name = bytes "sysinfo";
      severity = severity_warn;
      body = λ n. (panicked, n + 1);
      gate = [];
    }
    ∷ []

abbrev no_vm : Text → Bool
no_vm gate = gate == bytes "ContainerWorkload"

run-actives_example : run no_vm [] checks 0 ≡ run no_vm [] (actives no_vm checks) 0
run-actives_example = run-actives no_vm [] checks 0

run_aborts_iff_example :
    ((run no_vm [] checks 0).0 ≡ some 2)
    ↔ ((skip_mode [] ≡ false) × (errors (actives no_vm checks) 0 ≡ 2) × (0 < 2))
run_aborts_iff_example = run_aborts_iff no_vm [] checks 0 2

aborted : run no_vm [] checks 0 ≡ (some 2, 2)
unfolding run skip_mode partition_by_gate bytes text_beq trim_space
aborted = refl

watch-Alternates_example :
    Alternates false (watch (pos 10) false (3 ∷ 12 ∷ 14 ∷ 2 ∷ [])).0
    × ((watch (pos 10) false (3 ∷ 12 ∷ 14 ∷ 2 ∷ [])).1
        ≡ last_is_stale (pos 10) false (3 ∷ 12 ∷ 14 ∷ 2 ∷ []))
watch-Alternates_example = watch-Alternates (pos 10) false (3 ∷ 12 ∷ 14 ∷ 2 ∷ [])

check_iff_example : (Health.check (some 5) (pos 10) (bytes "liveness") 12 ≡ some true) ↔ (
    ((bytes "liveness" ≡ []) ⊎ (bytes "liveness" ≡ bytes "liveness"))
    × (t : ℕ) × (pos 10 ≡ pos t)
    × (age (some 5) 12 ≤ t))
check_iff_example = check_iff (some 5) (pos 10) 12 (bytes "liveness")
