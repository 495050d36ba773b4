-- ===== src/Preflight.antt =====
-- internal/preflight/preflight.go: the checks before the start. The bodies of the checks are functions
-- on the world, the feature gates a function `enabled`, and log lines are left out.
pub mod Gates
pub mod Checks
use k8s_cex_dra_driver.Prelude.{
  ℕ, ◌+◌, ◌-◌, Text, List, [], ◌∷◌, ◌++◌, Bool, true, false, not, ◌&&◌, ◌||◌, Option, none, some,
  ◌==◌, text_eq, leb, ltb, map, if◌then◌else◌,
}
use k8s_cex_dra_driver.Prelude.Dict.{Dict, get, put, or_default}
use k8s_cex_dra_driver.Prelude.Strings.{bytes, trim_space, to_lower}

pub data Severity : Type 0 where
  severity_warn severity_error : Severity

pub data Status : Type 0 where
  status_ok status_warn status_error : Status

-- A body returns its verdict, or panics.
pub data Outcome : Type 0 where
  returned : Status → Outcome
  panicked : Outcome

pub record Check (World : Type 0) : Type 0 where
  pub name : Text
  pub severity : Severity
  pub body : World → Outcome × World
  -- "" for a check that always runs
  pub gate : Text

unfoldable pub map_severity : Status → Severity → Status
map_severity status_error severity_warn = status_warn
map_severity reported _ = reported

-- Whether the value of CEX_DRA_SKIP_PREFLIGHT asks for skip mode
unfoldable pub skip_mode : Text → Bool
unfolding to_lower
skip_mode raw =
    let value = to_lower (trim_space raw) in
    value == bytes "1" || (value == bytes "true" || value == bytes "yes")

-- How many checks ended well, with a warning, and with an error
pub record Counts : Type 0 where
  pub n_ok : ℕ
  pub n_warn : ℕ
  pub n_err : ℕ

unfoldable pub count : Status → Counts → Counts
count status_ok c = record c { n_ok = c.n_ok + 1 }
count status_warn c = record c { n_warn = c.n_warn + 1 }
count status_error c = record c { n_err = c.n_err + 1 }

abbrev pub no_counts : Counts
no_counts = record { n_ok = 0; n_warn = 0; n_err = 0 }

abbrev pub status_of : Severity → Outcome → Status
status_of severity (returned status) = map_severity status severity
status_of severity panicked = status_error

-- Skip mode turns errors into warnings.
abbrev pub downgrade : Bool → Status → Status
downgrade true status_error = status_warn
downgrade _ status = status

module _ {World : Type 0} where
  module _ (enabled : Text → Bool) where
    -- `c.gate == "" || features.Gate.Enabled(c.gate)`
    unfoldable pub is_active : Check World → Bool
    is_active c = c.gate == [] || enabled c.gate

    -- The checks that run, and for each disabled gate the names of its checks.
    unfoldable pub partition_from :
        List (Check World)
        → List (Check World)
        → Dict Text (List Text)
        → List (Check World) × Dict Text (List Text)
    unfolding is_active
    partition_from [] active skipped = (active, skipped)
    partition_from (c ∷ checks) active skipped =
        let run = partition_from checks (active ++ (c ∷ [])) skipped in
        let skip =
          partition_from checks active
            (put c.gate (or_default [] (get c.gate skipped) ++ (c.name ∷ [])) skipped) in
        if is_active c then run else skip

    unfoldable pub partition_by_gate :
        List (Check World) → List (Check World) × Dict Text (List Text)
    unfolding partition_from
    partition_by_gate checks = partition_from checks [] []

  -- A panic is an error at any severity.
  unfoldable pub run_one : Check World → World → Status × World
  unfolding map_severity
  run_one c w = let (outcome, w') = c.body w in (status_of c.severity outcome, w')

  unfoldable pub run_checks : Bool → List (Check World) → Counts → World → Counts × World
  unfolding run_one count
  run_checks skip [] counts w = (counts, w)
  run_checks skip (c ∷ checks) counts w =
      let (status, w') = run_one c w in
      run_checks skip checks (count (downgrade skip status) counts) w'

  -- `some n` is a FatalError with `n` errors.
  unfoldable pub run : (Text → Bool) → Text → List (Check World) → World → Option ℕ × World
  unfolding skip_mode partition_by_gate run_checks
  run enabled raw checks w =
      let (active, skipped) = partition_by_gate enabled checks in
      let (counts, w') = run_checks (skip_mode raw) active no_counts w in
      (if not (skip_mode raw) && ltb 0 counts.n_err then some counts.n_err else none, w')
