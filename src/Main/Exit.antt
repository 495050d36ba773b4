-- ===== src/Main/Exit.antt =====
-- How the plugin ends, by what its flags ask for and by what the checks find.
pub mod Usual
use k8s_cex_dra_driver.Prelude.{
  ℕ, ◌≤◌, ◌<◌, ◌*◌, ◌^◌, Text, [], Bool, true, false, ◌&&◌, Option, none, some, ◌≡◌, ◌≢◌, ◌⊎◌, inl,
  inr, refl, ◌==◌, ltb, nat_beq, text_eq, Bool-cases, arith,
}
use k8s_cex_dra_driver.Prelude.Int.{ℤ, pos, negsuc, is_positive, multiply, wrapped, quotient}
use k8s_cex_dra_driver.Health.{watch_period, stale_after}
use k8s_cex_dra_driver.Prelude.Exec.{Result, ok, err, Exec, is_ok, wrap, ◌>>=◌}
use k8s_cex_dra_driver.Os.{Os}
use k8s_cex_dra_driver.Health.Server.{Server}
use k8s_cex_dra_driver.Features
use k8s_cex_dra_driver.Preflight.{run}
use k8s_cex_dra_driver.Preflight.Checks.{registry}
use k8s_cex_dra_driver.Driver.{Driver}
use k8s_cex_dra_driver.Driver.Start.{NewError}
use k8s_cex_dra_driver.Main.{
  Flags, Libraries, ActionError, preflight_failed, driver_failed, create_client, no_hostname,
  plugin_directory, health_service, validate_workload_gates, validate_machine_id, preflight, serve,
  run_driver, run_plugin, node_name_of, new_kube_client, new_driver, make_directory, start_health,
  launch, act, action, exit_code, deferred_stop, Action, attempt, new_ticker, watch_ticker, tickers,
  wait, finish,
}
use k8s_cex_dra_driver.Main.Exit.Usual.{HasNoTicker, IsUsual, launch-IsUsual}

module _ {os : Os} (lib : Libraries os) where
  -- The flags ask for gates that the library knows, a workload, and a machine identifier that fits.
  abbrev pub accepted : Flags → lib.gates.Gates → Bool
  accepted flags g =
      let (r, warnings, g') = Features.set lib.gates flags.feature_gates g in
      is_ok r
      && (is_ok (validate_workload_gates lib g')
          && is_ok (validate_machine_id lib flags.machine_id))

  abbrev pub checked : Flags → lib.gates.Gates → os.World → Option ℕ × os.World
  checked flags g w =
      let (r, warnings, g') = Features.set lib.gates flags.feature_gates g in
      run (lib.gates.enabled g') lib.skip_preflight (registry os) w

  -- The three ends: refused flags leave the node as it was, failed checks end with their own code, and
  -- nothing behind the checks ends with it but the panic of a ticker.
  abbrev pub IsEnd : Flags → lib.gates.Gates → os.World → Type 0
  IsEnd flags g w =
      let (r, w') = action lib flags g w in
      ((accepted flags g ≡ false) × (exit_code lib r ≡ 1) × (w' ≡ w))
      ⊎ ((accepted flags g ≡ true)
          × (n : ℕ) × ((checked flags g w).0 ≡ some n)
          × (exit_code lib r ≡ 2)
          × (w' ≡ (checked flags g w).1))
      ⊎ ((accepted flags g ≡ true)
          × ((checked flags g w).0 ≡ none)
          × ((exit_code lib r ≢ 2) ⊎ HasNoTicker flags.scan_interval))

  abbrev valid : Flags → lib.gates.Gates → Bool
  valid flags g =
      is_ok (validate_workload_gates lib g) && is_ok (validate_machine_id lib flags.machine_id)

  act_refused :
      (flags : Flags) (g : lib.gates.Gates) (w : os.World)
      → valid flags g ≡ false
      → (exit_code lib (act lib flags g w).0 ≡ 1) × ((act lib flags g w).1 ≡ w)
  unfolding act validate_workload_gates validate_machine_id exit_code
  act_refused flags g w h = (ground arith, ground arith)

  act_failed :
      (flags : Flags) (g : lib.gates.Gates) (w : os.World) (n : ℕ)
      → let (r, w') = run (lib.gates.enabled g) lib.skip_preflight (registry os) w in
        valid flags g ≡ true → r ≡ some n → act lib flags g w ≡ (err (preflight_failed n), w')
  unfolding act preflight validate_workload_gates validate_machine_id
  act_failed flags g w n h k = ground arith

  act_passed :
      (flags : Flags) (g : lib.gates.Gates) (w : os.World)
      → let (r, w') = run (lib.gates.enabled g) lib.skip_preflight (registry os) w in
        valid flags g ≡ true → r ≡ none → act lib flags g w ≡ launch lib flags w'
  unfolding act preflight validate_workload_gates validate_machine_id
  act_passed flags g w h k = ground arith

  IsUsual-exit_code :
      (i : ℤ) (r : Result (ActionError lib) (Unit {0}))
      → IsUsual lib i r
      → (exit_code lib r ≢ 2) ⊎ HasNoTicker i
  unfolding exit_code
  IsUsual-exit_code i (ok _) h = inl (λ two. ground arith)
  IsUsual-exit_code i (err x) h = elim (Bool-cases (nat_beq (exit_code lib (err x)) 2)) [
    | inl two ↦ inr (h (ground arith))
    | inr other ↦ inl (λ two. ground arith)
  ]

  -- Flags that are refused end the process with exit code 1 and leave the node as it was. With accepted
  -- flags, checks that fail end it with exit code 2, and nothing runs behind them; checks that pass do
  -- so only if a ticker panics, for a scan interval that is not positive or whose tenfold does not fit
  -- a `Duration`.
  pub action-exit_code : (flags : Flags) (g : lib.gates.Gates) (w : os.World) → IsEnd flags g w
  unfolding action exit_code
  action-exit_code flags g w = gates (Features.set lib.gates flags.feature_gates g).0 refl
    where
      g' : lib.gates.Gates
      g' = (Features.set lib.gates flags.feature_gates g).2

      gates :
          (r : Result lib.gates.GateError (Unit {0}))
          → (Features.set lib.gates flags.feature_gates g).0 ≡ r
          → IsEnd flags g w
      gates (err x) e = inl (ground arith, ground arith, ground arith)
      gates (ok _) e = elim (Bool-cases (valid flags g')) [
        | inr refused ↦
            let (one, same) = act_refused flags g' w refused in
            inl (ground arith, ground arith, ground arith)
        | inl good ↦ found good (checked flags g w).0 refl
      ]
        where
          passed :
              valid flags g' ≡ true
              → (checked flags g w).0 ≡ none
              → (exit_code lib (action lib flags g w).0 ≢ 2) ⊎ HasNoTicker flags.scan_interval
          passed good f =
              let same : (action lib flags g w).0 ≡ (launch lib flags (checked flags g w).1).0 =
                ground (arith, act_passed flags g' w good f) in
              rw same (
                IsUsual-exit_code flags.scan_interval _
                  (launch-IsUsual lib flags (checked flags g w).1))

          found :
              valid flags g' ≡ true → (o : Option ℕ) → (checked flags g w).0 ≡ o → IsEnd flags g w
          found good (some n) f = inr (
              inl (
                ground arith,
                n,
                f,
                ground (arith, act_failed flags g' w n good f),
                ground (arith, act_failed flags g' w n good f),
              ))
          found good none f = inr (inr (ground arith, f, passed good f))
