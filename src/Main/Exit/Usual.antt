-- ===== src/Main/Exit/Usual.antt =====
-- What runs behind the checks ends with their exit code only through the panic of a ticker.
use k8s_cex_dra_driver.Prelude.{
  ℕ, ◌≤◌, ◌<◌, ◌*◌, ◌^◌, Text, [], true, false, Option, none, some, ◌≡◌, ◌≢◌, ◌⊎◌, inl, inr, refl,
  ◌==◌, ltb, text_eq, Bool-cases, arith,
}
use k8s_cex_dra_driver.Prelude.Int.{ℤ, pos, negsuc, is_positive, multiply, wrapped, quotient}
use k8s_cex_dra_driver.Health.{watch_period, stale_after}
use k8s_cex_dra_driver.Prelude.Exec.{Result, ok, err, Exec, wrap, ◌>>=◌}
use k8s_cex_dra_driver.Os.{Os}
use k8s_cex_dra_driver.Health.Server.{Server}
use k8s_cex_dra_driver.Driver.{Driver}
use k8s_cex_dra_driver.Driver.Start.{NewError}
use k8s_cex_dra_driver.Main.{
  Flags, Libraries, ActionError, driver_failed, create_client, no_hostname, plugin_directory,
  health_service, serve, run_driver, run_plugin, node_name_of, new_kube_client, new_driver,
  make_directory, start_health, launch, exit_code, deferred_stop, Action, attempt, new_ticker,
  watch_ticker, tickers, wait, finish,
}

-- The interval is not positive, or ten times it is too large for a `Duration`.
abbrev pub HasNoTicker : ℤ → Type 0
HasNoTicker (pos n) = (n ≡ 0) ⊎ (2 ^ 63 ≤ 10 * n)
HasNoTicker (negsuc n) = Unit

scan-HasNoTicker : (i : ℤ) → is_positive i ≡ false → HasNoTicker i
unfolding is_positive
scan-HasNoTicker (pos n) h = ground arith
scan-HasNoTicker (negsuc n) h = tt

multiply_within : (n : ℕ) → 10 * n < 2 ^ 63 → multiply 10 (pos n) ≡ pos (10 * n)
unfolding multiply wrapped
multiply_within n h = ground arith

period_positive : (n : ℕ) → 1 ≤ n → is_positive (quotient (pos (10 * n)) 4) ≡ true
unfolding is_positive quotient
period_positive n h = ground arith

watch_period-HasNoTicker :
    (i : ℤ) → is_positive (watch_period (stale_after i)) ≡ false → HasNoTicker i
unfolding watch_period stale_after
watch_period-HasNoTicker (pos n) h = elim (Bool-cases (ltb 0 n)) [
  | inr zero_ns ↦ inl (ground arith)
  | inl some_ns ↦ elim (Bool-cases (ltb (10 * n) (2 ^ 63))) [
    | inr large ↦ inr (ground arith)
    | inl small ↦
        absurd (ground (arith, multiply_within n (ground arith), period_positive n (ground arith)))
  ]
]
watch_period-HasNoTicker (negsuc n) h = tt

module _ {os : Os} (lib : Libraries os) where
  -- The end has not the exit code of failed checks, but for an interval without a ticker.
  abbrev pub IsUsual : {A : Type 0} → ℤ → Result (ActionError lib) A → Type 0
  IsUsual i (ok a) = Unit
  IsUsual i (err e) = exit_code lib (err e) ≡ 2 → HasNoTicker i

  bind-IsUsual :
      {A B : Type 0} (i : ℤ) (m : Action lib A) (k : A → Action lib B) (w : os.World)
      → IsUsual i (m w).0
      → ((a : A) (w' : os.World) → IsUsual i (k a w').0)
      → IsUsual i ((m >>= k) w).0
  bind-IsUsual {A} i m k w h g = go (m w).0 refl h
    where
      go : (r : Result (ActionError lib) A) → (m w).0 ≡ r → IsUsual i r → IsUsual i ((m >>= k) w).0
      go (ok a) e n = rw e (g a _)
      go (err x) e n = rw e n

  wrap-IsUsual :
      {E A : Type 0} (i : ℤ) (f : E → ActionError lib) (m : Exec os.World E A) (w : os.World)
      → ((e : E) → exit_code lib (err (f e)) ≢ 2)
      → IsUsual i (wrap f m w).0
  wrap-IsUsual {E} {A} i f m w h = go (m w).0 refl
    where
      go : (r : Result E A) → (m w).0 ≡ r → IsUsual i (wrap f m w).0
      go (ok a) e = rw e tt
      go (err x) e = rw e (λ two. absurd (h x two))

  new_ticker-IsUsual :
      (i period : ℤ) (w : os.World)
      → (is_positive period ≡ false → HasNoTicker i)
      → IsUsual i (new_ticker lib period w).0
  unfolding new_ticker
  new_ticker-IsUsual i period w h = elim (Bool-cases (is_positive period)) [
    | inl good ↦ rw good tt
    | inr bad ↦ elim (Bool-cases (lib.scheduled w)) [
      | inl runs ↦ rw (bad, runs) (λ two. h bad)
      | inr waits ↦ rw (bad, waits) tt
    ]
  ]

  watch_ticker-IsUsual :
      (flags : Flags) (w : os.World) → IsUsual flags.scan_interval (watch_ticker lib flags w).0
  unfolding watch_ticker
  watch_ticker-IsUsual flags w =
      new_ticker-IsUsual flags.scan_interval (watch_period (stale_after flags.scan_interval)) w
        (watch_period-HasNoTicker flags.scan_interval)

  tickers-IsUsual :
      (flags : Flags) (w : os.World) → IsUsual flags.scan_interval (tickers lib flags w).0
  unfolding tickers
  tickers-IsUsual flags w =
      bind-IsUsual flags.scan_interval (watch_ticker lib flags)
        (λ _. new_ticker lib flags.scan_interval) w (watch_ticker-IsUsual flags w)
        (λ _ w'.
          new_ticker-IsUsual flags.scan_interval flags.scan_interval w'
            (scan-HasNoTicker flags.scan_interval))

  finish-IsUsual :
      (i : ℤ) (cause : Option lib.Cause) (w : os.World) → IsUsual i (finish lib cause w).0
  unfolding finish exit_code
  finish-IsUsual i none w = tt
  finish-IsUsual i (some c) w = λ two. absurd (ground arith)

  serve-IsUsual :
      (flags : Flags) (d : Driver) (w : os.World)
      → IsUsual flags.scan_interval (serve lib flags d w).0
  unfolding serve wait
  serve-IsUsual flags d w =
      let i = flags.scan_interval in
      bind-IsUsual i (tickers lib flags)
        (λ _. wait lib d >>= λ cause. tickers lib flags >>= λ _. finish lib cause) w
        (tickers-IsUsual flags w)
        (λ _ w'.
          bind-IsUsual i (wait lib d) (λ cause. tickers lib flags >>= λ _. finish lib cause) w' tt
            (λ cause w''.
              bind-IsUsual i (tickers lib flags) (λ _. finish lib cause) w''
                (tickers-IsUsual flags w'') (λ _ w3. finish-IsUsual i cause w3)))

  run_driver-IsUsual :
      (flags : Flags) (client : lib.Client) (heartbeat : Option ℕ) (w : os.World)
      → IsUsual flags.scan_interval (run_driver lib flags client heartbeat w).0
  unfolding run_driver exit_code
  run_driver-IsUsual flags client heartbeat w =
      bind-IsUsual i (attempt lib (new_driver lib flags client heartbeat))
        (λ built. watch_ticker lib flags >>= λ _. served built) w tt
        (λ built w'.
          bind-IsUsual i (watch_ticker lib flags) (λ _. served built) w'
            (watch_ticker-IsUsual flags w')
            (λ _ w''.
              bind-IsUsual i (wrap driver_failed (λ v. (built, v))) (λ d. serve lib flags d) w''
                (wrap-IsUsual i driver_failed (λ v. (built, v)) w'' (λ e h. ground arith))
                (λ d w3. serve-IsUsual flags d w3)))
    where
      i : ℤ
      i = flags.scan_interval

      served : Result (NewError lib.StartError lib.PublishError) Driver → Action lib (Unit {0})
      served built = wrap driver_failed (λ v. (built, v)) >>= λ d. serve lib flags d

  deferred_stop-IsUsual :
      (i : ℤ) (server : Option Server) (m : Action lib (Unit {0})) (w : os.World)
      → IsUsual i (m w).0
      → IsUsual i (deferred_stop lib server m w).0
  deferred_stop-IsUsual i none m w h = h
  deferred_stop-IsUsual i (some s) m w h = h

  -- What runs behind the start of the service of the probes
  abbrev driven : Flags → lib.Client → Option ℕ → Action lib (Unit {0})
  driven flags client heartbeat =
      watch_ticker lib flags >>= λ _. run_driver lib flags client heartbeat

  driven-IsUsual :
      (flags : Flags) (client : lib.Client) (heartbeat : Option ℕ) (w : os.World)
      → IsUsual flags.scan_interval (driven flags client heartbeat w).0
  driven-IsUsual flags client heartbeat w =
      bind-IsUsual flags.scan_interval (watch_ticker lib flags)
        (λ _. run_driver lib flags client heartbeat) w (watch_ticker-IsUsual flags w)
        (λ _ w'. run_driver-IsUsual flags client heartbeat w')

  health-IsUsual :
      (flags : Flags) (client : lib.Client) (heartbeat : Option ℕ) (w : os.World)
      → IsUsual flags.scan_interval
          ((wrap health_service (start_health lib flags heartbeat) >>= λ server.
              deferred_stop lib server (driven flags client heartbeat))
            w).0
  unfolding exit_code
  health-IsUsual flags client heartbeat w =
      let m = start_health lib flags heartbeat in
      bind-IsUsual flags.scan_interval (wrap health_service m)
        (λ server. deferred_stop lib server (driven flags client heartbeat)) w
        (wrap-IsUsual flags.scan_interval health_service m w (λ e h. ground arith))
        (λ server w'.
          deferred_stop-IsUsual flags.scan_interval server (driven flags client heartbeat) w'
            (driven-IsUsual flags client heartbeat w'))

  run_plugin-IsUsual :
      (flags : Flags) (client : lib.Client) (w : os.World)
      → IsUsual flags.scan_interval (run_plugin lib flags client w).0
  unfolding run_plugin exit_code
  run_plugin-IsUsual flags client w =
      let m = make_directory lib flags in
      bind-IsUsual flags.scan_interval (wrap plugin_directory m)
        (λ _ w'.
          (wrap health_service (start_health lib flags (some (lib.clock w'))) >>= λ server.
          deferred_stop lib server (driven flags client (some (lib.clock w'))))
            w')
        w (wrap-IsUsual flags.scan_interval plugin_directory m w (λ e h. ground arith))
        (λ _ w'. health-IsUsual flags client (some (lib.clock w')) w')

  pub launch-IsUsual :
      (flags : Flags) (w : os.World) → IsUsual flags.scan_interval (launch lib flags w).0
  unfolding launch node_name_of exit_code
  launch-IsUsual flags w =
      bind-IsUsual i (node_name_of lib flags) (λ name. wrap create_client client >>= plugin name) w
        (name_known (Bool-cases (flags.node_name == [])))
        (λ name w'.
          bind-IsUsual i (wrap create_client client) (plugin name) w'
            (wrap-IsUsual i create_client client w' (λ e h. ground arith))
            (λ c w''. run_plugin-IsUsual (record flags { node_name = name }) c w''))
    where
      i : ℤ
      i = flags.scan_interval

      client : Exec os.World lib.ClientError lib.Client
      client = new_kube_client lib flags.kubeconfig

      plugin : Text → lib.Client → Action lib (Unit {0})
      plugin name c = run_plugin lib (record flags { node_name = name }) c

      name_known :
          ((flags.node_name == []) ≡ true) ⊎ ((flags.node_name == []) ≡ false)
          → IsUsual i (node_name_of lib flags w).0
      name_known (inl empty) =
          rw empty (wrap-IsUsual i no_hostname lib.hostname w (λ e h. ground arith))
      name_known (inr given) = rw given tt
