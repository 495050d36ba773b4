-- ===== src/Driver/Stream.antt =====
-- internal/driver/driver.go, `WatchHealthStatus`: the stream of health reports, beside the driver's
-- own steps. The channel of the reports, the ticker and the end of the context are what a `select`
-- of it may choose. The ticker keeps one tick for the loop and drops those that pass meanwhile.
use k8s_cex_dra_driver.Prelude.{
  Text, List, [], ◌∷◌, Bool, true, false, ℕ, suc, ◌+◌, ◌≤◌, ◌≡◌, length, arith,
}
use k8s_cex_dra_driver.Prelude.Exec.{Exec}
use k8s_cex_dra_driver.Os.{Os}
use k8s_cex_dra_driver.Resource.{DriverResources}
use k8s_cex_dra_driver.DeviceState.Env.{Env}
use k8s_cex_dra_driver.Driver.{Driver}
use k8s_cex_dra_driver.DeviceState.Published.Pools.{in_pools}
use k8s_cex_dra_driver.Driver.Offers.{reported, reported-unknown_health_report}
use k8s_cex_dra_driver.Driver.Loop.{
  Site, Step, Reach, here, next, DeviceHealth, unknown_health_report,
}

-- Where the loop of a stream stands, with whether the ticker holds a tick for it. A `select`
-- evaluates the report that it offers when it is entered, so that the report is as old as the wait
-- for the reader.
pub data Stream : Type 0 where
  offering : Bool → List DeviceHealth → Stream
  resting : Bool → Stream
  returned : Stream

module _ (os : Os) (env : Env os) {PublishError : Type 0} (sha256_hex : Text → Text)
    (publish : DriverResources → Exec os.World PublishError (Unit {0})) (now : os.World → ℕ) where
  abbrev At : Type 0
  At = Site os env sha256_hex publish now

  abbrev Runs : At → At → Type 0
  Runs = Reach os env sha256_hex publish now

  abbrev pub report_at : At → List DeviceHealth
  report_at (d, w) = unknown_health_report d (now w)

  -- The reports that the reader has taken, the last one first, each with the site at which it did.
  abbrev Sent : Type 0
  Sent = List (At × List DeviceHealth)

  -- A stream that is opened at the first site, at the second one.
  pub data Watched (s : At) : At → Stream → Sent → Type 0 where
    opened : Watched s s (offering false (report_at s)) []
    beside :
        {t u : At} {x : Stream} {sent : Sent}
        → Watched s t x sent
        → Step os env sha256_hex publish now t u
        → Watched s u x sent
    taken :
        {t : At} {b : Bool} {report : List DeviceHealth} {sent : Sent}
        → Watched s t (offering b report) sent
        → Watched s t (resting b) ((t, report) ∷ sent)
    elapsed_offering :
        {t : At} {b : Bool} {report : List DeviceHealth} {sent : Sent}
        → Watched s t (offering b report) sent
        → Watched s t (offering true report) sent
    elapsed_resting :
        {t : At} {b : Bool} {sent : Sent}
        → Watched s t (resting b) sent
        → Watched s t (resting true) sent
    ticked :
        {t : At} {sent : Sent}
        → Watched s t (resting true) sent
        → Watched s t (offering false (report_at t)) sent
    ended_offering :
        {t : At} {b : Bool} {report : List DeviceHealth} {sent : Sent}
        → Watched s t (offering b report) sent
        → Watched s t returned sent
    ended_resting :
        {t : At} {b : Bool} {sent : Sent} → Watched s t (resting b) sent → Watched s t returned sent

  -- The ticks of the ticker, dropped ones among them
  unfoldable pub ticks : {s t : At} {x : Stream} {sent : Sent} → Watched s t x sent → ℕ
  ticks opened = 0
  ticks (beside h e) = ticks h
  ticks (taken h) = ticks h
  ticks (elapsed_offering h) = suc (ticks h)
  ticks (elapsed_resting h) = suc (ticks h)
  ticks (ticked h) = ticks h
  ticks (ended_offering h) = ticks h
  ticks (ended_resting h) = ticks h

  -- The report names exactly the devices that the pools of the driver offered at a site between the
  -- two.
  abbrev pub IsMadeBetween : At → At → List DeviceHealth → Type 0
  IsMadeBetween s t report =
      (d : Driver) × (w : os.World) × Runs s (d, w)
      × Runs (d, w) t
      × ((name : Text) → reported report name ≡ in_pools d.state.driver_resources name)

  -- The site at which the reader took the last report, or else that of the opening
  abbrev pub last_taken : At → Sent → At
  last_taken s [] = s
  last_taken s ((t, report) ∷ sent) = t

  -- Each report was made after the one before it was taken, the first after the opening, and before it
  -- was taken itself.
  unfoldable pub IsFresh : At → Sent → Type 0
  IsFresh s [] = Unit
  IsFresh s ((t, report) ∷ sent) = IsMadeBetween (last_taken s sent) t report × IsFresh s sent

  abbrev held : Bool → ℕ
  held true = 1
  held false = 0

  -- What holds of a stream with as many reports taken and ticks passed.
  abbrev Stands : At → At → Stream → Sent → ℕ → Type 0
  Stands s t (offering b report) sent ticks =
      IsMadeBetween (last_taken s sent) t report × (length sent + held b ≤ ticks)
  Stands s t (resting b) sent ticks = length sent + held b ≤ suc ticks
  Stands s t returned sent ticks = length sent ≤ suc ticks

  Stands-next :
      (s : At) {t u : At} (x : Stream) (sent : Sent) (ticks : ℕ)
      → Step os env sha256_hex publish now t u
      → Stands s t x sent ticks
      → Stands s u x sent ticks
  Stands-next s (offering b report) sent ticks e ((d, w, before, after, same), most) =
      ((d, w, before, next after e, same), most)
  Stands-next s (resting b) sent ticks e h = h
  Stands-next s returned sent ticks e h = h

  Stands-most :
      (s t : At) (x : Stream) (sent : Sent) (ticks : ℕ)
      → Stands s t x sent ticks
      → length sent ≤ suc ticks
  Stands-most s t (offering b report) sent ticks (made, most) = omega (arith, most)
  Stands-most s t (resting b) sent ticks h = omega (arith, h)
  Stands-most s t returned sent ticks h = h

  made_now : (s t : At) → Runs s t → IsMadeBetween s t (report_at t)
  made_now s (d, w) r = (d, w, r, here, λ name. reported-unknown_health_report d (now w) name)

  Watched-Stands :
      {s t : At} {x : Stream} {sent : Sent} (h : Watched s t x sent)
      → IsFresh s sent × Runs (last_taken s sent) t × Stands s t x sent (ticks h)
  unfolding ticks IsFresh
  Watched-Stands {s} opened = (tt, here, (made_now s s here, omega arith))
  Watched-Stands {s} {x} {sent} (beside h e) =
      let (fresh, run, stands) = Watched-Stands h in
      (fresh, next run e, Stands-next s x sent (ticks h) e stands)
  Watched-Stands {s} {t} (taken {b} {report} {sent} h) =
      let (fresh, run, (made, most)) = Watched-Stands h in
      ((made, fresh), here, omega (arith, most))
  Watched-Stands {s} {t} {sent} (elapsed_offering {b} h) =
      let (fresh, run, (made, most)) = Watched-Stands h in (fresh, run, (made, omega (arith, most)))
  Watched-Stands {s} {t} {sent} (elapsed_resting {b} h) =
      let (fresh, run, most) = Watched-Stands h in (fresh, run, omega (arith, most))
  Watched-Stands {s} {t} {sent} (ticked h) =
      let (fresh, run, most) = Watched-Stands h in
      (fresh, run, (made_now (last_taken s sent) t run, omega (arith, most)))
  Watched-Stands {s} {t} {sent} (ended_offering {b} {report} h) =
      let (fresh, run, stands) = Watched-Stands h in
      (fresh, run, Stands-most s t (offering b report) sent (ticks h) stands)
  Watched-Stands {s} {t} {sent} (ended_resting {b} h) =
      let (fresh, run, stands) = Watched-Stands h in
      (fresh, run, Stands-most s t (resting b) sent (ticks h) stands)

  -- Beside any steps of the driver, each report that the reader of a stream takes names exactly the
  -- devices that the pools of the driver offered at some site after the one before it was taken, or
  -- since the opening, and the reader takes at most one report more than the ticker has ticked.
  pub sent-IsFresh :
      {s t : At} {x : Stream} {sent : Sent} (h : Watched s t x sent)
      → IsFresh s sent × (length sent ≤ suc (ticks h))
  sent-IsFresh {s} {t} {x} {sent} h =
      let (fresh, run, stands) = Watched-Stands h in
      (fresh, Stands-most s t x sent (ticks h) stands)
