-- ===== src/Health.antt =====
-- internal/health/health.go: the liveness check and the watchdog over the heartbeat of the scan loop.
-- Times are nanoseconds of the monotonic clock; the gRPC server is a library.
pub mod Edges
pub mod Server
use k8s_cex_dra_driver.Prelude.{
  ℕ, ◌-◌, Text, List, [], ◌∷◌, Bool, true, false, not, ◌&&◌, ◌||◌, Option, none, some, ltb, ◌==◌,
  text_eq, if◌then◌else◌,
}
use k8s_cex_dra_driver.Prelude.Int.{ℤ, pos, negsuc, multiply, quotient}
use k8s_cex_dra_driver.Prelude.Strings.{bytes}

-- `staleMultiple` scan intervals, as a `Duration`, which is an `int64`
unfoldable pub stale_after : ℤ → ℤ
stale_after scan_interval = multiply 10 scan_interval

-- The period of the watchdog's ticker
unfoldable pub watch_period : ℤ → ℤ
watch_period threshold = quotient threshold 4

-- The last stamp; a nil heartbeat is `none`, and is always fresh.
unfoldable pub age : Option ℕ → ℕ → ℕ
age none now = 0
age (some last) now = now - last

-- `age > staleAfter`
unfoldable pub exceeds : ℤ → ℕ → Bool
exceeds (pos t) a = ltb t a
exceeds (negsuc n) a = true

-- `stamp_at` on a nil heartbeat does nothing.
unfoldable pub stamp : Option ℕ → ℕ → Option ℕ
stamp none now = none
stamp (some last) now = some now

-- The answer to a probe: `none` is the error for an unknown service, `some true` is SERVING.
unfoldable pub check : Option ℕ → ℤ → Text → ℕ → Option Bool
unfolding age exceeds
check heartbeat threshold service now =
    if service == [] || service == bytes "liveness"
    then some (not (exceeds threshold (age heartbeat now)))
    else none

-- The two lines that the watchdog logs.
pub data Edge : Type 0 where
  no_progress completing_again : Edge

-- One tick, from whether the loop counted as stale, with the age that it reads.
unfoldable pub tick : ℤ → Bool → ℕ → Bool × Option Edge
unfolding exceeds
tick threshold stale a =
    if not stale && exceeds threshold a
    then (true, some no_progress)
    else if stale && not (exceeds threshold a)
    then (false, some completing_again)
    else (stale, none)

abbrev pub logged : Option Edge → List Edge → List Edge
logged none edges = edges
logged (some e) edges = e ∷ edges

-- The lines of some ticks, and whether the loop counts as stale after them.
unfoldable pub watch : ℤ → Bool → List ℕ → List Edge × Bool
unfolding tick
watch threshold stale [] = ([], stale)
watch threshold stale (a ∷ ages) =
    let (stale', edge) = tick threshold stale a in
    let (edges, last) = watch threshold stale' ages in (logged edge edges, last)
