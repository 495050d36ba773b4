-- ===== src/Health/Server.antt =====
-- internal/health/health.go: the service that answers the probes. The gRPC server is a library; to
-- listen, with the address that results, is the parameter `listen`.
use k8s_cex_dra_driver.Prelude.{ℕ, Text, [], Bool, Option, none, some}
use k8s_cex_dra_driver.Prelude.Exec.{Exec, pure, ◌>>=◌}
use k8s_cex_dra_driver.Prelude.Int.{ℤ, pos, negsuc, format_int}
use k8s_cex_dra_driver.Health

pub record Server : Type 0 where
  pub heartbeat : Option ℕ
  pub stale_after : ℤ
  pub addr : Text

-- `none` is a nil server, on which every method does nothing.
unfoldable pub addr : Option Server → Text
addr none = []
addr (some s) = s.addr

module _ {World ListenError : Type 0} (listen : Text → Exec World ListenError Text) where
  unfoldable pub start : ℤ → Option ℕ → ℤ → Exec World ListenError (Option Server)
  start (negsuc n) heartbeat stale_after = pure none
  start (pos port) heartbeat stale_after = do
    addr ← listen (format_int (pos port))
    pure (some (record { heartbeat = heartbeat; stale_after = stale_after; addr = addr }))

-- `none` where there is no service to ask.
unfoldable pub probe : Option Server → Text → ℕ → Option (Option Bool)
probe none service now = none
probe (some s) service now = some (Health.check s.heartbeat s.stale_after service now)
