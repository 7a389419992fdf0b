-- ===== src/Examples/Graceful/Twice.antt =====
-- examples/graceful-shutdown/main.go: the two calls of `Shutdown`.
use go_amqp_adapter.Base.{◌≡◌, arith}
use go_amqp_adapter.Store.{World}
use go_amqp_adapter.Store.Shutdown.{shutdown}
use go_amqp_adapter.Store.Shutdown.Closed.{shutdown-AllClosed}
use go_amqp_adapter.Examples.{Setting, deferred}
use go_amqp_adapter.Examples.Graceful.{shut}

module _ (a : Setting) where
  -- After the call of `Shutdown` in `main`, whether it returns an error or not, the deferred one
  -- changes nothing and calls nobody.
  pub deferred-shut : (w : World) → (deferred a (shut a w)).1 ≡ (shutdown a.closing a.idle w).1
  unfolding deferred shut
  deferred-shut w = ground (arith, (shutdown-AllClosed a.closing a.idle a.idle w).2)
