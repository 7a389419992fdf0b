-- ===== src/Client/Link/Late.antt =====
-- A client that is closed while its loop dials.
use go_amqp_adapter.Base.{ℕ, ◌≡◌, refl, true, false, none, some, [], ◌∷◌, String, arith, length}
use go_amqp_adapter.Errors.{ok}
use go_amqp_adapter.Topology.{init_queue, init_queue_with_retry}
use go_amqp_adapter.Broker.{Env}
use go_amqp_adapter.Client.Session.{State}
use go_amqp_adapter.Client.Close.{close}
use go_amqp_adapter.Client.Link.{
  Round, Failed, Live, returned, connect, declare_queue, init, handle_re_init, handle_reconnect,
  unready,
}
use go_amqp_adapter.Client.Link.Laws.{init-Inits}

-- One dial, one `init`, and then the loop sees that the client is done.
abbrev pub last_round : Round
last_round = record {
  shut = false;
  stop = false;
  turns = record { shut = false; failed = Failed.on_done; live = Live.on_done } ∷ [];
}

-- The same environment with a broker that takes every call.
abbrev pub accepting : Env → Env
accepting env = record env { reply = λ h c. none }

module _ (env : Env) where
  init_accepted : (conn : ℕ) (s : State) → (init (accepting env) conn s).0 ≡ ok tt
  unfolding init declare_queue init_queue init_queue_with_retry
  init_accepted conn s = ground arith

  init_keeps_handles :
      (conn : ℕ) (s : State)
      → let c = (init (accepting env) conn s).1.client in
        (c.conn ≡ s.client.conn) × (c.closed_once ≡ s.client.closed_once)
  unfolding init declare_queue init_queue init_queue_with_retry
  init_keeps_handles conn s = ground arith

  handle_re_init_late :
      (conn : ℕ) (s : State)
      → handle_re_init (accepting env) conn last_round.turns s
        ≡ (returned true, (init (accepting env) conn (unready s)).1)
  unfolding handle_re_init
  handle_re_init_late conn s = ground (arith, init_accepted conn (unready s))

  -- A client is closed before its loop has dialed, and the broker takes every call. The loop does
  -- not look at `done` before the dial: it connects, declares the queue and marks the client ready,
  -- and then returns. The connection stays open and the client ready for good, since a later
  -- `close` does nothing.
  pub handle_reconnect_late :
      (addr : String) (s : State)
      → s.client.closed_once ≡ true
      → let (l, s') = handle_reconnect (accepting env) addr (last_round ∷ []) s in
        (l ≡ returned true)
        × (s'.client.is_ready ≡ 1)
        × (s'.client.conn ≡ some (length s.history))
        × (close (accepting env) s' ≡ (none, s'))
  unfolding handle_reconnect connect close
  handle_reconnect_late addr s closed =
      let s' = (connect (accepting env) addr (unready s)).1 in
      let n = length s.history in
      ground (
        arith,
        handle_re_init_late n s',
        init_accepted n (unready s'),
        init_keeps_handles n (unready s'),
        init-Inits (accepting env) n (unready s') refl,
      )
