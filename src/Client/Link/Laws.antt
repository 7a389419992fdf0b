-- ===== src/Client/Link/Laws.antt =====
-- What `init` and the reconnect loops keep.
use go_amqp_adapter.Base.{ℕ, ◌≡◌, ◌≢◌, ◌⊎◌, true, false, none, some, [], ◌∷◌, arith, length}
use go_amqp_adapter.Errors.{Result, ok, err, crash}
use go_amqp_adapter.Broker.{
  Env, Call, History, called, conn_channel, ch_close, ch_confirm, ch_notify_close,
  ch_notify_publish, ch_notify_return,
}
use go_amqp_adapter.Topology.{init_queue, init_queue_with_retry}
use go_amqp_adapter.Client.{Client}
use go_amqp_adapter.Client.Session.{State}
use go_amqp_adapter.Client.Link.{Loop, crashed, use_channel, declare_queue, init}

-- A client that says it is ready has a channel, listens to that channel's end and confirmations,
-- and has let the callers of `WaitReady` go.
pub record IsLinked (c : Client) : Type 0 where
  pub has_channel : (c.is_ready ≡ 0) ⊎ (c.ch ≢ none)
  pub hears_close : (c.is_ready ≡ 0) ⊎ (c.notify_chan_close ≡ c.ch)
  pub hears_confirm : (c.is_ready ≡ 0) ⊎ (c.notify_confirm ≡ c.ch)
  pub let_go : (c.is_ready ≡ 0) ⊎ (c.ready ≡ true)

-- The latest event is this call.
abbrev pub EndsWith : Call → History → Type 0
EndsWith c [] = ⊥
EndsWith c (e ∷ h) = e ≡ called c

module _ (env : Env) where
  -- The declarations do not touch the client, and do not panic.
  declare_queue_client :
      (n : ℕ) (s : State)
      → let (r, s') = declare_queue env n s in (s'.client ≡ s.client) × (r ≢ crash)
  unfolding declare_queue init_queue init_queue_with_retry
  declare_queue_client n s = ground arith

  -- What `init` did, by how it ended.
  abbrev pub Inits : ℕ → State → Result (Unit {0}) × State → Type 0
  Inits conn s (ok _, s') =
      (s'.client.is_ready ≡ 1)
      × (s'.client.ready ≡ true)
      × (s'.client.ch ≡ some (length s.history))
      × IsLinked s'.client
  Inits conn s (err e, s') =
      (s'.client.is_ready ≡ 0)
      × ((s'.history ≡ called (conn_channel conn) ∷ s.history)
          ⊎ EndsWith (ch_close (length s.history)) s'.history)
  Inits conn s (crash, s') = ⊥

  -- The state in which `init` declares the queue.
  abbrev prepared : ℕ → State → State
  prepared conn s =
      let n = length s.history in
      record {
        client = use_channel n s.client;
        history =
            called (ch_notify_return n)
            ∷ called (ch_notify_publish n)
            ∷ called (ch_notify_close n)
            ∷ called (ch_confirm n false)
            ∷ called (conn_channel conn)
            ∷ s.history;
      }

  -- Started on a client that is not ready, `init` does not panic. On success the client is ready on
  -- a new channel, listens to its end and its confirmations, and has let the callers of `WaitReady`
  -- go; on failure it is not ready, and either opening a channel was all that was tried, or the
  -- last call closes the new channel again.
  pub init-Inits : (conn : ℕ) (s : State) → s.client.is_ready ≡ 0 → Inits conn s (init env conn s)
  unfolding init
  init-Inits conn s down = ground (arith, declare_queue_client (length s.history) (prepared conn s))

  -- The loop keeps the client in order and does not panic.
  abbrev Keeps : Loop × State → Type 0
  Keeps (l, s) = IsLinked s.client × (l ≢ crashed)
