-- ===== src/Client/Close/Laws.antt =====
-- What `close` does, the first time and later.
use go_amqp_adapter.Base.{ℕ, ◌≡◌, ◌⊎◌, true, false, Option, none, some, List, [], ◌∷◌, ◌++◌, arith}
use go_amqp_adapter.Errors.{
  GoError, Wraps, Holds, err_closing_queue_channel, err_closing_queue_connection,
}
use go_amqp_adapter.Broker.{Env, History, Call, called, ch_close, conn_close}
use go_amqp_adapter.Topology.Plan.{recorded}
use go_amqp_adapter.Client.{Client}
use go_amqp_adapter.Client.Session.{State}
use go_amqp_adapter.Client.Close.{close_handle, close}

abbrev pub closing_call : (ℕ → Call) → Option ℕ → List Call
closing_call call none = []
closing_call call (some n) = call n ∷ []

-- The handles that a client holds, the channel before its connection.
abbrev pub closing_calls : Client → List Call
closing_calls c = closing_call ch_close c.ch ++ closing_call conn_close c.conn

-- The first refusal among the calls, if there is one.
unfoldable pub first_refusal : Env → List Call → History → Option GoError
first_refusal env [] h = none
first_refusal env (c ∷ cs) h = elim (env.reply h c) [
  | none ↦ first_refusal env cs (called c ∷ h)
  | some e ↦ some e
]

-- An error of `close` wraps the refusal and says which handle it was; no refusal, no error.
abbrev pub Reports : Option GoError → Option GoError → Type 0
Reports none none = Unit {0}
Reports (some c) (some e) =
    Holds c e × (Wraps err_closing_queue_channel e ⊎ Wraps err_closing_queue_connection e)
Reports _ _ = ⊥

module _ (env : Env) (s : State) where
  -- The first call closes the channel and the connection that the client holds, in this order and
  -- the second even if the first fails, and leaves the client done and not ready, with its handles.
  -- It returns an error exactly if the broker refused, and reports the first refusal.
  pub close_first :
      s.client.closed_once ≡ false
      → let (e, s') = close env s in
        (s'.history ≡ recorded (closing_calls s.client) s.history)
        × Reports (first_refusal env (closing_calls s.client) s.history) e
        × (s'.client ≡ record s.client { is_ready = 0; done = true; closed_once = true })
  unfolding close close_handle first_refusal
  close_first fresh = ground arith

  -- Every later call does nothing and returns nil.
  pub close_again : close env (close env s).1 ≡ (none, (close env s).1)
  unfolding close
  close_again = ground arith
