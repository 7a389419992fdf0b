-- ===== src/Client/Link.antt =====
-- client.go: `connect`, `init`, `consume` and the two loops that keep a client connected. What
-- another thread does while a loop waits is its call of `close`, if there is one: a turn of the
-- schedule says so, and which ready case the `select` takes. A schedule may also pick a case that
-- is not ready: what holds for every schedule holds for the real ones.
pub mod Laws
pub mod Late
mod Tests
use go_amqp_adapter.Base.{
  ℕ, Bool, true, false, Option, none, some, List, [], ◌∷◌, String, ◌==◌, if◌then◌else◌,
}
use go_amqp_adapter.Errors.{
  Sentinel, GoError, Result, ok, err, crash, sentinel, wrap, wrap_both, lit, str, operand,
  err_connect_to_queue, err_open_channel, err_enable_confirms, err_consume_queue_connection_closed,
  err_starting_queue_consumption,
}
use go_amqp_adapter.Broker.{
  Env, Event, Act, called, slept, failing, perform, attempt, acquire, dial, conn_channel,
  conn_notify_close, ch_confirm, ch_close, ch_notify_close, ch_notify_publish, ch_notify_return,
  ch_consume,
}
use go_amqp_adapter.Topology.{init_queue, init_queue_with_retry}
use go_amqp_adapter.Client.{Client}
use go_amqp_adapter.Client.Session.{State, Method, ◌>>=◌, ◌>>◌, pure, lift, modify, or_clean_up}
use go_amqp_adapter.Client.Close.{close, about_queue}

-- `fmt.Errorf("%w: %w", s, err)`
abbrev pub under_sentinel : Sentinel → GoError → GoError
under_sentinel s e = wrap_both (operand ∷ lit ": " ∷ operand ∷ []) (sentinel s) e

-- `fmt.Errorf("%w %s", s, clnt.queueName)`
abbrev pub for_queue : Sentinel → String → GoError
for_queue s name = wrap (operand ∷ lit " " ∷ str name ∷ []) (sentinel s)

-- Which case the `select` after a failed `init` takes, and which after a success.
pub data Failed : Type 0 where
  on_done on_conn_closed on_timer : Failed

pub data Live : Type 0 where
  on_done on_conn_closed on_chan_closed : Live

pub record Turn : Type 0 where
  pub shut : Bool
  pub failed : Failed
  pub live : Live

-- One round of `handleReconnect`: the wait after a failed dial, or the turns of `handleReInit`.
pub record Round : Type 0 where
  pub shut : Bool
  pub stop : Bool
  pub turns : List Turn

-- How a loop stands when the schedule ends: it returned, it still waits, or it panicked.
pub data Loop : Type 0 where
  returned : Bool → Loop
  waiting crashed : Loop

abbrev pub set_unready : Client → Client
set_unready c = record c { is_ready = 0 }

-- `clnt.isReady.Store(1)`, and `ready` is closed unless it is so already.
abbrev pub set_ready : Client → Client
set_ready c = record c { is_ready = 1; ready = true }

abbrev pub use_channel : ℕ → Client → Client
use_channel n c = record c { ch = some n; notify_chan_close = some n; notify_confirm = some n }

abbrev pub drop_channel : Client → Client
drop_channel c = record c { ch = none }

abbrev pub use_connection : ℕ → Client → Client
use_connection n c = record c { conn = some n; notify_conn_close = some n }

abbrev pub slept_for : State → State
slept_for s = record s { history = slept s.client.re_init_delay ∷ s.history }

abbrev pub slept_reconnect : State → State
slept_reconnect s = record s { history = slept s.client.reconnect_delay ∷ s.history }

abbrev pub unready : State → State
unready s = record s { client = set_unready s.client }

module _ (env : Env) where
  -- `connect`
  unfoldable pub connect : String → Method ℕ
  connect addr = do
    n ← lift (failing (about_queue err_connect_to_queue addr) (acquire env (dial addr)))
    modify (use_connection n)
    lift (attempt env (conn_notify_close n))
    pure n

  -- The declarations of the queue, by the mode of the client.
  unfoldable pub declare_queue : ℕ → Method String
  declare_queue n s = elim s.client.retry [
    | some r ↦ lift (init_queue_with_retry env s.client.queue_name n r.delay) s
    | none ↦ lift (init_queue env s.client.queue_name n) s
  ]

  abbrev close_channel : ℕ → Method (Unit {0})
  close_channel n = lift (attempt env (ch_close n))

  -- `init`
  unfoldable pub init : ℕ → Method (Unit {0})
  init conn = do
    n ← lift (failing (under_sentinel err_open_channel) (acquire env (conn_channel conn)))
    or_clean_up
        (lift (failing (under_sentinel err_enable_confirms) (perform env (ch_confirm n false))))
        (close_channel n)
    modify (use_channel n)
    lift (attempt env (ch_notify_close n))
    lift (attempt env (ch_notify_publish n))
    lift (attempt env (ch_notify_return n))
    or_clean_up (declare_queue n) (close_channel n >> modify drop_channel)
    modify set_ready

  -- What happens during a wait.
  abbrev pub interfere : Bool → State → State
  interfere true s = (close env s).1
  interfere false s = s

  -- `handleReInit`
  unfoldable pub handle_re_init : ℕ → List Turn → State → Loop × State
  handle_re_init conn [] s = (waiting, s)
  handle_re_init conn (t ∷ ts) s =
      let (r, s') = init conn (unready s) in
      let s'' = interfere t.shut s' in
      elim r [
        | err e ↦ elim t.failed [
          | Failed.on_done ↦ (returned true, s'')
          | Failed.on_conn_closed ↦ (returned false, s'')
          | Failed.on_timer ↦ handle_re_init conn ts (slept_for s'')
        ]
        | ok _ ↦ elim t.live [
          | Live.on_done ↦ (returned true, s'')
          | Live.on_conn_closed ↦ (returned false, s'')
          | Live.on_chan_closed ↦ handle_re_init conn ts s''
        ]
        | crash ↦ (crashed, s'')
      ]

  -- The loop after `handleReInit` has returned; `next` is the rest of the loop.
  after_re_init : (State → Loop × State) → Loop → State → Loop × State
  after_re_init next (returned false) s = next s
  after_re_init next l s = (l, s)

  -- The loop after the dial.
  after_dial : Round → (State → Loop × State) → Result ℕ → State → Loop × State
  unfolding after_re_init
  after_dial t next (ok n) s = let (l, s') = handle_re_init n t.turns s in after_re_init next l s'
  after_dial t next (err e) s =
      let s' = interfere t.shut s in
      elim t.stop [ true ↦ (returned true, s') | false ↦ next (slept_reconnect s') ]
  after_dial t next crash s = (crashed, s)

  -- `handleReconnect`, which returns no value: `returned true` says that it has ended.
  unfoldable pub handle_reconnect : String → List Round → State → Loop × State
  unfolding after_dial
  handle_reconnect addr [] s = (waiting, s)
  handle_reconnect addr (t ∷ ts) s =
      let (r, s') = connect addr (unready s) in after_dial t (handle_reconnect addr ts) r s'
