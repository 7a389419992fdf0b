-- ===== src/Consumer.antt =====
-- consumer_loop.go: the loop of a consumer.
pub mod Backoff
pub mod Intake
pub mod Sleeps
mod Tests
use go_amqp_adapter.Base.{
  ℕ, Bool, true, false, Option, none, some, List, [], ◌∷◌, ◌*◌, ◌==◌, if◌then◌else◌,
}
use go_amqp_adapter.Base.Int.{ℤ, pos, negsuc, mul64, ltb_ℤ}
use go_amqp_adapter.Config.{second, Context, Outcome, ConsumerHandler, FailJobHandler}
use go_amqp_adapter.Errors.{Result, ok, err, crash}
use go_amqp_adapter.Broker.{Env, History, Event, slept, called, ch_notify_close}
use go_amqp_adapter.Client.{Client}
use go_amqp_adapter.Client.Session.{State}
use go_amqp_adapter.Client.Close.{close}
use go_amqp_adapter.Client.Consume.{consume}
use go_amqp_adapter.Delivery.{Delivery, handle_delivery}

abbrev pub max_consumer_backoff : ℤ
max_consumer_backoff = pos (30 * second)

abbrev pub initial_consumer_delay : ℤ
initial_consumer_delay = pos second

abbrev pub consumer_backoff_factor : ℕ
consumer_backoff_factor = 2

-- `nextConsumerBackoff`, on int64.
pub next_consumer_backoff : ℤ → ℤ
next_consumer_backoff current =
    let next = mul64 current consumer_backoff_factor in
    if ltb_ℤ max_consumer_backoff next then max_consumer_backoff else next

-- The cases of the `select` statements that wait: the consumer's context is done, the client is
-- closed, or the time is over.
pub data Wait : Type 0 where
  on_done on_client_done on_timer : Wait

-- A tick of the loop in `waitUntilClientReady`: what `isReady` holds, and the case taken if it is
-- 0.
pub record Tick : Type 0 where
  pub is_ready : ℕ
  pub wait : Wait

-- `waitUntilClientReady`: the delay that it returns, where 0 stands for the end of the loop, or
-- `none` if it still waits when the ticks are used up; and the history.
pub wait_until_client_ready : List Tick → ℤ → History → Option ℤ × History
wait_until_client_ready [] delay h = (none, h)
wait_until_client_ready (t ∷ ts) delay h =
    let later = wait_until_client_ready ts (next_consumer_backoff delay) (slept delay ∷ h) in
    if t.is_ready == 0
    then elim t.wait [
      | on_done ↦ (some (pos 0), h)
      | on_client_done ↦ (some (pos 0), h)
      | on_timer ↦ later
    ]
    else (some initial_consumer_delay, h)

-- `sleepConsumerBackoff`
pub sleep_consumer_backoff : Wait → ℤ → History → ℤ × History
unfolding next_consumer_backoff
sleep_consumer_backoff on_done delay h = (pos 0, h)
sleep_consumer_backoff on_client_done delay h = (pos 0, h)
sleep_consumer_backoff on_timer delay h = (next_consumer_backoff delay, slept delay ∷ h)

-- The fields of the client that other goroutines write, its reconnect loop and `close`, as they
-- stand when this loop reads them.
pub record Link : Type 0 where
  pub is_ready : ℕ
  pub ch : Option ℕ
  pub conn : Option ℕ
  pub closed : Bool

abbrev pub refreshed : Link → Client → Client
refreshed l c = record c {
  is_ready = l.is_ready;
  ch = l.ch;
  conn = l.conn;
  done = l.closed;
  closed_once = l.closed;
}

-- The cases of the `select` in `processDeliveries`: the consumer's context is done, the channel was
-- closed, the deliveries ended, or one came.
pub data Arrival : Type 0 where
  on_done : Link → Arrival
  on_channel_closed on_end : Arrival
  on_delivery : Delivery → Arrival

-- How `processDeliveries` stands: it returned, it waits for the next arrival, or it panicked.
pub data Process : Type 0 where
  returned : Bool → Process
  waiting crashed : Process

-- One round of `runConsumerLoop`: whether the consumer's context is done at the start, the ticks
-- until the client is ready, the client when `consume` or `close` reads it, the case taken in the
-- wait after a failed `consume`, and the arrivals after a successful one.
pub record Round : Type 0 where
  pub canceled : Bool
  pub ticks : List Tick
  pub link : Link
  pub wait : Wait
  pub arrivals : List Arrival

-- How the loop stands when the rounds are used up.
pub data Loop : Type 0 where
  ended waiting crashed : Loop

-- `backoffDelay == 0`
abbrev pub is_zero : ℤ → Bool
is_zero (pos n) = n == 0
is_zero (negsuc n) = false

-- A nil handler panics when it is called.
abbrev pub callback_of : Option ConsumerHandler → ConsumerHandler
callback_of none = λ ctx body. Outcome.panics
callback_of (some callback) = callback

module _ (env : Env) (fail : Option FailJobHandler) (loop_ctx : Context) where
  -- The loop of `processDeliveries`.
  pub process_arrivals : ConsumerHandler → List Arrival → State → Process × State
  process_arrivals callback [] s = (Process.waiting, s)
  process_arrivals callback (on_done l ∷ rest) s =
      (returned false, (close env (record s { client = refreshed l s.client })).1)
  process_arrivals callback (on_channel_closed ∷ rest) s = (returned true, s)
  process_arrivals callback (on_end ∷ rest) s = (returned true, s)
  process_arrivals callback (on_delivery d ∷ rest) s =
      elim (handle_delivery env fail loop_ctx s.client callback d s.history) [
        | none ↦ (Process.crashed, s)
        | some h ↦ process_arrivals callback rest (record s { history = h })
      ]

  -- `processDeliveries`
  pub process_deliveries : ConsumerHandler → List Arrival → State → Process × State
  unfolding process_arrivals
  process_deliveries callback arrivals s = elim s.client.ch [
    | none ↦ process_arrivals callback arrivals s
    | some n ↦
        process_arrivals callback arrivals
          (record s { history = called (ch_notify_close n) ∷ s.history })
  ]

  -- The loop after `processDeliveries`; `next` is the rest of it.
  after_process : (State → Loop × State) → Process → State → Loop × State
  after_process next (returned true) s = next s
  after_process next (returned false) s = (ended, s)
  after_process next Process.waiting s = (Loop.waiting, s)
  after_process next Process.crashed s = (Loop.crashed, s)

  -- The loop after `consume`, which may have failed.
  after_consume :
      ConsumerHandler → Round → ℤ → (ℤ → State → Loop × State) → Result ℕ → State → Loop × State
  unfolding after_process
  after_consume callback r delay next (ok n) s =
      let (p, s') = process_deliveries callback r.arrivals s in after_process (next delay) p s'
  after_consume callback r delay next (err e) s =
      let (d, h) = sleep_consumer_backoff r.wait delay s.history in
      let s' = record s { history = h } in
      let later = next d s' in if is_zero d then (ended, s') else later
  after_consume callback r delay next crash s = (Loop.crashed, s)

  -- The loop after the wait for the client.
  after_ready :
      ConsumerHandler → Round → (ℤ → State → Loop × State) → Option ℤ → State → Loop × State
  unfolding after_consume
  after_ready callback r next none s = (Loop.waiting, s)
  after_ready callback r next (some delay) s =
      let s' = record s { client = refreshed r.link s.client } in
      let (res, h) = consume env s'.client s'.history in
      let later = after_consume callback r delay next res (record s' { history = h }) in
      if is_zero delay then (ended, s) else later

  -- The loop of `runConsumerLoop`.
  pub consumer_rounds : ConsumerHandler → List Round → ℤ → State → Loop × State
  unfolding after_ready
  consumer_rounds callback [] delay s = (Loop.waiting, s)
  consumer_rounds callback (r ∷ rs) delay s =
      let (d, h) = wait_until_client_ready r.ticks delay s.history in
      let later =
        after_ready callback r (consumer_rounds callback rs) d (record s { history = h }) in
      if r.canceled
      then (ended, (close env (record s { client = refreshed r.link s.client })).1)
      else later

  -- `runConsumerLoop`
  pub run_consumer_loop : List Round → State → Loop × State
  unfolding consumer_rounds
  run_consumer_loop rounds s =
      consumer_rounds (callback_of s.client.callback) rounds initial_consumer_delay s
