-- ===== src/Consumer/Sleeps.antt =====
-- What the loop of a consumer keeps.
use go_amqp_adapter.Base.{
  ℕ, ◌≡◌, ◌⊎◌, inl, inr, refl, true, false, Option, none, some, List, [], ◌∷◌, String, arith,
  Option-cases,
}
use go_amqp_adapter.Base.Int.{ℤ}
use go_amqp_adapter.Errors.{Result, ok, err, crash}
use go_amqp_adapter.Config.{Context, Outcome, returned, panics, ConsumerHandler, FailJobHandler}
use go_amqp_adapter.Broker.{
  Env, History, slept, called, ch_notify_close, handled, inflight_add, inflight_done,
}
use go_amqp_adapter.Client.{Client, amqp_table_to_map}
use go_amqp_adapter.Client.Session.{State}
use go_amqp_adapter.Client.Close.{close}
use go_amqp_adapter.Client.Consume.{consume}
use go_amqp_adapter.Delivery.{Delivery, settle, extract_expired_header, handle_delivery}
use go_amqp_adapter.Consumer.{
  initial_consumer_delay, next_consumer_backoff, Wait, Tick, Arrival, Process, Round, Loop,
  refreshed, is_zero, wait_until_client_ready, sleep_consumer_backoff, process_arrivals,
  process_deliveries, after_process, after_consume, after_ready, consumer_rounds, run_consumer_loop,
  callback_of,
}
use go_amqp_adapter.Consumer.Backoff.{InRange, next_consumer_backoff-InRange}

-- Every sleep so far was between one and thirty seconds.
abbrev pub AllSleeps : History → Type 0
AllSleeps [] = Unit {0}
AllSleeps (slept d ∷ h) = InRange d × AllSleeps h
AllSleeps (_ ∷ h) = AllSleeps h

-- The delay that a wait returns: it ends the loop, or is in range.
abbrev GoesOn : ℤ → Type 0
GoesOn d = (is_zero d ≡ true) ⊎ InRange d

wait_until_client_ready-AllSleeps :
    (ts : List Tick) (delay : ℤ) (h : History)
    → InRange delay
    → AllSleeps h
    → AllSleeps (wait_until_client_ready ts delay h).1
unfolding wait_until_client_ready
wait_until_client_ready-AllSleeps [] delay h r a = a
wait_until_client_ready-AllSleeps (t ∷ ts) delay h r a =
    let next = next_consumer_backoff-InRange delay r in
    ground (
      arith,
      wait_until_client_ready-AllSleeps ts (next_consumer_backoff delay) (slept delay ∷ h) next.0
          (r, a),
    )

abbrev IsFound : Option ℤ → Type 0
IsFound none = Unit {0}
IsFound (some d) = GoesOn d

wait_until_client_ready-IsFound :
    (ts : List Tick) (delay : ℤ) (h : History) → IsFound (wait_until_client_ready ts delay h).0
unfolding wait_until_client_ready
wait_until_client_ready-IsFound [] delay h = tt
wait_until_client_ready-IsFound (t ∷ ts) delay h =
    ground
      (arith, wait_until_client_ready-IsFound ts (next_consumer_backoff delay) (slept delay ∷ h))

sleep_consumer_backoff-AllSleeps :
    (w : Wait) (delay : ℤ) (h : History)
    → InRange delay
    → AllSleeps h
    → AllSleeps (sleep_consumer_backoff w delay h).1 × GoesOn (sleep_consumer_backoff w delay h).0
unfolding sleep_consumer_backoff
sleep_consumer_backoff-AllSleeps Wait.on_done delay h r a = (a, inl refl)
sleep_consumer_backoff-AllSleeps Wait.on_client_done delay h r a = (a, inl refl)
sleep_consumer_backoff-AllSleeps Wait.on_timer delay h r a =
    ((r, a), inr (next_consumer_backoff-InRange delay r).0)

module _ (env : Env) (fail : Option FailJobHandler) (loop_ctx : Context) where
  close-AllSleeps : (s : State) → AllSleeps s.history → AllSleeps (close env s).1.history
  unfolding close
  close-AllSleeps s a = ground arith

  settle-AllSleeps :
      (clnt : Client) (d : Delivery) (expired : String) (o : Outcome) (h : History)
      → AllSleeps h
      → AllSleeps (settle env fail clnt d expired o h)
  unfolding settle
  settle-AllSleeps clnt d expired panics h a = a
  settle-AllSleeps clnt d expired (returned none) h a = a
  settle-AllSleeps clnt d expired (returned (some e)) h a = ground arith

  process_arrivals-AllSleeps :
      (callback : ConsumerHandler) (arrivals : List Arrival) (s : State)
      → AllSleeps s.history
      → AllSleeps (process_arrivals env fail loop_ctx callback arrivals s).1.history
  unfolding process_arrivals handle_delivery
  process_arrivals-AllSleeps callback [] s a = a
  process_arrivals-AllSleeps callback (Arrival.on_done l ∷ rest) s a =
      close-AllSleeps (record s { client = refreshed l s.client }) a
  process_arrivals-AllSleeps callback (Arrival.on_channel_closed ∷ rest) s a = a
  process_arrivals-AllSleeps callback (Arrival.on_end ∷ rest) s a = a
  process_arrivals-AllSleeps callback (Arrival.on_delivery d ∷ rest) s a =
      elim (Option-cases s.client.consume_headers_extractor) [
        | inl nil ↦ ground arith
        | inr (extract, set) ↦
            let ctx = extract loop_ctx (amqp_table_to_map d.headers) in
            let start = handled ctx d.body ∷ inflight_add ∷ s.history in
            let h =
              settle env fail s.client d (extract_expired_header s.client d) (callback ctx d.body)
                start in
            ground (
              arith,
              settle-AllSleeps s.client d (extract_expired_header s.client d) (callback ctx d.body)
                  start,
              process_arrivals-AllSleeps callback rest (record s { history = inflight_done ∷ h }),
            )
      ]

  consume-AllSleeps : (clnt : Client) (h : History) → AllSleeps h → AllSleeps (consume env clnt h).1
  unfolding consume
  consume-AllSleeps clnt h a = ground arith

  process_deliveries-AllSleeps :
      (callback : ConsumerHandler) (arrivals : List Arrival) (s : State)
      → AllSleeps s.history
      → AllSleeps (process_deliveries env fail loop_ctx callback arrivals s).1.history
  unfolding process_deliveries
  process_deliveries-AllSleeps callback arrivals s a = elim (Option-cases s.client.ch) [
    | inl nil ↦ ground (arith, process_arrivals-AllSleeps callback arrivals s a)
    | inr (n, at_ch) ↦
        let s' = record s { history = called (ch_notify_close n) ∷ s.history } in
        ground (arith, process_arrivals-AllSleeps callback arrivals s' a)
  ]

  abbrev Keeps : Loop × State → Type 0
  Keeps (l, s) = AllSleeps s.history

  module _ (callback : ConsumerHandler) (r : Round) (next : ℤ → State → Loop × State)
      (keep : (d : ℤ) (u : State) → InRange d → AllSleeps u.history → Keeps (next d u)) where
    after_process-Keeps :
        (d : ℤ) (p : Process) (s : State)
        → InRange d
        → AllSleeps s.history
        → Keeps (after_process env fail loop_ctx (next d) p s)
    unfolding after_process
    after_process-Keeps d (Process.returned true) s v a = keep d s v a
    after_process-Keeps d (Process.returned false) s v a = a
    after_process-Keeps d Process.waiting s v a = a
    after_process-Keeps d Process.crashed s v a = a

    after_consume-Keeps :
        (delay : ℤ) (res : Result ℕ) (s : State)
        → InRange delay
        → AllSleeps s.history
        → Keeps (after_consume env fail loop_ctx callback r delay next res s)
    unfolding after_consume
    after_consume-Keeps delay (ok n) s v a =
        let (p, s') = process_deliveries env fail loop_ctx callback r.arrivals s in
        after_process-Keeps delay p s' v (process_deliveries-AllSleeps callback r.arrivals s a)
    after_consume-Keeps delay (err e) s v a =
        let (d, h) = sleep_consumer_backoff r.wait delay s.history in
        let slept_well = sleep_consumer_backoff-AllSleeps r.wait delay s.history v a in
        ground (
          arith,
          slept_well,
          λ (in_range : InRange d). keep d (record s { history = h }) in_range slept_well.0,
        )
    after_consume-Keeps delay crash s v a = a

    after_ready-Keeps :
        (found : Option ℤ) (s : State)
        → IsFound found
        → AllSleeps s.history
        → Keeps (after_ready env fail loop_ctx callback r next found s)
    unfolding after_ready
    after_ready-Keeps none s f a = a
    after_ready-Keeps (some delay) s f a =
        let clnt = refreshed r.link s.client in
        let (res, h) = consume env clnt s.history in
        let s' : State = record { client = clnt; history = h } in
        ground (
          arith,
          f,
          λ (v : InRange delay).
              after_consume-Keeps delay res s' v (consume-AllSleeps clnt s.history a),
        )

  consumer_rounds-Keeps :
      (callback : ConsumerHandler) (rounds : List Round) (delay : ℤ) (s : State)
      → InRange delay
      → AllSleeps s.history
      → Keeps (consumer_rounds env fail loop_ctx callback rounds delay s)
  unfolding consumer_rounds
  consumer_rounds-Keeps callback [] delay s v a = a
  consumer_rounds-Keeps callback (r ∷ rs) delay s v a =
      let (d, h) = wait_until_client_ready r.ticks delay s.history in
      let next = consumer_rounds env fail loop_ctx callback rs in
      let waited =
        after_ready-Keeps callback r next (consumer_rounds-Keeps callback rs) d
          (record s { history = h }) (wait_until_client_ready-IsFound r.ticks delay s.history)
          (wait_until_client_ready-AllSleeps r.ticks delay s.history v a) in
      ground (arith, waited, close-AllSleeps (record s { client = refreshed r.link s.client }) a)

  -- However long a consumer runs, if each sleep so far lasted at least one second and at most
  -- thirty, then so does each of its own: between looks at a client that is not ready, and after a
  -- refused `consume`.
  pub run_consumer_loop-AllSleeps :
      (rounds : List Round) (s : State)
      → AllSleeps s.history
      → AllSleeps (run_consumer_loop env fail loop_ctx rounds s).1.history
  unfolding run_consumer_loop
  run_consumer_loop-AllSleeps rounds s a =
      consumer_rounds-Keeps (callback_of s.client.callback) rounds initial_consumer_delay s
        (omega arith) a
