-- ===== src/Consumer/Intake.antt =====
-- The messages that a consumer takes in, and how its loop ends.
use go_amqp_adapter.Base.{ℕ, suc, ◌+◌, ◌≡◌, ◌≢◌, Option, some, List, [], ◌∷◌, arith}
use go_amqp_adapter.Config.{Context, ConsumerHandler, ConsumeHeadersExtractor, FailJobHandler}
use go_amqp_adapter.Broker.{Env, History, inflight_done}
use go_amqp_adapter.Client.Session.{State}
use go_amqp_adapter.Client.Close.{close}
use go_amqp_adapter.Delivery.Settled.{counts, handle_delivery-counts}
use go_amqp_adapter.Consumer.{refreshed, Arrival, Process, process_arrivals}

-- The messages that arrive before the loop ends.
pub taken : List Arrival → ℕ
taken [] = 0
taken (Arrival.on_delivery d ∷ rest) = suc (taken rest)
taken (_ ∷ rest) = 0

-- `n` more messages were handled and settled, and all of them are finished.
pub record Finished (n : ℕ) (h h' : History) : Type 0 where
  pub all_settled : (counts h').settled ≡ (counts h).settled + n
  pub all_invoked : (counts h').invoked ≡ (counts h).invoked + n
  pub all_raised : (counts h').raised ≡ (counts h).raised + n
  pub all_lowered : (counts h').lowered ≡ (counts h).lowered + n

module _ (env : Env) (fail : Option FailJobHandler) (loop_ctx : Context) where
  close-Finished : (s : State) → Finished 0 s.history (close env s).1.history
  unfolding close counts
  close-Finished s = ground arith

  -- A consumer that has an extractor of headers does not panic in its loop over the deliveries, and
  -- every message that arrives before the loop ends is handled once, settled once and finished.
  pub process_arrivals-Finished :
      (extract : ConsumeHeadersExtractor) (callback : ConsumerHandler) (arrivals : List Arrival)
      (s : State)
      → s.client.consume_headers_extractor ≡ some extract
      → let (p, s') = process_arrivals env fail loop_ctx callback arrivals s in
        (p ≢ Process.crashed) × Finished (taken arrivals) s.history s'.history
  unfolding process_arrivals taken
  process_arrivals-Finished extract callback [] s set = ground arith
  process_arrivals-Finished extract callback (Arrival.on_done l ∷ rest) s set =
      (λ e. cc, close-Finished (record s { client = refreshed l s.client }))
  process_arrivals-Finished extract callback (Arrival.on_channel_closed ∷ rest) s set = ground arith
  process_arrivals-Finished extract callback (Arrival.on_end ∷ rest) s set = ground arith
  process_arrivals-Finished extract callback (Arrival.on_delivery d ∷ rest) s set =
      let (h, done, counted) =
        handle_delivery-counts env fail s.client d loop_ctx extract callback s.history set in
      ground (
        arith,
        done,
        counted,
        process_arrivals-Finished extract callback rest (record s { history = inflight_done ∷ h })
            set,
      )
