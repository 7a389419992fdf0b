-- ===== src/Delivery.antt =====
-- delivery.go: what a consumer does with one message. Only what is logged is left out: where a
-- branch of the source does nothing but log an error of the broker, the error is dropped here.
pub mod Settled
pub mod Retried
pub mod Panics
pub mod Lifetime
mod Tests
use go_amqp_adapter.Base.{
  ℕ, Bool, true, false, not, ◌&&◌, ◌||◌, Option, none, some, List, [], ◌∷◌, String, lookup, str_eq,
  is_some, if◌then◌else◌,
}
use go_amqp_adapter.Errors.{GoError}
use go_amqp_adapter.Errors.Retryable.{is_retryable}
use go_amqp_adapter.Config.{
  Context, Table, Value, Body, ConsumerHandler, ConsumeHeadersExtractor, Outcome, returned, panics,
  FailJobHandler, FailedJob, text,
}
use go_amqp_adapter.Broker.{
  Env, History, Event, Call, called, handled, job_failed, inflight_add, inflight_done, ack, nack,
  reject,
}
use go_amqp_adapter.Client.{Client, with_retry, amqp_table_to_map}
use go_amqp_adapter.Client.Expiry.{is_expired}

-- `amqp.Delivery`, as far as it is read; `tag` stands for its acknowledger.
pub record Delivery : Type 0 where
  pub headers : Table
  pub body : Body
  pub tag : ℕ

-- `delivery.Headers["expired"].(string)`, with its `ok`.
abbrev pub header_text : Option Value → Option String
header_text (some (text s)) = some s
header_text _ = none

abbrev pub expired_header : Delivery → Option String
expired_header d = header_text (lookup "expired" d.headers)

-- `extractExpiredHeader`
unfoldable pub extract_expired_header : Client → Delivery → String
unfolding with_retry
extract_expired_header clnt d =
    if not (with_retry clnt)
    then elim (expired_header d) [ some v ↦ v | none ↦ "" ]
    else elim (expired_header d) [ some v ↦ if str_eq v "" then "" else v | none ↦ "" ]

-- `ackDelivery`, `nackAfterPanic`, `rejectDelivery` and `nackDelivery`.
unfoldable pub ack_delivery : Delivery → History → History
ack_delivery d h = called (ack d.tag false) ∷ h

unfoldable pub nack_after_panic : Delivery → History → History
nack_after_panic d h = called (nack d.tag false false) ∷ h

unfoldable pub reject_delivery : Delivery → History → History
reject_delivery d h = called (reject d.tag false) ∷ h

unfoldable pub nack_delivery : Delivery → History → History
nack_delivery d h = called (nack d.tag false true) ∷ h

-- `invokeHandler`: a panic is caught.
unfoldable pub invoke_handler : ConsumerHandler → Context → Body → History → Outcome × History
invoke_handler callback ctx body h = (callback ctx body, handled ctx body ∷ h)

-- `finalizeFailedRetry`. Which of the two reasons there was is only logged.
unfoldable pub finalize_failed_retry :
    Option FailJobHandler → Client → Delivery → GoError → History → History
unfolding ack_delivery
finalize_failed_retry none clnt d c_err h = ack_delivery d h
finalize_failed_retry (some handler) clnt d c_err h =
    ack_delivery d
      (job_failed (record { queue = clnt.queue_name; body = d.body; error = c_err }) ∷ h)

module _ (env : Env) where
  -- `handleRetryError`
  unfoldable pub handle_retry_error :
      Option FailJobHandler → Client → Delivery → String → GoError → Bool → History → History
  unfolding finalize_failed_retry reject_delivery
  handle_retry_error fail clnt d expired c_err retryable h =
      let late = str_eq expired "" || is_expired (env.now h) expired in
      if late || not retryable
      then finalize_failed_retry fail clnt d c_err h
      else reject_delivery d h

  -- `handleConsumerError`
  unfoldable pub handle_consumer_error :
      Option FailJobHandler → Client → Delivery → String → GoError → History → History
  unfolding handle_retry_error nack_delivery with_retry
  handle_consumer_error fail clnt d expired c_err h =
      let retryable = is_retryable (some c_err) in
      if with_retry clnt
      then handle_retry_error fail clnt d expired c_err retryable h
      else nack_delivery d h

  -- `handleDelivery` after the handler has been called.
  unfoldable pub settle :
      Option FailJobHandler → Client → Delivery → String → Outcome → History → History
  unfolding handle_consumer_error nack_after_panic ack_delivery
  settle fail clnt d expired panics h = nack_after_panic d h
  settle fail clnt d expired (returned none) h = ack_delivery d h
  settle fail clnt d expired (returned (some c_err)) h =
      handle_consumer_error fail clnt d expired c_err h

  -- `handleDelivery`. A client without an extractor of headers, which no consumer is, panics:
  -- `none`.
  unfoldable pub handle_delivery :
      Option FailJobHandler
      → Context
      → Client
      → ConsumerHandler
      → Delivery
      → History
      → Option History
  unfolding settle extract_expired_header invoke_handler
  handle_delivery fail loop_ctx clnt callback d h =
      let h' = inflight_add ∷ h in
      let expired = extract_expired_header clnt d in
      elim clnt.consume_headers_extractor [
        | none ↦ none
        | some extract ↦
            let ctx = extract loop_ctx (amqp_table_to_map d.headers) in
            let (outcome, h'') = invoke_handler callback ctx d.body h' in
            some (inflight_done ∷ settle fail clnt d expired outcome h'')
      ]
