-- ===== src/Delivery/Retried.antt =====
-- When a message is tried again, and when no longer.
use go_amqp_adapter.Base.{
  ℕ, ◌<◌, ◌≡◌, ◌≢◌, ◌↔◌, true, false, Option, some, String, arith, lookup, ltb, eq_iff,
  if◌then◌else◌,
}
use go_amqp_adapter.Errors.{GoError}
use go_amqp_adapter.Errors.Chain.{IsMarked}
use go_amqp_adapter.Errors.Retryable.{is_retryable_iff}
use go_amqp_adapter.Config.{Table, PublishMessage, RetryConfig, returned, FailJobHandler}
use go_amqp_adapter.Broker.{Env, History}
use go_amqp_adapter.Time.Format.{format_rfc3339}
use go_amqp_adapter.Time.RoundTrip.{year_of}
use go_amqp_adapter.Client.{Client, with_retry, add_duration}
use go_amqp_adapter.Client.Expiry.{is_expired}
use go_amqp_adapter.Client.Expiry.Deadline.{cut, is_expired-format_rfc3339, format_rfc3339-ne-empty}
use go_amqp_adapter.Client.Push.{publish_headers, retry_limit}
use go_amqp_adapter.Client.Push.Headers.{publish_headers_lem}
use go_amqp_adapter.Delivery.{
  Delivery, extract_expired_header, reject_delivery, nack_delivery, finalize_failed_retry, settle,
}

module _ (env : Env) (fail : Option FailJobHandler) (clnt : Client) (d : Delivery) where
  -- The handler asked for another try in time.
  pub record AsksInTime (expired : String) (h : History) (e : GoError) : Type 0 where
    pub in_retry_mode : with_retry clnt ≡ true
    pub marked : IsMarked e
    pub has_deadline : expired ≢ ""
    pub in_time : is_expired (env.now h) expired ≡ false

  -- An error is answered by a rejection, which sends the message round by the delay queue, exactly
  -- if the client is in retry mode, the error is marked as retryable, and the message has a
  -- deadline that has not passed.
  pub settle-reject_iff :
      (expired : String) (e : GoError) (h : History)
      → (settle env fail clnt d expired (returned (some e)) h ≡ reject_delivery d h)
        ↔ AsksInTime expired h e
  unfolding settle finalize_failed_retry reject_delivery nack_delivery
  settle-reject_iff expired e h = ground (arith, is_retryable_iff e, eq_iff expired "")

  -- The deadline from the publish to the last retry. A message is published by a client in retry
  -- mode at the time `sent`, and arrives, with the same `expired` header, at a consumer in retry
  -- mode, whose handler asks for another try: it is rejected, to come back after the delay, as long
  -- as the clock is not past the deadline in whole seconds, and given up from then on. The
  -- deadline, which must lie before the year 10000, is `sent` plus the limit of the message, or
  -- else of the queue.
  pub settle_until_deadline :
      (publisher : Client) (r : RetryConfig) (msg : PublishMessage) (headers : Table) (sent : ℕ)
      (e : GoError) (h : History)
      → publisher.retry ≡ some r
      → lookup "expired" d.headers ≡ lookup "expired" (publish_headers publisher msg headers sent)
      → with_retry clnt ≡ true
      → IsMarked e
      → year_of (add_duration sent (retry_limit msg r)) < 10000
      → settle env fail clnt d (extract_expired_header clnt d) (returned (some e)) h ≡ (
          if ltb (cut (add_duration sent (retry_limit msg r))) (env.now h)
          then finalize_failed_retry fail clnt d e h
          else reject_delivery d h)
  unfolding settle extract_expired_header
  settle_until_deadline publisher r msg headers sent e h retries arrived mode marked early =
      let t = add_duration sent (retry_limit msg r) in
      ground (
        arith,
        publish_headers_lem publisher msg headers sent "expired",
        eq_iff "expired" "expired",
        eq_iff (format_rfc3339 t) "",
        format_rfc3339-ne-empty t early,
        is_expired-format_rfc3339 (env.now h) t early,
        (is_retryable_iff e).1 marked,
      )
