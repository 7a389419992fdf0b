-- ===== src/Delivery/Settled.antt =====
-- Every message that is handled is settled once, and the handlers are called as they should be.
use go_amqp_adapter.Base.{
  ℕ, ◌+◌, ◌≡◌, Bool, true, false, not, ◌&&◌, ◌||◌, Option, none, some, [], ◌∷◌, String, arith,
  str_eq, is_some,
}
use go_amqp_adapter.Errors.Retryable.{is_retryable}
use go_amqp_adapter.Config.{
  Context, ConsumerHandler, ConsumeHeadersExtractor, Outcome, returned, panics, FailJobHandler,
}
use go_amqp_adapter.Broker.{
  Env, History, Event, Call, called, handled, job_failed, inflight_add, inflight_done, ack, nack,
  reject,
}
use go_amqp_adapter.Client.{Client, with_retry, amqp_table_to_map}
use go_amqp_adapter.Client.Expiry.{is_expired}
use go_amqp_adapter.Delivery.{Delivery, extract_expired_header, settle, handle_delivery}

-- How often a message was settled, a handler called, a job handed to the handler of failed jobs,
-- and the counter of handlers at work raised and lowered.
pub record Counts : Type 0 where
  pub settled : ℕ
  pub invoked : ℕ
  pub failed : ℕ
  pub raised : ℕ
  pub lowered : ℕ

abbrev add_settled : Call → Counts → Counts
add_settled (ack tag multiple) c = record c { settled = c.settled + 1 }
add_settled (nack tag multiple requeue) c = record c { settled = c.settled + 1 }
add_settled (reject tag requeue) c = record c { settled = c.settled + 1 }
add_settled _ c = c

abbrev add_event : Event → Counts → Counts
add_event (called call) c = add_settled call c
add_event (handled ctx body) c = record c { invoked = c.invoked + 1 }
add_event (job_failed job) c = record c { failed = c.failed + 1 }
add_event inflight_add c = record c { raised = c.raised + 1 }
add_event inflight_done c = record c { lowered = c.lowered + 1 }
add_event _ c = c

unfoldable pub counts : History → Counts
counts [] = record { settled = 0; invoked = 0; failed = 0; raised = 0; lowered = 0 }
counts (e ∷ h) = add_event e (counts h)

-- The job is given up: in retry mode, on an error that is not retryable or comes too late.
unfoldable pub gives_up : Env → Client → String → Outcome → History → Bool
gives_up env clnt expired panics h = false
gives_up env clnt expired (returned none) h = false
gives_up env clnt expired (returned (some e)) h =
    with_retry clnt
    && (not (is_retryable (some e)) || (str_eq expired "" || is_expired (env.now h) expired))

abbrev pub bit : Bool → ℕ
bit true = 1
bit false = 0

module _ (env : Env) (fail : Option FailJobHandler) (clnt : Client) (d : Delivery) where
  pub counts-settle :
      (expired : String) (o : Outcome) (h : History)
      → counts (settle env fail clnt d expired o h) ≡ record (counts h) {
        settled = (counts h).settled + 1;
        failed = (counts h).failed + bit (is_some fail && gives_up env clnt expired o h);
      }
  unfolding settle counts gives_up
  counts-settle expired panics h = ground arith
  counts-settle expired (returned none) h = ground arith
  counts-settle expired (returned (some e)) h = ground arith

  -- A message that a consumer with an extractor of headers takes is handled once and settled once,
  -- with one ack, nack or reject, whatever the handler does, a panic included; the counter of
  -- handlers at work is raised first and lowered last; and the handler of failed jobs, if there is
  -- one, is called once if the job is given up and not at all otherwise.
  pub handle_delivery-counts :
      (loop_ctx : Context) (extract : ConsumeHeadersExtractor) (callback : ConsumerHandler)
      (h : History)
      → clnt.consume_headers_extractor ≡ some extract
      → let ctx = extract loop_ctx (amqp_table_to_map d.headers) in
        let start = handled ctx d.body ∷ inflight_add ∷ h in
        let expired = extract_expired_header clnt d in
        let given_up = gives_up env clnt expired (callback ctx d.body) start in
        (h' : History) × (handle_delivery env fail loop_ctx clnt callback d h
          ≡ some (inflight_done ∷ h'))
        × (counts (inflight_done ∷ h') ≡ record {
          settled = (counts h).settled + 1;
          invoked = (counts h).invoked + 1;
          failed = (counts h).failed + bit (is_some fail && given_up);
          raised = (counts h).raised + 1;
          lowered = (counts h).lowered + 1;
        })
  unfolding handle_delivery counts
  handle_delivery-counts loop_ctx extract callback h set =
      let ctx = extract loop_ctx (amqp_table_to_map d.headers) in
      let start = handled ctx d.body ∷ inflight_add ∷ h in
      let expired = extract_expired_header clnt d in
      let o = callback ctx d.body in
      (
        settle env fail clnt d expired o start,
        ground arith,
        ground (arith, counts-settle expired o start),
      )
