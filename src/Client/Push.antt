-- ===== src/Client/Push.antt =====
-- client.go: `WaitReady`, `push` and the functions that it calls. The lock `pushMu` makes a publish
-- and the wait for its confirmation one step, which is a round of the schedule below.
pub mod Outcomes
pub mod Failures
pub mod Tags
pub mod Confirms
mod Tests
pub mod Headers
pub mod Progress
use go_amqp_adapter.Base.{
  ℕ, Bool, true, false, Option, none, some, List, [], ◌∷◌, String, ◌==◌, ltb, str_eq, insert,
  if◌then◌else◌,
}
use go_amqp_adapter.Base.Int.{ℤ}
use go_amqp_adapter.Errors.{
  Sentinel, GoError, Result, ok, err, crash, sentinel, wrap, wrap_both, lit, str, quoted, num,
  operand, err_client_closed_before_ready, err_queue_connection_closed, err_invalid_priority,
  err_publish_failed, err_publish_nack, err_done_signal_before_ack, err_context_canceled_before_ack,
}
use go_amqp_adapter.Config.{Context, Table, PublishMessage, RetryConfig, text, default_content_type}
use go_amqp_adapter.Broker.{Env, History, Act, slept, Publishing, perform, failing, ch_publish}
use go_amqp_adapter.Time.Format.{format_rfc3339}
use go_amqp_adapter.Client.{Client, map_to_amqp_table, add_duration}
use go_amqp_adapter.Client.Close.{about_queue}
use go_amqp_adapter.Client.Link.{for_queue}

-- The cases of the three `select` statements.
pub data Ready : Type 0 where
  on_ctx on_done on_ready : Ready

pub data Confirm : Type 0 where
  on_done on_ctx : Confirm
  -- The confirmation of the broker: `Ack` and `DeliveryTag`.
  on_confirm : Bool → ℕ → Confirm

pub data Pause : Type 0 where
  on_done on_ctx on_timer : Pause

-- `fmt.Errorf("%w %q", s, clnt.queueName)`
abbrev pub for_quoted : Sentinel → String → GoError
for_quoted s name = wrap (operand ∷ lit " " ∷ quoted name ∷ []) (sentinel s)

-- `ctx.Err()` after the context is done; it is not nil then.
abbrev pub context_error : Option GoError → GoError
context_error none = GoError.context_canceled
context_error (some e) = e

-- `waitPublishConfirm`
pub wait_publish_confirm : Client → Confirm → Result (Unit {0})
wait_publish_confirm clnt Confirm.on_done =
    err (for_quoted err_done_signal_before_ack clnt.queue_name)
wait_publish_confirm clnt Confirm.on_ctx =
    err (for_quoted err_context_canceled_before_ack clnt.queue_name)
wait_publish_confirm clnt (Confirm.on_confirm true tag) = ok tt
wait_publish_confirm clnt (Confirm.on_confirm false tag) =
    err (for_quoted err_publish_nack clnt.queue_name)

-- `waitBeforePushRetry`
pub wait_before_push_retry : Client → Pause → Act (Unit {0})
wait_before_push_retry clnt Pause.on_done h =
    (err (for_quoted err_done_signal_before_ack clnt.queue_name), h)
wait_before_push_retry clnt Pause.on_ctx h =
    (err (for_quoted err_context_canceled_before_ack clnt.queue_name), h)
wait_before_push_retry clnt Pause.on_timer h = (ok tt, slept clnt.resend_delay ∷ h)

-- How long a message may be retried: its own limit, or that of the queue.
abbrev pub retry_limit : PublishMessage → RetryConfig → ℤ
retry_limit msg r = elim msg.max_retry_duration [ none ↦ r.max_duration | some d ↦ d ]

-- The headers of a publishing: those of the context, and the deadline in retry mode.
pub publish_headers : Client → PublishMessage → Table → ℕ → Table
unfolding map_to_amqp_table
publish_headers clnt msg headers now = elim clnt.retry [
  | none ↦ map_to_amqp_table headers
  | some r ↦
      insert "expired" (text (format_rfc3339 (add_duration now (retry_limit msg r))))
        (map_to_amqp_table headers)
]

abbrev pub max_publish_message_priority : ℕ
max_publish_message_priority = 9

-- `msg.Priority`, where a nil one is not set and so is zero.
abbrev pub priority_of : PublishMessage → ℕ
priority_of msg = elim msg.priority [ none ↦ 0 | some p ↦ p ]

pub publishing : Client → PublishMessage → Table → ℕ → Publishing
unfolding publish_headers
publishing clnt msg headers now = record {
  persistent = true;
  content_type = if str_eq msg.content_type "" then default_content_type else msg.content_type;
  body = msg.body;
  timestamp = now;
  headers = publish_headers clnt msg headers now;
  priority = priority_of msg;
}

-- One round of the loop in `push`: what the fields that the reconnect loop writes hold when the
-- lock is taken, and the cases that the two waits take.
pub record Round : Type 0 where
  pub is_ready : ℕ
  pub ch : Option ℕ
  pub confirm : Confirm
  pub pause : Pause

abbrev pub seen : Client → Round → Client
seen clnt r = record clnt { is_ready = r.is_ready; ch = r.ch }

-- How a call of `push` stands when the schedule ends.
pub data Push : Type 0 where
  finished : Result (Unit {0}) → Push
  unfinished : Push

module _ (env : Env) where
  -- `WaitReady`
  pub wait_ready : Client → Ready → Act (Unit {0})
  wait_ready clnt Ready.on_ctx h = (
    err (
        wrap
          (lit "context canceled while waiting for client "
            ∷ str clnt.queue_name
            ∷ lit " readiness: "
            ∷ operand
            ∷ [])
          (context_error (env.ctx_err h))),
    h,
  )
  wait_ready clnt Ready.on_done h =
      (err (for_queue err_client_closed_before_ready clnt.queue_name), h)
  wait_ready clnt Ready.on_ready h = (ok tt, h)

  -- A nil channel panics.
  publish_on : Client → Option ℕ → Publishing → Act (Unit {0})
  publish_on clnt none pub_msg h = (crash, h)
  publish_on clnt (some n) pub_msg h =
      failing (about_queue err_publish_failed clnt.queue_name)
        (perform env (ch_publish n "" clnt.queue_name true false pub_msg)) h

  -- `unsafePush`
  pub unsafe_push : Client → PublishMessage → Table → Act (Unit {0})
  unfolding publish_on
  unsafe_push clnt msg headers h =
      if clnt.is_ready == 0
      then (err (for_queue err_queue_connection_closed clnt.queue_name), h)
      else if ltb max_publish_message_priority (priority_of msg)
      then (
        err (
            wrap (operand ∷ lit ": " ∷ num (priority_of msg) ∷ []) (sentinel err_invalid_priority)),
        h,
      )
      else publish_on clnt clnt.ch (publishing clnt msg headers (env.now h)) h

  -- The part of a round under the lock.
  pub locked : Client → PublishMessage → Table → Round → Act (Unit {0})
  unfolding wait_publish_confirm
  locked clnt msg headers r h =
      let (sent, h') = unsafe_push (seen clnt r) msg headers h in
      elim sent [
        | ok _ ↦ (wait_publish_confirm clnt r.confirm, h')
        | err e ↦ (err e, h')
        | crash ↦ (crash, h')
      ]

  -- The loop of `push`.
  pub push_loop : Client → PublishMessage → Table → List Round → History → Push × History
  push_loop clnt msg headers [] h = (unfinished, h)
  push_loop clnt msg headers (r ∷ rs) h =
      let (res, h') = locked clnt msg headers r h in
      elim res [
        | ok _ ↦ (finished (ok tt), h')
        | crash ↦ (finished crash, h')
        | err e ↦
            let (waited, h'') = wait_before_push_retry clnt r.pause h' in
            elim waited [
              | ok _ ↦ push_loop clnt msg headers rs h''
              | err w ↦ (finished (err w), h'')
              | crash ↦ (finished crash, h'')
            ]
      ]

  -- `push`; a client without a builder of headers, which no publisher is, panics.
  pub push : Client → Context → PublishMessage → Ready → List Round → History → Push × History
  unfolding wait_ready
  push clnt ctx msg ready rounds h =
      let (waited, h') = wait_ready clnt ready h in
      elim waited [
        | err e ↦ (finished (err e), h')
        | crash ↦ (finished crash, h')
        | ok _ ↦ elim clnt.publish_headers_builder [
          | none ↦ (finished crash, h')
          | some build ↦ push_loop clnt msg (build ctx) rounds h'
        ]
      ]
