-- ===== src/Client/Consume.antt =====
-- client.go: `consume`. The result is the channel on which deliveries arrive.
use go_amqp_adapter.Base.{ℕ, false, Option, none, some, ◌==◌, if◌then◌else◌}
use go_amqp_adapter.Errors.{
  err, crash, err_consume_queue_connection_closed, err_starting_queue_consumption,
}
use go_amqp_adapter.Broker.{Env, Act, ◌>>◌, pure, failing, perform, ch_consume}
use go_amqp_adapter.Client.{Client}
use go_amqp_adapter.Client.Close.{about_queue}
use go_amqp_adapter.Client.Link.{for_queue}

module _ (env : Env) where
  -- A nil channel panics.
  consume_on : Client → Option ℕ → Act ℕ
  consume_on clnt none h = (crash, h)
  consume_on clnt (some n) h =
      (failing (about_queue err_starting_queue_consumption clnt.queue_name)
            (perform env (ch_consume n clnt.queue_name "" false false false false))
          >> pure n)
        h

  unfoldable pub consume : Client → Act ℕ
  unfolding consume_on
  consume clnt h =
      if clnt.is_ready == 0
      then (err (for_queue err_consume_queue_connection_closed clnt.queue_name), h)
      else consume_on clnt clnt.ch h
