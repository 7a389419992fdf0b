-- ===== src/Topology.antt =====
-- client.go: `initQueue` and `initQueueWithRetry`, which declare the queues of a client.
pub mod Plan
pub mod Cycle
mod Tests
use go_amqp_adapter.Base.{ℕ, Bool, true, false, List, [], ◌∷◌, String, concat}
use go_amqp_adapter.Base.Int.{ℤ, div64}
use go_amqp_adapter.Errors.{
  GoError, sentinel, wrap, wrap_both, lit, str, quoted, operand, err_bind_queue_to_exchange,
}
use go_amqp_adapter.Config.{QueueName, Table, text, int, millisecond}
use go_amqp_adapter.Broker.{
  Env, Act, pure, ◌>>=◌, ◌>>◌, failing, perform, exchange_declare, queue_declare, queue_bind,
  ch_qos,
}

-- `fmt.Errorf(before + "%s" + after + ": %w", name, err)`
abbrev named : String → String → String → GoError → GoError
named before name after e = wrap (lit before ∷ str name ∷ lit after ∷ lit ": " ∷ operand ∷ []) e

-- `fmt.Errorf("%w (for: %q): %w", ErrBindQueueToExchange, exchange, err)`
abbrev unbound : String → GoError → GoError
unbound exchange e =
    wrap_both (operand ∷ lit " (for: " ∷ quoted exchange ∷ lit "): " ∷ operand ∷ [])
      (sentinel err_bind_queue_to_exchange) e

-- The table of the main queue: what it drops goes to the delay exchange.
abbrev pub main_args : String → Table
main_args name = ("x-dead-letter-exchange", text (concat name ".delay.ex")) ∷ []

-- The table of the delay queue: a message returns to the main exchange after the delay.
abbrev pub delay_args : String → ℤ → Table
delay_args name retry_delay =
    ("x-dead-letter-exchange", text (concat name ".ex"))
    ∷ ("x-message-ttl", int (div64 retry_delay millisecond))
    ∷ []

module _ (env : Env) where
  -- `initQueue`; an `amqp.Queue` is known by its name.
  unfoldable pub init_queue : String → ℕ → Act QueueName
  init_queue name ch = do
    failing (named "error declaring queue " name "")
        (perform env (queue_declare ch name true false false false []))
    failing (named "error setting QoS for queue " name "") (perform env (ch_qos ch 1 0 false))
    pure name

  -- `initQueueWithRetry`
  unfoldable pub init_queue_with_retry : String → ℕ → ℤ → Act QueueName
  init_queue_with_retry name ch retry_delay = do
    failing (wrap (lit "error declaring queue exchange: " ∷ operand ∷ []))
        (perform env (exchange_declare ch (concat name ".ex") "fanout" true false false false))
    failing (wrap (lit "error declaring delay exchange: " ∷ operand ∷ [])) (
        perform env (exchange_declare ch (concat name ".delay.ex") "fanout" true false false false))
    failing (named "error declaring queue " name "")
        (perform env (queue_declare ch name true false false false (main_args name)))
    failing (named "error declaring queue " name ".delay") (
        perform env (
          queue_declare ch (concat name ".delay") true false false false
            (delay_args name retry_delay)))
    failing (unbound (concat name ".ex"))
        (perform env (queue_bind ch name (concat name ".bind") (concat name ".ex") false))
    failing (unbound (concat name ".delay.ex")) (
        perform env (
          queue_bind ch (concat name ".delay") (concat name ".delay.bind") (concat name ".delay.ex")
            false))
    failing (named "error setting QoS for queue " name "") (perform env (ch_qos ch 1 0 false))
    pure name
