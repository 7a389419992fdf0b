-- ===== src/Errors.antt =====
-- errors.go, and the error values of Go that this package builds: sentinels, `fmt.Errorf` with one
-- or two `%w`, and `*RetryableError`. A foreign error is one of another package, known by its text;
-- an error that implements `Is`, `As` or `Unwrap` in its own way is not modelled.
pub mod Chain
pub mod Retryable
use go_amqp_adapter.Base.{ℕ, ◌≡◌, ◌⊎◌, String, List, [], ◌∷◌, ◌++◌}

-- The variables of errors.go, each a value of its own.
pub data Sentinel : Type 0 where
  err_closing_queue_connection err_closing_queue_channel err_starting_queue_consumption
        err_publish_failed err_publish_nack err_empty_url err_invalid_delay err_invalid_retry_config
        err_invalid_priority err_push_queue_connection_closed err_consume_queue_connection_closed
        err_open_channel err_enable_confirms err_connect_to_queue err_done_signal_before_ack
        err_context_canceled_before_ack err_bind_queue_to_exchange err_queue_not_found
        err_no_consumers_registered err_consumers_already_started err_queue_connection_closed
        err_client_closed_before_ready err_fail_handler_required err_queue_consumer_only
        err_context_canceled_on_consumer_start :
      Sentinel

-- The text given to `errors.New`.
pub sentinel_text : Sentinel → String
sentinel_text err_closing_queue_connection = "error closing queue connection"
sentinel_text err_closing_queue_channel = "error closing queue channel"
sentinel_text err_starting_queue_consumption = "error starting queue consumption"
sentinel_text err_publish_failed = "error publishing message to queue"
sentinel_text err_publish_nack = "broker nacked the published message"
sentinel_text err_empty_url = "RabbitMQ URL is not set"
sentinel_text err_invalid_delay = "config delay must be greater than zero"
sentinel_text err_invalid_retry_config = "invalid retry configuration"
sentinel_text err_invalid_priority = "message priority must be in range 0–9"
sentinel_text err_push_queue_connection_closed = "queue connection closed during publish"
sentinel_text err_consume_queue_connection_closed = "queue connection closed during consume"
sentinel_text err_open_channel = "failed to open queue channel"
sentinel_text err_enable_confirms = "failed to enable publisher confirms"
sentinel_text err_connect_to_queue = "failed to connect to queue at address"
sentinel_text err_done_signal_before_ack = "done signal received before publish confirm"
sentinel_text err_context_canceled_before_ack = "context canceled before publish confirm"
sentinel_text err_bind_queue_to_exchange = "error binding queue to exchange"
sentinel_text err_queue_not_found = "queue not found in configuration"
sentinel_text err_no_consumers_registered = "no consumers registered"
sentinel_text err_consumers_already_started = "consumers already started"
sentinel_text err_queue_connection_closed = "queue connection closed"
sentinel_text err_client_closed_before_ready = "client closed before ready"
sentinel_text err_fail_handler_required = "retry enabled but WithFailHandler was not provided"
sentinel_text err_queue_consumer_only = "queue is configured for consume only (ConsumerOnly)"
sentinel_text err_context_canceled_on_consumer_start = "context canceled while starting consumers"

-- One piece of a format: its fixed text, `%s` or `%v`, `%q`, `%d`, or `%w`.
pub data Piece : Type 0 where
  lit str quoted : String → Piece
  num : ℕ → Piece
  operand : Piece

abbrev pub Format : Type 0
Format = List Piece

pub data GoError : Type 0 where
  sentinel : Sentinel → GoError
  context_canceled context_deadline : GoError
  foreign : String → GoError
  -- `fmt.Errorf` with one `%w`, and with two.
  wrap : Format → GoError → GoError
  wrap_both : Format → GoError → GoError → GoError
  -- `&RetryableError{Err: nil}` and `&RetryableError{Err: err}`.
  retryable_nil : GoError
  retryable : GoError → GoError

-- The pieces of a text, with the messages of the operands in place of each `%w`.
render : Format → List Format → Format
render [] ms = []
render (operand ∷ f) [] = operand ∷ render f []
render (operand ∷ f) (m ∷ ms) = m ++ render f ms
render (lit s ∷ f) ms = lit s ∷ render f ms
render (str s ∷ f) ms = str s ∷ render f ms
render (quoted s ∷ f) ms = quoted s ∷ render f ms
render (num n ∷ f) ms = num n ∷ render f ms

-- The method `Error`.
pub message : GoError → Format
unfolding render sentinel_text
message (sentinel s) = lit (sentinel_text s) ∷ []
message context_canceled = lit "context canceled" ∷ []
message context_deadline = lit "context deadline exceeded" ∷ []
message (foreign s) = lit s ∷ []
message (wrap f e) = render f (message e ∷ [])
message (wrap_both f d e) = render f (message d ∷ message e ∷ [])
message retryable_nil = lit "retryable message processing error" ∷ []
message (retryable e) = lit "retryable message processing error: " ∷ message e

-- How a call of a Go function of type (T, error) ends: `ok a` is (a, nil), and `crash` is a
-- run-time panic, as the use of a nil function or of a nil channel.
pub data Result (A : Type 0) : Type 0 where
  ok : A → Result A
  err : GoError → Result A
  crash : Result A

-- `errors.Is(e, s)`: the sentinel stands in the tree of `e`.
abbrev pub Wraps : Sentinel → GoError → Type 0
Wraps s (sentinel t) = s ≡ t
Wraps s (wrap f e) = Wraps s e
Wraps s (wrap_both f d e) = Wraps s d ⊎ Wraps s e
Wraps s (retryable e) = Wraps s e
Wraps s _ = ⊥

-- The operands of a `wrap_both`, the outer ones first.
abbrev pub Holds : GoError → GoError → Type 0
Holds c (wrap f e) = (c ≡ e) ⊎ Holds c e
Holds c (wrap_both f d e) = (c ≡ d) ⊎ (c ≡ e) ⊎ Holds c d ⊎ Holds c e
Holds c (retryable e) = (c ≡ e) ⊎ Holds c e
Holds c _ = ⊥
