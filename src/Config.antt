-- ===== src/Config.antt =====
-- config.go, interfaces.go and the option types of options.go. Durations are int64 nanoseconds.
pub mod Options
pub mod Validate
use go_amqp_adapter.Base.{ℕ, Bool, Option, List, String, Dict}
use go_amqp_adapter.Base.Int.{ℤ}
use go_amqp_adapter.Errors.{GoError}

-- `time.Millisecond` and `time.Second`, in nanoseconds.
abbrev pub millisecond : ℕ
millisecond = 1_000_000

abbrev pub second : ℕ
second = 1_000_000_000

abbrev pub QueueName : Type 0
QueueName = String

pub record RetryConfig : Type 0 where
  pub delay : ℤ
  pub max_duration : ℤ

pub record QueueItem : Type 0 where
  pub retry : Option RetryConfig
  pub consumer_only : Bool

-- A nil map of queues is `none`.
pub record Config : Type 0 where
  pub url : String
  pub reconnect_delay : ℤ
  pub re_init_delay : ℤ
  pub resend_delay : ℤ
  pub queue_params : Option (Dict QueueItem)

-- A value of type `any` in a table: a string, an int64, or something else.
pub data Value : Type 0 where
  text : String → Value
  int : ℤ → Value
  other : ℕ → Value

-- `amqp.Table` and `map[string]any`.
abbrev pub Table : Type 0
Table = Dict Value

-- The values that a context carries; whether it is canceled is read from the environment.
abbrev pub Context : Type 0
Context = Dict String

abbrev pub Body : Type 0
Body = List ℕ

pub record PublishMessage : Type 0 where
  pub body : Body
  pub content_type : String
  pub max_retry_duration : Option ℤ
  pub priority : Option ℕ

abbrev pub default_content_type : String
default_content_type = "text/plain"

abbrev pub PublishHeadersBuilder : Type 0
PublishHeadersBuilder = Context → Table

abbrev pub ConsumeHeadersExtractor : Type 0
ConsumeHeadersExtractor = Context → Table → Context

-- A call of a handler returns an error or nil, or panics.
pub data Outcome : Type 0 where
  returned : Option GoError → Outcome
  panics : Outcome

abbrev pub ConsumerHandler : Type 0
ConsumerHandler = Context → Body → Outcome

pub record FailedJob : Type 0 where
  pub queue : QueueName
  pub body : Body
  pub error : GoError

abbrev pub FailJobHandler : Type 0
FailJobHandler = FailedJob → Option GoError
