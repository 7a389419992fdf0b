-- ===== src/Broker.antt =====
-- What the adapter calls and does not implement: package amqp091-go and the broker behind it
-- (third party), the handlers of the application, the clock and the caller's context. They are a
-- parameter, `Env`: a reply to a call may be any function of all that has happened so far.
use go_amqp_adapter.Base.{ℕ, Bool, Option, none, some, List, ◌∷◌, String, length}
use go_amqp_adapter.Base.Int.{ℤ}
use go_amqp_adapter.Errors.{GoError, Result, ok, err, crash}
use go_amqp_adapter.Config.{Table, Context, Body, FailedJob}

-- `amqp.Publishing`, the fields that `unsafePush` sets; the time is in nanoseconds.
pub record Publishing : Type 0 where
  pub persistent : Bool
  pub content_type : String
  pub body : Body
  pub timestamp : ℕ
  pub headers : Table
  pub priority : ℕ

-- The methods of amqp091-go that the adapter calls, with their arguments. A connection and a
-- channel are numbers, and a delivery is known by its tag.
pub data Call : Type 0 where
  dial : String → Call
  conn_notify_close conn_channel conn_close : ℕ → Call
  ch_confirm : ℕ → (no_wait : Bool) → Call
  ch_notify_close ch_notify_publish ch_notify_return ch_close : ℕ → Call
  exchange_declare : ℕ → (name kind : String) (durable auto_delete internal no_wait : Bool) → Call
  queue_declare :
      ℕ → (name : String) (durable auto_delete exclusive no_wait : Bool) (args : Table) → Call
  queue_bind : ℕ → (name key exchange : String) (no_wait : Bool) → Call
  ch_qos : ℕ → (prefetch_count prefetch_size : ℕ) (global : Bool) → Call
  ch_publish : ℕ → (exchange key : String) (mandatory immediate : Bool) → Publishing → Call
  ch_consume : ℕ → (queue consumer : String) (auto_ack exclusive no_local no_wait : Bool) → Call
  ack : ℕ → (multiple : Bool) → Call
  nack : ℕ → (multiple requeue : Bool) → Call
  reject : ℕ → (requeue : Bool) → Call

-- What can be seen of a run.
pub data Event : Type 0 where
  called : Call → Event
  handled : Context → Body → Event
  job_failed : FailedJob → Event
  slept : ℤ → Event
  inflight_add inflight_done : Event
  -- `go clnt.handleReconnect(…)` and `go queue.runConsumerLoop(…)`, for a client of this queue.
  connecting consuming : String → Event

-- The latest event first.
abbrev pub History : Type 0
History = List Event

pub record Env : Type 0 where
  pub reply : History → Call → Option GoError
  -- `time.Now().UTC()`, in nanoseconds since the year 0.
  pub now : History → ℕ
  -- `ctx.Err()` of the caller's context.
  pub ctx_err : History → Option GoError

-- A function that may fail, and what has happened after it.
abbrev pub Act : Type 0 → Type 0
Act A = History → Result A × History

abbrev pub pure : {A : Type 0} → A → Act A
pure a h = (ok a, h)

infixl 5 ◌>>=◌ ◌>>◌
abbrev pub ◌>>=◌ : {A B : Type 0} → Act A → (A → Act B) → Act B
◌>>=◌ m f h =
    let (r, h') = m h in elim r [ ok a ↦ f a h' | err e ↦ (err e, h') | crash ↦ (crash, h') ]

abbrev pub ◌>>◌ : {A B : Type 0} → Act A → Act B → Act B
m >> k = m >>= λ _. k

-- `if err != nil { return fmt.Errorf(…, err) }`
abbrev pub failing : {A : Type 0} → (GoError → GoError) → Act A → Act A
failing f m h =
    let (r, h') = m h in
    elim r [ ok a ↦ (ok a, h') | err e ↦ (err (f e), h') | crash ↦ (crash, h') ]

abbrev pub answer : {A : Type 0} → A → Option GoError → Result A
answer a none = ok a
answer a (some e) = err e

module _ (env : Env) where
  abbrev pub perform : Call → Act (Unit {0})
  perform c h = (answer tt (env.reply h c), called c ∷ h)

  -- `_ = f()`, and the calls whose error is only logged.
  abbrev pub attempt : Call → Act (Unit {0})
  attempt c h = (ok tt, called c ∷ h)

  -- A call that opens a connection or a channel, which is new.
  abbrev pub acquire : Call → Act ℕ
  acquire c h = (answer (length h) (env.reply h c), called c ∷ h)
