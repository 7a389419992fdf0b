-- ===== src/Store/Contract.antt =====
-- interfaces.go: `Queue`, the public contract of a store, as an abstract machine. It knows the
-- configured queues, whether the consumers have started, and how many are registered for each
-- queue.
pub mod Follows
mod Tests
use go_amqp_adapter.Base.{
  ℕ, suc, ◌+◌, Bool, true, false, Option, none, some, List, [], ◌∷◌, Dict, lookup, insert, length,
  ◌==◌, if◌then◌else◌,
}
use go_amqp_adapter.Base.Int.{ℤ}
use go_amqp_adapter.Errors.{
  Sentinel, GoError, Result, ok, err, crash, Wraps, err_queue_not_found, err_queue_consumer_only,
  err_consumers_already_started, err_no_consumers_registered,
  err_context_canceled_on_consumer_start,
}
use go_amqp_adapter.Config.{QueueItem, QueueName, Context, PublishMessage, ConsumerHandler}
use go_amqp_adapter.Broker.{Env}
use go_amqp_adapter.Client.{Client}
use go_amqp_adapter.Client.Push.{Ready, Round, Push, finished, unfinished}
use go_amqp_adapter.Store.{World, params_of}
use go_amqp_adapter.Store.Consumers.{workers, add_consumer_n, init_consumer}
use go_amqp_adapter.Store.Publish.{publish}
use go_amqp_adapter.Store.Shutdown.{Idle, shutdown}

-- A call, with its arguments, and what comes in from outside: how a publish goes, the error of the
-- context with which the consumers are started, and how the wait of a shutdown ends. `AddConsumer`
-- is `AddConsumerN` with 1.
pub data Command : Type 0 where
  publishes : Context → QueueName → PublishMessage → Ready → List Round → Command
  adds : (ends : Bool) → QueueName → (parallelism : ℤ) → ConsumerHandler → Command
  starts : (ctx_err : Option GoError) → Command
  shuts : Idle → Command

pub data Answer : Type 0 where
  of_error : Option GoError → Answer
  of_push : Push → Answer

-- A call on the store, while no other thread comes in between.
unfoldable pub call : Env → Command → World → Answer × World
call env (publishes ctx name msg ready rounds) w =
    let (p, w') = publish env ctx name msg ready rounds w in (of_push p, w')
call env (adds ends name parallelism callback) w =
    let a = add_consumer_n env false ends name parallelism callback w in (of_error a.error, a.world)
call env (starts ctx_err) w =
    let (e, w') = init_consumer (record env { ctx_err = λ h. ctx_err }) false w in (of_error e, w')
call env (shuts idle) w = let (e, w') = shutdown env idle w in (of_error e, w')

unfoldable pub calls : Env → List Command → World → List Answer × World
unfolding call
calls env [] w = ([], w)
calls env (c ∷ cs) w =
    let (a, w') = call env c w in let (answers, w'') = calls env cs w' in (a ∷ answers, w'')

-- The abstract state.
pub record View : Type 0 where
  pub params : Dict QueueItem
  pub started : Bool
  pub registered : Dict ℕ

-- What the contract says of an answer: no error, an error of this kind, or nothing.
pub data Reply : Type 0 where
  fine anything : Reply
  fails : Sentinel → Reply

abbrev pub number_of : Option ℕ → ℕ
number_of none = 0
number_of (some n) = n

unfoldable pub total : Dict ℕ → ℕ
total [] = 0
total ((k, n) ∷ m) = n + total m

-- The publish of a message to a queue that can be published to may go in any way.
unfoldable pub spec : Command → View → Reply × View
unfolding total
spec (publishes ctx name msg ready rounds) v = (
  elim (lookup name v.params) [
    | none ↦ fails err_queue_not_found
    | some item ↦ if item.consumer_only then fails err_queue_consumer_only else anything
  ],
  v,
)
spec (adds ends name parallelism callback) v =
    if v.started then (fails err_consumers_already_started, v) else elim (lookup name v.params) [
      | none ↦ (fails err_queue_not_found, v)
      | some item ↦ (
        fine,
        record v {
          registered =
              insert name (number_of (lookup name v.registered) + workers parallelism) v.registered;
        },
      )
    ]
spec (starts ctx_err) v =
    if v.started then (fails err_consumers_already_started, v) else elim ctx_err [
      | some e ↦ (fails err_context_canceled_on_consumer_start, v)
      | none ↦
          if total v.registered == 0
          then (fails err_no_consumers_registered, v)
          else (fine, record v { started = true })
    ]
spec (shuts idle) v = (anything, v)

unfoldable pub specs : List Command → View → List Reply × View
unfolding spec
specs [] v = ([], v)
specs (c ∷ cs) v = let (r, v') = spec c v in let (rs, v'') = specs cs v' in (r ∷ rs, v'')

-- The answer is one that the contract allows.
abbrev pub Allows : Reply → Answer → Type 0
Allows anything a = Unit {0}
Allows fine (of_error none) = Unit {0}
Allows (fails s) (of_error (some e)) = Wraps s e
Allows (fails s) (of_push (finished (err e))) = Wraps s e
Allows _ _ = ⊥

abbrev pub AllowsAll : List Reply → List Answer → Type 0
AllowsAll [] [] = Unit {0}
AllowsAll (r ∷ rs) (a ∷ answers) = Allows r a × AllowsAll rs answers
AllowsAll _ _ = ⊥

-- The abstract state of a store: its clients are forgotten but for their number.
abbrev pub sizes : Dict (List Client) → Dict ℕ
sizes [] = []
sizes ((name, cs) ∷ m) = (name, length cs) ∷ sizes m

abbrev pub view : World → View
view w = record {
  params = params_of w.store.config;
  started = w.store.consumers_started;
  registered = sizes w.store.consumers;
}
