-- ===== src/Topology/Cycle.antt =====
-- What the declared topology does to a message: the parts of a broker that matter for retries, read
-- off the calls that were made. They follow the documentation of RabbitMQ: a queue sends what it
-- drops (a rejected message, or one whose time to live is over) to its dead-letter exchange, and a
-- fanout exchange copies a message to every queue bound to it.
use go_amqp_adapter.Base.{
  ℕ, ◌≡◌, List, [], ◌∷◌, Option, none, some, String, concat, arith, eq_iff, str_eq, if◌then◌else◌,
  lookup,
}
use go_amqp_adapter.Base.Int.{ℤ, div64}
use go_amqp_adapter.Config.{Table, Value, text, int, millisecond}
use go_amqp_adapter.Errors.{ok}
use go_amqp_adapter.Broker.{Env, History, Call, queue_declare, queue_bind}
use go_amqp_adapter.Topology.{init_queue}
use go_amqp_adapter.Topology.Plan.{plain_plan, recorded}

-- The table with which a queue was declared first; a later declaration cannot change it.
pub args_of : String → List Call → Option Table
args_of q [] = none
args_of q (queue_declare ch name durable auto_delete exclusive no_wait args ∷ cs) =
    if str_eq name q then some args else args_of q cs
args_of q (_ ∷ cs) = args_of q cs

-- The queues bound to an exchange.
pub bound_to : String → List Call → List String
bound_to ex [] = []
bound_to ex (queue_bind ch name key exchange no_wait ∷ cs) =
    if str_eq exchange ex then name ∷ bound_to ex cs else bound_to ex cs
bound_to ex (_ ∷ cs) = bound_to ex cs

abbrev as_text : Option Value → Option String
as_text (some (text s)) = some s
as_text _ = none

-- Where the messages that a queue drops arrive: nowhere, if it names no dead-letter exchange.
pub dead_letters : String → List Call → List String
unfolding args_of bound_to
dead_letters q cs = elim (args_of q cs) [
  | none ↦ []
  | some args ↦ elim (as_text (lookup "x-dead-letter-exchange" args)) [
    | none ↦ []
    | some ex ↦ bound_to ex cs
  ]
]

-- How long a queue keeps a message, in milliseconds.
pub time_to_live : String → List Call → Option ℤ
unfolding args_of
time_to_live q cs = elim (args_of q cs) [
  | none ↦ none
  | some args ↦ elim (lookup "x-message-ttl" args) [ some (int n) ↦ some n | _ ↦ none ]
]

pub record IsCycle (name : String) (retry_delay : ℤ) (cs : List Call) : Type 0 where
  pub out : dead_letters name cs ≡ concat name ".delay" ∷ []
  pub back : dead_letters (concat name ".delay") cs ≡ name ∷ []
  pub waits : time_to_live (concat name ".delay") cs ≡ some (div64 retry_delay millisecond)
  pub ageless : time_to_live name cs ≡ none

module _ (env : Env) where
  -- Without retry mode the queue has no dead-letter exchange: what it drops is gone.
  pub init_queue_drops :
      (name : String) (ch : ℕ) (h k : History) (q : String)
      → init_queue env name ch h ≡ (ok q, k)
      → (cs : List Call) × (k ≡ recorded cs h) × (dead_letters name cs ≡ [])
  unfolding init_queue dead_letters
  init_queue_drops name ch h k q e =
      (plain_plan name ch, ground arith, ground (arith, eq_iff name name))
