-- ===== src/Store/Consumers.antt =====
-- queue.go: `AddConsumerN`, `AddConsumer` and `InitConsumer`.
pub mod Registered
pub mod Interleaved
use go_amqp_adapter.Base.{
  ℕ, zero, suc, Bool, true, false, Option, none, some, List, [], ◌∷◌, ◌++◌, String, Dict, lookup,
  insert, ◌==◌, ◌+◌, is_some, length, if◌then◌else◌,
}
use go_amqp_adapter.Base.Int.{ℤ, pos, negsuc}
use go_amqp_adapter.Errors.{
  Sentinel, GoError, Result, ok, err, crash, sentinel, wrap, wrap_both, lit, str, operand,
  err_consumers_already_started, err_queue_not_found, err_no_consumers_registered,
  err_context_canceled_on_consumer_start,
}
use go_amqp_adapter.Config.{QueueName, QueueItem, ConsumerHandler}
use go_amqp_adapter.Broker.{Env, History, Event, connecting, consuming}
use go_amqp_adapter.Client.{Client, new_client}
use go_amqp_adapter.Client.Session.{State}
use go_amqp_adapter.Client.Close.{close}
use go_amqp_adapter.Store.{Store, World, params_of}

-- `fmt.Errorf("%w: %s", s, name)`
abbrev pub naming : Sentinel → QueueName → GoError
naming s name = wrap (operand ∷ lit ": " ∷ str name ∷ []) (sentinel s)

-- The client that `addConsumerClient` makes; `ends` says whether the caller's context can end.
unfoldable pub consumer_client : Store → QueueName → QueueItem → Bool → ConsumerHandler → Client
consumer_client q name param ends callback = record (new_client name param q.config q.lgr) {
  callback = some callback;
  consumer_done = ends;
  consume_headers_extractor = some q.consume_headers_extractor;
}

-- `addConsumerClient`, which starts the reconnect loop of the new client.
unfoldable pub add_consumer_client :
    Store → QueueName → Bool → ConsumerHandler → History → Result Client × History
unfolding consumer_client
add_consumer_client q name ends callback h = elim (lookup name (params_of q.config)) [
  | none ↦ (err (naming err_queue_not_found name), h)
  | some param ↦ (ok (consumer_client q name param ends callback), connecting name ∷ h)
]

-- The loop `for range parallelism`: the error that ended it, and the clients made so far.
unfoldable pub add_clients :
    Store
    → QueueName
    → Bool
    → ConsumerHandler
    → ℕ
    → List Client
    → History
    → Option GoError × List Client × History
add_clients q name ends callback zero clients h = (none, clients, h)
add_clients q name ends callback (suc n) clients h =
    let (r, h') = add_consumer_client q name ends callback h in
    elim r [
      | ok c ↦ add_clients q name ends callback n (clients ++ c ∷ []) h'
      | err e ↦ (some e, clients, h')
      | crash ↦ (none, clients, h')
    ]

-- `parallelism`, where 0 and less count as 1.
abbrev pub workers : ℤ → ℕ
workers (pos zero) = 1
workers (pos (suc n)) = suc n
workers (negsuc n) = 1

-- What `AddConsumerN` leaves: its error, the world, and the clients that it closed again.
pub record Added : Type 0 where
  pub error : Option GoError
  pub world : World
  pub dropped : List Client

abbrev pub clients_of : Store → QueueName → List Client
clients_of q name = elim (lookup name q.consumers) [ none ↦ [] | some cs ↦ cs ]

abbrev register : Store → QueueName → List Client → Store
register q name clients = record q {
  consumers = insert name (clients_of q name ++ clients) q.consumers;
}

-- `snapshotConsumers`: a copy of the map, and the number of clients in it.
unfoldable pub count_clients : Dict (List Client) → ℕ
count_clients [] = 0
count_clients ((name, clients) ∷ rest) = length clients + count_clients rest

unfoldable pub snapshot_consumers : Store → Dict (List Client) × ℕ
unfolding count_clients
snapshot_consumers q = (q.consumers, count_clients q.consumers)

-- `startConsumerWorkers`
start_workers : List Client → History → History
start_workers [] h = h
start_workers (c ∷ cs) h = start_workers cs (consuming c.queue_name ∷ h)

unfoldable pub start_consumer_workers : Dict (List Client) → History → History
unfolding start_workers
start_consumer_workers [] h = h
start_consumer_workers ((name, clients) ∷ rest) h =
    start_consumer_workers rest (start_workers clients h)

module _ (env : Env) where
  -- The deferred loop that closes the clients after an error.
  unfoldable pub close_all : List Client → History → List Client × History
  close_all [] h = ([], h)
  close_all (c ∷ cs) h =
      let (e, s) = close env (record { client = c; history = h }) in
      let (rest, h') = close_all cs s.history in (s.client ∷ rest, h')

  failed : GoError → Store → List Client → History → Added
  failed e q clients h =
      let (closed, h') = close_all clients h in
      record { error = some e; world = record { store = q; history = h' }; dropped = closed }

  -- `AddConsumerN` under the lock. `raced` says that another thread has started the consumers since
  -- the test at the beginning.
  finish_adding : Bool → Store → QueueName → List Client → History → Added
  unfolding failed
  finish_adding raced q name clients h =
      if raced
      then failed (sentinel err_consumers_already_started) (record q { consumers_started = true })
          clients h
      else record {
        error = none;
        world = record { store = register q name clients; history = h };
        dropped = [];
      }

  -- `AddConsumerN`
  unfoldable pub add_consumer_n : Bool → Bool → QueueName → ℤ → ConsumerHandler → World → Added
  unfolding finish_adding failed
  add_consumer_n raced ends name parallelism callback w =
      if w.store.consumers_started
      then record { error = some (sentinel err_consumers_already_started); world = w; dropped = [] }
      else if is_some (lookup name (params_of w.store.config))
      then (let (e, clients, h) =
            add_clients w.store name ends callback (workers parallelism) [] w.history in
          elim e [
            | some e ↦ failed e w.store clients h
            | none ↦ finish_adding raced w.store name clients h
          ])
      else record { error = some (naming err_queue_not_found name); world = w; dropped = [] }

  -- `AddConsumer`
  unfoldable pub add_consumer : Bool → Bool → QueueName → ConsumerHandler → World → Added
  unfolding add_consumer_n
  add_consumer raced ends name callback w = add_consumer_n raced ends name (pos 1) callback w

  -- `guardConsumerStart`
  unfoldable pub guard_consumer_start : World → Option GoError
  guard_consumer_start w =
      if w.store.consumers_started
      then some (sentinel err_consumers_already_started)
      else elim (env.ctx_err w.history) [
        | none ↦ none
        | some e ↦ some (
            wrap_both (operand ∷ lit ": " ∷ operand ∷ [])
              (sentinel err_context_canceled_on_consumer_start) e)
      ]

  -- `InitConsumer` from its snapshot on, in the world of that moment; `raced` says that another
  -- thread wins the compare-and-swap.
  unfoldable pub start_snapshot : Dict (List Client) × ℕ → Bool → World → Option GoError × World
  start_snapshot (snapshot, total) raced w =
      if total == 0
      then (some (sentinel err_no_consumers_registered), w)
      else if raced
      then (
        some (sentinel err_consumers_already_started),
        record w { store = record w.store { consumers_started = true } },
      )
      else (
        none,
        record {
          store = record w.store { consumers_started = true };
          history = start_consumer_workers snapshot w.history;
        },
      )

  -- `InitConsumer`, when nothing comes between its steps but what `raced` says.
  unfoldable pub init_consumer : Bool → World → Option GoError × World
  unfolding guard_consumer_start start_snapshot
  init_consumer raced w = elim (guard_consumer_start w) [
    | some e ↦ (some e, w)
    | none ↦ start_snapshot (snapshot_consumers w.store) raced w
  ]
