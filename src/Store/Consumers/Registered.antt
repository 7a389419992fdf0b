-- ===== src/Store/Consumers/Registered.antt =====
-- What registering and starting consumers changes.
use mathlib.Core.List.{append_assoc, append-nil}
use go_amqp_adapter.Base.{
  ℕ, zero, suc, ◌+◌, ◌≡◌, ◌≢◌, ◌↔◌, Bool, true, false, none, some, List, [], ◌∷◌, ◌++◌, Dict,
  lookup, insert, lookup-insert, str_eq, arith, length, replicate, if◌then◌else◌,
}
use go_amqp_adapter.Base.Int.{ℤ}
use go_amqp_adapter.Errors.{sentinel, err_consumers_already_started}
use go_amqp_adapter.Config.{QueueName, QueueItem, ConsumerHandler}
use go_amqp_adapter.Broker.{Env, History, connecting, consuming}
use go_amqp_adapter.Client.{Client}
use go_amqp_adapter.Store.{Store, World, params_of}
use go_amqp_adapter.Store.Consumers.{
  consumer_client, add_consumer_client, add_clients, workers, clients_of, add_consumer_n,
  init_consumer, count_clients, snapshot_consumers, start_workers, start_consumer_workers,
}

-- The history after `n` reconnect loops have started.
abbrev pub connected : ℕ → QueueName → History → History
connected zero name h = h
connected (suc n) name h = connected n name (connecting name ∷ h)

module _ (q : Store) (name : QueueName) (param : QueueItem) (ends : Bool)
    (callback : ConsumerHandler) where
  add_clients_lem :
      (n : ℕ) (cs : List Client) (h : History)
      → lookup name (params_of q.config) ≡ some param
      → add_clients q name ends callback n cs h
        ≡ (none, cs ++ replicate n (consumer_client q name param ends callback), connected n name h)
  unfolding add_clients add_consumer_client
  add_clients_lem zero cs h known = rw append-nil
  add_clients_lem (suc n) cs h known =
      let c = consumer_client q name param ends callback in
      ground (
        arith,
        add_clients_lem n (cs ++ c ∷ []) (connecting name ∷ h) known,
        append_assoc cs (c ∷ []) (replicate n c),
      )

module _ (env : Env) (raced ends : Bool) (name : QueueName) (parallelism : ℤ)
    (callback : ConsumerHandler) (w : World) where
  -- Adding consumers to a known queue before the start, with no other thread starting them
  -- meanwhile, adds as many new clients as asked for, at least one, behind those that the queue
  -- has, and starts the reconnect loop of each; the consumers of the other queues, the publishers
  -- and the rest of the store stay.
  pub add_consumer_n_lem :
      (param : QueueItem) (k : QueueName)
      → w.store.consumers_started ≡ false
      → raced ≡ false
      → lookup name (params_of w.store.config) ≡ some param
      → let a = add_consumer_n env raced ends name parallelism callback w in
        let new =
          replicate (workers parallelism) (consumer_client w.store name param ends callback) in
        (a.error ≡ none)
        × (a.world.store ≡ record w.store {
          consumers = insert name (clients_of w.store name ++ new) w.store.consumers;
        })
        × (clients_of a.world.store k
            ≡ (if str_eq name k then clients_of w.store name ++ new else clients_of w.store k))
        × (a.world.history ≡ connected (workers parallelism) name w.history)
  unfolding add_consumer_n
  add_consumer_n_lem param k early alone known =
      let new =
        replicate (workers parallelism) (consumer_client w.store name param ends callback) in
      ground (
        arith,
        add_clients_lem w.store name param ends callback (workers parallelism) [] w.history known,
        lookup-insert name k (clients_of w.store name ++ new) w.store.consumers,
      )

  -- Once the consumers have started, no consumer can be added, and nothing happens.
  pub add_consumer_n_late :
      w.store.consumers_started ≡ true
      → add_consumer_n env raced ends name parallelism callback w
        ≡ record { error = some (sentinel err_consumers_already_started); world = w; dropped = [] }
  unfolding add_consumer_n
  add_consumer_n_late late = ground arith

-- The consumer loops that were started.
unfoldable pub loops_started : History → ℕ
loops_started [] = 0
loops_started (consuming name ∷ h) = suc (loops_started h)
loops_started (_ ∷ h) = loops_started h

start_workers_lem :
    (cs : List Client) (h : History)
    → loops_started (start_workers cs h) ≡ length cs + loops_started h
unfolding start_workers loops_started
start_workers_lem [] h = omega arith
start_workers_lem (c ∷ cs) h = omega (arith, start_workers_lem cs (consuming c.queue_name ∷ h))

pub start_consumer_workers_lem :
    (m : Dict (List Client)) (h : History)
    → loops_started (start_consumer_workers m h) ≡ count_clients m + loops_started h
unfolding start_consumer_workers count_clients
start_consumer_workers_lem [] h = omega arith
start_consumer_workers_lem ((name, cs) ∷ m) h =
    omega (arith, start_consumer_workers_lem m (start_workers cs h), start_workers_lem cs h)

module _ (env : Env) (raced : Bool) (w : World) where
  -- What a start needs.
  pub record CanStart : Type 0 where
    pub fresh : w.store.consumers_started ≡ false
    pub live : env.ctx_err w.history ≡ none
    pub some_registered : count_clients w.store.consumers ≢ 0
    pub alone : raced ≡ false

  -- Starting the consumers succeeds exactly if they have not been started, the context is not done,
  -- some consumer is registered and no other thread comes first.
  pub init_consumer_iff : ((init_consumer env raced w).0 ≡ none) ↔ CanStart
  unfolding init_consumer snapshot_consumers
  init_consumer_iff = ground arith

  -- When it succeeds, it starts one loop for each registered client, the store stays as it is but
  -- for the flag, and every later start fails and changes nothing.
  pub init_consumer_lem :
      (again : Bool)
      → (init_consumer env raced w).0 ≡ none
      → let w' = (init_consumer env raced w).1 in
        (loops_started w'.history ≡ count_clients w.store.consumers + loops_started w.history)
        × (w'.store ≡ record w.store { consumers_started = true })
        × (init_consumer env again w' ≡ (some (sentinel err_consumers_already_started), w'))
  unfolding init_consumer snapshot_consumers
  init_consumer_lem again done =
      ground (arith, start_consumer_workers_lem w.store.consumers w.history)
