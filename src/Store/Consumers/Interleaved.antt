-- ===== src/Store/Consumers/Interleaved.antt =====
-- Consumers that are registered while another thread starts the consumers.
use go_amqp_adapter.Base.{
  ℕ, zero, suc, ◌+◌, ◌≡◌, ◌≢◌, refl, Bool, false, none, some, List, [], ◌∷◌, ◌++◌, Dict, lookup,
  insert, length-append, eq_iff, arith, length, replicate,
}
use go_amqp_adapter.Base.Int.{ℤ}
use go_amqp_adapter.Errors.{sentinel, err_consumers_already_started}
use go_amqp_adapter.Config.{QueueName, QueueItem, ConsumerHandler}
use go_amqp_adapter.Broker.{Env, History, connecting}
use go_amqp_adapter.Client.{Client}
use go_amqp_adapter.Store.{World, params_of}
use go_amqp_adapter.Store.Consumers.{
  consumer_client, workers, add_consumer_n, start_snapshot, init_consumer, count_clients,
  snapshot_consumers,
}
use go_amqp_adapter.Store.Consumers.Registered.{
  connected, loops_started, start_consumer_workers_lem, add_consumer_n_lem,
}

pub loops_started-connected :
    (n : ℕ) (name : QueueName) (h : History) → loops_started (connected n name h) ≡ loops_started h
unfolding loops_started
loops_started-connected zero name h = refl
loops_started-connected (suc n) name h = loops_started-connected n name (connecting name ∷ h)

pub length-replicate : (n : ℕ) (c : Client) → length (replicate n c) ≡ n
length-replicate zero c = refl
length-replicate (suc n) c = omega (arith, length-replicate n c)

-- The clients of a queue in a map.
abbrev pub at_key : Dict (List Client) → QueueName → List Client
at_key m k = elim (lookup k m) [ none ↦ [] | some cs ↦ cs ]

pub count-insert :
    (m : Dict (List Client)) (k : QueueName) (new : List Client)
    → count_clients (insert k (at_key m k ++ new) m) ≡ count_clients m + length new
unfolding count_clients
count-insert [] k new = omega arith
count-insert ((j, cs) ∷ m) k new =
    ground (arith, eq_iff j k, length-append cs new, count-insert m k new)

module _ (env : Env) (w : World) where
  -- One thread is in `InitConsumer`: it has found that it may start, and taken the snapshot of the
  -- clients, of which there are some. Then another thread adds consumers to a known queue, and then
  -- the first thread goes on. Both succeed, but the clients that were added are not in the
  -- snapshot: when all is done, more clients are registered than loops have been started, by as
  -- many as were added; and no later `InitConsumer` starts theirs.
  pub start_snapshot-add_consumer_n :
      (ends again : Bool) (name : QueueName) (parallelism : ℤ) (callback : ConsumerHandler)
      (param : QueueItem)
      → w.store.consumers_started ≡ false
      → count_clients w.store.consumers ≢ 0
      → lookup name (params_of w.store.config) ≡ some param
      → let a = add_consumer_n env false ends name parallelism callback w in
        let (e, w') = start_snapshot env (snapshot_consumers w.store) false a.world in
        (a.error ≡ none)
        × (e ≡ none)
        × (count_clients w'.store.consumers + loops_started w.history
            ≡ workers parallelism + loops_started w'.history)
        × (init_consumer env again w' ≡ (some (sentinel err_consumers_already_started), w'))
  unfolding start_snapshot init_consumer snapshot_consumers
  start_snapshot-add_consumer_n ends again name parallelism callback param early some_there known =
      let n = workers parallelism in
      let c = consumer_client w.store name param ends callback in
      ground (
        arith,
        add_consumer_n_lem env false ends name parallelism callback w param name early refl known,
        count-insert w.store.consumers name (replicate n c),
        length-replicate n c,
        loops_started-connected n name w.history,
        start_consumer_workers_lem w.store.consumers (connected n name w.history),
      )
