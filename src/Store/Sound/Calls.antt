-- ===== src/Store/Sound/Calls.antt =====
-- The calls on a store keep what its clients need.
use go_amqp_adapter.Base.{
  ℕ, ◌≡◌, ◌⊎◌, inl, inr, Bool, none, some, List, [], ◌++◌, Dict, lookup, insert, arith, All,
  Option-cases, Bool-cases,
}
use go_amqp_adapter.Base.Int.{ℤ}
use go_amqp_adapter.Config.{
  QueueName, Context, PublishMessage, ConsumerHandler, PublishHeadersBuilder,
}
use go_amqp_adapter.Broker.{Env}
use go_amqp_adapter.Client.{Client, ensure_connected}
use go_amqp_adapter.Client.Push.{Ready, Round}
use go_amqp_adapter.Store.{Store, World, params_of}
use go_amqp_adapter.Store.Consumers.{
  workers, add_consumer_n, add_clients, clients_of, init_consumer, start_snapshot,
}
use go_amqp_adapter.Store.Publish.{publish, connect_publisher}
use go_amqp_adapter.Store.Shutdown.{
  close_publishers, close_consumers, close_clients, Idle, shutdown,
}
use go_amqp_adapter.Store.Sound.{
  IsPublisher, IsConsumer, AllPublishers, AllConsumers, IsSound, Keeps, All-insert, lookup-All,
  All-append, close_publishers-All, close_consumers-All, add_clients-All, clients_of-All,
}

-- What a call may do to the clients, if it keeps the rest.
module _ (q q' : Store) (ps : Dict Client) (cs : Dict (List Client)) where
  Keeps-record :
      q'.config ≡ q.config
      → q'.publish_headers_builder ≡ q.publish_headers_builder
      → q'.consume_headers_extractor ≡ q.consume_headers_extractor
      → q'.publishers ≡ ps
      → q'.consumers ≡ cs
      → AllPublishers q.publish_headers_builder ps
      → AllConsumers q.consume_headers_extractor cs
      → Keeps q q'
  Keeps-record config builder extractor publishers consumers all_ps all_cs = record {
    config = config;
    builder = builder;
    extractor = extractor;
    sound = record {
      publishing = rw builder (rw publishers all_ps);
      consuming = rw extractor (rw consumers all_cs);
    };
  }

module _ (env : Env) (raced ends : Bool) (name : QueueName) (parallelism : ℤ)
    (callback : ConsumerHandler) (w : World) where
  add_consumer_n_consumers :
      let q = w.store in
      let q' = (add_consumer_n env raced ends name parallelism callback w).world.store in
      let cs = (add_clients q name ends callback (workers parallelism) [] w.history).1 in
      (q'.config ≡ q.config)
      × (q'.publish_headers_builder ≡ q.publish_headers_builder)
      × (q'.consume_headers_extractor ≡ q.consume_headers_extractor)
      × (q'.publishers ≡ q.publishers)
      × ((q'.consumers ≡ q.consumers)
          ⊎ (q'.consumers ≡ insert name (clients_of q name ++ cs) q.consumers))
  unfolding add_consumer_n
  add_consumer_n_consumers = ground arith

  pub add_consumer_n-Keeps :
      IsSound w.store
      → Keeps w.store (add_consumer_n env raced ends name parallelism callback w).world.store
  add_consumer_n-Keeps v =
      let q = w.store in
      let q' = (add_consumer_n env raced ends name parallelism callback w).world.store in
      let cs = (add_clients q name ends callback (workers parallelism) [] w.history).1 in
      let P = IsConsumer q.consume_headers_extractor in
      let made = add_clients-All q name ends callback (workers parallelism) [] w.history tt in
      let joined =
        All-append (P name) (clients_of q name) cs (clients_of-All q name v.consuming) made in
      let inserted =
        All-insert (λ j. All (P j)) name (clients_of q name ++ cs) q.consumers joined v.consuming in
      let (config, builder, extractor, publishers, consumers) = add_consumer_n_consumers in
      elim consumers [
        | inl same ↦
            Keeps-record q q' q.publishers q.consumers config builder extractor publishers same
              v.publishing v.consuming
        | inr more ↦
            Keeps-record q q' q.publishers (insert name (clients_of q name ++ cs) q.consumers)
              config builder extractor publishers more v.publishing inserted
      ]

pub start_snapshot-Keeps :
    (env : Env) (snapshot : Dict (List Client)) (total : ℕ) (raced : Bool) (w : World)
    → IsSound w.store
    → Keeps w.store (start_snapshot env (snapshot, total) raced w).1.store
unfolding start_snapshot
start_snapshot-Keeps env snapshot total raced w v = ground (arith, v)

pub init_consumer-Keeps :
    (env : Env) (raced : Bool) (w : World)
    → IsSound w.store
    → Keeps w.store (init_consumer env raced w).1.store
unfolding init_consumer start_snapshot
init_consumer-Keeps env raced w v = ground (arith, v)

pub shutdown-Keeps :
    (env : Env) (idle : Idle) (w : World)
    → IsSound w.store
    → Keeps w.store (shutdown env idle w).1.store
unfolding shutdown close_clients
shutdown-Keeps env idle w v =
    let (e, ps, h) = close_publishers env w.store.publishers none w.history in
    let (e', cs, h') = close_consumers env w.store.consumers e h in
    ground (
      arith,
      v,
      close_publishers-All w.store env w.store.publishers none w.history v.publishing,
      close_consumers-All w.store env w.store.consumers e h v.consuming,
    )

module _ (env : Env) (ctx : Context) (name : QueueName) (msg : PublishMessage) (ready : Ready)
    (rounds : List Round) (w : World) where
  publish_publishers :
      let q = w.store in
      let q' = (publish env ctx name msg ready rounds w).1.store in
      (q'.config ≡ q.config)
      × (q'.publish_headers_builder ≡ q.publish_headers_builder)
      × (q'.consume_headers_extractor ≡ q.consume_headers_extractor)
      × (q'.consumers ≡ q.consumers)
      × ((q'.publishers ≡ q.publishers)
          ⊎ ((c : Client) × (lookup name q.publishers ≡ some c)
              × (q'.publishers ≡ insert name (ensure_connected c).0 q.publishers)))
  unfolding publish connect_publisher
  publish_publishers = elim (Option-cases (lookup name w.store.publishers)) [
    | inl missing ↦ ground arith
    | inr (c, found) ↦ elim (Option-cases (lookup name (params_of w.store.config))) [
      | inl unknown ↦ ground arith
      | inr (item, known) ↦ elim (Bool-cases item.consumer_only) [
        | inl closed ↦ ground arith
        | inr open_to ↦
            (ground arith, ground arith, ground arith, ground arith, inr (c, found, ground arith))
      ]
    ]
  ]

  started-IsPublisher :
      (build : PublishHeadersBuilder) (c : Client)
      → IsPublisher build name c
      → IsPublisher build name (ensure_connected c).0
  unfolding ensure_connected
  started-IsPublisher build c p = ground arith

  pub publish-Keeps :
      IsSound w.store → Keeps w.store (publish env ctx name msg ready rounds w).1.store
  publish-Keeps v =
      let q = w.store in
      let q' = (publish env ctx name msg ready rounds w).1.store in
      let P = IsPublisher q.publish_headers_builder in
      let (config, builder, extractor, consumers, publishers) = publish_publishers in
      elim publishers [
        | inl same ↦
            Keeps-record q q' q.publishers q.consumers config builder extractor same consumers
              v.publishing v.consuming
        | inr (c, found, more) ↦
            let p = lookup-All P name c q.publishers v.publishing found in
            let c' = (ensure_connected c).0 in
            Keeps-record q q' (insert name c' q.publishers) q.consumers config builder extractor
              more consumers
              (All-insert P name c' q.publishers (started-IsPublisher q.publish_headers_builder c p)
                v.publishing)
              v.consuming
      ]
