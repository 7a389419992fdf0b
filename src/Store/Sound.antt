-- ===== src/Store/Sound.antt =====
-- What every client of a store has that its work needs, and that closing and adding keep it.
pub mod Calls
use go_amqp_adapter.Base.{
  ℕ, zero, suc, ◌≡◌, ◌≢◌, ◌⊎◌, inl, inr, refl, Bool, true, false, Option, none, some, List, [], ◌∷◌,
  ◌++◌, Dict, lookup, insert, eq_iff, arith, All, str_eq, if◌then◌else◌, Option-cases, Bool-cases,
}
use go_amqp_adapter.Base.Int.{ℤ}
use go_amqp_adapter.Errors.{ok, GoError}
use go_amqp_adapter.Config.{
  Config, QueueName, QueueItem, Context, PublishMessage, ConsumerHandler, PublishHeadersBuilder,
  ConsumeHeadersExtractor,
}
use go_amqp_adapter.Config.Options.{Setter, Options}
use go_amqp_adapter.Broker.{Env, History, connecting}
use go_amqp_adapter.Client.{Client, new_client, new_publisher_client, ensure_connected}
use go_amqp_adapter.Client.Close.{close}
use go_amqp_adapter.Client.Push.{Ready, Round}
use go_amqp_adapter.Store.{Store, World, params_of, new, new_store, add_publishers}
use go_amqp_adapter.Store.Consumers.{
  workers, add_consumer_n, consumer_client, add_consumer_client, add_clients, clients_of,
  init_consumer, start_snapshot,
}
use go_amqp_adapter.Store.Publish.{publish, connect_publisher}
use go_amqp_adapter.Store.Shutdown.{
  close_one_client, close_publishers, close_queue, close_consumers, close_clients, Idle, shutdown,
}

-- A publisher and a consumer of the queue `k`, with what `push` and `handleDelivery` need.
pub record IsPublisher (build : PublishHeadersBuilder) (k : QueueName) (c : Client) : Type 0 where
  pub named : c.queue_name ≡ k
  pub builds : c.publish_headers_builder ≡ some build

pub record IsConsumer (extract : ConsumeHeadersExtractor) (k : QueueName) (c : Client)
    : Type 0 where
  pub named : c.queue_name ≡ k
  pub extracts : c.consume_headers_extractor ≡ some extract
  pub handles : c.callback ≢ none

abbrev pub AllPublishers : PublishHeadersBuilder → Dict Client → Type 0
AllPublishers build = All (λ entry. IsPublisher build entry.0 entry.1)

abbrev pub AllConsumers : ConsumeHeadersExtractor → Dict (List Client) → Type 0
AllConsumers extract = All (λ entry. All (IsConsumer extract entry.0) entry.1)

-- Every client of the store stands under the name of its queue, and has what its work needs.
pub record IsSound (q : Store) : Type 0 where
  pub publishing : AllPublishers q.publish_headers_builder q.publishers
  pub consuming : AllConsumers q.consume_headers_extractor q.consumers

-- A store keeps its configuration, its handlers and its builders.
pub record Keeps (q q' : Store) : Type 0 where
  pub config : q'.config ≡ q.config
  pub builder : q'.publish_headers_builder ≡ q.publish_headers_builder
  pub extractor : q'.consume_headers_extractor ≡ q.consume_headers_extractor
  pub sound : IsSound q'

module _ {V : Type 0} (P : QueueName → V → Type 0) where
  pub All-insert :
      (k : QueueName) (v : V) (m : Dict V)
      → P k v
      → All (λ e. P e.0 e.1) m
      → All (λ e. P e.0 e.1) (insert k v m)
  All-insert k v [] p ps = (p, tt)
  All-insert k v ((j, w) ∷ m) p ps = elim (Bool-cases (str_eq j k)) [
    | inl same ↦ rw same (p, ps.1)
    | inr other ↦ rw other (ps.0, All-insert k v m p ps.1)
  ]

  pub lookup-All :
      (k : QueueName) (v : V) (m : Dict V) → All (λ e. P e.0 e.1) m → lookup k m ≡ some v → P k v
  lookup-All k v [] ps found = cc
  lookup-All k v ((j, w) ∷ m) ps found = elim (Bool-cases (str_eq j k)) [
    | inl same ↦
        let key : k ≡ j = ground (arith, eq_iff j k) in
        let value : v ≡ w = ground arith in rw key (rw value ps.0)
    | inr other ↦ lookup-All k v m ps.1 (ground arith)
  ]

pub All-append :
    {A : Type 0} (P : A → Type 0) (xs ys : List A) → All P xs → All P ys → All P (xs ++ ys)
All-append P [] ys ps qs = qs
All-append P (x ∷ xs) ys ps qs = (ps.0, All-append P xs ys ps.1 qs)

or_empty-All :
    {A : Type 0} (P : A → Type 0) (o : Option (List A))
    → ((xs : List A) → o ≡ some xs → All P xs)
    → All P (elim o [ none ↦ [] | some xs ↦ xs ])
or_empty-All P none h = tt
or_empty-All P (some xs) h = h xs refl

module _ (q : Store) where
  -- A client that closes stays what it is.
  close-IsPublisher :
      (env : Env) (k : QueueName) (c : Client) (h : History)
      → IsPublisher q.publish_headers_builder k c
      → IsPublisher q.publish_headers_builder k
          (close env (record { client = c; history = h })).1.client
  unfolding close
  close-IsPublisher env k c h p = ground arith

  close-IsConsumer :
      (env : Env) (k : QueueName) (c : Client) (h : History)
      → IsConsumer q.consume_headers_extractor k c
      → IsConsumer q.consume_headers_extractor k
          (close env (record { client = c; history = h })).1.client
  unfolding close
  close-IsConsumer env k c h p = ground arith

  pub close_publishers-All :
      (env : Env) (m : Dict Client) (e : Option GoError) (h : History)
      → AllPublishers q.publish_headers_builder m
      → AllPublishers q.publish_headers_builder (close_publishers env m e h).1
  unfolding close_publishers close_one_client
  close_publishers-All env [] e h ps = tt
  close_publishers-All env ((k, c) ∷ m) e h ps =
      let (e', c', h') = close_one_client env k 0 "publisher" c e h in
      (close-IsPublisher env k c h ps.0, close_publishers-All env m e' h' ps.1)

  close_queue-All :
      (env : Env) (k : QueueName) (i : ℕ) (cs : List Client) (e : Option GoError) (h : History)
      → All (IsConsumer q.consume_headers_extractor k) cs
      → All (IsConsumer q.consume_headers_extractor k) (close_queue env k i cs e h).1
  unfolding close_queue close_one_client
  close_queue-All env k i [] e h ps = tt
  close_queue-All env k i (c ∷ cs) e h ps =
      let (e', c', h') = close_one_client env k i "consumer" c e h in
      (close-IsConsumer env k c h ps.0, close_queue-All env k (suc i) cs e' h' ps.1)

  pub close_consumers-All :
      (env : Env) (m : Dict (List Client)) (e : Option GoError) (h : History)
      → AllConsumers q.consume_headers_extractor m
      → AllConsumers q.consume_headers_extractor (close_consumers env m e h).1
  unfolding close_consumers
  close_consumers-All env [] e h ps = tt
  close_consumers-All env ((k, cs) ∷ m) e h ps =
      let (e', cs', h') = close_queue env k 0 cs e h in
      (close_queue-All env k 0 cs e h ps.0, close_consumers-All env m e' h' ps.1)

  pub add_clients-All :
      (name : QueueName) (ends : Bool) (callback : ConsumerHandler) (n : ℕ) (cs : List Client)
      (h : History)
      → All (IsConsumer q.consume_headers_extractor name) cs
      → All
          (IsConsumer q.consume_headers_extractor name)
          (add_clients q name ends callback n cs h).1
  unfolding add_clients add_consumer_client consumer_client new_client
  add_clients-All name ends callback zero cs h ps = ps
  add_clients-All name ends callback (suc n) cs h ps =
      elim (Option-cases (lookup name (params_of q.config))) [
        | inl missing ↦ ground (arith, missing, ps)
        | inr (param, known) ↦
            let c = consumer_client q name param ends callback in
            let added =
              All-append (IsConsumer q.consume_headers_extractor name) cs (c ∷ []) ps
                (record { named = refl; extracts = refl; handles = λ e. cc }, tt) in
            ground (
              arith,
              known,
              add_clients-All name ends callback n (cs ++ c ∷ []) (connecting name ∷ h) added,
            )
      ]

  pub clients_of-All :
      (k : QueueName)
      → AllConsumers q.consume_headers_extractor q.consumers
      → All (IsConsumer q.consume_headers_extractor k) (clients_of q k)
  clients_of-All k ps =
      or_empty-All (IsConsumer q.consume_headers_extractor k) (lookup k q.consumers) (λ cs found.
        lookup-All (λ j. All (IsConsumer q.consume_headers_extractor j)) k cs q.consumers ps found)
