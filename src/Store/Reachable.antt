-- ===== src/Store/Reachable.antt =====
-- The states that a store can reach by calls of its methods and by the work of its clients.
use go_amqp_adapter.Base.{ℕ, Bool, Option, none, some, List, [], ◌∷◌, Dict}
use go_amqp_adapter.Base.Int.{ℤ}
use go_amqp_adapter.Config.{
  Config, QueueName, Context, PublishMessage, ConsumerHandler, PublishHeadersBuilder,
}
use go_amqp_adapter.Config.Options.{Options}
use go_amqp_adapter.Broker.{Env, Event}
use go_amqp_adapter.Client.{Client}
use go_amqp_adapter.Client.Push.{Ready, Round}
use go_amqp_adapter.Store.{Store, World}
use go_amqp_adapter.Store.Consumers.{add_consumer_n, init_consumer, start_snapshot}
use go_amqp_adapter.Store.Publish.{publish}
use go_amqp_adapter.Store.Shutdown.{Idle, shutdown}
use go_amqp_adapter.Store.Sound.{IsPublisher}

-- What the loops of a client, or `close` in one of them, have written to it: the fields of `d`.
abbrev pub relinked : Client → Client → Client
relinked d c = record c {
  conn = d.conn;
  ch = d.ch;
  notify_conn_close = d.notify_conn_close;
  notify_chan_close = d.notify_chan_close;
  notify_confirm = d.notify_confirm;
  is_ready = d.is_ready;
  ready = d.ready;
  done = d.done;
  closed_once = d.closed_once;
}

pub relinked_list : (Client → Client) → List Client → List Client
relinked_list f [] = []
relinked_list f (c ∷ cs) = relinked (f c) c ∷ relinked_list f cs

pub relinked_publishers : (Client → Client) → Dict Client → Dict Client
relinked_publishers f [] = []
relinked_publishers f ((k, c) ∷ m) = (k, relinked (f c) c) ∷ relinked_publishers f m

pub relinked_consumers : (Client → Client) → Dict (List Client) → Dict (List Client)
relinked_consumers f [] = []
relinked_consumers f ((k, cs) ∷ m) = (k, relinked_list f cs) ∷ relinked_consumers f m

abbrev pub relinked_store : (Client → Client) → Store → Store
relinked_store f q = record q {
  publishers = relinked_publishers f q.publishers;
  consumers = relinked_consumers f q.consumers;
}

module _ (env : Env) where
  -- One step: a call of a method, the second half of an `InitConsumer` whose first half came
  -- earlier, the work of the clients, or an event that does not touch the store.
  pub data Step : World → World → Type 0 where
    publishes :
        (ctx : Context) (name : QueueName) (msg : PublishMessage) (ready : Ready)
        (rounds : List Round) (w : World)
        → Step w (publish env ctx name msg ready rounds w).1
    adds :
        (raced ends : Bool) (name : QueueName) (parallelism : ℤ) (callback : ConsumerHandler)
        (w : World)
        → Step w (add_consumer_n env raced ends name parallelism callback w).world
    starts : (raced : Bool) (w : World) → Step w (init_consumer env raced w).1
    goes_on :
        (snapshot : Dict (List Client)) (total : ℕ) (raced : Bool) (w : World)
        → Step w (start_snapshot env (snapshot, total) raced w).1
    shuts : (idle : Idle) (w : World) → Step w (shutdown env idle w).1
    works :
        (f : Client → Client) (w : World) → Step w (record w { store = relinked_store f w.store })
    passes : (e : Event) (w : World) → Step w (record w { history = e ∷ w.history })

  pub data Reaches : World → World → Type 0 where
    here : {w : World} → Reaches w w
    after : {u v w : World} → Reaches u v → Step v w → Reaches u w

-- The queue has no publisher, or a proper one.
abbrev pub IsPublisherIfThere : PublishHeadersBuilder → QueueName → Option Client → Type 0
IsPublisherIfThere build k none = Unit {0}
IsPublisherIfThere build k (some c) = IsPublisher build k c
