-- ===== src/Store/Publish.antt =====
-- queue.go: `Publish`.
pub mod Routed
use go_amqp_adapter.Base.{
  Bool, true, false, Option, none, some, List, [], ◌∷◌, lookup, insert, if◌then◌else◌,
}
use go_amqp_adapter.Errors.{Result, ok, err, err_queue_not_found, err_queue_consumer_only}
use go_amqp_adapter.Config.{Context, QueueName, QueueItem, PublishMessage}
use go_amqp_adapter.Broker.{Env, History, connecting}
use go_amqp_adapter.Client.{Client, ensure_connected}
use go_amqp_adapter.Client.Push.{Ready, Round, Push, finished, push}
use go_amqp_adapter.Store.{Store, World, params_of}
use go_amqp_adapter.Store.Consumers.{naming}

-- The world after `publisher.ensureConnected()`: the client is shared with the map.
unfoldable pub connect_publisher : QueueName → Client → World → World
connect_publisher name clnt w =
    let (clnt', first) = ensure_connected clnt in
    record {
      store = record w.store { publishers = insert name clnt' w.store.publishers };
      history = if first then connecting name ∷ w.history else w.history;
    }

module _ (env : Env) where
  publish_with :
      QueueName → Client → Context → PublishMessage → Ready → List Round → World → Push × World
  publish_with name clnt ctx msg ready rounds w =
      let w' = connect_publisher name clnt w in
      let (p, h) = push env (ensure_connected clnt).0 ctx msg ready rounds w'.history in
      (p, record w' { history = h })

  -- `Publish` of a queue whose parameters are known.
  publish_known :
      QueueName → QueueItem → Context → PublishMessage → Ready → List Round → World → Push × World
  unfolding publish_with
  publish_known name param ctx msg ready rounds w =
      if param.consumer_only
      then (finished (err (naming err_queue_consumer_only name)), w)
      else elim (lookup name w.store.publishers) [
        | none ↦ (finished (err (naming err_queue_not_found name)), w)
        | some clnt ↦ publish_with name clnt ctx msg ready rounds w
      ]

  -- `Publish`
  unfoldable pub publish :
      Context → QueueName → PublishMessage → Ready → List Round → World → Push × World
  unfolding publish_known
  publish ctx name msg ready rounds w = elim (lookup name (params_of w.store.config)) [
    | none ↦ (finished (err (naming err_queue_not_found name)), w)
    | some param ↦ publish_known name param ctx msg ready rounds w
  ]
