-- ===== src/Store/Publish/Routed.antt =====
-- Which publisher a call of `Publish` reaches.
use go_amqp_adapter.Base.{
  ◌≡◌, true, false, Option, none, some, List, ◌∷◌, lookup, lookup-insert, str_eq, arith,
  if◌then◌else◌,
}
use go_amqp_adapter.Errors.{Result, err, err_queue_not_found, err_queue_consumer_only}
use go_amqp_adapter.Config.{Context, QueueName, QueueItem, PublishMessage}
use go_amqp_adapter.Broker.{Env, connecting}
use go_amqp_adapter.Client.{Client, ensure_connected}
use go_amqp_adapter.Client.Push.{Ready, Round, finished, push}
use go_amqp_adapter.Store.{World, params_of}
use go_amqp_adapter.Store.Consumers.{naming}
use go_amqp_adapter.Store.Publish.{connect_publisher, publish}

-- What `Publish` refuses before it reaches a client.
abbrev pub refusal : QueueName → Option QueueItem → Option Client → Option (Result (Unit {0}))
refusal name none clnt = some (err (naming err_queue_not_found name))
refusal name (some item) clnt =
    if item.consumer_only
    then some (err (naming err_queue_consumer_only name))
    else elim clnt [ none ↦ some (err (naming err_queue_not_found name)) | some _ ↦ none ]

-- A client that has started is the same when it is marked so again.
started_lem : (c : Client) → c.started ≡ true → record c { started = true } ≡ c
started_lem c e = ground arith

module _ (env : Env) (ctx : Context) (name : QueueName) (msg : PublishMessage) (ready : Ready)
    (rounds : List Round) (w : World) where
  -- A queue that is not configured, one that is for consumers only, and one without a publisher are
  -- refused with the error for each, and nothing happens.
  pub publish_refused :
      (res : Result (Unit {0}))
      → refusal name (lookup name (params_of w.store.config)) (lookup name w.store.publishers)
        ≡ some res
      → publish env ctx name msg ready rounds w ≡ (finished res, w)
  unfolding publish
  publish_refused res e = ground arith

  -- Any other message is pushed by the publisher of its queue, once that has started its reconnect
  -- loop; it starts it only the first time. The result is that of `push`, and no other publisher is
  -- touched.
  pub publish_routed :
      (item : QueueItem) (clnt : Client) (k : QueueName)
      → lookup name (params_of w.store.config) ≡ some item
      → item.consumer_only ≡ false
      → lookup name w.store.publishers ≡ some clnt
      → let (p, w') = publish env ctx name msg ready rounds w in
        let start = if clnt.started then w.history else connecting name ∷ w.history in
        let clnt' = record clnt { started = true } in
        (p ≡ (push env clnt' ctx msg ready rounds start).0)
        × (w'.history ≡ (push env clnt' ctx msg ready rounds start).1)
        × (lookup k w'.store.publishers
            ≡ (if str_eq name k then some clnt' else lookup k w.store.publishers))
  unfolding publish connect_publisher ensure_connected
  publish_routed item clnt k known open_to found = ground (
    arith,
    lookup-insert name k (record clnt { started = true }) w.store.publishers,
    started_lem clnt,
  )
