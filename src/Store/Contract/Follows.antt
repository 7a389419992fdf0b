-- ===== src/Store/Contract/Follows.antt =====
-- The store keeps the contract.
use go_amqp_adapter.Base.{
  ℕ, suc, ◌+◌, ◌≡◌, subst, refl, inl, inr, ap, ◌∙◌, Bool, false, Option, none, List, [], ◌∷◌, ◌++◌,
  Dict, lookup, insert, length, replicate, length-append, eq_iff, arith, Option-cases, Bool-cases,
}
use go_amqp_adapter.Base.Int.{ℤ}
use go_amqp_adapter.Errors.{GoError, ok}
use go_amqp_adapter.Config.{Config, QueueName, Context, PublishMessage, ConsumerHandler}
use go_amqp_adapter.Config.Options.{Setter, default_options, apply_options}
use go_amqp_adapter.Broker.{Env, History}
use go_amqp_adapter.Client.{Client}
use go_amqp_adapter.Client.Push.{Ready, Round}
use go_amqp_adapter.Store.{Store, World, params_of, new, new_store}
use go_amqp_adapter.Store.Created.{made_is}
use go_amqp_adapter.Store.Consumers.{
  workers, consumer_client, add_consumer_n, init_consumer, count_clients, snapshot_consumers,
}
use go_amqp_adapter.Store.Consumers.Registered.{add_consumer_n_lem}
use go_amqp_adapter.Store.Consumers.Interleaved.{at_key, length-replicate}
use go_amqp_adapter.Store.Publish.{publish, connect_publisher}
use go_amqp_adapter.Store.Shutdown.{
  Idle, shutdown, close_publishers, close_one_client, close_queue, close_consumers, close_clients,
}
use go_amqp_adapter.Store.Contract.{
  Command, publishes, adds, starts, shuts, call, calls, View, spec, specs, number_of, total, Allows,
  AllowsAll, sizes, view,
}

total-sizes : (m : Dict (List Client)) → total (sizes m) ≡ count_clients m
unfolding total count_clients
total-sizes [] = refl
total-sizes ((k, cs) ∷ m) = omega (arith, total-sizes m)

sizes-insert :
    (m : Dict (List Client)) (k : QueueName) (new : List Client)
    → sizes (insert k (at_key m k ++ new) m)
      ≡ insert k (number_of (lookup k (sizes m)) + length new) (sizes m)
sizes-insert [] k new = ap (λ n. (k, n) ∷ []) (omega arith)
sizes-insert ((j, cs) ∷ m) k new =
    ground (arith, eq_iff j k, length-append cs new, sizes-insert m k new)

close_queue-length :
    (env : Env) (name : QueueName) (i : ℕ) (cs : List Client) (first : Option GoError) (h : History)
    → length (close_queue env name i cs first h).1 ≡ length cs
unfolding close_queue
close_queue-length env name i [] first h = refl
close_queue-length env name i (c ∷ cs) first h =
    let (first', c', h') = close_one_client env name i "consumer" c first h in
    omega (arith, close_queue-length env name (suc i) cs first' h')

sizes-close_consumers :
    (env : Env) (m : Dict (List Client)) (first : Option GoError) (h : History)
    → sizes (close_consumers env m first h).1 ≡ sizes m
unfolding close_consumers
sizes-close_consumers env [] first h = refl
sizes-close_consumers env ((k, cs) ∷ m) first h =
    let (first', cs', h') = close_queue env k 0 cs first h in
    ground (arith, close_queue-length env k 0 cs first h, sizes-close_consumers env m first' h')

-- The answer is allowed, and the abstract state goes on as the contract says.
abbrev pub Follows : Env → Command → World → Type 0
Follows env c w =
    let (r, v) = spec c (view w) in let (a, w') = call env c w in Allows r a × (view w' ≡ v)

module _ (env : Env) where
  publishes-Follows :
      (ctx : Context) (name : QueueName) (msg : PublishMessage) (ready : Ready)
      (rounds : List Round) (w : World)
      → Follows env (publishes ctx name msg ready rounds) w
  unfolding call spec publish connect_publisher
  publishes-Follows ctx name msg ready rounds w = ground arith

  adds-Follows :
      (ends : Bool) (name : QueueName) (n : ℤ) (callback : ConsumerHandler) (w : World)
      → Follows env (adds ends name n callback) w
  unfolding call spec add_consumer_n
  adds-Follows ends name n callback w = elim (Bool-cases w.store.consumers_started) [
    | inl late ↦ ground (arith, late)
    | inr early ↦ elim (Option-cases (lookup name (params_of w.store.config))) [
      | inl unknown ↦ ground (arith, early, unknown)
      | inr (param, known) ↦
          let c = consumer_client w.store name param ends callback in
          ground (
            arith,
            early,
            known,
            add_consumer_n_lem env false ends name n callback w param name early refl known,
            sizes-insert w.store.consumers name (replicate (workers n) c),
            length-replicate (workers n) c,
          )
    ]
  ]

  starts-Follows : (ctx_err : Option GoError) (w : World) → Follows env (starts ctx_err) w
  unfolding call spec init_consumer snapshot_consumers
  starts-Follows ctx_err w = ground (arith, total-sizes w.store.consumers)

  shuts-Follows : (idle : Idle) (w : World) → Follows env (shuts idle) w
  unfolding call spec shutdown close_clients
  shuts-Follows idle w =
      let (first, ps, h) = close_publishers env w.store.publishers none w.history in
      ground (arith, sizes-close_consumers env w.store.consumers first h)

  call-Follows : (c : Command) (w : World) → Follows env c w
  call-Follows (publishes ctx name msg ready rounds) w =
      publishes-Follows ctx name msg ready rounds w
  call-Follows (adds ends name n callback) w = adds-Follows ends name n callback w
  call-Follows (starts ctx_err) w = starts-Follows ctx_err w
  call-Follows (shuts idle) w = shuts-Follows idle w

  calls-Follows :
      (cs : List Command) (w : World)
      → let (rs, v) = specs cs (view w) in
        let (answers, w') = calls env cs w in AllowsAll rs answers × (view w' ≡ v)
  unfolding calls specs
  calls-Follows [] w = (tt, refl)
  calls-Follows (c ∷ cs) w =
      let (allowed, same) = call-Follows c w in
      let (r, v) = spec c (view w) in
      let (a, w') = call env c w in
      let (rest, same') = calls-Follows cs w' in
      (
        (allowed, subst (λ x. AllowsAll (specs cs x).0 (calls env cs w').0) same rest),
        same' ∙ ap (λ x. (specs cs x).1) same,
      )

  -- The contract of `Queue`. A store that `New` has made takes calls of its methods, in any number
  -- and order, one after another; contexts, handlers, messages and the broker are arbitrary. Then
  -- the errors are nil or of the kinds that the abstract machine says, call by call: it knows only
  -- the configured queues, whether the consumers have started, and how many are registered for each
  -- queue; and at the end it is in the state of the store.
  pub calls-AllowsAll :
      (conf : Config) (setters : List Setter) (q : Store) (cs : List Command)
      → new conf setters ≡ ok q
      → let start : View = record { params = params_of conf; started = false; registered = [] } in
        let (rs, v) = specs cs start in
        let (answers, w) = calls env cs (record { store = q; history = [] }) in
        AllowsAll rs answers × (view w ≡ v)
  calls-AllowsAll conf setters q cs made = rw (made_is conf setters q made) (
      calls-Follows cs
        (record { store = new_store conf (apply_options setters default_options); history = [] }))
