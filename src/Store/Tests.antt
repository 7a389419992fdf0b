-- ===== src/Store/Tests.antt =====
-- Runs of the theorems on the store.
use go_amqp_adapter.Base.{
  ◌≡◌, ◌↔◌, ◌+◌, refl, true, false, none, some, [], ◌∷◌, ◌++◌, arith, lookup,
}
use go_amqp_adapter.Base.Int.{pos}
use go_amqp_adapter.Errors.{ok, sentinel, err_consumers_already_started}
use go_amqp_adapter.Config.Options.{default_options, apply_options, with_fail_handler}
use go_amqp_adapter.Config.Validate.{
  validate_config, validate_params, validate_queues, validate_retry_queue,
}
use go_amqp_adapter.Config.Validate.Accepted.{IsAccepted}
use go_amqp_adapter.Broker.{connecting}
use go_amqp_adapter.Client.{Client, new_client, new_publisher_client}
use go_amqp_adapter.Client.Push.{Ready, push}
use go_amqp_adapter.Store.{Store, params_of, new, add_publishers}
use go_amqp_adapter.Store.Created.{publisher_for, new_iff, new-Blames, new_publishers}
use go_amqp_adapter.Store.Consumers.{add_consumer_n, naming, init_consumer, count_clients}
use go_amqp_adapter.Store.Consumers.Registered.{init_consumer_iff, init_consumer_lem, loops_started}
use go_amqp_adapter.Store.Consumers.{start_snapshot, snapshot_consumers}
use go_amqp_adapter.Store.Consumers.Interleaved.{start_snapshot-add_consumer_n}
use go_amqp_adapter.Store.Publish.{publish}
use go_amqp_adapter.Store.Publish.Routed.{publish_routed}
use go_amqp_adapter.Store.Shutdown.{Idle, shutdown}
use go_amqp_adapter.Store.Shutdown.Calls.{publisher_calls, consumer_calls, shutdown_iff}
use go_amqp_adapter.Topology.Plan.{recorded}
use go_amqp_adapter.Client.Close.Laws.{first_refusal}
use go_amqp_adapter.Errors.{err_fail_handler_required}
use go_amqp_adapter.Config.Validate.Blamed.{Blames}
use go_amqp_adapter.Samples.{
  calm, config, setters, options, store, world, manned, letter, asks_again, plain,
}

new_iff_example :
    ((q : Store) × (new config setters ≡ ok q))
    ↔ IsAccepted config (apply_options setters default_options)
new_iff_example = new_iff config setters

new-Blames_example : Blames config default_options (naming err_fail_handler_required "jobs")
unfolding new validate_config validate_params validate_queues validate_retry_queue apply_options
    default_options
new-Blames_example = new-Blames config [] (naming err_fail_handler_required "jobs") refl

new_publishers_example :
    (lookup "logs" store.publishers
      ≡ publisher_for store.config
          (apply_options setters default_options)
          "logs"
          (lookup "logs" (params_of store.config)))
    × (params_of store.config ≡ params_of config)
    × (store.consumers ≡ [])
    × (store.consumers_started ≡ false)
unfolding new validate_config validate_params validate_queues validate_retry_queue default_options
    apply_options with_fail_handler
new_publishers_example = new_publishers config setters store "logs" (refl, (refl, (refl, tt))) refl

shutdown_iff_example :
    let calls = publisher_calls manned.store.publishers ++ consumer_calls manned.store.consumers in
    let (e, w) = shutdown calm Idle.on_idle manned in
    (w.history ≡ recorded calls []) × ((e ≡ none) ↔ (first_refusal calm calls [] ≡ none))
shutdown_iff_example = shutdown_iff calm manned (λ h. refl)

init_consumer_lem_example :
    let w = (init_consumer calm false manned).1 in
    (loops_started w.history ≡ count_clients manned.store.consumers + loops_started [])
    × (w.store ≡ record (manned.store) { consumers_started = true })
    × (init_consumer calm true w ≡ (some (sentinel err_consumers_already_started), w))
unfolding count_clients
init_consumer_lem_example = init_consumer_lem calm false manned true (
    (init_consumer_iff calm false manned).1
      (record { fresh = refl; live = refl; some_registered = ground arith; alone = refl }))

abbrev mailer : Client
mailer = record (new_client "mail" plain store.config options.lgr) {
  publish_headers_builder = some options.publish_headers_builder;
}

publish_routed_example :
    let (p, w) = publish calm [] "mail" letter Ready.on_ready [] world in
    let started = record mailer { started = true } in
    (p ≡ (push calm started [] letter Ready.on_ready [] (connecting "mail" ∷ [])).0)
    × (w.history ≡ (push calm started [] letter Ready.on_ready [] (connecting "mail" ∷ [])).1)
    × (lookup "jobs" w.store.publishers ≡ lookup "jobs" store.publishers)
unfolding add_publishers new_client new_publisher_client
publish_routed_example =
    publish_routed calm [] "mail" letter Ready.on_ready [] world plain mailer "jobs" refl refl refl

start_snapshot-add_consumer_n_example :
    let a = add_consumer_n calm false true "logs" (pos 2) asks_again manned in
    let (e, w) = start_snapshot calm (snapshot_consumers manned.store) false a.world in
    (a.error ≡ none)
    × (e ≡ none)
    × (count_clients w.store.consumers + loops_started [] ≡ 2 + loops_started w.history)
    × (init_consumer calm true w ≡ (some (sentinel err_consumers_already_started), w))
unfolding count_clients
start_snapshot-add_consumer_n_example =
    start_snapshot-add_consumer_n calm manned true true "logs" (pos 2) asks_again
      (record { retry = none; consumer_only = true }) refl (ground arith) refl
