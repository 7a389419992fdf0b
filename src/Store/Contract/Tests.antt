-- ===== src/Store/Contract/Tests.antt =====
-- Runs of the theorem on the contract.
use go_amqp_adapter.Base.{◌≡◌, refl, true, none, List, [], ◌∷◌}
use go_amqp_adapter.Base.Int.{pos}
use go_amqp_adapter.Config.Options.{default_options, apply_options, with_fail_handler}
use go_amqp_adapter.Config.Validate.{
  validate_config, validate_params, validate_queues, validate_retry_queue,
}
use go_amqp_adapter.Errors.{
  err_no_consumers_registered, err_consumers_already_started, err_queue_consumer_only,
}
use go_amqp_adapter.Client.Push.{Ready}
use go_amqp_adapter.Store.{new, params_of}
use go_amqp_adapter.Store.Contract.{
  Command, publishes, adds, starts, calls, specs, total, fine, fails, AllowsAll, view,
}
use go_amqp_adapter.Store.Contract.Follows.{calls-AllowsAll}
use go_amqp_adapter.Samples.{calm, config, setters, store, asks_again, letter}

-- The consumers are started too early, then rightly, and then twice; a message to a queue for
-- consumers.
abbrev session : List Command
session =
    starts none
    ∷ adds true "logs" (pos 2) asks_again
    ∷ starts none
    ∷ starts none
    ∷ publishes [] "logs" letter Ready.on_ready []
    ∷ []

calls-AllowsAll_example :
    let (answers, w) = calls calm session (record { store = store; history = [] }) in
    AllowsAll
      (fails err_no_consumers_registered
        ∷ fine
        ∷ fine
        ∷ fails err_consumers_already_started
        ∷ fails err_queue_consumer_only
        ∷ [])
      answers
    × (view w ≡ record { params = params_of config; started = true; registered = ("logs", 2) ∷ [] })
unfolding specs total new validate_config validate_params validate_queues validate_retry_queue
    default_options apply_options with_fail_handler
calls-AllowsAll_example = calls-AllowsAll calm config setters store session refl
