-- ===== src/Config/Validate/Accepted.antt =====
-- Which configurations `validateConfig` accepts, and what it says of the others.
use go_amqp_adapter.Base.{
  ◌≡◌, ◌≢◌, ◌↔◌, refl, true, Option, none, some, [], ◌∷◌, Dict, arith, eq_iff, is_some, All,
}
use go_amqp_adapter.Base.Int.{pos, ◌≤ℤ◌, ◌<ℤ◌}
use go_amqp_adapter.Config.{Config, QueueItem, RetryConfig, QueueName, millisecond}
use go_amqp_adapter.Config.Options.{Options}
use go_amqp_adapter.Config.Validate.{
  validate_retry_queue, validate_queues, validate_params, validate_config,
}

-- A queue in retry mode has a handler of failed jobs, a delay that is at least the millisecond in
-- which the broker counts, and a positive retry time.
abbrev pub IsSound : Options → Option RetryConfig → Type 0
IsSound opts none = Unit {0}
IsSound opts (some r) =
    (is_some opts.fail_handler ≡ true) × (pos millisecond ≤ℤ r.delay) × (pos 0 <ℤ r.max_duration)

abbrev pub IsSoundEntry : Options → QueueName × QueueItem → Type 0
IsSoundEntry opts (name, item) = IsSound opts item.retry

abbrev pub AllSound : Options → Option (Dict QueueItem) → Type 0
AllSound opts none = Unit {0}
AllSound opts (some params) = All (IsSoundEntry opts) params

pub record IsAccepted (conf : Config) (opts : Options) : Type 0 where
  pub has_url : conf.url ≢ ""
  pub reconnects : pos 0 <ℤ conf.reconnect_delay
  pub re_inits : pos 0 <ℤ conf.re_init_delay
  pub resends : pos 0 <ℤ conf.resend_delay
  pub queues : AllSound opts conf.queue_params

module _ (opts : Options) where
  validate_retry_queue_iff :
      (name : QueueName) (item : QueueItem)
      → (validate_retry_queue name item opts ≡ none) ↔ IsSound opts item.retry
  unfolding validate_retry_queue
  validate_retry_queue_iff name item = ground arith

  validate_queues_iff :
      (params : Dict QueueItem)
      → (validate_queues params opts ≡ none) ↔ All (IsSoundEntry opts) params
  unfolding validate_queues
  validate_queues_iff [] = (λ h. tt, λ h. refl)
  validate_queues_iff ((name, item) ∷ rest) =
      ground (arith, validate_retry_queue_iff name item, validate_queues_iff rest)

  validate_params_iff :
      (params : Option (Dict QueueItem))
      → (validate_params params opts ≡ none) ↔ AllSound opts params
  unfolding validate_params
  validate_params_iff none = (λ h. tt, λ h. refl)
  validate_params_iff (some params) = validate_queues_iff params

  -- `validateConfig` returns nil exactly on the configurations that keep all its rules.
  pub validate_config_iff :
      (conf : Config) → (validate_config conf opts ≡ none) ↔ IsAccepted conf opts
  unfolding validate_config
  validate_config_iff conf =
      ground (arith, eq_iff conf.url "", validate_params_iff conf.queue_params)
