-- ===== src/Config/Validate.antt =====
-- options.go: `validateConfig` and `validateRetryQueue`. A map is visited in the order of its list.
pub mod Accepted
pub mod Blamed
use go_amqp_adapter.Base.{
  ◌≡◌, Bool, true, false, not, Option, none, some, List, [], ◌∷◌, String, Dict, str_eq,
  if◌then◌else◌, is_some,
}
use go_amqp_adapter.Base.Int.{ℤ, pos, ltb_ℤ, leb_ℤ}
use go_amqp_adapter.Errors.{
  GoError, sentinel, wrap, lit, str, operand, err_empty_url, err_invalid_delay,
  err_invalid_retry_config, err_fail_handler_required,
}
use go_amqp_adapter.Config.{Config, QueueItem, RetryConfig, QueueName, millisecond}
use go_amqp_adapter.Config.Options.{Options}

-- `validateRetryQueue` below the test of `item.Retry`.
validate_retry : QueueName → RetryConfig → Options → Option GoError
validate_retry name r opts =
    if not (is_some opts.fail_handler)
    then some (wrap (operand ∷ lit ": " ∷ str name ∷ []) (sentinel err_fail_handler_required))
    else if ltb_ℤ r.delay (pos millisecond)
    then some (
        wrap (operand ∷ lit ": " ∷ str name ∷ lit " Delay" ∷ [])
          (sentinel err_invalid_retry_config))
    else if leb_ℤ r.max_duration (pos 0)
    then some (
        wrap (operand ∷ lit ": " ∷ str name ∷ lit " MaxDuration" ∷ [])
          (sentinel err_invalid_retry_config))
    else none

-- `validateRetryQueue`
unfoldable pub validate_retry_queue : QueueName → QueueItem → Options → Option GoError
unfolding validate_retry
validate_retry_queue name item opts = elim item.retry [
  | none ↦ none
  | some r ↦ validate_retry name r opts
]

-- The loop over `conf.QueueParams`.
unfoldable pub validate_queues : Dict QueueItem → Options → Option GoError
validate_queues [] opts = none
validate_queues ((name, item) ∷ rest) opts = elim (validate_retry_queue name item opts) [
  | none ↦ validate_queues rest opts
  | some e ↦ some e
]

invalid_delay : String → Option GoError
invalid_delay field = some (wrap (operand ∷ lit ": " ∷ lit field ∷ []) (sentinel err_invalid_delay))

-- A nil map passes.
unfoldable pub validate_params : Option (Dict QueueItem) → Options → Option GoError
validate_params none opts = none
validate_params (some params) opts = validate_queues params opts

-- `validateConfig`
unfoldable pub validate_config : Config → Options → Option GoError
unfolding invalid_delay
validate_config conf opts =
    if str_eq conf.url ""
    then some (sentinel err_empty_url)
    else if leb_ℤ conf.reconnect_delay (pos 0)
    then invalid_delay "ReconnectDelay"
    else if leb_ℤ conf.re_init_delay (pos 0)
    then invalid_delay "ReInitDelay"
    else if leb_ℤ conf.resend_delay (pos 0)
    then invalid_delay "ResendDelay"
    else validate_params conf.queue_params opts
