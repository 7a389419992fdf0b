-- ===== src/Samples.antt =====
-- Concrete values on which the theorems are run.
use go_amqp_adapter.Base.{true, false, none, some, List, [], ◌∷◌, ◌*◌}
use go_amqp_adapter.Base.Int.{pos}
use go_amqp_adapter.Errors.{GoError, foreign, retryable}
use go_amqp_adapter.Config.{
  second, Config, QueueItem, RetryConfig, PublishMessage, ConsumerHandler, returned, panics,
  FailJobHandler, ConsumeHeadersExtractor, PublishHeadersBuilder, text,
}
use go_amqp_adapter.Config.Options.{
  Options, Setter, nil_logger, default_options, with_fail_handler, apply_options,
}
use go_amqp_adapter.Broker.{Env}
use go_amqp_adapter.Client.{Client, new_client}
use go_amqp_adapter.Client.Session.{State}
use go_amqp_adapter.Delivery.{Delivery}
use go_amqp_adapter.Store.{Store, World, new_store}

-- A broker that takes every call, a clock that stands still, and a context that lives.
abbrev pub calm : Env
calm = record { reply = λ h c. none; now = λ h. 5 * second; ctx_err = λ h. none }

-- A broker that refuses every call.
abbrev pub harsh : Env
harsh = record calm { reply = λ h c. some (foreign "refused") }

abbrev pub hourly : RetryConfig
hourly = record { delay = pos (60 * second); max_duration = pos (3600 * second) }

abbrev pub plain : QueueItem
plain = record { retry = none; consumer_only = false }

abbrev pub retried : QueueItem
retried = record { retry = some hourly; consumer_only = false }

abbrev pub reading : QueueItem
reading = record { retry = none; consumer_only = true }

abbrev pub config : Config
config = record {
  url = "amqp://localhost";
  reconnect_delay = pos second;
  re_init_delay = pos second;
  resend_delay = pos second;
  queue_params = some (("mail", plain) ∷ ("jobs", retried) ∷ ("logs", reading) ∷ []);
}

abbrev pub alert : FailJobHandler
alert job = none

abbrev pub setters : List Setter
setters = with_fail_handler (some alert) ∷ []

abbrev pub options : Options
options = apply_options setters default_options

abbrev pub same_context : ConsumeHeadersExtractor
same_context parent headers = parent

abbrev pub user_header : PublishHeadersBuilder
user_header ctx = ("user", text "ann") ∷ []

-- A client that is connected, for a queue without and with retry mode.
abbrev pub linked : Client
linked = record (new_client "mail" plain config nil_logger) {
  conn = some 1;
  ch = some 2;
  notify_conn_close = some 1;
  notify_chan_close = some 2;
  notify_confirm = some 2;
  is_ready = 1;
  ready = true;
  started = true;
  publish_headers_builder = some user_header;
  consume_headers_extractor = some same_context;
}

abbrev pub linked_retry : Client
linked_retry = record linked { queue_name = "jobs"; retry = some hourly }

abbrev pub linked_state : State
linked_state = record { client = linked; history = [] }

abbrev pub fresh_state : State
fresh_state = record { client = new_client "mail" plain config nil_logger; history = [] }

abbrev pub letter : PublishMessage
letter = record {
  body = 1 ∷ 2 ∷ [];
  content_type = "";
  max_retry_duration = none;
  priority = some 3;
}

abbrev pub delivery : Delivery
delivery = record { headers = []; body = 7 ∷ []; tag = 11 }

abbrev pub broken : GoError
broken = foreign "broken"

abbrev pub asks_again : ConsumerHandler
asks_again ctx body = returned (some (retryable broken))

abbrev pub always_panics : ConsumerHandler
always_panics ctx body = panics

abbrev pub store : Store
store = new_store config options

abbrev pub world : World
world = record { store = store; history = [] }

-- One consumer is registered.
abbrev pub manned : World
manned = record world { store = record store { consumers = ("logs", linked ∷ []) ∷ [] } }
