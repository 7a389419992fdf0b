-- ===== src/Client.antt =====
-- client.go: the record of a client, `newClient` and `newPublisherClient` of queue.go that make it,
-- and its small functions. A channel of Go that is only ever closed is a Boolean.
pub mod Session
pub mod Expiry
pub mod Close
pub mod Link
pub mod Consume
pub mod Push
pub mod Race
mod Tests
use go_amqp_adapter.Base.{
  ℕ, ◌+◌, ◌-◌, suc, Bool, true, false, Option, none, some, List, [], ◌∷◌, String, ◌==◌, length,
  is_some, if◌then◌else◌,
}
use go_amqp_adapter.Base.Int.{ℤ, pos, negsuc}
use go_amqp_adapter.Config.{
  Config, RetryConfig, QueueItem, QueueName, Table, ConsumerHandler, PublishHeadersBuilder,
  ConsumeHeadersExtractor,
}
use go_amqp_adapter.Config.Options.{Options, Logger}

-- A connection and a channel are numbers; a notification channel is the connection or the channel
-- that it listens to. `consumer_done` tells whether there is a context whose end stops the
-- consumer.
pub record Client : Type 0 where
  pub conn : Option ℕ
  pub ch : Option ℕ
  pub notify_conn_close : Option ℕ
  pub notify_chan_close : Option ℕ
  pub notify_confirm : Option ℕ
  pub done : Bool
  pub ready : Bool
  pub queue_name : QueueName
  pub is_ready : ℕ
  pub closed_once : Bool
  pub started : Bool
  pub broker_url : String
  pub lgr : Logger
  pub retry : Option RetryConfig
  pub reconnect_delay : ℤ
  pub re_init_delay : ℤ
  pub resend_delay : ℤ
  pub callback : Option ConsumerHandler
  pub consumer_done : Bool
  pub publish_headers_builder : Option PublishHeadersBuilder
  pub consume_headers_extractor : Option ConsumeHeadersExtractor

-- `newClient`
unfoldable pub new_client : QueueName → QueueItem → Config → Logger → Client
new_client name param conf lgr = record {
  conn = none;
  ch = none;
  notify_conn_close = none;
  notify_chan_close = none;
  notify_confirm = none;
  done = false;
  ready = false;
  queue_name = name;
  is_ready = 0;
  closed_once = false;
  started = false;
  broker_url = conf.url;
  lgr = lgr;
  retry = param.retry;
  reconnect_delay = conf.reconnect_delay;
  re_init_delay = conf.re_init_delay;
  resend_delay = conf.resend_delay;
  callback = none;
  consumer_done = false;
  publish_headers_builder = none;
  consume_headers_extractor = none;
}

-- `newPublisherClient`
unfoldable pub new_publisher_client : QueueName → QueueItem → Config → Options → Client
unfolding new_client
new_publisher_client name param conf opts = record (new_client name param conf opts.lgr) {
  publish_headers_builder = some opts.publish_headers_builder;
}

-- `withRetry`
unfoldable pub with_retry : Client → Bool
with_retry clnt = is_some clnt.retry

-- `ensureConnected`: the client, and whether this call starts the reconnect loop.
unfoldable pub ensure_connected : Client → Client × Bool
ensure_connected clnt =
    if clnt.started then (clnt, false) else (record clnt { started = true }, true)

-- `mapToAMQPTable` and `amqpTableToMap`: a copy, and an empty table for an empty or nil one.
unfoldable pub map_to_amqp_table : Table → Table
map_to_amqp_table values = if length values == 0 then [] else values

unfoldable pub amqp_table_to_map : Table → Table
amqp_table_to_map table = if length table == 0 then [] else table

-- `t.Add(d)`; an instant before the year 0 is the start of that year.
unfoldable pub add_duration : ℕ → ℤ → ℕ
add_duration t (pos d) = t + d
add_duration t (negsuc d) = t - suc d
