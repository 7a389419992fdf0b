-- ===== src/Store.antt =====
-- queue.go: the store of clients behind the public interface `Queue`, and its creation. A map is an
-- association list in the order of the iteration; the lock makes each access to it one step.
pub mod Consumers
pub mod Publish
pub mod Shutdown
pub mod Created
pub mod Sound
pub mod Reachable
pub mod Contract
mod Tests
use go_amqp_adapter.Base.{
  Bool, true, false, Option, none, some, List, [], ◌∷◌, Dict, insert, if◌then◌else◌,
}
use go_amqp_adapter.Errors.{Result, ok, err}
use go_amqp_adapter.Config.{
  Config, QueueItem, FailJobHandler, PublishHeadersBuilder, ConsumeHeadersExtractor,
}
use go_amqp_adapter.Config.Options.{Options, Setter, Logger, default_options, apply_options}
use go_amqp_adapter.Config.Validate.{validate_config}
use go_amqp_adapter.Broker.{History}
use go_amqp_adapter.Client.{Client, new_publisher_client}

-- `queueStore`; the counter `inflight` is read off the history.
pub record Store : Type 0 where
  pub config : Config
  pub lgr : Logger
  pub fail_job_handler : Option FailJobHandler
  pub publish_headers_builder : PublishHeadersBuilder
  pub consume_headers_extractor : ConsumeHeadersExtractor
  pub publishers : Dict Client
  pub consumers : Dict (List Client)
  pub consumers_started : Bool

-- The store, and what has happened.
pub record World : Type 0 where
  pub store : Store
  pub history : History

-- `conf.QueueParams`, where a nil map has become an empty one.
abbrev pub params_of : Config → Dict QueueItem
params_of conf = elim conf.queue_params [ none ↦ [] | some params ↦ params ]

-- The loop over the queues: a publisher for each that is not for consumers only.
pub add_publishers : Dict QueueItem → Config → Options → Dict Client → Dict Client
add_publishers [] conf opts publishers = publishers
add_publishers ((name, param) ∷ rest) conf opts publishers = add_publishers rest conf opts (
    if param.consumer_only
    then publishers
    else insert name (new_publisher_client name param conf opts) publishers)

abbrev pub new_store : Config → Options → Store
new_store conf opts =
    let conf' = record conf { queue_params = some (params_of conf) } in
    record {
      config = conf';
      lgr = opts.lgr;
      fail_job_handler = opts.fail_handler;
      publish_headers_builder = opts.publish_headers_builder;
      consume_headers_extractor = opts.consume_headers_extractor;
      publishers = add_publishers (params_of conf) conf' opts [];
      consumers = [];
      consumers_started = false;
    }

-- `newQueueStore`
pub new_queue_store : Config → List Setter → Result Store
unfolding add_publishers
new_queue_store conf setters =
    let opts = apply_options setters default_options in
    elim (validate_config conf opts) [ some e ↦ err e | none ↦ ok (new_store conf opts) ]

-- `New`
pub new : Config → List Setter → Result Store
unfolding new_queue_store
new conf setters = new_queue_store conf setters
