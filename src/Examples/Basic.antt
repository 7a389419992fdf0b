-- ===== src/Examples/Basic.antt =====
-- examples/basic-consumer/main.go: consume one message, publish it, and end.
use go_amqp_adapter.Base.{false, Bool, some, none, [], ◌∷◌, String, Option, if◌then◌else◌}
use go_amqp_adapter.Config.{QueueName, QueueItem, Outcome, returned, panics}
use go_amqp_adapter.Config.Options.{with_logger}
use go_amqp_adapter.Store.{World}
use go_amqp_adapter.Time.Text.{codes}
use go_amqp_adapter.Examples.{
  Run, Main, Setting, ◌>>◌, example_config, slog, add, start, send, wait, run_main, with_body,
}

abbrev pub queue_name : QueueName
queue_name = "example.basic"

abbrev pub item : QueueItem
item = record { retry = none; consumer_only = false }

-- The handler closes `got`, which panics if it is closed already.
unfoldable pub handler : (got_closed : Bool) → Outcome
handler got_closed = if got_closed then panics else returned none

module _ (a : Setting) (got_closed : Bool) where
  unfoldable pub prepare : Main (Unit {0})
  prepare = do add a queue_name (λ ctx body. handler got_closed); start a

  unfoldable pub body : Main (Unit {0})
  body = do prepare; send a 0 queue_name (with_body (codes "hello")); wait a

  -- `main`
  unfoldable pub main : String → Run (Unit {0}) × Option World
  main url =
      run_main a (example_config url ((queue_name, item) ∷ [])) (with_logger (some slog) ∷ []) body
