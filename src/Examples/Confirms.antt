-- ===== src/Examples/Confirms.antt =====
-- examples/publisher-confirms/main.go: publishes one after another, and then from four goroutines.
use go_amqp_adapter.Base.{false, ℕ, ◌+◌, none, List, [], ◌∷◌, String, concat, Option, some}
use go_amqp_adapter.Errors.{ok, err, crash}
use go_amqp_adapter.Config.{QueueName, QueueItem, PublishMessage, default_content_type}
use go_amqp_adapter.Config.Options.{with_logger}
use go_amqp_adapter.Client.Push.{Push, finished, unfinished}
use go_amqp_adapter.Store.{World}
use go_amqp_adapter.Time.Text.{codes, decimal}
use go_amqp_adapter.Examples.{
  Run, goes, panics, waits, Main, Setting, ◌>>◌, pure, example_config, slog, publish_at, send,
  run_main, with_body,
}

abbrev pub queue_name : QueueName
queue_name = "example.confirms"

abbrev pub item : QueueItem
item = record { retry = none; consumer_only = false }

-- `"seq-" + strconv.Itoa(i)` and `"par-" + strconv.Itoa(n)`, for positive numbers of one digit.
unfoldable pub numbered : String → ℕ → PublishMessage
numbered prefix i = with_body (codes (concat prefix (decimal 1 i)))

-- The result of a goroutine is only logged.
abbrev pub logged : Push → Run (Unit {0})
logged (finished (ok _)) = goes tt
logged (finished (err e)) = goes tt
logged (finished crash) = panics
logged unfinished = waits

module _ (a : Setting) where
  -- The first loop.
  unfoldable pub sequential : List ℕ → Main (Unit {0})
  unfolding numbered
  sequential [] = pure tt
  sequential (i ∷ is) = do
    send a i queue_name (record (numbered "seq-" i) { content_type = default_content_type })
    sequential is

  -- The goroutines, in the order in which `pushMu` lets them through.
  unfoldable pub concurrent : List ℕ → Main (Unit {0})
  unfolding numbered
  concurrent [] w = (goes tt, w)
  concurrent (n ∷ ns) w =
      let (p, w') = publish_at a (3 + n) queue_name (numbered "par-" n) w in
      elim (logged p) [
        | goes _ ↦ concurrent ns w'
        | Run.exits k ↦ (Run.exits k, w')
        | panics ↦ (panics, w')
        | waits ↦ (waits, w')
      ]

  -- `order` is some order of 1, 2, 3, 4.
  unfoldable pub body : List ℕ → Main (Unit {0})
  body order = do sequential (1 ∷ 2 ∷ 3 ∷ []); concurrent order

  -- `main`
  unfoldable pub main : List ℕ → String → Run (Unit {0}) × Option World
  main order url =
      run_main a (example_config url ((queue_name, item) ∷ [])) (with_logger (some slog) ∷ [])
        (body order)
