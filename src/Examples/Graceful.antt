-- ===== src/Examples/Graceful.antt =====
-- examples/graceful-shutdown/main.go: a shutdown while slow handlers are at work.
pub mod Twice
use go_amqp_adapter.Base.{
  ℕ, Bool, true, false, none, some, List, [], ◌∷◌, String, concat, Option, leb, if◌then◌else◌,
}
use go_amqp_adapter.Base.Int.{pos}
use go_amqp_adapter.Config.{QueueName, QueueItem, ConsumerHandler, returned}
use go_amqp_adapter.Config.Options.{with_logger}
use go_amqp_adapter.Store.{World}
use go_amqp_adapter.Store.Shutdown.{shutdown}
use go_amqp_adapter.Time.Text.{codes, decimal}
use go_amqp_adapter.Examples.{
  Run, goes, waits, Main, Setting, ◌>>=◌, ◌>>◌, pure, example_config, slog, or_exit, add_n, start,
  send, run_main, with_body,
}

abbrev pub queue_name : QueueName
queue_name = "example.shutdown"

abbrev pub workers : ℕ
workers = 2

abbrev pub jobs : ℕ
jobs = 2

abbrev pub item : QueueItem
item = record { retry = none; consumer_only = false }

-- The handler takes three seconds, counts, and returns nil.
abbrev pub handler : ConsumerHandler
handler ctx body = returned none

-- The cases of the `select` in `waitStarted`, and what the counter holds before it.
pub data Case : Type 0 where
  on_ctx on_timeout on_tick : Case

pub record Look : Type 0 where
  pub started : ℕ
  pub case : Case

-- `waitStarted`
unfoldable pub wait_started : ℕ → List Look → Run Bool
wait_started want [] = waits
wait_started want (l ∷ ls) =
    let later = wait_started want ls in
    if leb want l.started
    then goes true
    else elim l.case [ on_ctx ↦ goes false | on_timeout ↦ goes false | on_tick ↦ later ]

module _ (a : Setting) where
  unfoldable pub prepare : Main (Unit {0})
  prepare = do add_n a queue_name (pos workers) handler; start a

  unfoldable pub send_jobs : List ℕ → Main (Unit {0})
  send_jobs [] = pure tt
  send_jobs (i ∷ is) = do
    send a i queue_name (with_body (codes (concat "slow-" (decimal 1 i))))
    send_jobs is

  -- The call of `Shutdown` in `main` itself.
  unfoldable pub shut : Main (Unit {0})
  shut w = let (e, w') = shutdown a.closing a.idle w in (or_exit e, w')

  abbrev pub shut_if : Bool → Main (Unit {0})
  shut_if true = shut
  shut_if false = pure tt

  unfoldable pub body : List Look → Main (Unit {0})
  body looks = do
    prepare
    send_jobs (1 ∷ 2 ∷ [])
    all_started ← (λ w. (wait_started jobs looks, w))
    shut_if all_started

  -- `main`
  unfoldable pub main : List Look → String → Run (Unit {0}) × Option World
  main looks url =
      run_main a (example_config url ((queue_name, item) ∷ [])) (with_logger (some slog) ∷ [])
        (body looks)
