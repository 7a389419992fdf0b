-- ===== src/Examples/Retry.antt =====
-- examples/retry/main.go: a handler that succeeds, asks for retries, or fails for good, by the
-- message.
pub mod Settled
use go_amqp_adapter.Base.{
  ℕ, ◌*◌, suc, Bool, true, false, ◌&&◌, ◌==◌, ltb, none, some, List, [], ◌∷◌, String, Option,
  if◌then◌else◌,
}
use go_amqp_adapter.Base.Int.{pos}
use go_amqp_adapter.Errors.{foreign, retryable}
use go_amqp_adapter.Errors.Retryable.{retry_error}
use go_amqp_adapter.Config.{
  second, QueueName, QueueItem, RetryConfig, Body, Outcome, returned, FailJobHandler,
}
use go_amqp_adapter.Config.Options.{with_logger, with_fail_handler}
use go_amqp_adapter.Store.{World}
use go_amqp_adapter.Time.Text.{codes}
use go_amqp_adapter.Examples.{
  Run, Main, Setting, ◌>>=◌, ◌>>◌, pure, example_config, slog, add, start, send, wait, run_main,
  with_body,
}

abbrev pub queue_name : QueueName
queue_name = "example.retry"

abbrev pub retry_config : RetryConfig
retry_config = record { delay = pos (2 * second); max_duration = pos (8 * second) }

abbrev pub item : QueueItem
item = record { retry = some retry_config; consumer_only = false }

-- `s == t` and `strings.HasPrefix(s, t)`, on the bytes.
unfoldable pub bytes_eq : Body → Body → Bool
bytes_eq [] [] = true
bytes_eq [] (c ∷ cs) = false
bytes_eq (b ∷ bs) [] = false
bytes_eq (b ∷ bs) (c ∷ cs) = b == c && bytes_eq bs cs

unfoldable pub has_prefix : Body → Body → Bool
has_prefix bs [] = true
has_prefix [] (c ∷ cs) = false
has_prefix (b ∷ bs) (c ∷ cs) = b == c && has_prefix bs cs

-- The handler of failed jobs: it logs and signals.
abbrev pub fail_handler : FailJobHandler
fail_handler job = none

-- The handler of messages, with the counter of attempts before and after.
unfoldable pub handler : ℕ → Body → Outcome × ℕ
unfolding bytes_eq has_prefix
handler attempts msg =
    if bytes_eq msg (codes "ok")
    then (returned none, attempts)
    else if has_prefix msg (codes "retry-then-ok:")
    then (if ltb (suc attempts) 3
        then (returned (retry_error (some (foreign "temporary failure"))), suc attempts)
        else (returned none, suc attempts))
    else if has_prefix msg (codes "fail:")
    then (returned (some (foreign "permanent demo failure")), attempts)
    else (returned (retry_error (some (foreign "keep retrying until MaxDuration"))), attempts)

-- `attempts` is what the counter holds when the handler is called.
module _ (a : Setting) (attempts : ℕ) where
  unfoldable pub prepare : Main (Unit {0})
  prepare = do add a queue_name (λ ctx msg. (handler attempts msg).0); start a

  -- The loop that publishes the messages, from the number `i` on.
  unfoldable pub send_all : ℕ → List Body → Main (Unit {0})
  send_all i [] = pure tt
  send_all i (msg ∷ msgs) = do send a i queue_name (with_body msg); send_all (suc i) msgs

  -- The last loop waits for three signals, or the end of the context.
  unfoldable pub body : Main (Unit {0})
  body = do
    prepare
    send_all 0 (codes "ok" ∷ codes "retry-then-ok:job" ∷ codes "fail:boom" ∷ [])
    wait a

  -- `main`
  unfoldable pub main : String → Run (Unit {0}) × Option World
  main url =
      run_main a (example_config url ((queue_name, item) ∷ []))
        (with_logger (some slog) ∷ with_fail_handler (some fail_handler) ∷ []) body
