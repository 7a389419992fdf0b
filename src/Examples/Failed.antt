-- ===== src/Examples/Failed.antt =====
-- examples/failed-jobs/main.go: failed jobs are stored, and republished by hand.
pub mod Store
pub mod Republished
use go_amqp_adapter.Base.{
  ℕ, ◌*◌, suc, Bool, true, false, ◌||◌, ◌==◌, none, some, List, [], ◌∷◌, String, Option, length,
  if◌then◌else◌,
}
use go_amqp_adapter.Base.Int.{ℤ, pos, leb_ℤ}
use go_amqp_adapter.Errors.{GoError, Result, ok, err, crash, foreign, retryable}
use go_amqp_adapter.Errors.Retryable.{retry_error}
use go_amqp_adapter.Config.{
  second, QueueName, QueueItem, RetryConfig, Context, Body, Outcome, returned, FailedJob,
  FailJobHandler, ConsumerHandler,
}
use go_amqp_adapter.Config.Options.{with_logger, with_fail_handler}
use go_amqp_adapter.Broker.{Env}
use go_amqp_adapter.Client.Push.{Ready, Round, Push, finished}
use go_amqp_adapter.Store.{World}
use go_amqp_adapter.Store.Publish.{publish}
use go_amqp_adapter.Time.Text.{codes}
use go_amqp_adapter.Examples.{
  Run, goes, Main, Setting, ◌>>=◌, ◌>>◌, pure, example_config, slog, after_publish, add, start,
  send, wait, run_main, with_body,
}
use go_amqp_adapter.Examples.Retry.{bytes_eq}
use go_amqp_adapter.Examples.Failed.Store.{StoredJob, MemoryStore, add_job, list_jobs, take_job}

abbrev pub queue_name : QueueName
queue_name = "example.failed-jobs"

abbrev pub item : QueueItem
item = record {
  retry = some (record { delay = pos second; max_duration = pos (4 * second) });
  consumer_only = false;
}

-- The handler of failed jobs, with the store before and after.
unfoldable pub fail_handler : FailedJob → MemoryStore → Option GoError × MemoryStore
fail_handler job s = (none, (add_job job s).1)

-- The handler of messages.
unfoldable pub handler : ConsumerHandler
unfolding bytes_eq
handler ctx msg =
    if bytes_eq msg (codes "hello-from-retry")
    then returned none
    else if bytes_eq msg (codes "fail:boom")
    then returned (some (foreign "permanent demo failure"))
    else returned (retry_error (some (foreign "temporary demo failure")))

-- `republish`: what the publish gives, the job that is gone from the store, and the worlds.
unfoldable pub republish :
    Env → Context → Ready → List Round → ℕ → Body → MemoryStore → World → Push × MemoryStore × World
republish env ctx ready rounds id new_body s w =
    let (found, s') = take_job id s in
    elim found [
      | none ↦ (finished (err (foreign "failed job not found")), s', w)
      | some job ↦
          let body = if length new_body == 0 then job.body else new_body in
          let (p, w') = publish env ctx job.queue (with_body body) ready rounds w in (p, s', w')
    ]

-- An HTTP response: its status, and the jobs that its body lists, if it lists any.
pub record Response : Type 0 where
  pub status : ℕ
  pub jobs : List StoredJob

-- `GET /failed`
unfoldable pub get_failed : MemoryStore → Response
get_failed s = record { status = 200; jobs = list_jobs s }

abbrev status_of : Push → Option ℕ
status_of (finished (ok _)) = some 200
status_of (finished (err e)) = some 404
status_of _ = none

-- `POST /retry`, on what `strconv.Atoi` makes of the parameter `id`; there is no response as long
-- as the publish is not over.
unfoldable pub post_retry :
    Env
    → Context
    → Ready
    → List Round
    → Option ℤ
    → MemoryStore
    → World
    → Option Response × MemoryStore × World
unfolding republish
post_retry env ctx ready rounds none s w = (some (record { status = 400; jobs = [] }), s, w)
post_retry env ctx ready rounds (some (ℤ.negsuc n)) s w =
    (some (record { status = 400; jobs = [] }), s, w)
post_retry env ctx ready rounds (some (pos n)) s w =
    let (p, s', w') = republish env ctx ready rounds n [] s w in
    let answer : Option Response = elim (status_of p) [
      | none ↦ none
      | some k ↦ some (record { status = k; jobs = [] })
    ] in
    if n == 0 then (some (record { status = 400; jobs = [] }), s, w) else (answer, s', w')

module _ (a : Setting) where
  unfoldable pub prepare : Main (Unit {0})
  prepare = do add a queue_name handler; start a

  -- `republish` in `main`, on the store of that moment, with the publish number 1.
  unfoldable pub resend : MemoryStore → ℕ → Main (Unit {0})
  unfolding republish
  resend s id w =
      let (p, s', w') =
        republish a.env a.ctx (a.ready 1) (a.rounds 1) id (codes "hello-from-retry") s
          (a.others 1 w) in
      (after_publish p, w')

  -- After the first wait: a job has come, with the store of that moment, or the context is done.
  abbrev pub rest : Option (MemoryStore × StoredJob) → Main (Unit {0})
  rest none = pure tt
  rest (some (s, job)) = do resend s job.id; wait a

  unfoldable pub body : Option (MemoryStore × StoredJob) → Main (Unit {0})
  body came = do prepare; send a 0 queue_name (with_body (codes "fail:boom")); rest came

  -- `main` without its HTTP server, whose routes are `get_failed` and `post_retry`. The store does
  -- not exist for the adapter, whose handler of failed jobs always returns nil.
  unfoldable pub main : Option (MemoryStore × StoredJob) → String → Run (Unit {0}) × Option World
  main came url =
      run_main a (example_config url ((queue_name, item) ∷ []))
        (with_logger (some slog) ∷ with_fail_handler (some (λ job. none)) ∷ []) (body came)
