-- ===== src/Examples/Tests.antt =====
-- Runs of the theorems on the examples.
use go_amqp_adapter.Base.{
  ℕ, ◌≡◌, ◌≢◌, ◌*◌, ◌+◌, ◌<◌, ◌≤◌, refl, true, false, some, [], ◌∷◌, arith, eq_iff,
}
use go_amqp_adapter.Config.{text, second}
use go_amqp_adapter.Config.Options.{with_logger}
use go_amqp_adapter.Client.{with_retry, new_client}
use go_amqp_adapter.Client.Expiry.{is_expired}
use go_amqp_adapter.Client.Expiry.Deadline.{is_expired-format_rfc3339, format_rfc3339-ne-empty}
use go_amqp_adapter.Time.Calendar.{
  date_of_day, date_in, find_year, find_month, year_len, month_len, february, is_leap,
}
use go_amqp_adapter.Time.Format.{format_rfc3339}
use go_amqp_adapter.Time.RoundTrip.{year_of}
use go_amqp_adapter.Client.Push.{Ready, Round, Confirm, Pause}
use go_amqp_adapter.Delivery.{Delivery, extract_expired_header}
use go_amqp_adapter.Delivery.Lifetime.{life}
use go_amqp_adapter.Store.Shutdown.{on_idle}
use go_amqp_adapter.Time.Text.{codes}
use go_amqp_adapter.Examples.{Setting, example_config, slog}
use go_amqp_adapter.Examples.Serving.{Starts, prepare-Starts}
use go_amqp_adapter.Examples.Retry.Settled.{later, tries, end_of, life-tries}
use go_amqp_adapter.Examples.Failed.Store.{
  StoredJob, MemoryStore, IsStore, find, take_job, take_job-IsStore,
}
use go_amqp_adapter.Examples.Failed.{republish}
use go_amqp_adapter.Examples.Failed.Republished.{Republished, republish-Republished}
use go_amqp_adapter.Examples.Basic
use go_amqp_adapter.Samples.{calm, alert, linked_retry, world}

abbrev acked : Round
acked = record {
  is_ready = 1;
  ch = some 2;
  confirm = Confirm.on_confirm true 1;
  pause = Pause.on_timer;
}

-- Nothing goes wrong.
abbrev fair : Setting
fair = record {
  env = calm;
  closing = calm;
  ctx = [];
  ready = λ i. Ready.on_ready;
  rounds = λ i. acked ∷ [];
  others = λ i w. w;
  woken = true;
  idle = on_idle;
}

abbrev job : ℕ → StoredJob
job id = record { id = id; queue = "mail"; body = id ∷ []; error = [] }

-- Two jobs, the second of which was taken already.
abbrev jobs : MemoryStore
jobs = record { next = 3; jobs = job 1 ∷ job 3 ∷ [] }

jobs-IsStore : IsStore jobs
jobs-IsStore = ((omega arith, (omega arith, tt)), (omega arith, (omega arith, tt)))

take_job-IsStore_example :
    let (found, s) = take_job 1 jobs in
    IsStore s × (found ≡ some (job 1)) × (find 3 s.jobs ≡ some (job 3))
unfolding find
take_job-IsStore_example = take_job-IsStore 1 3 jobs jobs-IsStore

republish-Republished_example :
    Republished calm [] Ready.on_ready
      (acked ∷ [])
      world
      3
      []
      jobs
      (some (job 3))
      (republish calm [] Ready.on_ready (acked ∷ []) 3 [] jobs world)
unfolding find
republish-Republished_example =
    republish-Republished calm [] Ready.on_ready (acked ∷ []) world 3 [] jobs jobs-IsStore

prepare-Starts_example :
    Starts 1
      (example_config "" ((Basic.queue_name, Basic.item) ∷ []))
      (with_logger (some slog) ∷ [])
      (Basic.prepare fair false)
prepare-Starts_example = (prepare-Starts fair "" (λ h. refl) false 0).0

-- The second kind of message, tried long before its deadline.
abbrev instant : ℕ
instant = 90 * second + 7

early : year_of instant < 10000
unfolding date_of_day date_in find_year find_month year_len month_len february is_leap
early = omega arith

abbrev stamped : Delivery
stamped = record {
  headers = ("expired", text (format_rfc3339 instant)) ∷ [];
  body = codes "retry-then-ok:job";
  tag = 4;
}

has_deadline : extract_expired_header linked_retry stamped ≢ ""
unfolding extract_expired_header with_retry new_client
has_deadline =
    ground (arith, eq_iff (format_rfc3339 instant) "", format_rfc3339-ne-empty instant early)

in_time : (t : ℕ) → t ≤ 80 → is_expired t (extract_expired_header linked_retry stamped) ≡ false
unfolding extract_expired_header with_retry new_client
in_time t h = ground (
  arith,
  eq_iff (format_rfc3339 instant) "",
  format_rfc3339-ne-empty instant early,
  is_expired-format_rfc3339 t instant early,
)

life-tries_example :
    life calm (some alert) linked_retry stamped (tries stamped.body 1 2 3) []
    ≡ end_of (later (codes "job")) linked_retry stamped []
unfolding with_retry new_client
life-tries_example =
    life-tries calm alert linked_retry stamped refl 1 2 3 [] (later (codes "job")) refl has_deadline
      (in_time 1 (omega arith)) (in_time 2 (omega arith))
