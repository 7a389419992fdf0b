-- ===== src/Delivery/Tests.antt =====
-- Runs of the theorems on deliveries.
use go_amqp_adapter.Base.{
  false, ◌+◌, ◌*◌, ◌≤◌, ◌⊎◌, List, ◌≡◌, ◌↔◌, ◌<◌, refl, some, [], ◌∷◌, arith,
}
use go_amqp_adapter.Errors.{retryable}
use go_amqp_adapter.Errors.Chain.{here, errors_as}
use go_amqp_adapter.Errors.Retryable.{is_retryable}
use go_amqp_adapter.Config.{second, returned}
use go_amqp_adapter.Broker.{inflight_done, History}
use go_amqp_adapter.Time.Calendar.{
  date_of_day, date_in, find_year, find_month, year_len, month_len, february, is_leap,
}
use go_amqp_adapter.Time.RoundTrip.{year_of}
use go_amqp_adapter.Client.{add_duration, with_retry}
use go_amqp_adapter.Client.Push.{publish_headers, retry_limit}
use go_amqp_adapter.Delivery.{
  Delivery, handle_delivery, settle, reject_delivery, extract_expired_header,
}
use go_amqp_adapter.Delivery.Settled.{gives_up, counts, handle_delivery-counts}
use go_amqp_adapter.Delivery.Retried.{AsksInTime, settle-reject_iff, settle_until_deadline}
use go_amqp_adapter.Delivery.Panics.{redelivered, nacked, redelivered_panics}
use go_amqp_adapter.Delivery.Lifetime.{Try, life, IsAcked, life-IsAcked}
use go_amqp_adapter.Samples.{
  calm, alert, linked, linked_retry, delivery, letter, hourly, broken, asks_again, always_panics,
  same_context,
}

-- The header is missing, so the job is given up.
handle_delivery-counts_example :
    (h' : History) × (handle_delivery calm (some alert) [] linked_retry asks_again delivery []
      ≡ some (inflight_done ∷ h'))
    × (counts (inflight_done ∷ h')
        ≡ record { settled = 1; invoked = 1; failed = 1; raised = 1; lowered = 1 })
unfolding counts gives_up extract_expired_header is_retryable errors_as with_retry
handle_delivery-counts_example =
    handle_delivery-counts calm (some alert) linked_retry delivery [] same_context asks_again []
      refl

settle-reject_iff_example :
    (settle calm (some alert) linked delivery "" (returned (some broken)) []
      ≡ reject_delivery delivery [])
    ↔ AsksInTime calm (some alert) linked delivery "" [] broken
settle-reject_iff_example = settle-reject_iff calm (some alert) linked delivery "" broken []

-- The header of a message that is published at the time zero, with a limit of an hour.
abbrev stamped : Delivery
stamped = record delivery { headers = publish_headers linked_retry letter [] 0 }

early : year_of (add_duration 0 (retry_limit letter hourly)) < 10000
unfolding date_of_day date_in find_year find_month year_len month_len february is_leap add_duration
early = ground arith

settle_until_deadline_example :
    settle calm
      (some alert)
      linked_retry
      stamped
      (extract_expired_header linked_retry stamped)
      (returned (some (retryable broken)))
      []
    ≡ reject_delivery stamped []
unfolding add_duration with_retry
settle_until_deadline_example =
    settle_until_deadline calm (some alert) linked_retry stamped linked_retry hourly letter [] 0
      (retryable broken) [] refl refl refl here early

redelivered_panics_example :
    redelivered calm (some alert) [] linked_retry always_panics delivery 2 []
    ≡ some (nacked calm (some alert) [] linked_retry always_panics delivery [] 2 [])
redelivered_panics_example =
    redelivered_panics calm (some alert) [] linked_retry always_panics delivery same_context 2 []
      refl (λ ctx body. refl)

-- A handler that always asks for another try, every half an hour, with a limit of an hour.
abbrev half_hours : List Try
half_hours =
    (0, returned (some (retryable broken)))
    ∷ (1800 * second, returned (some (retryable broken)))
    ∷ (3600 * second, returned (some (retryable broken)))
    ∷ (5400 * second, returned (some (retryable broken)))
    ∷ []

life-IsAcked_example :
    let l = life calm (some alert) linked_retry stamped half_hours [] in
    (l.circulates ≡ false)
    × IsAcked 11 l.history
    × ((l.deliveries ≤ 1)
        ⊎ (0 + l.deliveries * (1800 * second) ≤ 3600 * second + 2 * (1800 * second)))
unfolding add_duration with_retry
life-IsAcked_example =
    life-IsAcked calm (some alert) linked_retry stamped linked_retry hourly letter [] 0 refl refl
      refl early (1800 * second) half_hours [] (omega arith) (tt, (tt, (tt, (tt, tt))))
      (omega arith) (omega arith)
