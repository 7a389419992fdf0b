-- ===== src/Client/Tests.antt =====
-- Runs of the theorems on closing a client and on deadlines.
use go_amqp_adapter.Base.{ℕ, ◌≡◌, ◌<◌, ◌*◌, ◌+◌, refl, true, false, none, some, arith}
use go_amqp_adapter.Config.{second}
use go_amqp_adapter.Time.Calendar.{
  date_of_day, date_in, find_year, find_month, year_len, month_len, february, is_leap,
}
use go_amqp_adapter.Time.Format.{format_rfc3339}
use go_amqp_adapter.Time.RoundTrip.{year_of}
use go_amqp_adapter.Client.Expiry.{is_expired}
use go_amqp_adapter.Client.Expiry.Deadline.{is_expired-format_rfc3339}
use go_amqp_adapter.Client.Race.{
  Shared, initial, opening, live, tested, panicked, Reaches, here, later, tests, panics, assigns,
  declares, fails, loses, Reaches-blamed, panicked-Reaches,
}

-- An instant in the year 0, with a fraction of a second.
abbrev instant : ℕ
instant = 90 * second + 7

early : year_of instant < 10000
unfolding date_of_day date_in find_year find_month year_len month_len february is_leap
early = omega arith

is_expired-format_rfc3339_example : is_expired (90 * second + 1) (format_rfc3339 instant) ≡ true
is_expired-format_rfc3339_example = is_expired-format_rfc3339 (90 * second + 1) instant early

-- A push past its test, beside a loop that waits on a channel.
abbrev between : Shared
between = record { is_ready = 1; ch = some 0; loop = live; pusher = tested; failed_since = false }

between-Reaches : Reaches initial between
between-Reaches = later (later (later here (assigns 0 refl)) (declares refl)) (tests refl (λ e. cc))

abbrev fallen : Shared
fallen = record { is_ready = 0; ch = none; loop = opening; pusher = panicked; failed_since = true }

fallen-Reaches : Reaches initial fallen
fallen-Reaches =
    later (later (later (later between-Reaches (loses refl)) (assigns 3 refl)) (fails refl))
      (panics refl refl)

Reaches-blamed_example : fallen.failed_since ≡ true
Reaches-blamed_example = Reaches-blamed fallen fallen-Reaches refl

panicked-Reaches_example : (t : Shared) × Reaches between t × (t.pusher ≡ panicked)
panicked-Reaches_example = panicked-Reaches between refl refl
