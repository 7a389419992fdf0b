-- ===== src/Time/Format.antt =====
-- `Time.Format(time.RFC3339)` of an instant in UTC: whole seconds only.
use go_amqp_adapter.Base.{ℕ, ◌+◌, ◌/◌, ◌%◌, String, concat, ltb, if◌then◌else◌}
use go_amqp_adapter.Config.{second}
use go_amqp_adapter.Time.Calendar.{Date, date_of_day}
use go_amqp_adapter.Time.Text.{two_digits, four_digits, decimal}

-- At least four digits.
unfoldable pub format_year : ℕ → String
format_year y =
    if ltb y 10000 then four_digits y else concat (decimal y (y / 10000)) (four_digits y)

unfoldable pub format_date : Date → String
format_date d =
    concat (format_year d.year)
      (concat "-" (concat (two_digits (d.month + 1)) (concat "-" (two_digits (d.day + 1)))))

-- The seconds of a day.
unfoldable pub format_clock : ℕ → String
format_clock s =
    concat (two_digits (s / 3600))
      (concat ":" (concat (two_digits (s / 60 % 60)) (concat ":" (two_digits (s % 60)))))

unfoldable pub format_rfc3339 : ℕ → String
format_rfc3339 t =
    concat (format_date (date_of_day (t / second / 86400)))
      (concat "T" (concat (format_clock (t / second % 86400)) "Z"))
