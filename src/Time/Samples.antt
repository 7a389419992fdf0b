-- ===== src/Time/Samples.antt =====
-- Runs of the two layouts.
use go_amqp_adapter.Base.{ℕ, ◌+◌, ◌*◌, ◌≡◌, refl, some, none}
use go_amqp_adapter.Config.{second}
use go_amqp_adapter.Time.Calendar.{
  date_of_day, date_in, find_year, find_month, day_number, year_len, month_len, february, is_leap,
}
use go_amqp_adapter.Time.Text.{digit, four_digits}
use go_amqp_adapter.Time.Format.{format_rfc3339, format_date, format_clock, format_year}
use go_amqp_adapter.Time.Parse.{
  parse_rfc3339, parse_legacy, two, four, one_or_two, fraction, date, clock, zone, numeric_zone,
  zone_sign, at_end, gap,
}

-- 2024-02-29T12:34:56.5Z
abbrev leap_noon : ℕ
leap_noon = (739310 * 86400 + 45296) * second + 500_000_000

format_sample : format_rfc3339 leap_noon ≡ "2024-02-29T12:34:56Z"
unfolding format_rfc3339 format_date format_clock format_year digit four_digits date_of_day date_in
    find_year find_month year_len month_len february is_leap
format_sample = refl

parse_sample : parse_rfc3339 "2024-02-29T14:34:56.5+02:00" ≡ some leap_noon
unfolding parse_rfc3339 two four one_or_two fraction date clock zone numeric_zone zone_sign at_end
    day_number year_len month_len february is_leap
parse_sample = refl

parse_legacy_sample : parse_legacy "2024-02-29 12:34:56.50" ≡ some leap_noon
unfolding parse_legacy two four one_or_two fraction date clock gap at_end day_number year_len
    month_len february is_leap
parse_legacy_sample = refl

parse_bad_day : parse_legacy "2023-02-29 12:34:56" ≡ none
unfolding parse_legacy two four one_or_two fraction date clock gap at_end day_number year_len
    month_len february is_leap
parse_bad_day = refl
