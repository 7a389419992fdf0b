-- ===== src/Time/RoundTrip.antt =====
-- What is formatted is read back, up to the fraction of a second that the format drops.
use mathlib.Core.List.{append_assoc}
use go_amqp_adapter.Base.{
  lt→ltb, ℕ, ◌+◌, ◌*◌, ◌/◌, ◌%◌, ◌<◌, ◌≡◌, refl, List, [], ◌∷◌, ◌++◌, none, some, arith,
}
use go_amqp_adapter.Config.{second}
use go_amqp_adapter.Time.Calendar.{Date, date_of_day}
use go_amqp_adapter.Time.Calendar.Laws.{IsDate, date_of_day_lem, month_len_bounds}
use go_amqp_adapter.Time.Text.{
  codes, codes-concat, two_digits, four_digits, codes-two_digits, codes-four_digits,
}
use go_amqp_adapter.Time.Format.{format_year, format_date, format_clock, format_rfc3339}
use go_amqp_adapter.Time.Parse.{
  two, one_or_two, four, fraction, date, clock, zone, at_end, one_digit, parse_rfc3339,
}

two_lem : (n : ℕ) (cs : List ℕ) → n < 100 → two (codes (two_digits n) ++ cs) ≡ some (n, cs)
unfolding two
two_lem n cs h = rw codes-two_digits (ground arith)

one_or_two_lem :
    (n : ℕ) (cs : List ℕ) → n < 100 → one_or_two (codes (two_digits n) ++ cs) ≡ some (n, cs)
unfolding one_or_two
one_or_two_lem n cs h = rw codes-two_digits (ground arith)

four_lem : (n : ℕ) (cs : List ℕ) → n < 10000 → four (codes (four_digits n) ++ cs) ≡ some (n, cs)
unfolding four two
four_lem n cs h = rw codes-four_digits (ground arith)

codes-format_date :
    (d : Date) (cs : List ℕ)
    → d.year < 10000
    → codes (format_date d) ++ cs
      ≡ codes (four_digits d.year)
        ++ (b'-'
            ∷ (codes (two_digits (d.month + 1)) ++ (b'-' ∷ (codes (two_digits (d.day + 1)) ++ cs))))
unfolding format_date format_year
codes-format_date d cs h = rw (lt→ltb d.year 10000 h) (simp (codes-concat, append_assoc))

date_lem :
    (d : Date) (cs : List ℕ)
    → IsDate d
    → d.year < 10000
    → date (codes (format_date d) ++ cs) ≡ some (d, cs)
unfolding date
date_lem d cs v h =
    let after_month = codes (two_digits (d.day + 1)) ++ cs in
    let after_year = codes (two_digits (d.month + 1)) ++ (b'-' ∷ after_month) in
    rw (codes-format_date d cs h) (
      ground (
        arith,
        month_len_bounds d.year d.month,
        v.month_ok,
        v.day_ok,
        four_lem d.year (b'-' ∷ after_year) h,
        two_lem (d.month + 1) (b'-' ∷ after_month),
        two_lem (d.day + 1) cs,
      ))

codes-format_clock :
    (s : ℕ) (cs : List ℕ)
    → codes (format_clock s) ++ cs
      ≡ codes (two_digits (s / 3600))
        ++ (b':'
            ∷ (codes (two_digits (s / 60 % 60)) ++ (b':' ∷ (codes (two_digits (s % 60)) ++ cs))))
unfolding format_clock
codes-format_clock s cs = simp (codes-concat, append_assoc)

fraction_none : (cs : List ℕ) → fraction (b'Z' ∷ cs) ≡ some (0, b'Z' ∷ cs)
unfolding fraction
fraction_none [] = refl
fraction_none (c ∷ cs) = refl

clock_lem :
    (s : ℕ) (cs : List ℕ)
    → s < 86400
    → clock (codes (format_clock s) ++ b'Z' ∷ cs) ≡ some (s * second, b'Z' ∷ cs)
unfolding clock
clock_lem s cs h =
    let after_minute = codes (two_digits (s % 60)) ++ (b'Z' ∷ cs) in
    let after_hour = codes (two_digits (s / 60 % 60)) ++ (b':' ∷ after_minute) in
    rw (codes-format_clock s (b'Z' ∷ cs)) (
      ground (
        arith,
        one_or_two_lem (s / 3600) (b':' ∷ after_hour),
        two_lem (s / 60 % 60) (b':' ∷ after_minute),
        two_lem (s % 60) (b'Z' ∷ cs),
        fraction_none cs,
      ))

codes-format_rfc3339 :
    (t : ℕ)
    → codes (format_rfc3339 t)
      ≡ codes (format_date (date_of_day (t / second / 86400)))
        ++ (b'T' ∷ (codes (format_clock (t / second % 86400)) ++ (b'Z' ∷ [])))
unfolding format_rfc3339
codes-format_rfc3339 t = simp codes-concat

-- The year of an instant.
abbrev pub year_of : ℕ → ℕ
year_of t = (date_of_day (t / second / 86400)).year

-- Before the year 10000, reading back what was formatted gives the instant, cut to whole seconds.
pub parse_rfc3339-format_rfc3339 :
    (t : ℕ) → year_of t < 10000 → parse_rfc3339 (format_rfc3339 t) ≡ some (t / second * second)
unfolding parse_rfc3339 zone at_end
parse_rfc3339-format_rfc3339 t h =
    let n = t / second / 86400 in
    let s = t / second % 86400 in
    let found = date_of_day_lem n in
    rw (codes-format_rfc3339 t) (
      ground (
        arith,
        date_lem (date_of_day n) (b'T' ∷ (codes (format_clock s) ++ (b'Z' ∷ []))) found.0 h,
        clock_lem s [],
        found.1,
      ))

pub parse_rfc3339-empty : parse_rfc3339 "" ≡ none
unfolding parse_rfc3339 date four two one_digit
parse_rfc3339-empty = refl
