-- ===== src/Time/Calendar.antt =====
-- Days and dates of the Gregorian calendar. Days are counted from 0000-01-01, and months and days
-- of a month from zero.
pub mod Laws
use go_amqp_adapter.Base.{
  ℕ, zero, suc, ◌+◌, ◌-◌, ◌%◌, Bool, not, ◌&&◌, ◌||◌, ◌==◌, ltb, if◌then◌else◌,
}

unfoldable pub is_leap : ℕ → Bool
is_leap y = (y % 4 == 0) && (not (y % 100 == 0) || (y % 400 == 0))

unfoldable pub february : ℕ → ℕ
unfolding is_leap
february y = if is_leap y then 29 else 28

unfoldable pub year_len : ℕ → ℕ
year_len y = 337 + february y

unfoldable pub month_len : ℕ → ℕ → ℕ
month_len y m =
    if m == 1
    then february y
    else if (m == 3) || ((m == 5) || ((m == 8) || (m == 10)))
    then 30
    else 31

-- The days before a year, and before a month of a year.
unfoldable pub year_start : ℕ → ℕ
year_start zero = 0
year_start (suc y) = year_start y + year_len y

unfoldable pub month_start : ℕ → ℕ → ℕ
month_start y zero = 0
month_start y (suc m) = month_start y m + month_len y m

unfoldable pub day_number : ℕ → ℕ → ℕ → ℕ
unfolding year_start month_start
day_number y m d = year_start y + month_start y m + d

-- From the year `y` on: the year that holds the day `d`, and the day of that year.
unfoldable pub find_year : ℕ → ℕ → ℕ → ℕ × ℕ
find_year zero y d = (y, d)
find_year (suc fuel) y d =
    let later = find_year fuel (suc y) (d - year_len y) in
    if ltb d (year_len y) then (y, d) else later

unfoldable pub find_month : ℕ → ℕ → ℕ → ℕ → ℕ × ℕ
find_month y zero m d = (m, d)
find_month y (suc rounds) m d =
    let later = find_month y rounds (suc m) (d - month_len y m) in
    if ltb d (month_len y m) then (m, d) else later

pub record Date : Type 0 where
  pub year : ℕ
  pub month : ℕ
  pub day : ℕ

abbrev pub date_at : ℕ → ℕ × ℕ → Date
date_at y (m, d) = record { year = y; month = m; day = d }

unfoldable pub date_in : ℕ × ℕ → Date
date_in (y, d) = date_at y (find_month y 11 0 d)

unfoldable pub date_of_day : ℕ → Date
date_of_day n = date_in (find_year n 0 n)
