-- ===== src/Time/Calendar/Laws.antt =====
-- The date of a day is a date of the calendar, and the day of that date is the day again.
use go_amqp_adapter.Base.{ℕ, zero, suc, ◌+◌, ◌-◌, ◌≤◌, ◌<◌, ◌≡◌, refl, ap, arith}
use go_amqp_adapter.Time.Calendar.{
  february, year_len, month_len, year_start, month_start, day_number, find_year, find_month, Date,
  date_in, date_of_day,
}

february_bounds : (y : ℕ) → (28 ≤ february y) × (february y ≤ 29)
unfolding february
february_bounds y = ground arith

pub month_len_bounds : (y m : ℕ) → (28 ≤ month_len y m) × (month_len y m ≤ 31)
unfolding month_len
month_len_bounds y m = ground (arith, february_bounds y)

year_start-zero : year_start 0 ≡ 0
unfolding year_start
year_start-zero = refl

-- What the search for a year finds: that year holds the day.
abbrev IsYearOf : ℕ → ℕ × ℕ → Type 0
IsYearOf n (y, d) = (d < year_len y) × (year_start y + d ≡ n)

find_year_lem : (fuel y d : ℕ) → d ≤ fuel → IsYearOf (year_start y + d) (find_year fuel y d)
unfolding find_year year_start year_len
find_year_lem zero y d h = ground (arith, february_bounds y)
find_year_lem (suc fuel) y d h =
    ground (arith, february_bounds y, find_year_lem fuel (suc y) (d - year_len y))

abbrev IsMonthOf : ℕ → ℕ → ℕ × ℕ → Type 0
IsMonthOf y n (m, d) = (m ≤ 11) × (d < month_len y m) × (month_start y m + d ≡ n)

month_start-zero : (y : ℕ) → month_start y 0 ≡ 0
unfolding month_start
month_start-zero y = refl

-- The months make up the year.
month_start-year_len : (y : ℕ) → month_start y 12 ≡ year_len y
unfolding month_start month_len year_len
month_start-year_len y = omega arith

find_month_lem :
    (y rounds m d : ℕ)
    → m + rounds ≡ 11
    → month_start y m + d < month_start y 12
    → IsMonthOf y (month_start y m + d) (find_month y rounds m d)
unfolding find_month month_start
find_month_lem y zero m d e h =
    let last : suc m ≡ 12 = omega arith in
    let total : month_start y (suc m) ≡ month_start y 12 = ap (month_start y) last in
    (omega arith, omega arith, refl)
find_month_lem y (suc rounds) m d e h =
    ground (arith, find_month_lem y rounds (suc m) (d - month_len y m))

-- A date that the calendar has.
pub record IsDate (d : Date) : Type 0 where
  pub month_ok : d.month ≤ 11
  pub day_ok : d.day < month_len d.year d.month

abbrev IsDateOf : ℕ → Date → Type 0
IsDateOf n d = IsDate d × (day_number d.year d.month d.day ≡ n)

date_in_lem : (n : ℕ) (found : ℕ × ℕ) → IsYearOf n found → IsDateOf n (date_in found)
unfolding date_in day_number
date_in_lem n (y, d) h =
    let in_year : month_start y 0 + d < month_start y 12 =
      rw month_start-year_len (omega (arith, month_start-zero y)) in
    let found = find_month_lem y 11 0 d refl in_year in
    (
      record { month_ok = found.0; day_ok = found.1 },
      omega (arith, found.2, h.1, month_start-zero y),
    )

pub date_of_day_lem : (n : ℕ) → IsDateOf n (date_of_day n)
unfolding date_of_day
date_of_day_lem n =
    let found = find_year_lem n 0 n (omega arith) in
    date_in_lem n (find_year n 0 n) (found.0, omega (arith, found.1, year_start-zero))
