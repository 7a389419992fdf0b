-- ===== src/Time/Parse.antt =====
-- `time.Parse` with the layout RFC3339, and `time.ParseInLocation` with the legacy layout in UTC.
-- As there, an hour may have one digit, a fraction of a second is read although the layouts have
-- none, and a space of the layout stands for any number of spaces, but not for another character.
use go_amqp_adapter.Base.{
  ℕ, zero, suc, ◌+◌, ◌-◌, ◌*◌, ◌^◌, Bool, true, false, ◌&&◌, ◌||◌, Option, none, some, List, [],
  ◌∷◌, String, ◌==◌, ltb, leb, if◌then◌else◌,
}
use go_amqp_adapter.Config.{second}
use go_amqp_adapter.Time.Calendar.{Date, month_len, day_number}
use go_amqp_adapter.Time.Text.{codes}

-- What is read, and the rest of the text; `none` is an error.
abbrev pub Parser : Type 0 → Type 0
Parser A = List ℕ → Option (A × List ℕ)

abbrev pub yield_value : {A : Type 0} → A → Parser A
yield_value a cs = some (a, cs)

infixl 5 ◌>>=◌ ◌>>◌
abbrev pub ◌>>=◌ : {A B : Type 0} → Parser A → (A → Parser B) → Parser B
◌>>=◌ p f cs = elim (p cs) [ none ↦ none | some (a, rest) ↦ f a rest ]

abbrev pub ◌>>◌ : {A B : Type 0} → Parser A → Parser B → Parser B
p >> q = p >>= λ _. q

abbrev pub check : Bool → Parser (Unit {0})
check true cs = some (tt, cs)
check false cs = none

abbrev pub is_digit : ℕ → Bool
is_digit c = leb 48 c && leb c 57

-- One digit, which must be there.
unfoldable pub one_digit : Parser ℕ
one_digit [] = none
one_digit (c ∷ cs) = if is_digit c then some (c - 48, cs) else none

unfoldable pub expect : ℕ → Parser (Unit {0})
expect k [] = none
expect k (c ∷ cs) = if c == k then some (tt, cs) else none

-- `getnum(value, true)`: two digits.
unfoldable pub two : Parser ℕ
unfolding one_digit
two = do a ← one_digit; b ← one_digit; yield_value (a * 10 + b)

-- `getnum(value, false)`: one or two.
unfoldable pub one_or_two : Parser ℕ
one_or_two [] = none
one_or_two (a ∷ []) = if is_digit a then some (a - 48, []) else none
one_or_two (a ∷ b ∷ cs) =
    if is_digit a
    then if is_digit b then some ((a - 48) * 10 + (b - 48), cs) else some (a - 48, b ∷ cs)
    else none

unfoldable pub four : Parser ℕ
four = do a ← two; b ← two; yield_value (a * 100 + b)

-- The digits at the front: the value of the first nine, how many of the nine are wanting, and the
-- rest of the text.
unfoldable pub fraction_digits : ℕ → ℕ → List ℕ → ℕ × ℕ × List ℕ
fraction_digits left acc [] = (acc, left, [])
fraction_digits zero acc (c ∷ cs) =
    if is_digit c then fraction_digits zero acc cs else (acc, 0, c ∷ cs)
fraction_digits (suc left) acc (c ∷ cs) =
    let more = fraction_digits left (acc * 10 + (c - 48)) cs in
    if is_digit c then more else (acc, suc left, c ∷ cs)

-- Nanoseconds after a point or a comma; none is zero.
unfoldable pub fraction : Parser ℕ
unfolding fraction_digits
fraction [] = some (0, [])
fraction (p ∷ []) = some (0, p ∷ [])
fraction (p ∷ c ∷ cs) =
    if ((p == b'.') || (p == b',')) && is_digit c
    then (let (acc, left, rest) = fraction_digits 9 0 (c ∷ cs) in some (acc * 10 ^ left, rest))
    else some (0, p ∷ c ∷ cs)

unfoldable pub spaces : Parser (Unit {0})
spaces [] = some (tt, [])
spaces (c ∷ cs) = if c == b' ' then spaces cs else some (tt, c ∷ cs)

-- A space of the layout.
unfoldable pub gap : Parser (Unit {0})
unfolding spaces
gap [] = some (tt, [])
gap (c ∷ cs) = if c == b' ' then spaces cs else none

-- The offset of the zone in seconds: east of UTC, or west.
pub data Zone : Type 0 where
  east west : ℕ → Zone

unfoldable pub zone_sign : Parser Bool
zone_sign [] = none
zone_sign (c ∷ cs) =
    if c == b'+' then some (true, cs) else if c == b'-' then some (false, cs) else none

abbrev to_side : Bool → ℕ → Zone
to_side true n = east n
to_side false n = west n

unfoldable pub numeric_zone : Parser Zone
numeric_zone = do
  side ← zone_sign
  hr ← two
  expect b':'
  mm ← two
  check (leb hr 24 && leb mm 60)
  yield_value (to_side side ((hr * 60 + mm) * 60))

unfoldable pub zone : Parser Zone
zone [] = none
zone (c ∷ cs) = if c == b'Z' then some (east 0, cs) else numeric_zone (c ∷ cs)

-- A month that is no month is an error at once; the day is held to its month at the end.
unfoldable pub date : Parser Date
unfolding expect
date = do
  y ← four
  expect b'-'
  m ← two
  check (leb 1 m && leb m 12)
  expect b'-'
  d ← two
  check (leb 1 d && leb d (month_len y (m - 1)))
  yield_value (record { year = y; month = m - 1; day = d - 1 })

-- The nanoseconds of a day.
unfoldable pub clock : Parser ℕ
unfolding expect
clock = do
  h ← one_or_two
  check (ltb h 24)
  expect b':'
  m ← two
  check (ltb m 60)
  expect b':'
  s ← two
  check (ltb s 60)
  ns ← fraction
  yield_value (((h * 60 + m) * 60 + s) * second + ns)

unfoldable pub at_end : Parser (Unit {0})
at_end [] = some (tt, [])
at_end (c ∷ cs) = none

-- `Date(…)` less the offset of the zone.
abbrev pub instant : Date → ℕ → Zone → ℕ
instant d n (east off) = day_number d.year d.month d.day * 86400 * second + n - off * second
instant d n (west off) = day_number d.year d.month d.day * 86400 * second + n + off * second

abbrev result : Option (ℕ × List ℕ) → Option ℕ
result none = none
result (some (t, _)) = some t

unfoldable pub parse_rfc3339 : String → Option ℕ
unfolding expect
parse_rfc3339 s =
    result (
      (do d ← date; expect b'T'; n ← clock; z ← zone; at_end; yield_value (instant d n z))
        (codes s))

unfoldable pub parse_legacy : String → Option ℕ
unfolding expect
parse_legacy s =
    result ((do d ← date; gap; n ← clock; at_end; yield_value (instant d n (east 0))) (codes s))
