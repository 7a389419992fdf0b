-- ===== src/Client/Expiry/Deadline.antt =====
-- The deadline of a message, as `unsafePush` writes it and `isExpired` reads it.
use go_amqp_adapter.Base.{ℕ, ◌*◌, ◌/◌, ◌<◌, ◌≡◌, ◌≢◌, ap, true, none, String, arith, ltb, eq_iff}
use go_amqp_adapter.Config.{second}
use go_amqp_adapter.Time.Format.{format_rfc3339}
use go_amqp_adapter.Time.Parse.{parse_rfc3339, parse_legacy}
use go_amqp_adapter.Time.RoundTrip.{year_of, parse_rfc3339-format_rfc3339, parse_rfc3339-empty}
use go_amqp_adapter.Client.Expiry.{parse_expired_time, is_expired}

-- A deadline, cut to whole seconds as the header holds it.
abbrev pub cut : ℕ → ℕ
cut t = t / second * second

-- A message whose header holds the deadline `t`, before the year 10000, is expired exactly when the
-- clock is past `t` cut to whole seconds.
pub is_expired-format_rfc3339 :
    (now t : ℕ) → year_of t < 10000 → is_expired now (format_rfc3339 t) ≡ ltb (cut t) now
unfolding is_expired parse_expired_time
is_expired-format_rfc3339 now t h =
    ground
      (arith, parse_rfc3339-format_rfc3339 t h, parse_rfc3339-empty, eq_iff (format_rfc3339 t) "")

-- A header that is neither in RFC 3339 nor in the legacy format is taken as expired.
pub is_expired_unreadable :
    (now : ℕ) (s : String)
    → parse_rfc3339 s ≡ none
    → parse_legacy s ≡ none
    → is_expired now s ≡ true
unfolding is_expired parse_expired_time
is_expired_unreadable now s p q = ground arith

pub format_rfc3339-ne-empty : (t : ℕ) → year_of t < 10000 → format_rfc3339 t ≢ ""
format_rfc3339-ne-empty t h e =
    ground (arith, parse_rfc3339-format_rfc3339 t h, parse_rfc3339-empty, ap parse_rfc3339 e)
