-- ===== src/Client/Expiry.antt =====
-- client.go: `isExpired` and `parseExpiredTime`, which read the `expired` header of a message.
pub mod Deadline
use go_amqp_adapter.Base.{
  ℕ, Bool, true, false, Option, none, some, String, ltb, str_eq, if◌then◌else◌,
}
use go_amqp_adapter.Time.Parse.{parse_rfc3339, parse_legacy}

-- `parseExpiredTime`: RFC 3339 first, the legacy format in UTC if that fails. An error is `none`.
unfoldable pub parse_expired_time : String → Option ℕ
parse_expired_time s = elim (parse_rfc3339 s) [ some t ↦ some t | none ↦ parse_legacy s ]

-- `isExpired` at the time `now`.
unfoldable pub is_expired : ℕ → String → Bool
is_expired now s =
    if str_eq s "" then true else elim (parse_expired_time s) [ none ↦ true | some t ↦ ltb t now ]
