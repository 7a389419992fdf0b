-- ===== src/Time.antt =====
-- The parts of Go's package time that client.go uses: the layouts `time.RFC3339` and "2006-01-02
-- 15:04:05" (`dateFormatLegacy`), with `Format`, `Parse` and `ParseInLocation` in UTC.
-- An instant is a number of nanoseconds since the start of the year 0, in UTC; an instant before
-- that is taken for that start.
pub mod Calendar
pub mod Text
pub mod Format
pub mod Parse
pub mod RoundTrip
mod Samples
