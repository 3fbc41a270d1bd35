-- ===== src/Sink/Clock/Calendar.antt =====
-- What of the time stamp is right, and where the calendar is not one.
use argus_core.Base.{ℕ, ◌+◌, ◌*◌, ◌-◌, ◌%◌, ◌≤◌, ◌<◌, ◌≡◌, ◌↔◌, arith}
use argus_core.Sink.Clock.{Stamp, stamp}

-- The ranges of the fields, with room for a thirteenth month.
pub record InRange (s : Stamp) : Type 0 where
  pub month : (1 ≤ s.month) × (s.month ≤ 13)
  pub day : (1 ≤ s.day) × (s.day ≤ 30)
  pub hour : s.hour < 24
  pub minute : s.minute < 60
  pub second : s.second < 60

-- The day of the month lies between 1 and 30, the time of day within a day, and the month between
-- 1 and 13.
pub stamp-InRange : (secs : ℕ) → InRange (stamp secs)
unfolding stamp
stamp-InRange secs = omega arith

-- The hour, minute and second of a time stamp are exactly the seconds since midnight UTC.
stamp_time_of_day :
    (secs : ℕ)
    → (stamp secs).hour * 3600 + (stamp secs).minute * 60 + (stamp secs).second ≡ secs % 86_400
unfolding stamp
stamp_time_of_day secs = omega arith

-- In the last five days of a year of 365 days since the epoch the month is the thirteenth, and
-- only then.
pub stamp_thirteenth_month :
    (secs : ℕ) → ((stamp secs).month ≡ 13) ↔ (360 * 86_400 ≤ secs % 31_536_000)
unfolding stamp
stamp_thirteenth_month secs = (λ h. omega arith, λ h. omega arith)

-- The first day of the month of a stamp, in days since the epoch.
abbrev month_begin : Stamp → ℕ
month_begin s = 365 * (s.year - 1970) + 30 * (s.month - 1)

-- The seconds of a stamp. The days of a month are numbered from the day that is a multiple of
-- thirty, which need not be its first.
abbrev pub read_back : Stamp → ℕ
read_back s =
    (month_begin s + ((s.day - 1) + 30 - month_begin s % 30) % 30) * 86_400
    + (s.hour * 3600 + s.minute * 60 + s.second)

-- A time stamp determines the second that it is the stamp of: no two seconds have one stamp.
pub stamp-read_back : (secs : ℕ) → read_back (stamp secs) ≡ secs
unfolding stamp
stamp-read_back secs = omega arith

-- An earlier and a later second of one month whose days are in the reverse order.
pub record Backwards (year : ℕ) : Type 0 where
  pub before : ℕ
  pub after : ℕ
  pub earlier : before < after
  pub years : ((stamp before).year ≡ year) × ((stamp after).year ≡ year)
  pub months : (stamp before).month ≡ (stamp after).month
  pub days : (stamp after).day < (stamp before).day

-- In every year after 1970 whose distance to it is no multiple of six the time stamps run backwards:
-- a later second of a month has an earlier day.
pub stamp-Backwards : (n : ℕ) → 0 < n % 6 → Backwards (1970 + n)
unfolding stamp
stamp-Backwards n h = record {
  before = 31_536_000 * n;
  after = 31_536_000 * n + (30 - 5 * n % 30) * 86_400;
  earlier = omega (arith, h);
  years = omega (arith, h);
  months = omega (arith, h);
  days = omega (arith, h);
}
