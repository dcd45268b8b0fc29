-- ===== src/Datetime.antt =====
-- A `datetime` in UTC, as microseconds since the epoch, and what the services compute with it.
use fm.Base.{ℕ, ◌+◌, ◌-◌, ◌*◌, ◌/◌, ◌%◌}

abbrev pub Datetime : Type 0
Datetime = ℕ

abbrev pub second_us : ℕ
second_us = 1_000_000

abbrev pub minute_us : ℕ
minute_us = 60_000_000

abbrev pub hour_us : ℕ
hour_us = 3_600_000_000

abbrev pub day_us : ℕ
day_us = 86_400_000_000

-- `.second`, `.minute` and `.hour`
abbrev pub second_of : Datetime → ℕ
second_of t = t / second_us % 60

abbrev pub minute_of : Datetime → ℕ
minute_of t = t / minute_us % 60

abbrev pub hour_of : Datetime → ℕ
hour_of t = t / hour_us % 24

-- `.replace(second=0, microsecond=0)`
abbrev pub floor_minute : Datetime → Datetime
floor_minute t = t - t % minute_us

-- `.replace(minute=m)`
abbrev pub replace_minute : ℕ → Datetime → Datetime
replace_minute m t = t - minute_of t * minute_us + m * minute_us

-- `.replace(hour=h)`
abbrev pub replace_hour : ℕ → Datetime → Datetime
replace_hour h t = t - hour_of t * hour_us + h * hour_us
