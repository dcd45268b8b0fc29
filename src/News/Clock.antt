-- ===== src/News/Clock.antt =====
-- services/news/slot_clock.py: the minutes at which news is prepared and enqueued.
pub mod Ticks
pub mod Slots
mod Examples
use fm.Base.{
  ℕ, zero, suc, ◌+◌, ◌-◌, ◌*◌, ◌/◌, ◌%◌, String, Bool, true, false, ◌&&◌, List, [], ◌∷◌, Option,
  none, some, Result, ok, err, if◌then◌else◌, ◌==◌, nat_eq, ltb, contains,
}
use fm.Datetime.{Datetime, minute_us, hour_us, minute_of, floor_minute, replace_minute}

pub data ClockError : Type 0 where
  not_materialize_minute : ℕ → ClockError
  no_tick : ClockError

unfoldable pub materialize_minutes : List ℕ
materialize_minutes = 2 ∷ 17 ∷ 32 ∷ 47 ∷ []

unfoldable pub enqueue_minutes : List ℕ
enqueue_minutes = 0 ∷ 15 ∷ 30 ∷ 45 ∷ []

unfoldable pub enqueue_slot_for_materialize : Datetime → Result ClockError Datetime
enqueue_slot_for_materialize now =
    let current = floor_minute now in
    let minute = minute_of current in
    if minute == 2
    then ok (replace_minute 15 current)
    else if minute == 17
    then ok (replace_minute 30 current)
    else if minute == 32
    then ok (replace_minute 45 current)
    else if minute == 47
    then ok (replace_minute 0 current + hour_us)
    else err (not_materialize_minute minute)

unfoldable pub is_materialize_minute : Datetime → Bool
unfolding contains materialize_minutes
is_materialize_minute now = contains (minute_of now) materialize_minutes

unfoldable pub is_enqueue_minute : Datetime → Bool
unfolding contains enqueue_minutes
is_enqueue_minute now = contains (minute_of now) enqueue_minutes

-- `for minutes_ahead in range(ahead, ahead + rounds)`, up to the first minute that passes.
unfoldable pub search_tick : (Datetime → Bool) → Datetime → ℕ → ℕ → Result ClockError Datetime
search_tick passes current zero ahead = err no_tick
search_tick passes current (suc rounds) ahead =
    let candidate = current + ahead * minute_us in
    let later = search_tick passes current rounds (ahead + 1) in
    if passes candidate then ok (floor_minute candidate) else later

unfoldable pub next_materialize_at : Datetime → Result ClockError Datetime
unfolding is_materialize_minute
next_materialize_at now = search_tick is_materialize_minute (floor_minute now) 1440 1

unfoldable pub current_enqueue_slot : Datetime → Datetime
current_enqueue_slot now =
    let current = floor_minute now in replace_minute (minute_of current / 15 * 15) current

unfoldable pub next_enqueue_at : Datetime → Result ClockError Datetime
unfolding is_enqueue_minute
next_enqueue_at now =
    let current = floor_minute now in
    search_tick (λ candidate. is_enqueue_minute candidate && ltb current candidate) current 1441 0

unfoldable pub next_news_at : Datetime → Result ClockError Datetime
unfolding is_enqueue_minute
next_news_at now =
    let current = floor_minute now in
    let later = search_tick is_enqueue_minute current 1440 1 in
    if is_enqueue_minute current then ok current else later

-- `max(0.0, (nxt - current).total_seconds())`, in microseconds.
abbrev pub until : Datetime → Result ClockError Datetime → Result ClockError ℕ
until now (ok next) = ok (next - now)
until now (err e) = err e

unfoldable pub seconds_until_next_materialize : Datetime → Result ClockError ℕ
unfolding next_materialize_at
seconds_until_next_materialize now = until now (next_materialize_at now)

unfoldable pub seconds_until_next_enqueue : Datetime → Result ClockError ℕ
unfolding next_enqueue_at
seconds_until_next_enqueue now = until now (next_enqueue_at now)

unfoldable pub seconds_until_next_news : Datetime → Result ClockError ℕ
unfolding next_news_at
seconds_until_next_news now = until now (next_news_at now)
