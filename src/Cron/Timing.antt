-- ===== src/Cron/Timing.antt =====
-- services/cron/timing.py and the choice of jobs of services/cron/scheduler.py. A cron expression is
-- its minute and, unless it is `*`, its hour.
use fm.Base.{
  ℕ, ◌+◌, ◌-◌, min, Bool, ◌&&◌, Option, none, some, List, [], ◌∷◌, ltb, leb, if◌then◌else◌, ◌==◌,
  nat_eq,
}
use fm.Datetime.{
  Datetime, hour_us, day_us, second_of, minute_of, hour_of, floor_minute, replace_minute,
  replace_hour,
}

pub record Cron : Type 0 where
  pub minute : ℕ
  pub hour : Option ℕ

abbrev pub cron_cache_cleanup : Cron
cron_cache_cleanup = record { minute = 0; hour = some 3 }

abbrev pub cron_news_cache_reset : Cron
cron_news_cache_reset = record { minute = 0; hour = some 0 }

abbrev pub cron_playlist_refresh : Cron
cron_playlist_refresh = record { minute = 0; hour = none }

unfoldable pub next_run : ℕ → Option ℕ → Datetime → Datetime
next_run minute none now =
    let candidate = replace_minute minute (floor_minute now) in
    if leb candidate now then candidate + hour_us else candidate
next_run minute (some hour) now =
    let candidate = replace_hour hour (replace_minute minute (floor_minute now)) in
    if leb candidate now then candidate + day_us else candidate

-- In microseconds.
unfoldable pub until_next_cron : Cron → Datetime → ℕ
unfolding next_run
until_next_cron cron now = next_run cron.minute cron.hour now - now

unfoldable pub is_cron_due : Cron → ℕ → Datetime → Bool
is_cron_due cron window_sec now = elim cron.hour [
  | none ↦ minute_of now == cron.minute && ltb (second_of now) window_sec
  | some hour ↦
      hour_of now == hour && (minute_of now == cron.minute && ltb (second_of now) window_sec)
]

pub data Job : Type 0 where
  news_cache_reset cache_cleanup playlist_refresh : Job

-- The jobs of `run_due_jobs`, in their order.
unfoldable pub due_jobs : Datetime → List Job
unfolding is_cron_due
due_jobs now =
    let third = if is_cron_due cron_playlist_refresh 60 now then playlist_refresh ∷ [] else [] in
    let second = if is_cron_due cron_cache_cleanup 60 now then cache_cleanup ∷ third else third in
    if is_cron_due cron_news_cache_reset 60 now then news_cache_reset ∷ second else second

unfoldable pub next_sleep : Datetime → ℕ
unfolding until_next_cron
next_sleep now =
    min (until_next_cron cron_news_cache_reset now)
      (min (until_next_cron cron_cache_cleanup now) (until_next_cron cron_playlist_refresh now))
