-- ===== src/Cron/Examples.antt =====
-- Instants of the scheduler.
use fm.Base.{◌+◌, ◌≤◌, ◌<◌, ◌≡◌, true, none, some, arith}
use fm.Datetime.{Datetime}
use fm.Cron.Timing.{next_run, next_sleep, is_cron_due, cron_playlist_refresh}
use fm.Cron.Ticks.{Fires, next_run-first, next_sleep_lem}

-- 1970-01-02, 04:30:07
abbrev now_1 : Datetime
now_1 = 102_607_000_000

next_run-first_example :
    Fires 0 (some 3) (next_run 0 (some 3) now_1)
    × (now_1 < next_run 0 (some 3) now_1)
    × ((t : Datetime) → now_1 < t → Fires 0 (some 3) t → next_run 0 (some 3) now_1 ≤ t)
    × (is_cron_due (record { minute = 0; hour = some 3 }) 60 (next_run 0 (some 3) now_1) ≡ true)
next_run-first_example = next_run-first 0 (some 3) now_1 (omega arith, omega arith)

next_sleep_lem_example :
    (0 < next_sleep now_1)
    × (is_cron_due cron_playlist_refresh 60 (now_1 + next_sleep now_1) ≡ true)
    × ((t : Datetime) → now_1 < t → Fires 0 (some 0) t → now_1 + next_sleep now_1 ≤ t)
    × ((t : Datetime) → now_1 < t → Fires 0 (some 3) t → now_1 + next_sleep now_1 ≤ t)
    × ((t : Datetime) → now_1 < t → Fires 0 none t → now_1 + next_sleep now_1 ≤ t)
next_sleep_lem_example = next_sleep_lem now_1
