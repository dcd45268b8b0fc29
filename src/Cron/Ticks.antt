-- ===== src/Cron/Ticks.antt =====
-- The instants at which a job fires.
use fm.Base.{ℕ, ◌+◌, ◌%◌, ◌≤◌, ◌<◌, ◌≡◌, sym, subst, true, Option, none, some, arith}
use fm.Datetime.{Datetime, minute_us, hour_us, day_us, minute_of, hour_of}
use fm.Cron.Timing.{next_run, is_cron_due, until_next_cron, next_sleep, cron_playlist_refresh}

-- The first instant of a minute at which the expression fires.
abbrev pub Fires : ℕ → Option ℕ → Datetime → Type 0
Fires minute none t = (t % minute_us ≡ 0) × (minute_of t ≡ minute)
Fires minute (some hour) t = (t % minute_us ≡ 0) × (minute_of t ≡ minute) × (hour_of t ≡ hour)

hourly :
    (minute : ℕ) (now : Datetime)
    → minute < 60
    → Fires minute none (next_run minute none now)
      × (now < next_run minute none now)
      × (next_run minute none now ≤ now + hour_us)
unfolding next_run
hourly minute now h = ground arith

daily :
    (minute hour : ℕ) (now : Datetime)
    → minute < 60
    → hour < 24
    → Fires minute (some hour) (next_run minute (some hour) now)
      × (now < next_run minute (some hour) now)
      × (next_run minute (some hour) now ≤ now + day_us)
unfolding next_run
daily minute hour now h k = ground arith

hourly-first :
    (minute : ℕ) (now t : Datetime)
    → minute < 60
    → now < t
    → Fires minute none t
    → next_run minute none now ≤ t
unfolding next_run
hourly-first minute now t h later (at, on) = ground arith

daily-first :
    (minute hour : ℕ) (now t : Datetime)
    → minute < 60
    → hour < 24
    → now < t
    → Fires minute (some hour) t
    → next_run minute (some hour) now ≤ t
unfolding next_run
daily-first minute hour now t h k later (at, on, hr) = ground arith

hourly-due :
    (minute : ℕ) (t : Datetime)
    → Fires minute none t
    → is_cron_due (record { minute = minute; hour = none }) 60 t ≡ true
unfolding is_cron_due
hourly-due minute t (at, on) = ground arith

daily-due :
    (minute hour : ℕ) (t : Datetime)
    → Fires minute (some hour) t
    → is_cron_due (record { minute = minute; hour = some hour }) 60 t ≡ true
unfolding is_cron_due
daily-due minute hour t (at, on, hr) = ground arith

abbrev pub IsCron : ℕ → Option ℕ → Type 0
IsCron minute none = minute < 60
IsCron minute (some hour) = (minute < 60) × (hour < 24)

-- The next run of an expression lies ahead, it is an instant at which the expression fires, and the
-- expression fires at no instant before it; the job is due then.
pub next_run-first :
    (minute : ℕ) (hour : Option ℕ) (now : Datetime)
    → IsCron minute hour
    → Fires minute hour (next_run minute hour now)
      × (now < next_run minute hour now)
      × ((t : Datetime) → now < t → Fires minute hour t → next_run minute hour now ≤ t)
      × (is_cron_due (record { minute = minute; hour = hour }) 60 (next_run minute hour now) ≡ true)
next_run-first minute none now h =
    let (fires, after, soon) = hourly minute now h in
    (fires, after, (λ t later on. hourly-first minute now t h later on), hourly-due minute _ fires)
next_run-first minute (some hour) now (h, k) =
    let (fires, after, soon) = daily minute hour now h k in
    (
      fires,
      after,
      (λ t later on. daily-first minute hour now t h k later on),
      daily-due minute hour _ fires,
    )

-- The hourly job is never behind the daily ones.
wakes : (now : Datetime) → now + next_sleep now ≡ next_run 0 none now
unfolding next_sleep until_next_cron
wakes now =
    let (at_0, on_0, hr_0) = (daily 0 0 now (omega arith) (omega arith)).0 in
    let (at_3, on_3, hr_3) = (daily 0 3 now (omega arith) (omega arith)).0 in
    let first_0 =
      hourly-first 0 now (next_run 0 (some 0) now) (omega arith)
        (daily 0 0 now (omega arith) (omega arith)).1 (at_0, on_0) in
    let first_3 =
      hourly-first 0 now (next_run 0 (some 3) now) (omega arith)
        (daily 0 3 now (omega arith) (omega arith)).1 (at_3, on_3) in
    omega (arith, first_0, first_3, (hourly 0 now (omega arith)).1)

-- The scheduler sleeps until the first instant at which one of its jobs fires: it sleeps for more than
-- nothing, a job is due when it wakes up, and no job fires while it sleeps.
pub next_sleep_lem :
    (now : Datetime)
    → (0 < next_sleep now)
      × (is_cron_due cron_playlist_refresh 60 (now + next_sleep now) ≡ true)
      × ((t : Datetime) → now < t → Fires 0 (some 0) t → now + next_sleep now ≤ t)
      × ((t : Datetime) → now < t → Fires 0 (some 3) t → now + next_sleep now ≤ t)
      × ((t : Datetime) → now < t → Fires 0 none t → now + next_sleep now ≤ t)
unfolding next_sleep until_next_cron
next_sleep_lem now =
    let (reset_fires, reset_after, reset_soon) = daily 0 0 now (omega arith) (omega arith) in
    let (clean_fires, clean_after, clean_soon) = daily 0 3 now (omega arith) (omega arith) in
    let (hour_fires, hour_after, hour_soon) = hourly 0 now (omega arith) in
    (
      omega arith,
      subst (λ t. is_cron_due cron_playlist_refresh 60 t ≡ true) (sym (wakes now))
          (hourly-due 0 (next_run 0 none now) hour_fires),
      (λ t later on. omega (arith, daily-first 0 0 now t (omega arith) (omega arith) later on)),
      (λ t later on. omega (arith, daily-first 0 3 now t (omega arith) (omega arith) later on)),
      (λ t later on. omega (arith, hourly-first 0 now t (omega arith) later on)),
    )
