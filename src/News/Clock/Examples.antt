-- ===== src/News/Clock/Examples.antt =====
-- The clock at 2026-06-08 12:02:30 and 12:15:05 UTC.
use fm.Base.{◌+◌, ◌-◌, ◌≤◌, ◌<◌, ◌≡◌, refl, ok, arith}
use fm.Datetime.{Datetime}
use fm.News.Clock.{
  next_enqueue_at, enqueue_slot_for_materialize, current_enqueue_slot, seconds_until_next_enqueue,
  search_tick, next_materialize_at,
}
use fm.News.Clock.Ticks.{slot_us}
use fm.News.Clock.Slots.{next_enqueue-after, slot_handover, IsTick}

abbrev materialize_run : Datetime
materialize_run = 1780920150_000_000

abbrev enqueue_run : Datetime
enqueue_run = 1780920905_000_000

abbrev quarter_past : Datetime
quarter_past = 1780920900_000_000

program : Unit {0}
unfolding next_enqueue_at enqueue_slot_for_materialize search_tick next_materialize_at
program = tt

slot_at_run : enqueue_slot_for_materialize materialize_run ≡ ok quarter_past
unfolding program
slot_at_run = refl

next_runs :
    (next_enqueue_at materialize_run ≡ ok quarter_past)
    × (next_materialize_at materialize_run ≡ ok 1780921020_000_000)
unfolding program
next_runs = (refl, refl)

next_enqueue-after_example :
    (next_enqueue_at enqueue_run ≡ ok (current_enqueue_slot enqueue_run + slot_us))
    × IsTick (current_enqueue_slot enqueue_run)
    × (current_enqueue_slot enqueue_run ≤ enqueue_run)
    × (enqueue_run < current_enqueue_slot enqueue_run + slot_us)
    × (seconds_until_next_enqueue enqueue_run
        ≡ ok (current_enqueue_slot enqueue_run + slot_us - enqueue_run))
next_enqueue-after_example = next_enqueue-after enqueue_run

slot_handover_example :
    (current_enqueue_slot enqueue_run ≡ quarter_past)
    × (next_enqueue_at materialize_run ≡ ok quarter_past)
    × (materialize_run < quarter_past)
slot_handover_example =
    slot_handover materialize_run enqueue_run quarter_past slot_at_run (omega arith) (omega arith)
