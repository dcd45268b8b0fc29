-- ===== src/News/Clock/Slots.antt =====
-- The two cron schedules agree on the slots.
use fm.Base.{
  ℕ, ◌+◌, ◌-◌, ◌*◌, ◌/◌, ◌%◌, ◌≤◌, ◌<◌, ◌≡◌, ◌∙◌, ap, sym, subst, ok, err, arith, eqb,
  if◌then◌else◌, Bool-cases, inl, inr,
}
use fm.Datetime.{Datetime, minute_us, minute_of, floor_minute}
use fm.News.Clock.{
  not_materialize_minute, next_enqueue_at, next_materialize_at, next_news_at, is_enqueue_minute,
  is_materialize_minute, enqueue_slot_for_materialize, current_enqueue_slot,
  seconds_until_next_enqueue, search_tick,
}
use fm.News.Clock.Ticks.{
  slot_us, next_enqueue_at_lem, enqueue_at, materialize_at, materialize_search, news_search,
  floor_lem,
}

pub current_enqueue_slot_lem : (now : Datetime) → current_enqueue_slot now ≡ now / slot_us * slot_us
unfolding current_enqueue_slot
current_enqueue_slot_lem now = omega arith

pub next_materialize_at_lem :
    (now : Datetime)
    → next_materialize_at now ≡ ok (((now / minute_us + 13) / 15 * 15 + 2) * minute_us)
unfolding next_materialize_at
next_materialize_at_lem now =
    subst
      (λ (c : ℕ).
        search_tick is_materialize_minute c 1440 1
        ≡ ok (((now / minute_us + 13) / 15 * 15 + 2) * minute_us))
      (sym (floor_lem now)) (materialize_search (now / minute_us) ∙ ap ok (ground arith))

pub next_news_at_lem :
    (now : Datetime) → next_news_at now ≡ ok ((now / minute_us + 14) / 15 * 15 * minute_us)
unfolding next_news_at
next_news_at_lem now =
    subst
      (λ (c : ℕ).
        (if is_enqueue_minute c then ok c else search_tick is_enqueue_minute c 1440 1)
        ≡ ok ((now / minute_us + 14) / 15 * 15 * minute_us))
      (sym (floor_lem now))
      (elim (Bool-cases (is_enqueue_minute (now / minute_us * minute_us))) [
        | inl e ↦ rw e (ap ok (ground (arith, enqueue_at (now / minute_us), e)))
        | inr e ↦ rw e (
            news_search (now / minute_us) e
            ∙ ap ok (ground (arith, enqueue_at (now / minute_us), e)))
      ])

slot_of_materialize :
    (now : Datetime)
    → enqueue_slot_for_materialize now ≡ (
        if eqb (now / minute_us % 15) 2
        then ok ((now / slot_us + 1) * slot_us)
        else err (not_materialize_minute (minute_of now)))
unfolding enqueue_slot_for_materialize
slot_of_materialize now = ground arith

abbrev pub IsTick : Datetime → Type 0
IsTick t = t % slot_us ≡ 0

-- The search for the next enqueue tick never fails: it answers the first multiple of a quarter of
-- an hour after `now`, which is the slot behind the current one, and the worker then sleeps for
-- more than nothing and at most a quarter of an hour.
pub next_enqueue-after :
    (now : Datetime)
    → (next_enqueue_at now ≡ ok (current_enqueue_slot now + slot_us))
      × (IsTick (current_enqueue_slot now))
      × (current_enqueue_slot now ≤ now)
      × (now < current_enqueue_slot now + slot_us)
      × (seconds_until_next_enqueue now ≡ ok (current_enqueue_slot now + slot_us - now))
unfolding seconds_until_next_enqueue
next_enqueue-after now = rw current_enqueue_slot_lem (
    rw next_enqueue_at_lem
      (ap ok (omega arith), omega arith, omega arith, omega arith, ap ok (omega arith)))

-- A materialize run at one of its minutes prepares the enqueue slot behind the current one; at any
-- other minute it raises.
pub materialize_slot :
    (now : Datetime)
    → enqueue_slot_for_materialize now ≡ (
        if is_materialize_minute (floor_minute now)
        then ok (current_enqueue_slot now + slot_us)
        else err (not_materialize_minute (minute_of now)))
materialize_slot now =
    slot_of_materialize now
    ∙ rw floor_lem (rw materialize_at (rw current_enqueue_slot_lem (ground arith)))

-- What a materialize run pins for a slot is what every enqueue run within that slot looks up, and
-- the slot is the first one to begin after the materialize run.
pub slot_handover :
    (run later slot : Datetime)
    → enqueue_slot_for_materialize run ≡ ok slot
    → slot ≤ later
    → later < slot + slot_us
    → (current_enqueue_slot later ≡ slot) × (next_enqueue_at run ≡ ok slot) × (run < slot)
slot_handover run later slot h a b =
    let chosen : slot ≡ (run / slot_us + 1) * slot_us =
      ground (arith, sym (slot_of_materialize run) ∙ h) in
    (
      current_enqueue_slot_lem later ∙ omega arith,
      next_enqueue_at_lem run ∙ ap ok (sym chosen),
      omega arith,
    )
