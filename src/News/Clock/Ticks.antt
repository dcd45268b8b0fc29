-- ===== src/News/Clock/Ticks.antt =====
-- The searches for the next tick end, at the first minute that passes.
use fm.Base.{
  ℕ, zero, suc, ◌+◌, ◌-◌, ◌*◌, ◌/◌, ◌%◌, ◌≤◌, ◌<◌, ◌≡◌, Bool, true, false, ok, arith, ltb, ◌&&◌,
  if◌then◌else◌, Bool-cases, inl, inr, eqb, ◌∙◌, ap, sym, subst,
}
use fm.Datetime.{Datetime, minute_us, floor_minute}
use fm.News.Clock.{search_tick, next_enqueue_at, is_enqueue_minute, is_materialize_minute}

-- Where the first minute that passes is `found`, among the minutes that are searched, it is found.
search_tick_lem :
    (passes : Datetime → Bool) (current : Datetime) (rounds ahead found : ℕ)
    → ahead ≤ found
    → found < ahead + rounds
    → passes (current + found * minute_us) ≡ true
    → ((k : ℕ) → ahead ≤ k → k < found → passes (current + k * minute_us) ≡ false)
    → search_tick passes current rounds ahead ≡ ok (floor_minute (current + found * minute_us))
unfolding search_tick
search_tick_lem passes current zero ahead found a b t before = absurd (omega arith)
search_tick_lem passes current (suc rounds) ahead found a b t before =
    elim (Bool-cases (ltb ahead found)) [
      | inl e ↦ rw (before ahead (omega arith) (ground arith)) (
          search_tick_lem passes current rounds (ahead + 1) found (ground arith) (omega arith) t
            (λ k x y. before k (omega arith) y))
      | inr e ↦ let same : ahead ≡ found = ground arith in rw same (rw t)
    ]

-- The minutes of the enqueue ticks are the multiples of 15.
pub enqueue_at : (m : ℕ) → is_enqueue_minute (m * minute_us) ≡ eqb (m % 15) 0
unfolding is_enqueue_minute
enqueue_at m =
    let minute : m * minute_us / minute_us % 60 ≡ m % 60 = omega arith in rw minute (ground arith)

-- Those of the materialize ticks lie two minutes behind.
pub materialize_at : (m : ℕ) → is_materialize_minute (m * minute_us) ≡ eqb (m % 15) 2
unfolding is_materialize_minute
materialize_at m =
    let minute : m * minute_us / minute_us % 60 ≡ m % 60 = omega arith in rw minute (ground arith)

abbrev pub slot_us : ℕ
slot_us = 900_000_000

pub floor_lem : (now : Datetime) → floor_minute now ≡ now / minute_us * minute_us
floor_lem now = omega arith

shift_lem : (m k : ℕ) → m * minute_us + k * minute_us ≡ (m + k) * minute_us
shift_lem m k = omega arith

enqueue_search :
    (m : ℕ)
    → search_tick (λ c. is_enqueue_minute c && ltb (m * minute_us) c) (m * minute_us) 1441 0
      ≡ ok (floor_minute (m * minute_us + (15 - m % 15) * minute_us))
enqueue_search m =
    search_tick_lem (λ c. is_enqueue_minute c && ltb (m * minute_us) c) (m * minute_us) 1441 0
      (15 - m % 15) (omega arith) (omega arith)
      (rw (shift_lem m (15 - m % 15)) (rw (enqueue_at (m + (15 - m % 15))) (ground arith)))
      (λ k a b. rw (shift_lem m k) (rw (enqueue_at (m + k)) (ground arith)))

pub next_enqueue_at_lem :
    (now : Datetime) → next_enqueue_at now ≡ ok ((now / slot_us + 1) * slot_us)
unfolding next_enqueue_at
next_enqueue_at_lem now =
    subst
      (λ (c : ℕ).
        search_tick (λ d. is_enqueue_minute d && ltb c d) c 1441 0
        ≡ ok ((now / slot_us + 1) * slot_us))
      (sym (floor_lem now)) (enqueue_search (now / minute_us) ∙ ap ok (omega arith))

pub materialize_search :
    (m : ℕ)
    → search_tick is_materialize_minute (m * minute_us) 1440 1
      ≡ ok (
          floor_minute
            (m * minute_us + (if ltb (m % 15) 2 then 2 - m % 15 else 17 - m % 15) * minute_us))
materialize_search m =
    let found : ℕ = if ltb (m % 15) 2 then 2 - m % 15 else 17 - m % 15 in
    search_tick_lem is_materialize_minute (m * minute_us) 1440 1 found (ground arith) (ground arith)
      (rw (shift_lem m found) (rw (materialize_at (m + found)) (ground arith)))
      (λ k a b. rw (shift_lem m k) (rw (materialize_at (m + k)) (ground arith)))

pub news_search :
    (m : ℕ)
    → (is_enqueue_minute (m * minute_us) ≡ false)
    → search_tick is_enqueue_minute (m * minute_us) 1440 1
      ≡ ok (floor_minute (m * minute_us + (15 - m % 15) * minute_us))
news_search m h =
    search_tick_lem is_enqueue_minute (m * minute_us) 1440 1 (15 - m % 15) (omega arith)
      (omega arith)
      (rw (shift_lem m (15 - m % 15)) (rw (enqueue_at (m + (15 - m % 15))) (ground arith)))
      (λ k a b. rw (shift_lem m k) (rw (enqueue_at (m + k)) (ground arith)))
