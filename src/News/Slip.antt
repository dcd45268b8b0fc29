-- ===== src/News/Slip.antt =====
-- The slip guard of services/news/enqueue.py. Seconds are in microseconds; the parsers of `datetime`
-- and `float` are parameters, `none` where they raise.
use fm.Base.{
  ℕ, String, Bool, true, false, Option, none, some, List, [], ◌∷◌, if◌then◌else◌, Result, ok, err,
  ◌>>=◌,
}
use Prim.Native.String.{◌++◌}
use fm.Base.Int.{ℤ, pos, pos_part, ◌+ℤ◌, ◌-ℤ◌, ltb_ℤ}
use fm.Base.Values.{Value, Fields, dict, end, int, get_field, get_or, is_truthy}
use fm.Datetime.{Datetime}
use fm.Metadata.NowPlaying.{hash_get, non_empty}

abbrev pub news_pair_priority : ℤ
news_pair_priority = pos 80

pub data SlipError : Type 0 where
  -- a queue that does not hold what the injector writes
  crash : SlipError

-- `max(0.0, x)`
abbrev pub not_below_zero : ℤ → ℤ
not_below_zero x = pos (pos_part x)

-- `item.get("meta") or {}`; a value that is no object raises when it is used.
abbrev pub object : Option Value → Result SlipError Fields
object none = ok end
object (some (dict fs)) = ok fs
object (some v) = if is_truthy v then err crash else ok end

-- The city with the greatest slip so far.
abbrev pub Worst : Type 0
Worst = Option String × ℤ

abbrev pub worse : String → Worst → ℤ → Worst
worse city (worst_city, worst_slip) slip =
    if ltb_ℤ worst_slip slip then (some city, slip) else (worst_city, worst_slip)

-- The loop of `should_skip_for_slip`; `slip` is `estimate_slip_sec` at the slot.
unfoldable pub worst_loop :
    (String → Result SlipError ℤ) → List String → Worst → Result SlipError Worst
worst_loop slip [] worst = ok worst
worst_loop slip (city ∷ cities) worst = do
  slip_sec ← slip city
  worst_loop slip cities (worse city worst slip_sec)

abbrev pub skip_if : ℕ → Worst → Bool × Option String
skip_if max_slip_sec (worst_city, worst_slip) =
    if ltb_ℤ (pos max_slip_sec) worst_slip then (true, worst_city) else (false, none)

module _ (started_at : String → Option Datetime) (parse_float : String → Option ℤ)
    (to_int to_float : Value → Result SlipError ℤ) where
  unfoldable pub current_block_remaining_sec : List (String × String) → Datetime → ℤ
  unfolding hash_get
  current_block_remaining_sec fields now = elim (non_empty (hash_get "started_at" fields)) [
    | none ↦ pos 0
    | some started_raw ↦ elim (hash_get "duration_sec" fields) [
      | none ↦ pos 0
      | some duration_raw ↦ elim (started_at started_raw) [
        | none ↦ pos 0
        | some started ↦ elim (parse_float duration_raw) [
          | none ↦ pos 0
          | some duration ↦ not_below_zero (duration -ℤ (pos now -ℤ pos started))
        ]
      ]
    ]
  ]

  -- What one item of the queue adds.
  unfoldable pub higher_priority_duration : Value → Result SlipError ℤ
  unfolding get_field
  higher_priority_duration (dict item) = do
    priority ← to_int (get_or (int (pos 0)) "priority" item)
    if ltb_ℤ news_pair_priority priority
        then object (get_field "meta" item)
          >>= (λ meta. to_float (get_or (int (pos 0)) "duration_sec" meta))
        else ok (pos 0)
  higher_priority_duration _ = err crash

  unfoldable pub pending_higher_priority_duration_sec : List Value → ℤ → Result SlipError ℤ
  unfolding higher_priority_duration
  pending_higher_priority_duration_sec [] total = ok total
  pending_higher_priority_duration_sec (item ∷ items) total = do
    more ← higher_priority_duration item
    pending_higher_priority_duration_sec items (total +ℤ more)

  -- The hash under `fm21:current:{city}` and the items of the city's queue.
  unfoldable pub estimate_slip_sec :
      (String → List (String × String))
      → (String → Result SlipError (List Value))
      → String
      → Datetime
      → Datetime
      → Result SlipError ℤ
  unfolding current_block_remaining_sec pending_higher_priority_duration_sec
  estimate_slip_sec hgetall list_items city slot now = do
    items ← list_items city
    pending ← pending_higher_priority_duration_sec items (pos 0)
    ok (
        not_below_zero (pos now -ℤ pos slot)
        +ℤ (current_block_remaining_sec (hgetall ("fm21:current:" ++ city)) now +ℤ pending))

  unfoldable pub should_skip_for_slip :
      (String → List (String × String))
      → (String → Result SlipError (List Value))
      → List String
      → Datetime
      → Datetime
      → ℕ
      → Result SlipError (Bool × Option String)
  unfolding worst_loop
  should_skip_for_slip hgetall list_items cities slot now max_slip_sec = do
    worst ←
        worst_loop (λ city. estimate_slip_sec hgetall list_items city slot now) cities (none, pos 0)
    ok (skip_if max_slip_sec worst)
