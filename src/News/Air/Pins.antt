-- ===== src/News/Air/Pins.antt =====
-- The pins of the air slots, of services/news/pipeline.py, which do not expire here.
use fm.Base.{ℕ, String, Option, none, some, Result, ok, err, string_eq}
use Prim.Native.String.{◌++◌}
use fm.Base.Int.{ℤ, pos}
use fm.Base.Values.{int}
use fm.Redis.{Redis, json}
use fm.News.Air.{AirError, int_of}

-- `slot_key` is the slot as `slot_iso` prints it.
abbrev pub slot_pin_key : String → String → String
slot_pin_key city slot_key = "fm21:news:slot:" ++ (city ++ (":" ++ slot_key))

module _ (redis : Redis) where
  open redis use {Store, get, set}

  unfoldable pub pin_slot_item : String → String → ℕ → Store → Store
  pin_slot_item city slot_key item_id s =
      set (slot_pin_key city slot_key) (json (int (pos item_id))) s

  unfoldable pub get_pinned_item_id : String → String → Store → Result AirError (Option ℤ)
  get_pinned_item_id city slot_key s = elim (get (slot_pin_key city slot_key) s) [
    | none ↦ ok none
    | some raw ↦ elim (int_of raw) [ ok n ↦ ok (some n) | err e ↦ err e ]
  ]
