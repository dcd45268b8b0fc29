-- ===== src/Injector/Upkeep.antt =====
-- services/injector/queue.py: the operations that the music worker uses on the queues.
use fm.Base.{ℕ, String, Option, none, some, List, [], ◌∷◌, if◌then◌else◌, eqb, ◌==◌, string_eq, ◌+◌}
use mathlib.Core.List.{reverse}
use fm.Base.Int.{ℤ, pos, pos_part}
use fm.Base.Values.{Value, int}
use fm.Redis.{Redis, Raw, json, text}
use fm.Injector.Queue.{
  has_type, queue_key, playlist_buffer_key, playlist_fingerprint_key, playlist_cursor_key,
}

-- `[json.loads(raw) for raw in raw_items]`; `none` is the decode error.
unfoldable pub loads_all : List Raw → Option (List Value)
loads_all [] = some []
loads_all (text t ∷ raws) = none
loads_all (json v ∷ raws) = elim (loads_all raws) [ none ↦ none | some vs ↦ some (v ∷ vs) ]

-- `max(0, int(value))`, and 0 where `int` raises. `int` reads the decimal text of a number.
unfoldable pub cursor_of : Raw → ℕ
cursor_of (json (int n)) = pos_part n
cursor_of _ = 0

-- `value if value else None`: an empty text counts as missing.
unfoldable pub truthy : Raw → Option Raw
truthy (text t) = if t == "" then none else some (text t)
truthy (json v) = some (json v)

-- The loop that splits a queue: what is kept, and how many items are not.
unfoldable pub split_by_type : String → List Raw → List Raw × ℕ
unfolding has_type
split_by_type t [] = ([], 0)
split_by_type t (raw ∷ raws) =
    let (kept, removed) = split_by_type t raws in
    if has_type t raw then (kept, removed + 1) else (raw ∷ kept, removed)

module _ (redis : Redis) where
  open redis use {Store, lrange, lpush, get, set, delete}

  unfoldable pub list_items : String → Store → Option (List Value)
  unfolding loads_all queue_key
  list_items city s = loads_all (lrange (queue_key city) s)

  unfoldable pub get_playlist_fingerprint : String → Store → Option Raw
  unfolding playlist_fingerprint_key truthy
  get_playlist_fingerprint city s = elim (get (playlist_fingerprint_key city) s) [
    | none ↦ none
    | some value ↦ truthy value
  ]

  unfoldable pub set_playlist_fingerprint : String → String → Store → Store
  unfolding playlist_fingerprint_key
  set_playlist_fingerprint city fingerprint s =
      set (playlist_fingerprint_key city) (text fingerprint) s

  unfoldable pub get_catalog_cursor : String → Store → ℕ
  unfolding playlist_cursor_key cursor_of
  get_catalog_cursor city s = elim (get (playlist_cursor_key city) s) [
    | none ↦ 0
    | some value ↦ cursor_of value
  ]

  unfoldable pub set_catalog_cursor : String → ℤ → Store → Store
  unfolding playlist_cursor_key
  set_catalog_cursor city index s =
      set (playlist_cursor_key city) (json (int (pos (pos_part index)))) s

  unfoldable pub clear_playlist_buffer : String → Store → Store
  unfolding playlist_buffer_key
  clear_playlist_buffer city s = delete (playlist_buffer_key city) s

  -- `for raw in raws: pipe.lpush(key, raw)`
  unfoldable pub push_each : String → List Raw → Store → Store
  push_each key [] s = s
  push_each key (raw ∷ raws) s = push_each key raws (lpush key raw s)

  unfoldable pub remove_pending_items_by_type : String → String → Store → ℕ × Store
  unfolding split_by_type push_each queue_key
  remove_pending_items_by_type city t s =
      let key = queue_key city in
      let (kept, removed) = split_by_type t (lrange key s) in
      (removed, if eqb removed 0 then s else push_each key (reverse kept) (delete key s))

  unfoldable pub flush_all : List String → Store → Store
  unfolding queue_key playlist_buffer_key playlist_fingerprint_key playlist_cursor_key
  flush_all [] s = s
  flush_all (city ∷ cities) s = flush_all cities (
      delete (playlist_cursor_key city) (
        delete (playlist_fingerprint_key city)
          (delete (playlist_buffer_key city) (delete (queue_key city) s))))
