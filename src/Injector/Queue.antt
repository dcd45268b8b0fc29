-- ===== src/Injector/Queue.antt =====
-- services/injector/queue.py: the operations of `QueueClient` on the store. A method returns its
-- result, or the exception that it raises, and the store.
use Prim.Native.String.{◌++◌}
use fm.Base.{
  ℕ, ◌+◌, String, Bool, false, Option, none, some, List, [], ◌∷◌, Result, ok, err, if◌then◌else◌,
  leb, count_if, length, removeprefix,
}
use fm.Base.Values.{Value, null, bool, int, str, list, dict, get_field, is_text}
use fm.Redis.{Redis, Raw, json, text}
use fm.Injector.Fanout.{QueueItem, item_value}

abbrev pub queue_prefix : String
queue_prefix = "fm21:queue:"

abbrev pub buffer_prefix : String
buffer_prefix = "fm21:playlist:buffer:"

abbrev pub fingerprint_prefix : String
fingerprint_prefix = "fm21:playlist:fingerprint:"

abbrev pub cursor_prefix : String
cursor_prefix = "fm21:playlist:cursor:"

unfoldable pub queue_key : String → String
queue_key city = queue_prefix ++ city

unfoldable pub playlist_buffer_key : String → String
playlist_buffer_key city = buffer_prefix ++ city

unfoldable pub playlist_fingerprint_key : String → String
playlist_fingerprint_key city = fingerprint_prefix ++ city

unfoldable pub playlist_cursor_key : String → String
playlist_cursor_key city = cursor_prefix ++ city

-- `json.dumps(item)`
unfoldable pub dumps : QueueItem → Raw
unfolding item_value
dumps item = json (item_value item)

-- `json.loads(raw).get("type")`, with `none` where that raises or has no such field.
unfoldable pub item_type_of : Raw → Option Value
unfolding get_field
item_type_of (json (dict fs)) = get_field "type" fs
item_type_of _ = none

unfoldable pub has_type : String → Raw → Bool
unfolding item_type_of
has_type t raw = elim (item_type_of raw) [ none ↦ false | some v ↦ is_text t v ]

-- The scripts' `pcall(cjson.decode, item)` and `decoded.type == 'AD'`: what does not decode is no
-- AD, and `none` is the Lua error that indexing null, a Boolean or a number raises.
unfoldable pub lua_is_ad : Raw → Option Bool
unfolding get_field
lua_is_ad (text t) = some false
lua_is_ad (json null) = none
lua_is_ad (json (bool b)) = none
lua_is_ad (json (int n)) = none
lua_is_ad (json (str t)) = some false
lua_is_ad (json (list vs)) = some false
lua_is_ad (json (dict fs)) = elim (get_field "type" fs) [
  | none ↦ some false
  | some v ↦ some (is_text "AD" v)
]

-- The scripts' loop over the items of a queue, from `ad_count`.
unfoldable pub scan_ads : ℕ → List Raw → Option ℕ
unfolding lua_is_ad
scan_ads ad_count [] = some ad_count
scan_ads ad_count (item ∷ items) = elim (lua_is_ad item) [
  | none ↦ none
  | some is_ad ↦ scan_ads (if is_ad then ad_count + 1 else ad_count) items
]

pub data ScriptReply : Type 0 where
  done : ℕ → ScriptReply
  queue_full : String → ScriptReply
  fault : ScriptReply

pub data QueueError : Type 0 where
  full_error : (city_tag : String) → QueueError
  script_error : QueueError

pub data Check : Type 0 where
  room : Check
  full : (key : String) → Check
  broken : Check

abbrev pub raise_full : String → ScriptReply → Result QueueError (Unit {0})
raise_full city (done n) = ok tt
raise_full city (queue_full key) = err (full_error city)
raise_full city fault = err script_error

abbrev pub raise_full_key : ScriptReply → Result QueueError (Unit {0})
raise_full_key (done n) = ok tt
raise_full_key (queue_full key) = err (full_error (removeprefix queue_prefix key))
raise_full_key fault = err script_error

abbrev pub pushes_of : List (String × QueueItem) → List (String × Raw)
pushes_of [] = []
pushes_of ((city, item) ∷ rest) = (queue_key city, dumps item) ∷ pushes_of rest

abbrev pub keys_of : List (String × QueueItem) → List String
keys_of [] = []
keys_of ((city, item) ∷ rest) = queue_key city ∷ keys_of rest

module _ (redis : Redis) where
  open redis use {Store, lrange, lpush, ltrim}

  unfoldable pub count_pending_ads : String → Store → ℕ
  unfolding count_if has_type queue_key
  count_pending_ads city s = count_if (has_type "AD") (lrange (queue_key city) s)

  unfoldable pub count_pending_music : String → Store → ℕ
  unfolding count_if has_type queue_key
  count_pending_music city s = count_if (has_type "MUSIC") (lrange (queue_key city) s)

  unfoldable pub list_playlist_buffer : String → Store → List Raw
  unfolding playlist_buffer_key
  list_playlist_buffer city s = lrange (playlist_buffer_key city) s

  unfoldable pub record_playlist_buffer : String → String → ℕ → Store → Store
  unfolding playlist_buffer_key
  record_playlist_buffer city track_id max_len s =
      let key = playlist_buffer_key city in ltrim key max_len (lpush key (text track_id) s)

  unfoldable pub enqueue_item : String → QueueItem → Store → Store
  unfolding queue_key dumps
  enqueue_item city item s = lpush (queue_key city) (dumps item) s

  -- `_ENQUEUE_AD_LUA`
  unfoldable pub enqueue_ad_script : String → ℕ → Raw → Store → ScriptReply × Store
  unfolding scan_ads
  enqueue_ad_script key max_ads payload s = elim (scan_ads 0 (lrange key s)) [
    | none ↦ (fault, s)
    | some ad_count ↦
        if leb max_ads ad_count
        then (queue_full key, s)
        else (done (ad_count + 1), lpush key payload s)
  ]

  unfoldable pub enqueue_ad : ℕ → String → QueueItem → Store → Result QueueError (Unit {0}) × Store
  unfolding enqueue_ad_script queue_key dumps
  enqueue_ad max_ads city item s =
      let (reply, s') = enqueue_ad_script (queue_key city) max_ads (dumps item) s in
      (raise_full city reply, s')

  -- The first loop of `_FANOUT_AD_LUA`.
  unfoldable pub check_keys : ℕ → List String → Store → Check
  unfolding scan_ads
  check_keys max_ads [] s = room
  check_keys max_ads (key ∷ keys) s = elim (scan_ads 0 (lrange key s)) [
    | none ↦ broken
    | some ad_count ↦
        let rest = check_keys max_ads keys s in if leb max_ads ad_count then full key else rest
  ]

  -- Its second loop, over the keys and their payloads.
  unfoldable pub push_all : List (String × Raw) → Store → Store
  push_all [] s = s
  push_all ((key, payload) ∷ rest) s = push_all rest (lpush key payload s)

  -- `_FANOUT_AD_LUA`
  unfoldable pub fanout_ad_script :
      ℕ → List String → List (String × Raw) → Store → ScriptReply × Store
  unfolding check_keys push_all
  fanout_ad_script max_ads keys pushes s = elim (check_keys max_ads keys s) [
    | room ↦ (done (length keys), push_all pushes s)
    | full key ↦ (queue_full key, s)
    | broken ↦ (fault, s)
  ]

  unfoldable pub fanout_ad :
      ℕ → List (String × QueueItem) → Store → Result QueueError (Unit {0}) × Store
  unfolding fanout_ad_script queue_key dumps removeprefix
  fanout_ad max_ads [] s = (ok tt, s)
  fanout_ad max_ads (first ∷ rest) s =
      let city_items = first ∷ rest in
      let (reply, s') = fanout_ad_script max_ads (keys_of city_items) (pushes_of city_items) s in
      (raise_full_key reply, s')
