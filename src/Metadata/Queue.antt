-- ===== src/Metadata/Queue.antt =====
-- services/metadata/queue_reader.py: the preview of a city's queue. `str` and `upper` are parameters.
-- A value of another type where a text is called for raises.
use fm.Base.{
  ℕ, suc, String, ◌+◌, max, Bool, true, false, ◌&&◌, ◌||◌, Option, none, some, List, [], ◌∷◌, map,
  take, Result, ok, err, ◌>>=◌, if◌then◌else◌, ◌==◌, nat_eq, string_eq, leb, arith, ◌≡◌,
}
use Prim.Native.String.{◌++◌}
use fm.Base.Int.{ℤ, pos, pos_part, ltb_ℤ, leb_ℤ}
use fm.Base.Sort.{Order, sort}
use fm.Base.Values.{
  Value, Fields, null, bool, int, str, list, dict, end, get_field, get_or, is_truthy,
}
use fm.Redis.{Raw, json}
use fm.Geo.Registry.{CityRegistry, get}
use fm.Metadata.NowPlaying.{ContentType, music, Parsers, map_content_type}

pub data PreviewError : Type 0 where
  unknown_city : PreviewError
  -- an `AttributeError` or a validation error
  crash : PreviewError

pub record QueueItemPreview : Type 0 where
  pub title : String
  pub artist : Option String
  pub content_type : ContentType
  pub duration_sec : ℕ

unfoldable pub type_priority : String → ℤ
type_priority name =
    if name == "AD"
    then pos 100
    else if name == "NEWS_PAIR"
    then pos 80
    else if name == "MUSIC_ORDER"
    then pos 50
    else if name == "MUSIC"
    then pos 10
    else pos 0

-- (-p, -i) ≤ (-q, -j)
abbrev pub key_le : ℤ → ℤ → ℕ → ℕ → Bool
key_le p q i j = ltb_ℤ q p || (leb_ℤ q p && leb j i)

order_trans :
    (p q r : ℤ) (i j k : ℕ) → key_le p q i j ≡ true → key_le q r j k ≡ true → key_le p r i k ≡ true
order_trans p q r i j k h g = ground (arith, h, g)

order_total : (p q : ℤ) (i j : ℕ) → key_le p q i j ≡ false → key_le q p j i ≡ true
order_total p q i j h = ground (arith, h)

module _ (parsers : Parsers) (show : Value → String) where
  open parsers use {upper, parse_int}

  -- `int(value)`, or `none` where it raises a TypeError or a ValueError.
  unfoldable pub to_int : Value → Option ℤ
  to_int null = none
  to_int (bool b) = some (pos (if b then 1 else 0))
  to_int (int n) = some n
  to_int (str s) = parse_int s
  to_int (list vs) = none
  to_int (dict fs) = none

  -- The priority by the type of the item.
  unfoldable pub priority_of_type : Option Value → ℤ
  unfolding type_priority
  priority_of_type (some (str name)) = type_priority (upper name)
  priority_of_type _ = pos 0

  unfoldable pub item_priority : Fields → ℤ
  unfolding get_field to_int priority_of_type
  item_priority item = elim (get_field "priority" item) [
    | none ↦ priority_of_type (get_field "type" item)
    | some raw ↦ elim (to_int raw) [ some n ↦ n | none ↦ priority_of_type (get_field "type" item) ]
  ]

  -- `item.get("meta") or {}`; a value that is no object raises when it is used.
  unfoldable pub meta_of : Fields → Result PreviewError Fields
  unfolding get_field is_truthy
  meta_of item = elim (get_field "meta" item) [
    | none ↦ ok end
    | some (dict fs) ↦ ok fs
    | some other ↦ if is_truthy other then err crash else ok end
  ]

  -- `int(value)` with a fallback.
  unfoldable pub int_or : ℕ → Value → ℤ
  unfolding to_int
  int_or fallback v = elim (to_int v) [ none ↦ pos fallback | some n ↦ n ]

  unfoldable pub preview_duration_sec : Fields → Fields → ℕ
  unfolding int_or get_field
  preview_duration_sec item meta =
      let duration = max 1 (pos_part (int_or 1 (get_or (int (pos 1)) "duration_sec" meta))) in
      let stinger = pos_part (int_or 4 (get_or (int (pos 4)) "stinger_duration_sec" meta)) in
      if upper (show (get_or (str "") "type" item)) == "NEWS_PAIR"
      then duration + stinger
      else duration

  unfoldable pub content_type_of : Option Value → Result PreviewError ContentType
  unfolding map_content_type is_truthy
  content_type_of none = ok music
  content_type_of (some (str name)) = ok (map_content_type parsers (some name))
  content_type_of (some other) = if is_truthy other then err crash else ok music

  unfoldable pub artist_of : Option Value → Result PreviewError (Option String)
  unfolding is_truthy
  artist_of none = ok none
  artist_of (some (str name)) = ok (if name == "" then none else some name)
  artist_of (some other) = if is_truthy other then err crash else ok none

  unfoldable pub title_of : Option Value → String
  unfolding is_truthy
  title_of none = "FM21"
  title_of (some v) = if is_truthy v then show v else "FM21"

  unfoldable pub to_preview_item : Fields → Result PreviewError QueueItemPreview
  unfolding meta_of preview_duration_sec content_type_of artist_of title_of get_field
  to_preview_item item = do
    meta ← meta_of item
    artist ← artist_of (get_field "artist" meta)
    content_type ← content_type_of (get_field "type" item)
    ok (record {
      title = title_of (get_field "title" meta);
      artist = artist;
      content_type = content_type;
      duration_sec = preview_duration_sec item meta;
    })

  unfoldable pub enumerate_from : ℕ → List Fields → List (ℕ × Fields)
  enumerate_from i [] = []
  enumerate_from i (item ∷ items) = (i, item) ∷ enumerate_from (suc i) items

  -- The pairs by (-priority, -index).
  abbrev pub before : ℕ × Fields → ℕ × Fields → Bool
  before (i, a) (j, b) = key_le (item_priority a) (item_priority b) i j

  pub before_trans :
      (a b c : ℕ × Fields) → before a b ≡ true → before b c ≡ true → before a c ≡ true
  before_trans (i, a) (j, b) (k, c) h g =
      order_trans (item_priority a) (item_priority b) (item_priority c) i j k h g

  pub before_total : (a b : ℕ × Fields) → before a b ≡ false → before b a ≡ true
  before_total (i, a) (j, b) h = order_total (item_priority a) (item_priority b) i j h

  abbrev pub by_priority : Order (ℕ × Fields)
  by_priority = record { le = before; le-trans = before_trans; le-total = before_total }

  abbrev pub items_of : List (ℕ × Fields) → List Fields
  items_of entries = map (λ entry. entry.1) entries

  unfoldable pub sort_pending_items : List Fields → List Fields
  unfolding enumerate_from sort
  sort_pending_items items = items_of (sort by_priority (enumerate_from 0 items))

  -- The elements that are JSON objects.
  unfoldable pub decode : List Raw → List Fields
  decode [] = []
  decode (json (dict item) ∷ rest) = item ∷ decode rest
  decode (_ ∷ rest) = decode rest

  unfoldable pub preview_all : List Fields → Result PreviewError (List QueueItemPreview)
  unfolding to_preview_item
  preview_all [] = ok []
  preview_all (item ∷ items) =
      let rest = preview_all items in
      do preview ← to_preview_item item; previews ← rest; ok (preview ∷ previews)

  -- `lrange key 0 -1` gives the queue of the city.
  unfoldable pub read_queue_preview :
      (String → List Raw) → CityRegistry → ℕ → String → Result PreviewError (List QueueItemPreview)
  unfolding get sort_pending_items decode preview_all
  read_queue_preview lrange registry limit city_tag = elim (get registry city_tag) [
    | none ↦ err unknown_city
    | some _ ↦
        preview_all (take limit (sort_pending_items (decode (lrange ("fm21:queue:" ++ city_tag)))))
  ]
