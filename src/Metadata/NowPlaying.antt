-- ===== src/Metadata/NowPlaying.antt =====
-- services/metadata/now_playing.py. The parsers and printers of Python's `float` and `datetime` and
-- the case folding of texts are parameters; a time is in microseconds, and the rounding of the
-- division of microseconds into a float is left out.
use fm.Base.{
  ℕ, String, ◌+◌, ◌-◌, ◌*◌, ◌/◌, ◌%◌, max, Bool, Option, none, some, List, [], ◌∷◌, Result, ok, err,
  ◌>>=◌, if◌then◌else◌, ◌==◌, string_eq,
}
use Prim.Native.String.{◌++◌}
use fm.Base.Int.{ℤ, pos, negsuc, pos_part, neg_part}
use fm.Datetime.{Datetime, second_us}
use fm.Geo.Registry.{CityRegistry, get}

pub data ContentType : Type 0 where
  music news ad : ContentType

-- `_TYPE_MAP.get(…, "music")`
unfoldable pub type_map : String → ContentType
type_map name =
    if name == "MUSIC"
    then music
    else if name == "MUSIC_ORDER"
    then music
    else if name == "NEWS_PAIR"
    then news
    else if name == "AD"
    then ad
    else music

-- What a text says of an instant: nothing that can be read (a ValueError that is caught), an
-- instant, or an exception that nothing catches.
pub data Reading : Type 0 where
  unreadable : Reading
  reads : ℤ → Reading
  raises : Reading

pub record Parsers : Type 0 where
  pub strip : String → String
  pub upper : String → String
  pub is_digit : String → Bool
  pub ends_with_z : String → Bool
  -- `datetime.fromtimestamp(float(text), tz=UTC)`: `unreadable` for a text that `float` refuses,
  -- `raises` for a number that is no instant and for one of digits that `float` refuses
  pub epoch : String → Reading
  -- `datetime.fromisoformat(text)`, taken to UTC
  pub fromisoformat : String → Reading
  pub isoformat : ℤ → String
  -- `int(text)`
  pub parse_int : String → Option ℤ

pub record NowPlayingResponse : Type 0 where
  pub city_tag : String
  pub title : String
  pub artist : Option String
  pub content_type : ContentType
  pub started_at : String
  pub duration_sec : ℕ
  pub remaining_sec : ℕ

pub data NowPlayingError : Type 0 where
  unknown_city : NowPlayingError
  not_playing : String → NowPlayingError
  -- uncaught
  bad_instant : NowPlayingError

-- `.replace(microsecond=0)`
abbrev pub floor_second : ℤ → ℤ
floor_second (pos t) = pos (t - t % second_us)
floor_second (negsuc t) = negsuc ((t / second_us + 1) * second_us - 1)

-- `data.get(field)` on what HGETALL gives.
unfoldable pub hash_get : String → List (String × String) → Option String
hash_get key [] = none
hash_get key ((k, v) ∷ rest) = if k == key then some v else hash_get key rest

-- `value or default`
abbrev pub or_else : Option String → String → String
or_else none fallback = fallback
or_else (some v) fallback = if v == "" then fallback else v

-- `value or None`
abbrev pub non_empty : Option String → Option String
non_empty none = none
non_empty (some v) = if v == "" then none else some v

abbrev pub current_key : String → String
current_key city_tag = "fm21:current:" ++ city_tag

module _ (parsers : Parsers) where
  open parsers use {strip, upper, is_digit, ends_with_z, epoch, fromisoformat, isoformat, parse_int}

  unfoldable pub map_content_type : Option String → ContentType
  unfolding type_map
  map_content_type raw = elim (non_empty raw) [ none ↦ music | some name ↦ type_map (upper name) ]

  abbrev pub printed : Datetime → String → Reading → Reading → Result NowPlayingError String
  printed now text raises iso = err bad_instant
  printed now text (reads started) iso =
      ok (isoformat (if is_digit text then floor_second started else started))
  printed now text unreadable iso = if ends_with_z text then ok text else elim iso [
    | raises ↦ err bad_instant
    | reads parsed ↦ ok (isoformat (floor_second parsed))
    | unreadable ↦ ok (isoformat (floor_second (pos now)))
  ]

  unfoldable pub parse_started_at : Datetime → Option String → Result NowPlayingError String
  parse_started_at now raw = elim (non_empty raw) [
    | none ↦ ok (isoformat (floor_second (pos now)))
    | some text ↦ printed now (strip text) (epoch (strip text)) (fromisoformat (strip text))
  ]

  -- `float` first, then `fromisoformat`.
  abbrev pub first_reading : Reading → Reading → Reading
  first_reading unreadable iso = iso
  first_reading (reads started) iso = reads started
  first_reading raises iso = raises

  unfoldable pub parse_started_at_dt : Option String → Reading
  parse_started_at_dt raw = elim (non_empty raw) [
    | none ↦ unreadable
    | some text ↦ first_reading (epoch (strip text)) (fromisoformat (strip text))
  ]

  -- `max(0, int(duration_sec - elapsed))`; the whole seconds of a negative rest are cut off at 0.
  abbrev pub rest_of : ℕ → Datetime → Reading → Result NowPlayingError ℕ
  rest_of duration_sec now unreadable = ok duration_sec
  rest_of duration_sec now (reads started) =
      ok ((duration_sec * second_us + pos_part started - (now + neg_part started)) / second_us)
  rest_of duration_sec now raises = err bad_instant

  unfoldable pub compute_remaining_sec : Option String → ℕ → Datetime → Result NowPlayingError ℕ
  unfolding parse_started_at_dt
  compute_remaining_sec started_at_raw duration_sec now =
      rest_of duration_sec now (parse_started_at_dt started_at_raw)

  unfoldable pub duration_of : Option String → ℕ
  duration_of none = 240
  duration_of (some raw) = elim (parse_int raw) [ none ↦ 240 | some n ↦ max 1 (pos_part n) ]

  abbrev pub response_of :
      String
      → List (String × String)
      → ℕ
      → Result NowPlayingError String
      → Result NowPlayingError ℕ
      → Result NowPlayingError NowPlayingResponse
  response_of city_tag fields duration_sec started_at_read remaining_read =
      started_at_read >>= (λ started_at. remaining_read >>= (λ remaining_sec. ok (record {
        city_tag = city_tag;
        title = or_else (hash_get "title" fields) "FM21";
        artist = non_empty (hash_get "artist" fields);
        content_type = map_content_type (hash_get "type" fields);
        started_at = started_at;
        duration_sec = duration_sec;
        remaining_sec = remaining_sec;
      })))

  abbrev pub now_playing_of :
      String → Datetime → List (String × String) → Result NowPlayingError NowPlayingResponse
  now_playing_of city_tag now fields =
      let duration_sec = duration_of (hash_get "duration_sec" fields) in
      response_of city_tag fields duration_sec (parse_started_at now (hash_get "started_at" fields))
        (compute_remaining_sec (hash_get "started_at" fields) duration_sec now)

  -- `hgetall` gives the fields of the hash under a key.
  unfoldable pub read_now_playing :
      (String → List (String × String))
      → CityRegistry
      → String
      → Datetime
      → Result NowPlayingError NowPlayingResponse
  unfolding get hash_get map_content_type parse_started_at compute_remaining_sec duration_of
  read_now_playing hgetall registry city_tag now = elim (get registry city_tag) [
    | none ↦ err unknown_city
    | some _ ↦ elim (hgetall (current_key city_tag)) [
      | [] ↦ err (not_playing city_tag)
      | (field ∷ rest) ↦ now_playing_of city_tag now (field ∷ rest)
    ]
  ]
