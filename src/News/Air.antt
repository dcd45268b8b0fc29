-- ===== src/News/Air.antt =====
-- services/news/enqueue.py and services/news/play_count.py: an item goes to the injector, and its play
-- is counted in the table and in the mirror in Redis. The probe of an audio file, the URL of the
-- stinger and `strip` are parameters. The keys of the mirror do not expire here.
pub mod Pins
pub mod Run
pub mod Materialize
pub mod Plays
pub mod Counted
pub mod Handover
pub mod Broadcast
mod Examples
use fm.Base.{
  ℕ, zero, suc, String, ◌+◌, ◌/◌, max, Bool, true, false, Option, none, some, List, [], ◌∷◌, Result,
  ok, err, ◌>>=◌, ltb, if◌then◌else◌, ◌==◌, string_eq, nat_eq, strip as after_prefix,
}
use Prim.Native.String.{◌++◌, count}
use fm.Base.Int.{pos, ℤ, ◌+ℤ◌}
use fm.Base.Values.{Value, Fields, null, str, int, list, nil, dict, field, end, get_field, get_or}
use fm.Datetime.{Datetime, second_us}
use fm.Table.{Table}
use fm.Redis.{Redis, Raw, json}
use fm.Ads.Client.{Response}
use fm.News.Items.{NewsItem, NewsError, ready, same_status, increment_play_count}

pub record AirTools : Type 0 where
  pub strip : String → String
  -- `probe_duration_sec`, in microseconds; `none` is its AudioProbeError
  pub probe_duration : String → Option ℕ
  pub default_duration_sec : ℕ
  pub stinger_uri : String

pub data AirError : Type 0 where
  no_audio_url : ℕ → AirError
  not_on_air : ℕ → AirError
  repository_error : NewsError → AirError
  -- a value in Redis that is no number, or an answer without the fields that are read
  value_error : AirError
  key_error : AirError
  index_error : AirError
  -- the exchange with the injector fails
  http_error : AirError
  slip_error : AirError

-- The first n characters, `s[:n]`.
abbrev pub first_chars : ℕ → String → String
first_chars zero s = String.[]
first_chars (suc n) String.[] = String.[]
first_chars (suc n) (String.◌∷◌ c s) = String.◌∷◌ c (first_chars n s)

-- `value or default`, for a text.
abbrev pub text_or : String → Option String → String
text_or fallback none = fallback
text_or fallback (some value) = if value == "" then fallback else value

-- Whole seconds, rounded up.
abbrev pub round_up_sec : ℕ → ℕ
round_up_sec us = (us + 999_999) / second_us

module _ (tools : AirTools) where
  unfoldable pub resolve_duration_sec : String → ℕ
  unfolding after_prefix
  resolve_duration_sec audio_url = elim (after_prefix "file://" audio_url) [
    | none ↦ tools.default_duration_sec
    | some path ↦ elim (tools.probe_duration path) [
      | none ↦ tools.default_duration_sec
      | some us ↦ max 1 (round_up_sec us)
    ]
  ]

  unfoldable pub news_title : Option String → String
  news_title summary_ru =
      let title = tools.strip (text_or "Новости" summary_ru) in
      if ltb 200 (count title) then first_chars 197 title ++ "..." else title

  unfoldable pub build_news_pair_payload : NewsItem → Result AirError Value
  unfolding resolve_duration_sec news_title
  build_news_pair_payload item =
      let audio_url = text_or "" item.audio_url in
      if audio_url == ""
      then err (no_audio_url item.id)
      else ok (
          dict (
            field "type" (str "NEWS_PAIR") (
              field "uri" (str audio_url) (
                field "city_tag" (str "all") (
                  field "meta"
                    (dict (
                      field "title" (str (news_title item.summary_ru)) (
                        field "duration_sec" (int (pos (resolve_duration_sec audio_url)))
                          (field "stinger_uri" (str tools.stinger_uri) end))))
                    end)))))

pub data NewsEnqueue : Type 0 where
  accepted : Value → Value → NewsEnqueue
  failure : ℕ → Value → Value → NewsEnqueue

-- The `id` and the `city_tags` of a 201; a body that is no object raises.
unfoldable pub read_accepted : Option Value → Result AirError NewsEnqueue
unfolding get_field
read_accepted (some (dict body)) = elim (get_field "id" body) [
  | none ↦ err key_error
  | some id ↦ ok (accepted id (get_or (list nil) "city_tags" body))
]
read_accepted _ = err value_error

abbrev pub news_message : Value
news_message = str "Failed to enqueue NEWS_PAIR."

-- `message` and `city` of an error answer.
unfoldable pub news_detail : Option Value → Value × Value
unfolding get_field
news_detail (some (dict body)) = elim (get_field "detail" body) [
  | some (dict detail) ↦ (get_or news_message "message" detail, get_or null "city_tag" detail)
  | some (str detail) ↦ (str detail, null)
  | _ ↦ (news_message, null)
]
news_detail _ = (news_message, null)

-- What the client makes of the injector's answer.
unfoldable pub enqueue_news_pair : Response → Result AirError NewsEnqueue
unfolding read_accepted news_detail
enqueue_news_pair response =
    if response.status_code == 201
    then read_accepted response.body
    else ok
        (failure response.status_code (news_detail response.body).0 (news_detail response.body).1)

abbrev pub played_key : String → String
played_key content_hash = "fm21:news:played:" ++ content_hash

-- `int(raw)`
abbrev pub int_of : Raw → Result AirError ℤ
int_of (json (int n)) = ok n
int_of _ = err value_error

module _ (redis : Redis) where
  open redis use {Store, get, set}

  unfoldable pub get_played_count : String → Store → Result AirError ℤ
  get_played_count content_hash s = elim (get (played_key content_hash) s) [
    | none ↦ ok (pos 0)
    | some raw ↦ int_of raw
  ]

  -- INCR, which raises at a value that is no number.
  unfoldable pub increment_played_count : String → Store → Result AirError ℤ × Store
  unfolding get_played_count ◌+ℤ◌
  increment_played_count content_hash s = elim (get_played_count content_hash s) [
    | err e ↦ (err e, s)
    | ok n ↦ (ok (n +ℤ pos 1), set (played_key content_hash) (json (int (n +ℤ pos 1))) s)
  ]

  module _ (table : Table (λ (item : NewsItem). item.id)) where
    open table use {Db}

    -- `if item.content_hash: increment_played_count(…)`
    unfoldable pub mirror : Option String → Db → Store → Result AirError (Unit {0}) × Db × Store
    unfolding increment_played_count
    mirror content_hash db s =
        let hash = text_or "" content_hash in
        let (answer, s') = increment_played_count hash s in
        if hash == "" then (ok tt, db, s) else (answer >>= (λ n. ok tt), db, s')

    abbrev pub then_mirror :
        Option String
        → Store
        → Result NewsError NewsItem × Db
        → Result AirError (Unit {0}) × Db × Store
    then_mirror content_hash s (err e, db) = (err (repository_error e), db, s)
    then_mirror content_hash s (ok row, db) = mirror content_hash db s

    unfoldable pub record_air_slot :
        NewsItem → Datetime → Db → Store → Result AirError (Unit {0}) × Db × Store
    unfolding increment_play_count mirror
    record_air_slot item played_at db s =
        if same_status item.status ready
        then then_mirror item.content_hash s (increment_play_count table item.id played_at db)
        else (err (not_on_air item.id), db, s)
