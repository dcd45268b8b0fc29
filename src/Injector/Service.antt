-- ===== src/Injector/Service.antt =====
-- services/injector/main.py: `POST /internal/enqueue`.
use fm.Base.{
  ℕ, String, Option, List, [], ◌∷◌, Result, ok, err, ◌>>◌, raise_if, if◌then◌else◌, ◌==◌, string_eq,
  not, ltb, ◌&&◌, contains,
}
use fm.Base.Int.{pos}
use fm.Base.Values.{Fields, int, str, end, field}
use fm.Redis.{Redis}
use fm.Common.{secrets_match}
use fm.Injector.Fanout.{
  ItemType, type_name, enqueue_types, QueueItem, prepare_enqueue, ids_of, cities_of,
}
use fm.Injector.Queue.{
  QueueError, full_error, script_error, enqueue_ad, fanout_ad, enqueue_item, record_playlist_buffer,
}

-- The constants that are read from the environment, and the cities of cities.yaml.
pub record Settings : Type 0 where
  pub max_pending_ads : ℕ
  pub max_ad_duration_sec : ℕ
  pub internal_token : String
  pub active_cities : List String

pub record EnqueueMeta : Type 0 where
  pub title : String
  pub artist : String
  pub duration_sec : ℕ
  pub track_id : String
  pub stinger_uri : String

pub record EnqueueRequest : Type 0 where
  pub item_type : ItemType
  pub uri : String
  pub city_tag : String
  pub meta : EnqueueMeta

pub record EnqueueResponse : Type 0 where
  pub id : String
  pub ids : List String
  pub city_tags : List String

pub data Detail : Type 0 where
  token_not_configured invalid_token : Detail
  unsupported_type : ItemType → Detail
  invalid_city_tag : String → Detail
  duration_exceeded : ℕ → Detail
  ad_queue_full : String → ℕ → Detail
  internal_error : Detail

pub record HttpError : Type 0 where
  pub status : ℕ
  pub detail : Detail

abbrev pub http_error : ℕ → Detail → HttpError
http_error status detail = record { status = status; detail = detail }

unfoldable pub require_internal_token : String → Option String → Result HttpError (Unit {0})
unfolding secrets_match
require_internal_token internal_token provided = do
  raise_if (internal_token == "") (http_error 503 token_not_configured)
  raise_if (not (secrets_match provided internal_token)) (http_error 401 invalid_token)

unfoldable pub validate_request : Settings → EnqueueRequest → Result HttpError (Unit {0})
unfolding contains type_name
validate_request cfg body = do
  raise_if (not (contains (type_name body.item_type) enqueue_types))
      (http_error 400 (unsupported_type body.item_type))
  raise_if (not (body.city_tag == "all") && not (contains body.city_tag cfg.active_cities))
      (http_error 400 (invalid_city_tag body.city_tag))
  raise_if (type_name body.item_type == "AD" && ltb cfg.max_ad_duration_sec body.meta.duration_sec)
      (http_error 400 (duration_exceeded cfg.max_ad_duration_sec))

-- `if value: meta[key] = value`
abbrev pub optional_field : String → String → Fields → Fields
optional_field key value rest = if value == "" then rest else field key (str value) rest

unfoldable pub meta_fields : EnqueueMeta → Fields
meta_fields meta = field "title" (str meta.title) (
    field "artist" (str meta.artist) (
      field "duration_sec" (int (pos meta.duration_sec)) (
        optional_field "track_id" meta.track_id
          (optional_field "stinger_uri" meta.stinger_uri end))))

-- `EnqueueResponse(id=ids[0], …)`, over a list that is not empty.
abbrev pub response_of : List (String × QueueItem) → EnqueueResponse
response_of [] = record { id = ""; ids = []; city_tags = [] }
response_of ((city, item) ∷ rest) = record {
  id = item.id;
  ids = item.id ∷ ids_of rest;
  city_tags = city ∷ cities_of rest;
}

abbrev pub error_of : ℕ → QueueError → HttpError
error_of max_ads (full_error city) = http_error 409 (ad_queue_full city max_ads)
error_of max_ads script_error = http_error 500 internal_error

abbrev pub respond :
    ℕ → List (String × QueueItem) → Result QueueError (Unit {0}) → Result HttpError EnqueueResponse
respond max_ads city_items (ok _) = ok (response_of city_items)
respond max_ads city_items (err e) = err (error_of max_ads e)

module _ (redis : Redis) where
  open redis use {Store}

  -- One round of the `for` loop over the items that are no ads.
  unfoldable pub enqueue_one : EnqueueRequest → String → QueueItem → Store → Store
  unfolding enqueue_item record_playlist_buffer type_name
  enqueue_one body city item s =
      let queued = enqueue_item redis city item s in
      if not (body.meta.track_id == "") && type_name body.item_type == "MUSIC_ORDER"
      then record_playlist_buffer redis city body.meta.track_id 100 queued
      else queued

  unfoldable pub enqueue_each : EnqueueRequest → List (String × QueueItem) → Store → Store
  unfolding enqueue_one
  enqueue_each body [] s = s
  enqueue_each body ((city, item) ∷ rest) s = enqueue_each body rest (enqueue_one body city item s)

  unfoldable pub enqueue_ads :
      ℕ → List (String × QueueItem) → Store → Result QueueError (Unit {0}) × Store
  unfolding enqueue_ad fanout_ad
  enqueue_ads max_ads ((city, item) ∷ []) s = enqueue_ad redis max_ads city item s
  enqueue_ads max_ads city_items s = fanout_ad redis max_ads city_items s

  unfoldable pub put_items :
      ℕ → EnqueueRequest → List (String × QueueItem) → Store → Result QueueError (Unit {0}) × Store
  unfolding enqueue_each enqueue_ads type_name
  put_items max_ads body city_items s =
      if type_name body.item_type == "AD"
      then enqueue_ads max_ads city_items s
      else (ok tt, enqueue_each body city_items s)

  -- The body of `enqueue` behind its checks.
  unfoldable pub enqueue_items :
      ℕ
      → EnqueueRequest
      → List (String × QueueItem)
      → Store
      → Result HttpError EnqueueResponse × Store
  unfolding put_items
  enqueue_items max_ads body [] s = (err (http_error 400 (invalid_city_tag body.city_tag)), s)
  enqueue_items max_ads body (first ∷ rest) s =
      let city_items = first ∷ rest in
      let (done, s') = put_items max_ads body city_items s in (respond max_ads city_items done, s')

  -- The endpoint; `uuid n` is the n-th id that the request generates.
  unfoldable pub enqueue :
      Settings
      → (ℕ → String)
      → Option String
      → EnqueueRequest
      → Store
      → Result HttpError EnqueueResponse × Store
  unfolding require_internal_token validate_request meta_fields prepare_enqueue enqueue_items
  enqueue cfg uuid token body s =
      elim (require_internal_token cfg.internal_token token >> validate_request cfg body) [
        | err e ↦ (err e, s)
        | ok _ ↦
            enqueue_items cfg.max_pending_ads body
              (prepare_enqueue uuid body.item_type body.uri (meta_fields body.meta) body.city_tag
                cfg.active_cities)
              s
      ]
