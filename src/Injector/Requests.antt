-- ===== src/Injector/Requests.antt =====
-- `POST /internal/enqueue` of services/injector/main.py from the request's body to the response: its
-- models, as FastAPI and pydantic read and print them. How pydantic reads an integer, FastAPI's answer
-- 422 and the texts of the messages are parameters.
use fm.Base.{
  ℕ, suc, String, Option, none, some, List, [], ◌∷◌, Result, ok, err, ◌>>=◌, if◌then◌else◌, ◌==◌,
  string_eq,
}
use fm.Base.Int.{ℤ, pos}
use fm.Base.Values.{Value, Values, str, list, nil, cons, dict, end, field, get_field}
use fm.Redis.{Redis}
use fm.Ads.Client.{Response}
use fm.Injector.Fanout.{ItemType, ad, news_pair, music_order, music}
use fm.Injector.Service.{
  Settings, EnqueueMeta, EnqueueRequest, EnqueueResponse, Detail, ad_queue_full, HttpError,
  require_internal_token, enqueue,
}

pub data Invalid : Type 0 where
  invalid : Invalid

pub record HttpLayer : Type 0 where
  pub to_int : Value → Option ℤ
  pub unprocessable : Value → Value
  pub message : Detail → String

abbrev pub read_text : Option Value → Result Invalid String
read_text (some (str text)) = ok text
read_text _ = err invalid

-- A text whose default is empty.
abbrev pub read_optional : Option Value → Result Invalid String
read_optional none = ok ""
read_optional (some (str text)) = ok text
read_optional (some _) = err invalid

abbrev pub read_type : Option Value → Result Invalid ItemType
read_type (some (str text)) =
    if text == "AD"
    then ok ad
    else if text == "MUSIC"
    then ok music
    else if text == "MUSIC_ORDER"
    then ok music_order
    else if text == "NEWS_PAIR"
    then ok news_pair
    else err invalid
read_type _ = err invalid

-- `Field(min_length=1)` and `Field(ge=1)`
abbrev pub full_text : String → Result Invalid String
full_text text = if text == "" then err invalid else ok text

abbrev pub at_least_one : Option ℤ → Result Invalid ℕ
at_least_one (some (pos (suc n))) = ok (suc n)
at_least_one _ = err invalid

abbrev pub values_of : List String → Values
values_of [] = nil
values_of (text ∷ texts) = cons (str text) (values_of texts)

module _ (layer : HttpLayer) where
  open layer use {to_int, unprocessable, message}

  abbrev pub read_duration : Option Value → Result Invalid ℕ
  read_duration none = err invalid
  read_duration (some value) = at_least_one (to_int value)

  unfoldable pub read_meta : Option Value → Result Invalid EnqueueMeta
  unfolding get_field
  read_meta (some (dict meta)) = do
    title ← read_text (get_field "title" meta)
    artist ← read_optional (get_field "artist" meta)
    duration_sec ← read_duration (get_field "duration_sec" meta)
    track_id ← read_optional (get_field "track_id" meta)
    stinger_uri ← read_optional (get_field "stinger_uri" meta)
    ok (record {
      title = title;
      artist = artist;
      duration_sec = duration_sec;
      track_id = track_id;
      stinger_uri = stinger_uri;
    })
  read_meta _ = err invalid

  unfoldable pub read_request : Value → Result Invalid EnqueueRequest
  unfolding get_field read_meta
  read_request (dict body) = do
    item_type ← read_type (get_field "type" body)
    given ← read_text (get_field "uri" body)
    uri ← full_text given
    city_tag ← read_text (get_field "city_tag" body)
    meta ← read_meta (get_field "meta" body)
    ok (record { item_type = item_type; uri = uri; city_tag = city_tag; meta = meta })
  read_request _ = err invalid

  unfoldable pub detail_value : Detail → Value
  detail_value (ad_queue_full city max_ads) = dict (
      field "error" (str "queue_full") (
        field "message" (str (message (ad_queue_full city max_ads)))
          (field "city_tag" (str city) end)))
  detail_value detail = str (message detail)

  abbrev pub response_to : Result HttpError EnqueueResponse → Response
  response_to (err e) = record {
    status_code = e.status;
    body = some (dict (field "detail" (detail_value e.detail) end));
  }
  response_to (ok r) = record {
    status_code = 201;
    body = some (
        dict (
          field "id" (str r.id) (
            field "ids" (list (values_of r.ids))
              (field "city_tags" (list (values_of r.city_tags)) end))));
  }

  module _ (redis : Redis) (cfg : Settings) (uuid : ℕ → String) (token : Option String) where
    open redis use {Store}

    abbrev pub with_request : Value → Store → Result Invalid EnqueueRequest → Response × Store
    with_request payload s (err e) = (
      record { status_code = 422; body = some (dict (field "detail" (unprocessable payload) end)) },
      s,
    )
    with_request payload s (ok body) =
        let result = enqueue redis cfg uuid token body s in (response_to result.0, result.1)

    -- The token is looked at before the body.
    unfoldable pub post_enqueue : Value → Store → Response × Store
    unfolding read_request detail_value require_internal_token enqueue
    post_enqueue payload s = elim (require_internal_token cfg.internal_token token) [
      | err e ↦ (response_to (err e), s)
      | ok _ ↦ with_request payload s (read_request payload)
    ]
