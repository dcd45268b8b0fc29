-- ===== src/Ads/Client.antt =====
-- services/ads/injector_client.py: the request to the injector, and what its answer means. The
-- exchange itself is a parameter.
use fm.Base.{
  ℕ, String, Bool, true, false, Option, none, some, Result, ok, err, if◌then◌else◌, ◌==◌, nat_eq,
}
use Prim.Native.String.{◌++◌}
use fm.Base.Int.{pos}
use fm.Base.Values.{Value, null, str, int, list, dict, nil, cons, end, field, get_field, get_or}

-- `body` is `none` when the answer is no JSON.
pub record Response : Type 0 where
  pub status_code : ℕ
  pub body : Option Value

pub data Exchange : Type 0 where
  answered : Response → Exchange
  connect_error : String → Exchange
  http_error : String → Exchange

-- What a JSON body holds is not checked by the client: its values pass as they are.
pub record Failure : Type 0 where
  pub status_code : ℕ
  pub message : Value
  pub city_tag : Value
  pub ambiguous : Bool

pub data Reply : Type 0 where
  enqueued : Value → Reply
  failure : Failure → Reply

-- The `AttributeError` of a 201 whose body is no object.
pub data ClientCrash : Type 0 where
  attribute_error : ClientCrash

unfoldable pub ad_payload : String → String → ℕ → Value
ad_payload uri city_tag duration_sec = dict (
    field "type" (str "AD") (
      field "uri" (str uri) (
        field "city_tag" (str city_tag) (
          field "meta"
            (dict (
              field "title" (str "Voice ad")
                (field "artist" (str "") (field "duration_sec" (int (pos duration_sec)) end))))
            end))))

abbrev pub default_message : Value
default_message = str "Failed to enqueue AD."

-- `message` and `city` from the `detail` of an error answer.
unfoldable pub detail_of : Option Value → Value × Value
unfolding get_field
detail_of (some (dict body)) = elim (get_field "detail" body) [
  | some (dict detail) ↦ (get_or default_message "message" detail, get_or null "city_tag" detail)
  | some (str detail) ↦ (str detail, null)
  | _ ↦ (default_message, null)
]
detail_of _ = (default_message, null)

-- `city_tags` of a 201.
unfoldable pub accepted : String → Option Value → Result ClientCrash Reply
unfolding get_field
accepted city_tag none = ok (enqueued (list (cons (str city_tag) nil)))
accepted city_tag (some (dict body)) =
    ok (enqueued (get_or (list (cons (str city_tag) nil)) "city_tags" body))
accepted city_tag (some _) = err attribute_error

unfoldable pub read_response : String → Response → Result ClientCrash Reply
unfolding accepted detail_of
read_response city_tag response =
    if response.status_code == 201
    then accepted city_tag response.body
    else ok (
        failure (record {
          status_code = response.status_code;
          message = (detail_of response.body).0;
          city_tag = (detail_of response.body).1;
          ambiguous = false;
        }))

unfoldable pub read_exchange : String → Exchange → Result ClientCrash Reply
unfolding read_response
read_exchange city_tag (answered response) = read_response city_tag response
read_exchange city_tag (connect_error exc) = ok (
    failure (record {
      status_code = 503;
      message = str ("Injector unreachable: " ++ exc);
      city_tag = null;
      ambiguous = false;
    }))
read_exchange city_tag (http_error exc) = ok (
    failure (record {
      status_code = 502;
      message = str ("Injector request failed: " ++ exc);
      city_tag = null;
      ambiguous = true;
    }))

unfoldable pub enqueue_ad : (Value → Exchange) → String → String → ℕ → Result ClientCrash Reply
unfolding ad_payload read_exchange
enqueue_ad post uri city_tag duration_sec =
    read_exchange city_tag (post (ad_payload uri city_tag duration_sec))
