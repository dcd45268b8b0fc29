-- ===== src/Ads/Routes.antt =====
-- services/ads/routes.py: `POST /internal/ads/submit`. The injector's city tags are passed on as they are:
-- the check that the response model makes of them is left out.
use fm.Base.{
  ℕ, String, Option, none, some, List, Result, ok, err, length, ltb, if◌then◌else◌, ◌==◌, string_eq,
}
use fm.Base.Values.{Value, null}
use fm.Common.{secrets_match}
use fm.Table.{Table}
use fm.Ads.Records.{Ad}
use fm.Ads.Submit.{
  Tools, AdRequest, SubmitError, duration_exceeded, invalid_city_tag, transcode_failed, crash,
  Submitted, submit_success, submit_queue_full, submit_injector_error, World, submit_voice_ad,
}

pub record SubmitResponse : Type 0 where
  pub id : ℕ
  pub city_tag : String
  pub city_tags : Value
  pub audio_url : String

pub record ErrorDetail : Type 0 where
  pub error : String
  pub city_tag : Value

-- The status with the body.
abbrev pub Answer : Type 0
Answer = ℕ × (Result ErrorDetail SubmitResponse)

abbrev pub structured : ℕ → String → Value → Answer
structured status error city_tag = (status, err (record { error = error; city_tag = city_tag }))

unfoldable pub check_token : String → Option String → Option Answer
unfolding secrets_match
check_token internal_token provided =
    if internal_token == ""
    then some (structured 503 "misconfigured" null)
    else if secrets_match provided internal_token
    then none
    else some (structured 401 "unauthorized" null)

unfoldable pub answer_of : Result SubmitError Submitted → Answer
answer_of (err (duration_exceeded limit)) = structured 400 "duration_exceeded" null
answer_of (err (invalid_city_tag tag)) = structured 400 "invalid_city" null
answer_of (err (transcode_failed message)) = structured 422 "transcode_failed" null
answer_of (err crash) = structured 500 "internal" null
answer_of (ok (submit_success id city_tag city_tags audio_url)) = (
  201,
  ok (record { id = id; city_tag = city_tag; city_tags = city_tags; audio_url = audio_url }),
)
answer_of (ok (submit_queue_full city_tag message)) = structured 409 "queue_full" city_tag
answer_of (ok (submit_injector_error status message)) = structured status "injector_error" null

module _ (table : Table (λ (row : Ad). row.id)) where
  unfoldable pub submit_ad :
      String
      → ℕ
      → Tools
      → List String
      → Option String
      → AdRequest
      → World table
      → Answer × World table
  unfolding check_token answer_of submit_voice_ad
  submit_ad internal_token max_upload_bytes tools active_cities provided request w =
      elim (check_token internal_token provided) [
        | some refusal ↦ (refusal, w)
        | none ↦
            if ltb max_upload_bytes (length request.ogg_bytes)
            then (structured 413 "payload_too_large" null, w)
            else let done = submit_voice_ad table tools active_cities request w in
              (answer_of done.0, done.1)
      ]
