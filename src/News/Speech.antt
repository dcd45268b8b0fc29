-- ===== src/News/Speech.antt =====
-- services/news/tts/salutespeech.py and auth.py, with the paths of services/news/storage/local.py: the
-- speech of a summary, its cache in Redis and on the disk, and the token of the speech service. Times
-- are in microseconds; `time.monotonic` and `time.time` are arguments. The exchanges, ffmpeg, the probe
-- and `Path.resolve` are parameters. A file is the text of its resolved path; an
-- ffmpeg that fails leaves the files as they were.

pub mod Kept
pub mod Again
mod Examples
use fm.Base.{
  ℕ, zero, suc, String, ◌+◌, ◌-◌, ◌*◌, ◌/◌, min, ◌≡◌, ◌≢◌, Bool, true, false, not, ◌&&◌, ◌||◌,
  Option, none, some, List, [], ◌∷◌, Result, ok, err, ◌>>=◌, ltb, leb, if◌then◌else◌, ◌==◌,
  string_eq, nat_eq, update,
}
use Prim.Native.String.{◌++◌}
use fm.Base.Int.{ℤ, pos, negsuc}
use fm.Base.Values.{Value, Fields, str, int, dict, field, end, get_field, is_truthy}
use fm.Datetime.{second_us}
use fm.Redis.{Redis, Raw, json, text}

pub data SpeechError : Type 0 where
  no_credentials oauth_failed no_access_token : SpeechError
  synthesis_failed empty_audio transcode_failed probe_failed value_error http_error : SpeechError

-- An answer of the speech service: its status and its bytes.
pub record SpeechResponse : Type 0 where
  pub status_code : ℕ
  pub content : List ℕ

-- An answer of the token service; a body that is no object raises.
pub record TokenResponse : Type 0 where
  pub status_code : ℕ
  pub body : Option Fields

pub record SpeechTools : Type 0 where
  pub sha256 : String → String
  pub base_dir : String
  pub resolve : String → String
  pub resolve_idem : (path : String) → resolve (resolve path) ≡ resolve path
  pub resolve_full : (path : String) → resolve path ≢ ""
  pub credentials : String
  pub oauth : Result SpeechError TokenResponse
  pub synthesize : String → String → Result SpeechError SpeechResponse
  -- ffmpeg succeeds
  pub transcodes : List ℕ → Bool
  pub probe_duration : String → Option ℕ
  -- `str(value)`, and `float` of a value that is no number
  pub show : Value → String
  pub float_of : Value → Result SpeechError ℤ

-- The cached token; an empty text when there is none.
pub record Auth : Type 0 where
  pub token : String
  pub expires_at : ℕ

abbrev pub token_cache_sec : ℕ
token_cache_sec = 1740

-- Microseconds of a number of seconds, or of milliseconds when it is great.
abbrev pub instant_of : ℕ → ℕ
instant_of n = if ltb 1_000_000_000_000 n then n * 1000 else n * second_us

-- `expires_in`; JSON's numbers are integers, and a bool is too small.
abbrev pub ttl_from_expires_in : Option Value → ℕ
ttl_from_expires_in (some (int (pos n))) =
    if ltb 60 n then min (n - 60) token_cache_sec else token_cache_sec
ttl_from_expires_in _ = token_cache_sec

unfoldable pub token_ttl_sec : Fields → ℕ → ℕ
unfolding get_field
token_ttl_sec payload wall =
    let other = ttl_from_expires_in (get_field "expires_in" payload) in
    elim (get_field "expires_at" payload) [
      | some (int (pos n)) ↦
          let remaining = instant_of n - wall in
          if ltb (120 * second_us) remaining
          then min (remaining / second_us - 60) token_cache_sec
          else other
      | _ ↦ other
    ]

module _ (tools : SpeechTools) where
  open tools use {
    sha256, base_dir, resolve, credentials, oauth, transcodes, probe_duration, show, float_of,
  }

  abbrev pub token_text : Value → String
  token_text (str token) = token
  token_text value = show value

  abbrev pub with_payload : ℕ → ℕ → Auth → Fields → Result SpeechError String × Auth
  with_payload now wall auth payload = elim (get_field "access_token" payload) [
    | none ↦ (err no_access_token, auth)
    | some value ↦
        if is_truthy value
        then (
          ok (token_text value),
          record {
            token = token_text value;
            expires_at = now + token_ttl_sec payload wall * second_us;
          },
        )
        else (err no_access_token, auth)
  ]

  abbrev pub with_token_response :
      ℕ → ℕ → Auth → Result SpeechError TokenResponse → Result SpeechError String × Auth
  with_token_response now wall auth (err e) = (err e, auth)
  with_token_response now wall auth (ok response) =
      if response.status_code == 200
      then elim response.body [
        | none ↦ (err value_error, auth)
        | some payload ↦ with_payload now wall auth payload
      ]
      else (err oauth_failed, auth)

  unfoldable pub get_token : ℕ → ℕ → Auth → Result SpeechError String × Auth
  unfolding get_field is_truthy token_ttl_sec
  get_token now wall auth =
      if not (auth.token == "") && ltb now auth.expires_at
      then (ok auth.token, auth)
      else if credentials == ""
      then (err no_credentials, auth)
      else with_token_response now wall auth oauth

  abbrev pub no_bytes : List ℕ → Bool
  no_bytes [] = true
  no_bytes (b ∷ bs) = false

  abbrev pub wav_of : Result SpeechError SpeechResponse → Result SpeechError (List ℕ)
  wav_of (err e) = err e
  wav_of (ok response) =
      if response.status_code == 200
      then if no_bytes response.content then err empty_audio else ok response.content
      else err synthesis_failed

  abbrev pub speak : String → Result SpeechError String × Auth → Result SpeechError (List ℕ) × Auth
  speak summary (err e, auth) = (err e, auth)
  speak summary (ok token, auth) = (wav_of (tools.synthesize token summary), auth)

  unfoldable pub synthesize_wav : String → ℕ → ℕ → Auth → Result SpeechError (List ℕ) × Auth
  unfolding get_token
  synthesize_wav summary now wall auth = speak summary (get_token now wall auth)

  abbrev pub cache_path : String → String
  cache_path digest = base_dir ++ ("/cache/" ++ (digest ++ ".mp3"))

  abbrev pub cache_key : String → String
  cache_key summary = "fm21:tts:cache:" ++ sha256 summary

  module _ (redis : Redis) where
    open redis use {Store, get, set}

    pub record State : Type 0 where
      pub store : Store
      pub files : String → Bool
      pub auth : Auth

    abbrev pub is_file : String → State → Bool
    is_file path st = st.files (resolve path)

    abbrev pub number_of : Value → Result SpeechError ℤ
    number_of (int n) = ok n
    number_of value = float_of value

    abbrev pub path_text : Value → String
    path_text (str path) = path
    path_text value = show value

    abbrev pub not_null : Value → Bool
    not_null Value.null = false
    not_null v = true

    -- A path and a duration, when the file is there.
    abbrev pub entry_of :
        Option Value → Option Value → State → Result SpeechError (Option (String × ℤ))
    entry_of (some path) (some duration) st =
        if is_truthy path && (not_null duration && is_file (path_text path) st)
        then number_of duration >>= (λ d. ok (some (path_text path, d)))
        else ok none
    entry_of _ _ st = ok none

    -- What is read of the text under a key.
    unfoldable pub entry_in : Option Raw → State → Result SpeechError (Option (String × ℤ))
    unfolding get_field is_truthy
    entry_in (some (json (dict payload))) st =
        entry_of (get_field "cache_path" payload) (get_field "duration_sec" payload) st
    entry_in _ st = ok none

    unfoldable pub read_cache : String → State → Result SpeechError (Option (String × ℤ))
    unfolding entry_in
    read_cache summary st = entry_in (get (cache_key summary) st.store) st

    unfoldable pub write_cache : String → String → ℕ → State → State
    write_cache summary path duration st = record st {
      store =
          set (cache_key summary)
            (json (
              dict (
                field "cache_path" (str (resolve path))
                  (field "duration_sec" (int (pos duration)) end))))
            st.store;
    }

    abbrev pub Spoken : Type 0
    Spoken = Result SpeechError (String × ℤ × Bool) × State

    -- The file is written by ffmpeg, measured, and noted.
    abbrev pub from_wav : String → State → Result SpeechError (List ℕ) × Auth → Spoken
    from_wav summary st (err e, auth) = (err e, record st { auth = auth })
    from_wav summary st (ok wav, auth) =
        let path = cache_path (sha256 summary) in
        let st' : State = record st { auth = auth; files = update st.files (resolve path) true } in
        if transcodes wav
        then elim (probe_duration path) [
          | none ↦ (err probe_failed, st')
          | some duration ↦ (ok (path, pos duration, false), write_cache summary path duration st')
        ]
        else (err transcode_failed, record st { auth = auth })

    abbrev pub from_cache :
        String → ℕ → ℕ → State → Result SpeechError (Option (String × ℤ)) → Spoken
    from_cache summary now wall st (err e) = (err e, st)
    from_cache summary now wall st (ok (some (path, duration))) = (ok (path, duration, true), st)
    from_cache summary now wall st (ok none) =
        from_wav summary st (synthesize_wav summary now wall st.auth)

    unfoldable pub synthesize_mp3_for_summary : String → ℕ → ℕ → State → Spoken
    unfolding read_cache synthesize_wav write_cache
    synthesize_mp3_for_summary summary now wall st =
        from_cache summary now wall st (read_cache summary st)
