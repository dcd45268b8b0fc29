-- ===== src/Ads/Submit.antt =====
-- services/ads/service.py: the submission of a voice ad. Its world is the table of the ads and the
-- files of ADS_DIR; the transcoder and the probe are parameters.
use fm.Base.{
  ℕ, String, ◌+◌, ◌/◌, Bool, true, false, Option, none, some, List, [], ◌∷◌, Result, ok, err, ltb,
  if◌then◌else◌, ◌==◌, nat_eq, update as update_key,
}
use Prim.Native.String.{◌++◌}
use fm.Base.Values.{Value, str, is_truthy}
use fm.Table.{Table}
use fm.Injector.Fanout.{resolve_target_cities}
use fm.Ads.Records.{Ad, AdError, create_pending, mark_queued, mark_rejected}
use fm.Ads.Client.{Exchange, Failure, enqueued, failure, enqueue_ad}

-- The limit, the directory, the hexadecimal name of the new file and the programs that are run.
pub record Tools : Type 0 where
  pub max_ad_duration_sec : ℕ
  pub ads_dir : String
  pub file_id : String
  -- the error of ffmpeg with whether it left a file, or success, with the file there
  pub transcode : List ℕ → Result (String × Bool) (Unit {0})
  -- the duration of the file in microseconds
  pub probe_duration : Result String ℕ
  pub post : Value → Exchange

pub record AdRequest : Type 0 where
  pub ogg_bytes : List ℕ
  pub telegram_user_id : ℕ
  pub city_tag : String
  pub duration_sec : ℕ

pub data SubmitError : Type 0 where
  duration_exceeded : ℕ → SubmitError
  invalid_city_tag : String → SubmitError
  transcode_failed : String → SubmitError
  -- an exception that no caller handles; the session rolls back
  crash : SubmitError

pub data Submitted : Type 0 where
  submit_success : ℕ → String → Value → String → Submitted
  submit_queue_full : Value → Value → Submitted
  submit_injector_error : ℕ → Value → Submitted

unfoldable pub upstream_http_status : ℕ → ℕ
upstream_http_status injector_status =
    if injector_status == 503 then 503 else if injector_status == 409 then 409 else 502

-- `math.ceil` of a number of microseconds, in seconds.
abbrev pub ceil_sec : ℕ → ℕ
ceil_sec duration = (duration + 999999) / 1000000

abbrev pub output_path : Tools → String
output_path tools = tools.ads_dir ++ ("/" ++ (tools.file_id ++ ".mp3"))

abbrev pub audio_url_of : Tools → String
audio_url_of tools = "file://" ++ output_path tools

-- `result.city_tag or city_tag`
abbrev pub or_text : Value → String → Value
or_text v t = if is_truthy v then v else str t

-- `path.unlink(missing_ok=True)`
abbrev pub unlink : String → (String → Bool) → String → Bool
unlink path files = update_key files path false

-- The check of the duration of the file that the transcoder made.
unfoldable pub probed :
    Tools → (String → Bool) → Result String ℕ → Result SubmitError ℕ × (String → Bool)
probed tools files (err message) =
    (err (transcode_failed message), unlink (output_path tools) files)
probed tools files (ok duration) =
    if ltb tools.max_ad_duration_sec (ceil_sec duration)
    then (err (duration_exceeded tools.max_ad_duration_sec), unlink (output_path tools) files)
    else (ok (ceil_sec duration), files)

unfoldable pub after_transcode :
    Tools
    → (String → Bool)
    → Result (String × Bool) (Unit {0})
    → Result SubmitError ℕ × (String → Bool)
unfolding probed
after_transcode tools files (err (message, left)) = (
  err (transcode_failed message),
  unlink (output_path tools) (update_key files (output_path tools) left),
)
after_transcode tools files (ok _) =
    probed tools (update_key files (output_path tools) true) tools.probe_duration

unfoldable pub transcoded :
    Tools → AdRequest → (String → Bool) → Result SubmitError ℕ × (String → Bool)
unfolding after_transcode
transcoded tools request files = after_transcode tools files (tools.transcode request.ogg_bytes)

module _ (table : Table (λ (row : Ad). row.id)) where
  open table use {Db}

  pub record World : Type 0 where
    pub db : Db
    pub files : String → Bool

  abbrev pub world : Db → (String → Bool) → World
  world db files = record { db = db; files = files }

  -- `none` is the exception of `mark_rejected`.
  unfoldable pub after_mark : Tools → (String → Bool) → Result AdError Ad × Db → Option World
  after_mark tools files (err e, db) = none
  after_mark tools files (ok row, db) = some (world db (unlink (output_path tools) files))

  unfoldable pub reject_ad : Tools → ℕ → World → Option World
  unfolding mark_rejected after_mark
  reject_ad tools ad_id w = after_mark tools w.files (mark_rejected table ad_id w.db)

  abbrev pub after_reject : Submitted → Option World → Option (Submitted × World)
  after_reject submitted none = none
  after_reject submitted (some w) = some (submitted, w)

  unfoldable pub settle_failure :
      Tools → AdRequest → Failure → ℕ → World → Option (Submitted × World)
  unfolding reject_ad upstream_http_status
  settle_failure tools request f ad_id w =
      let failed = submit_injector_error (upstream_http_status f.status_code) f.message in
      if f.ambiguous
      then some (failed, w)
      else after_reject
          (if f.status_code == 409
            then submit_queue_full (or_text f.city_tag request.city_tag) f.message
            else failed)
          (reject_ad tools ad_id w)

  -- What an exception leaves: the session rolls back, and the files stay as they are.
  unfoldable pub queued_answer :
      AdRequest
      → String
      → Value
      → ℕ
      → World
      → Result AdError Ad × Db
      → Result SubmitError Submitted × World
  queued_answer request url city_tags ad_id w (err e, db) = (err crash, w)
  queued_answer request url city_tags ad_id w (ok row, db) =
      (ok (submit_success ad_id request.city_tag city_tags url), world db w.files)

  unfoldable pub failure_answer :
      World → Option (Submitted × World) → Result SubmitError Submitted × World
  failure_answer w none = (err crash, w)
  failure_answer w (some (submitted, w')) = (ok submitted, w')

  -- The row, the call of the injector and what follows from its answer.
  unfoldable pub persist : Tools → AdRequest → ℕ → World → Result SubmitError Submitted × World
  unfolding create_pending enqueue_ad settle_failure mark_queued queued_answer failure_answer
  persist tools request duration_sec w =
      let url = audio_url_of tools in
      let created = create_pending table request.telegram_user_id request.city_tag url w.db in
      let ad_id = created.0.id in
      elim (enqueue_ad tools.post url request.city_tag duration_sec) [
        | err _ ↦ (err crash, w)
        | ok (enqueued city_tags) ↦
            queued_answer request url city_tags ad_id w (mark_queued table ad_id created.1)
        | ok (failure f) ↦
            failure_answer w (settle_failure tools request f ad_id (world created.1 w.files))
      ]

  unfoldable pub after_transcoded :
      Tools
      → AdRequest
      → Db
      → Result SubmitError ℕ × (String → Bool)
      → Result SubmitError Submitted × World
  unfolding persist
  after_transcoded tools request db (err e, files) = (err e, world db files)
  after_transcoded tools request db (ok duration, files) =
      persist tools request duration (world db files)

  unfoldable pub submit_voice_ad :
      Tools → List String → AdRequest → World → Result SubmitError Submitted × World
  unfolding resolve_target_cities transcoded after_transcoded
  submit_voice_ad tools active_cities request w =
      if ltb tools.max_ad_duration_sec request.duration_sec
      then (err (duration_exceeded tools.max_ad_duration_sec), w)
      else elim (resolve_target_cities request.city_tag active_cities) [
        | [] ↦ (err (invalid_city_tag request.city_tag), w)
        | (_ ∷ _) ↦ after_transcoded tools request w.db (transcoded tools request w.files)
      ]
