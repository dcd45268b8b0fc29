-- ===== src/Ads/Outcomes.antt =====
-- What a submission leaves in the table of the ads and in the directory of their files.
use fm.Base.{
  ℕ, String, ◌<◌, ◌≤◌, update as update_key, ◌≡◌, refl, sym, ◌∙◌, ap, subst, Bool, true, false,
  some, List, [], ◌∷◌, ◌++◌, map, All, Result, ok, err, ltb, arith, if◌then◌else◌, ◌==◌, nat_eq,
  string_eq, string_refl, find_first, Bool-cases, Result-cases, List-cases, inl, inr, ◌⊎◌,
}
use fm.Base.Values.{Value}
use fm.Table.{Table}
use fm.Injector.Fanout.{resolve_target_cities}
use fm.Ads.Records.{
  AdStatus, pending, queued, rejected, Ad, is_ad, create_pending, find_ad, mark, mark_queued,
  mark_rejected,
}
use fm.Ads.Client.{Failure, enqueued, failure, enqueue_ad}
use fm.Ads.Submit.{
  Tools, AdRequest, SubmitError, crash, duration_exceeded, invalid_city_tag, transcode_failed,
  Submitted, submit_success, submit_queue_full, submit_injector_error, ceil_sec, or_text,
  output_path, audio_url_of, unlink, transcoded, probed, after_transcode, after_transcoded, World,
  world, reject_ad, after_mark, queued_answer, failure_answer, settle_failure, upstream_http_status,
  persist, submit_voice_ad,
}

module _ (table : Table (λ (row : Ad). row.id)) where
  open table use {Db, rows, next_id, add, update}

  abbrev pub ad_row : Tools → AdRequest → AdStatus → Db → Ad
  ad_row tools request status db = record {
    id = next_id db;
    telegram_user_id = request.telegram_user_id;
    city_tag = request.city_tag;
    audio_url = audio_url_of tools;
    status = status;
  }

  -- One row more, with this status, and whether the file is there.
  abbrev pub Recorded : Tools → AdRequest → AdStatus → Bool → World table → World table → Type 0
  Recorded tools request status kept w w' =
      (rows w'.db ≡ rows w.db ++ ad_row tools request status w.db ∷ [])
      × (w'.files (output_path tools) ≡ kept)

  abbrev pub Settled :
      Tools → AdRequest → World table → Result SubmitError Submitted → World table → Type 0
  Settled tools request w (ok (submit_success ad_id city_tag city_tags url)) w' =
      (ad_id ≡ next_id w.db) × Recorded tools request queued true w w'
  Settled tools request w (ok (submit_queue_full city_tag message)) w' =
      Recorded tools request rejected false w w'
  Settled tools request w (ok (submit_injector_error status message)) w' =
      409 ≤ status
      × (Recorded tools request rejected false w w' ⊎ Recorded tools request pending true w w')
  Settled tools request w (err crash) w' = rows w'.db ≡ rows w.db
  Settled tools request w (err e) w' =
      (rows w'.db ≡ rows w.db) × (w'.files (output_path tools) ≡ false)

  fresh-map :
      (n : ℕ) (status : AdStatus) (r : Ad) (rs : List Ad)
      → All (λ (x : Ad). x.id < n) rs
      → r.id ≡ n
      → map (λ (x : Ad). if is_ad n x then record x { status = status } else x) (rs ++ r ∷ [])
        ≡ rs ++ record r { status = status } ∷ []
  fresh-map n status r [] h e = ground (arith, h, e)
  fresh-map n status r (x ∷ rs) (h, hs) e = ground (arith, fresh-map n status r rs hs e)

  find-last :
      (n : ℕ) (r : Ad) (rs : List Ad)
      → All (λ (x : Ad). x.id < n) rs
      → r.id ≡ n
      → find_first (is_ad n) (rs ++ r ∷ []) ≡ some r
  unfolding find_first
  find-last n r [] h e = ground (arith, h, e)
  find-last n r (x ∷ rs) (h, hs) e = ground (arith, find-last n r rs hs e)

  module _ (tools : Tools) (request : AdRequest) (status : AdStatus) (db : Db) where
    abbrev created : Db
    created = add (ad_row tools request pending db) db

    abbrev marked : Db
    marked = update (is_ad (next_id db)) (λ row. record row { status = status }) created

    rows-marked : rows marked ≡ rows db ++ ad_row tools request status db ∷ []
    rows-marked =
        table.rows-update (is_ad (next_id db)) (λ row. record row { status = status }) created
        ∙ ap (map (λ (x : Ad). if is_ad (next_id db) x then record x { status = status } else x))
            (table.rows-add (ad_row tools request pending db) db)
        ∙ fresh-map (next_id db) status (ad_row tools request pending db) (rows db)
            (table.next_id-fresh db) refl

    find-marked : find_ad table (next_id db) marked ≡ some (ad_row tools request status db)
    unfolding find_ad
    find-marked =
        ap (find_first (is_ad (next_id db))) rows-marked
        ∙ find-last (next_id db) (ad_row tools request status db) (rows db) (table.next_id-fresh db)
            refl

    -- The row that was just added is found and gets the status; no other row changes.
    mark-created :
        mark table status (next_id db) created ≡ (ok (ad_row tools request status db), marked)
    unfolding mark
    mark-created = rw (find-marked, mark) refl

  reject_ad-created :
      (tools : Tools) (request : AdRequest) (db : Db) (files : String → Bool)
      → reject_ad table tools (next_id db) (world table (created tools request rejected db) files)
        ≡ some (world table (marked tools request rejected db) (unlink (output_path tools) files))
  unfolding reject_ad mark_rejected after_mark
  reject_ad-created tools request db files =
      ap (after_mark table tools files) (mark-created tools request rejected db)

  files-kept : (path : String) (files : String → Bool) → unlink path files path ≡ false
  files-kept path files = rw (string_refl path) refl

  status-upstream : (status : ℕ) → 409 ≤ upstream_http_status status
  unfolding upstream_http_status
  status-upstream status = ground arith

  module _ (tools : Tools) (request : AdRequest) (w : World table)
      (made : w.files (output_path tools) ≡ true) where
    abbrev pending_world : World table
    pending_world = world table (created tools request rejected w.db) w.files

    rejected-Recorded :
        Recorded tools request rejected false w
          (world table (marked tools request rejected w.db) (unlink (output_path tools) w.files))
    rejected-Recorded =
        (rows-marked tools request rejected w.db, files-kept (output_path tools) w.files)

    rejected-Settled :
        (full : Bool) (f : Failure)
        → Settled tools request w
            (ok (
              if full
              then submit_queue_full (or_text f.city_tag request.city_tag) f.message
              else submit_injector_error (upstream_http_status f.status_code) f.message))
            (world table (marked tools request rejected w.db) (unlink (output_path tools) w.files))
    rejected-Settled true f = rejected-Recorded
    rejected-Settled false f = (status-upstream f.status_code, inl rejected-Recorded)

    failure-Settled :
        (f : Failure)
        → let answer =
            failure_answer table w
              (settle_failure table tools request f (next_id w.db) pending_world) in
          Settled tools request w answer.0 answer.1
    unfolding settle_failure failure_answer
    failure-Settled f = elim (Bool-cases f.ambiguous) [
      | inl e ↦
          rw (e, settle_failure)
            (
              status-upstream f.status_code,
              inr (table.rows-add (ad_row tools request pending w.db) w.db, made),
            )
      | inr e ↦
          rw (e, settle_failure)
            (rw (reject_ad-created tools request w.db w.files)
              (rejected-Settled (f.status_code == 409) f))
    ]

    persist-Settled :
        (duration_sec : ℕ)
        → let answer = persist table tools request duration_sec w in
          Settled tools request w answer.0 answer.1
    unfolding persist create_pending mark_queued queued_answer
    persist-Settled duration_sec =
        elim (Result-cases
          (enqueue_ad tools.post (audio_url_of tools) request.city_tag duration_sec)) [
            | inl (enqueued city_tags, e) ↦ rw (e, persist) (queued-Settled city_tags)
            | inl (failure f, e) ↦ rw (e, persist) (failure-Settled f)
            | inr (crashed, e) ↦ rw (e, persist) refl
          ]
      where
        queued-Settled :
            (city_tags : Value)
            → let answer =
                queued_answer table request
                  (audio_url_of tools)
                  city_tags
                  (next_id w.db)
                  w
                  (mark_queued table (next_id w.db) (created tools request queued w.db)) in
              Settled tools request w answer.0 answer.1
        queued-Settled city_tags =
            subst
              (λ marking.
                let answer =
                  queued_answer table request (audio_url_of tools) city_tags (next_id w.db) w
                    marking in
                Settled tools request w answer.0 answer.1)
              (sym (mark-created tools request queued w.db))
              (refl, (rows-marked tools request queued w.db, made))

  abbrev pub Transcoded : Tools → Result SubmitError ℕ → (String → Bool) → Type 0
  Transcoded tools (ok duration) files = files (output_path tools) ≡ true
  Transcoded tools (err crash) files = ⊥
  Transcoded tools (err e) files = files (output_path tools) ≡ false

  probed-Transcoded :
      (tools : Tools) (files : String → Bool) (found : Result String ℕ)
      → files (output_path tools) ≡ true
      → Transcoded tools (probed tools files found).0 (probed tools files found).1
  unfolding probed
  probed-Transcoded tools files (err message) there = files-kept (output_path tools) files
  probed-Transcoded tools files (ok duration) there =
      elim (Bool-cases (ltb tools.max_ad_duration_sec (ceil_sec duration))) [
        | inl long ↦ rw (long, probed) (files-kept (output_path tools) files)
        | inr short ↦ rw (short, probed) there
      ]

  after_transcode-Transcoded :
      (tools : Tools) (files : String → Bool) (made : Result (String × Bool) (Unit {0}))
      → Transcoded tools (after_transcode tools files made).0 (after_transcode tools files made).1
  unfolding after_transcode
  after_transcode-Transcoded tools files (err (message, left)) =
      files-kept (output_path tools) (update_key files (output_path tools) left)
  after_transcode-Transcoded tools files (ok _) =
      probed-Transcoded tools _ tools.probe_duration (rw (string_refl (output_path tools)) refl)

  after_transcoded-Settled :
      (tools : Tools) (request : AdRequest) (w : World table)
      (found : Result SubmitError ℕ × (String → Bool))
      → Transcoded tools found.0 found.1
      → let answer = after_transcoded table tools request w.db found in
        Settled tools request w answer.0 answer.1
  unfolding after_transcoded
  after_transcoded-Settled tools request w (err (duration_exceeded n), files) h = (refl, h)
  after_transcoded-Settled tools request w (err (invalid_city_tag t), files) h = (refl, h)
  after_transcoded-Settled tools request w (err (transcode_failed m), files) h = (refl, h)
  after_transcoded-Settled tools request w (err crash, files) h = absurd h
  after_transcoded-Settled tools request w (ok duration, files) h =
      persist-Settled tools request (world table w.db files) h duration

  -- A submission under a new file name settles: when it succeeds, the table has one row more, queued
  -- under the id that is answered, and the file is there; when the queue is full the row is rejected
  -- and the file is gone; an error of the injector has a
  -- status from 409 on and leaves a rejected row and no file, or a pending row
  -- with its file where it is not known whether the item was queued; when it raises, the table is as it
  -- was, and on a refused duration or city or a failed transcoding there is no file either.
  pub submit_voice_ad-Settled :
      (tools : Tools) (active_cities : List String) (request : AdRequest) (w : World table)
      → w.files (output_path tools) ≡ false
      → let answer = submit_voice_ad table tools active_cities request w in
        Settled tools request w answer.0 answer.1
  unfolding submit_voice_ad transcoded
  submit_voice_ad-Settled tools active_cities request w new =
      elim (Bool-cases (ltb tools.max_ad_duration_sec request.duration_sec)) [
        | inl long ↦ rw (long, submit_voice_ad) (refl, new)
        | inr short ↦ elim (List-cases (resolve_target_cities request.city_tag active_cities)) [
          | inl e ↦ rw (short, submit_voice_ad) (rw e (refl, new))
          | inr (city, cities, e) ↦
              rw (short, submit_voice_ad)
                (rw e (
                  after_transcoded-Settled tools request w (transcoded tools request w.files)
                    (after_transcode-Transcoded tools w.files (tools.transcode request.ogg_bytes))))
        ]
      ]
