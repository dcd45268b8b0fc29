-- ===== src/Cron/Jobs/Done.antt =====
-- What a maintenance run leaves.
use fm.Base.{
  String, ◌≡◌, ◌≢◌, refl, sym, ◌∙◌, ap, subst, Bool, true, false, not, ◌&&◌, none, some, List, [],
  ◌∷◌, map, keep, any, All, contains, ok, if◌then◌else◌, ◌==◌, string_eq, nat_eq, ltb, strip,
  strip-append, Bool-cases, Option-cases, inl, inr, arith,
}
use fm.Base.Int.{pos}
use fm.Datetime.{Datetime}
use fm.Redis.{Raw}
use fm.News.Items.{NewsItem, reset_play_counts}
use fm.News.Air.{played_key, get_played_count}
use fm.Music.StreamCache.{cleanup_expired_tracks}
use fm.Cron.Timing.{
  Job, news_cache_reset, cache_cleanup, playlist_refresh, due_jobs, cron_news_cache_reset,
  cron_cache_cleanup, cron_playlist_refresh, is_cron_due,
}
use fm.Cron.Cleanup.{is_terminal}
use fm.Cron.Remains.{names, cleanup_expired_ads-left}
use fm.Cron.Jobs.{
  delete_keys, clear_played_keys, Services, JobResult, reset_done, cleanup_done, skipped, World,
  reset_news, run_cache_cleanup, with_job, skip, run_due_jobs,
}
use fm.Cron.Jobs.Keys.{prefix, delete_keys-get, delete_keys-lrange, not_contained}

abbrev pub When : Bool → Type 0 → Type 0 → Type 0
When true A B = A
When false A B = B

abbrev pub job_of : JobResult → Job
job_of (reset_done rows keys) = news_cache_reset
job_of (cleanup_done rows files) = cache_cleanup
job_of skipped = playlist_refresh

abbrev pub unplayed : NewsItem → NewsItem
unplayed item = record item { play_count = 0; last_played_at = none }

module _ (services : Services) where
  open services use {redis, scan, news, ads, tracks, is_inside}

  -- SCAN yields the keys that stand in the store and have the prefix, and no others.
  abbrev pub IsScanned : redis.Store → Type 0
  IsScanned s =
      ((key : String) (raw : Raw)
        → redis.get key s ≡ some raw
        → strip prefix key ≢ none
        → contains key (scan prefix s) ≡ true)
      × All (λ key. strip prefix key ≢ none) (scan prefix s)

  -- No play is counted any more, in the table or in the mirror; nothing else changes.
  abbrev pub IsReset : World services → World services → Type 0
  IsReset before after =
      All (λ item. item.play_count ≡ 0) (news.rows after.items)
      × (map unplayed (news.rows after.items) ≡ map unplayed (news.rows before.items))
      × ((content_hash : String) → get_played_count redis content_hash after.store ≡ ok (pos 0))
      × ((key : String)
          → strip prefix key ≡ none
          → (redis.get key after.store ≡ redis.get key before.store)
            × (redis.lrange key after.store ≡ redis.lrange key before.store))

  -- The expired tracks, the ads that are over and their files are gone; nothing else is.
  abbrev pub IsCleaned : Datetime → World services → World services → Type 0
  IsCleaned now before after =
      ((track_id : String)
        → tracks.find track_id after.track_rows ≡ elim (tracks.find track_id before.track_rows) [
          | none ↦ none
          | some row ↦ if ltb row.stream_url_expires now then none else some row
        ])
      × (ads.rows after.ad_rows ≡ keep (λ ad. not (is_terminal ad)) (ads.rows before.ad_rows))
      × ((path : String)
          → after.files path ≡ (
              before.files path
              && not (any (names is_inside path) (keep is_terminal (ads.rows before.ad_rows)))))

  abbrev pub SameNews : World services → World services → Type 0
  SameNews before after = (after.items ≡ before.items) × (after.store ≡ before.store)

  abbrev pub SameRest : World services → World services → Type 0
  SameRest before after =
      (after.track_rows ≡ before.track_rows)
      × (after.ad_rows ≡ before.ad_rows)
      × (after.files ≡ before.files)

  reset_rows :
      (items : List NewsItem)
      → let reset = map (λ row. if not (row.play_count == 0) then unplayed row else row) items in
        All (λ (item : NewsItem). item.play_count ≡ 0) reset
        × (map unplayed reset ≡ map unplayed items)
  reset_rows [] = (tt, refl)
  reset_rows (item ∷ items) =
      let (zeros, same) = reset_rows items in
      elim (Bool-cases (item.play_count == 0)) [
        | inl e ↦ rw e ((ground (arith, e), zeros), ap (λ rest. unplayed item ∷ rest) same)
        | inr e ↦ rw e ((refl, zeros), ap (λ rest. unplayed item ∷ rest) same)
      ]

  cleared-played :
      (s : redis.Store)
      → IsScanned s
      → (content_hash : String)
      → get_played_count redis content_hash (clear_played_keys redis scan s).1 ≡ ok (pos 0)
  unfolding get_played_count clear_played_keys
  cleared-played s (complete, sound) content_hash = rw (gone, get_played_count) refl
    where
      key : String
      key = played_key content_hash

      gone : redis.get key (delete_keys redis (scan prefix s) s).1 ≡ none
      gone =
          delete_keys-get redis key (scan prefix s) s
          ∙ elim (Bool-cases (contains key (scan prefix s))) [
            | inl e ↦ rw e refl
            | inr e ↦ elim (Option-cases (redis.get key s)) [
              | inl f ↦ rw e f
              | inr (raw, f) ↦ absurd (
                  cc (
                    e,
                    complete key raw f (λ g. absurd (cc (strip-append prefix content_hash, g))),
                  ))
            ]
          ]

  cleared-others :
      (s : redis.Store)
      → IsScanned s
      → (key : String) → strip prefix key ≡ none
      → (redis.get key (clear_played_keys redis scan s).1 ≡ redis.get key s)
        × (redis.lrange key (clear_played_keys redis scan s).1 ≡ redis.lrange key s)
  unfolding clear_played_keys
  cleared-others s (complete, sound) key h = (
    delete_keys-get redis key (scan prefix s) s
        ∙ rw (not_contained key (scan prefix s) h sound) refl,
    delete_keys-lrange redis key (scan prefix s) s
        ∙ rw (not_contained key (scan prefix s) h sound) refl,
  )

  -- What each job of a run has done; a job that is not due leaves its part alone.
  abbrev pub Did :
      Bool → Bool → Bool → Datetime → World services → List JobResult × World services → Type 0
  Did reset cleanup refresh now before (results, after) =
      When reset (IsReset before after) (SameNews before after)
      × When cleanup (IsCleaned now before after) (SameRest before after)
      × (map job_of results ≡ (
          let third = if refresh then playlist_refresh ∷ [] else [] in
          let second = if cleanup then cache_cleanup ∷ third else third in
          if reset then news_cache_reset ∷ second else second))

  reset_news-IsReset :
      (w : World services) → IsScanned w.store → IsReset w (reset_news services w).1
  unfolding reset_news reset_play_counts
  reset_news-IsReset w h =
      let (zeros, same) = reset_rows (news.rows w.items) in
      let set_back = news.rows-update (λ row. not (row.play_count == 0)) unplayed w.items in
      (
        subst (All (λ (item : NewsItem). item.play_count ≡ 0)) (sym set_back) zeros,
        ap (map unplayed) set_back ∙ same,
        cleared-played w.store h,
        cleared-others w.store h,
      )

  cleanup-IsCleaned :
      (now : Datetime) (w : World services) → IsCleaned now w (run_cache_cleanup services now w).1
  unfolding run_cache_cleanup cleanup_expired_tracks
  cleanup-IsCleaned now w =
      let left = cleanup_expired_ads-left is_inside ads w.ad_rows w.files in
      (tracks.find-delete (λ row. ltb row.stream_url_expires now) w.track_rows, left.0, left.2)

  did :
      (reset cleanup refresh : Bool) (now : Datetime) (w : World services)
      → IsScanned w.store
      → Did reset cleanup refresh now w (
          with_job services refresh (skip services) (
            with_job services cleanup
              (run_cache_cleanup services now)
              (with_job services reset (reset_news services) ([], w))))
  unfolding reset_news run_cache_cleanup
  did true true true now w h = (reset_news-IsReset w h, cleanup-IsCleaned now w, refl)
  did true true false now w h = (reset_news-IsReset w h, cleanup-IsCleaned now w, refl)
  did true false true now w h = (reset_news-IsReset w h, (refl, refl, refl), refl)
  did true false false now w h = (reset_news-IsReset w h, (refl, refl, refl), refl)
  did false true true now w h = ((refl, refl), cleanup-IsCleaned now w, refl)
  did false true false now w h = ((refl, refl), cleanup-IsCleaned now w, refl)
  did false false true now w h = ((refl, refl), (refl, refl, refl), refl)
  did false false false now w h = ((refl, refl), (refl, refl, refl), refl)

  -- When SCAN yields the keys of the store, a run of the scheduler does exactly the jobs that are due,
  -- in their order. The reset sets every play count to zero, in the table and for every hash in the
  -- mirror, and changes nothing else of the rows and no other key of Redis, so that the queues stay.
  -- The clean-up takes exactly the tracks whose URLs have expired, the played and the rejected ads, and
  -- their files. What is not due leaves its tables, keys and files as they were.
  pub run_due_jobs-Did :
      (now : Datetime) (w : World services)
      → IsScanned w.store
      → Did
          (is_cron_due cron_news_cache_reset 60 now)
          (is_cron_due cron_cache_cleanup 60 now)
          (is_cron_due cron_playlist_refresh 60 now)
          now
          w
          (run_due_jobs services now w)
  unfolding run_due_jobs
  run_due_jobs-Did now w h =
      did (is_cron_due cron_news_cache_reset 60 now) (is_cron_due cron_cache_cleanup 60 now)
        (is_cron_due cron_playlist_refresh 60 now) now w h

  due_jobs_lem :
      (now : Datetime) (w : World services)
      → IsScanned w.store
      → map job_of (run_due_jobs services now w).0 ≡ due_jobs now
  unfolding due_jobs
  due_jobs_lem now w h = (run_due_jobs-Did now w h).2
