-- ===== src/Cron/Jobs.antt =====
-- The jobs of services/cron/scheduler.py, with services/cron/news_cache_reset.py, the run of
-- services/news/workers/play_count_reset.py and clear_played_keys of services/news/play_count.py. The
-- tables, the store and its SCAN are parameters; an exception of the database, and the number of the
-- deleted tracks, are left out.
pub mod Keys
pub mod Done
mod Examples
use fm.Base.{ℕ, suc, String, Bool, List, [], ◌∷◌, ◌++◌, true, false, if◌then◌else◌, string_eq}
use fm.Datetime.{Datetime}
use fm.Table.{Table}
use fm.Keyed.{Keyed}
use fm.Redis.{Redis}
use fm.Ads.Records.{Ad}
use fm.News.Items.{NewsItem, reset_play_counts}
use fm.Music.StreamCache.{TrackCache, cleanup_expired_tracks}
use fm.Cron.Timing.{cron_news_cache_reset, cron_cache_cleanup, cron_playlist_refresh, is_cron_due}
use fm.Cron.Cleanup.{cleanup_expired_ads}

module _ (redis : Redis) where
  open redis use {Store, delete}

  -- The loop over the keys that SCAN yields.
  unfoldable pub delete_keys : List String → Store → ℕ × Store
  delete_keys [] s = (0, s)
  delete_keys (key ∷ keys) s = let rest = delete_keys keys (delete key s) in (suc rest.0, rest.1)

  -- `scan` yields the keys of the store with a prefix.
  unfoldable pub clear_played_keys : (String → Store → List String) → Store → ℕ × Store
  unfolding delete_keys
  clear_played_keys scan s = delete_keys (scan "fm21:news:played:" s) s

-- The services' side of a maintenance run.
pub record Services : Type 1 where
  pub redis : Redis
  pub scan : String → redis.Store → List String
  pub news : Table (λ (item : NewsItem). item.id)
  pub ads : Table (λ (ad : Ad). ad.id)
  pub tracks : Keyed (λ (row : TrackCache). row.yandex_track_id)
  -- a path lies in ADS_DIR
  pub is_inside : String → Bool

-- What a job answers.
pub data JobResult : Type 0 where
  -- the rows and the keys
  reset_done : ℕ → ℕ → JobResult
  -- the ads and the files
  cleanup_done : ℕ → ℕ → JobResult
  skipped : JobResult

module _ (services : Services) where
  open services use {redis, scan, news, ads, tracks, is_inside}

  pub record World : Type 0 where
    pub store : redis.Store
    pub items : news.Db
    pub ad_rows : ads.Db
    pub track_rows : tracks.Db
    pub files : String → Bool

  -- `NewsCacheResetWorker.run_once`
  unfoldable pub reset_news : World → JobResult × World
  unfolding reset_play_counts clear_played_keys
  reset_news w =
      let (pg_reset, items) = reset_play_counts news w.items in
      let (redis_deleted, store) = clear_played_keys redis scan w.store in
      (reset_done pg_reset redis_deleted, record w { items = items; store = store })

  unfoldable pub run_cache_cleanup : Datetime → World → JobResult × World
  unfolding cleanup_expired_tracks cleanup_expired_ads
  run_cache_cleanup now w =
      let cleaned = cleanup_expired_ads is_inside ads w.ad_rows w.files in
      (
        cleanup_done cleaned.0.rows_deleted cleaned.0.files_deleted,
        record w {
          track_rows = cleanup_expired_tracks tracks now w.track_rows;
          ad_rows = cleaned.1;
          files = cleaned.2;
        },
      )

  -- One job of a run: its answer is put behind the others.
  abbrev pub with_job :
      Bool → (World → JobResult × World) → List JobResult × World → List JobResult × World
  with_job false job (results, w) = (results, w)
  with_job true job (results, w) = (results ++ (job w).0 ∷ [], (job w).1)

  abbrev pub skip : World → JobResult × World
  skip w = (skipped, w)

  unfoldable pub run_due_jobs : Datetime → World → List JobResult × World
  unfolding is_cron_due reset_news run_cache_cleanup
  run_due_jobs now w = with_job (is_cron_due cron_playlist_refresh 60 now) skip (
      with_job (is_cron_due cron_cache_cleanup 60 now) (run_cache_cleanup now)
        (with_job (is_cron_due cron_news_cache_reset 60 now) reset_news ([], w)))

  -- All jobs, whatever the time.
  unfoldable pub run_once : Datetime → World → List JobResult × World
  unfolding reset_news run_cache_cleanup
  run_once now w =
      with_job true skip (with_job true reset_news (with_job true (run_cache_cleanup now) ([], w)))
