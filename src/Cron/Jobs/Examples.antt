-- ===== src/Cron/Jobs/Examples.antt =====
-- A run at midnight, with a counted play and a key of another kind.
use fm.Base.{
  ℕ, String, ◌≡◌, ◌≢◌, refl, sym, true, false, Option, none, some, [], ◌∷◌, if◌then◌else◌, ◌==◌,
  string_eq, string_iff, strip, Bool-cases, inl, inr,
}
use fm.Base.Int.{pos}
use fm.Base.Values.{int}
use fm.Datetime.{Datetime}
use fm.Table.{listed}
use fm.Keyed.{by_key}
use fm.Redis.{memory, nothing_held, Held, json}
use fm.Ads.Records.{Ad, AdStatus, pending, played}
use fm.News.Items.{NewsItem, ready}
use fm.Music.StreamCache.{TrackCache}
use fm.Cron.Timing.{cron_news_cache_reset, cron_cache_cleanup, cron_playlist_refresh, is_cron_due}
use fm.Cron.Jobs.{Services, World, run_due_jobs, reset_done, cleanup_done, skipped}
use fm.Cron.Jobs.Done.{IsScanned, Did, run_due_jobs-Did}

abbrev one_played : Held
one_played = record nothing_held {
  value_at = λ key. if key == "fm21:news:played:h" then some (json (int (pos 3))) else none;
}

abbrev services_1 : Services
services_1 = record {
  redis = memory;
  scan = λ prefix s. "fm21:news:played:h" ∷ [];
  news = listed (λ (item : NewsItem). item.id);
  ads = listed (λ (ad : Ad). ad.id);
  tracks = by_key (λ (row : TrackCache). row.yandex_track_id);
  is_inside = λ path. true;
}

abbrev item_1 : NewsItem
item_1 = record {
  id = 1;
  source_url = "u";
  summary_ru = some "s";
  audio_url = some "file:///n/1.mp3";
  play_count = 3;
  last_played_at = some 5;
  status = ready;
  content_hash = some "h";
}

abbrev ad_with : ℕ → String → AdStatus → Ad
ad_with ident audio_url status = record {
  id = ident;
  telegram_user_id = 7;
  city_tag = "msk";
  audio_url = audio_url;
  status = status;
}

abbrev no_tracks : String → Option TrackCache
no_tracks id = none

abbrev world_1 : World services_1
world_1 = record {
  store = one_played;
  items = item_1 ∷ [];
  ad_rows =
      ad_with 1 "file:///data/ads/1.mp3" played ∷ ad_with 2 "file:///data/ads/2.mp3" pending ∷ [];
  track_rows = no_tracks;
  files = λ path. true;
}

one_played-IsScanned : IsScanned services_1 one_played
unfolding strip
one_played-IsScanned = (
  (λ key raw h k. elim (Bool-cases (key == "fm21:news:played:h")) [
    | inl e ↦ found key ((string_iff key "fm21:news:played:h").0 e)
    | inr e ↦ absurd (cc (rw e at h))
  ]),
  ((λ h. cc), tt),
)
  where
    found :
        (key : String)
        → key ≡ "fm21:news:played:h"
        → fm.Base.contains key ("fm21:news:played:h" ∷ []) ≡ true
    found key e = unfold fm.Base.contains in rw e refl

-- 1970-01-02, 00:00:10
abbrev midnight : Datetime
midnight = 86_410_000_000

run_due_jobs-Did_example :
    Did services_1
      (is_cron_due cron_news_cache_reset 60 midnight)
      (is_cron_due cron_cache_cleanup 60 midnight)
      (is_cron_due cron_playlist_refresh 60 midnight)
      midnight
      world_1
      (run_due_jobs services_1 midnight world_1)
run_due_jobs-Did_example = run_due_jobs-Did services_1 midnight world_1 one_played-IsScanned

-- At three the played ad goes with its file.
abbrev three : Datetime
three = 97_210_000_000

done_3 : (run_due_jobs services_1 three world_1).0 ≡ cleanup_done 1 1 ∷ skipped ∷ []
unfolding run_due_jobs
done_3 = refl

done_1 : (run_due_jobs services_1 midnight world_1).0 ≡ reset_done 1 1 ∷ skipped ∷ []
unfolding run_due_jobs
done_1 = refl
