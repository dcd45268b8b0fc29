-- ===== src/News/Items/Examples.antt =====
-- The workflow on concrete tables.
use fm.Base.{List, [], ◌∷◌, none}
use fm.News.Items.{NewsItem, get_by_id, fetched}
use fm.Table.{listed}
use fm.News.Items.Workflow.{Follows}
use fm.News.Items.Runs.{
  Call, write_summary, write_audio, set_ready, set_failed, count_play, reset, run, run-Follows,
}

abbrev item_1 : NewsItem
item_1 = record {
  id = 1;
  source_url = "https://news.example/1";
  summary_ru = none;
  audio_url = none;
  play_count = 0;
  last_played_at = none;
  status = fetched;
  content_hash = none;
}

abbrev calls : List Call
calls =
    write_summary 1 "summary"
    ∷ write_audio 1 "file:///1.mp3"
    ∷ set_ready 1
    ∷ set_failed 1
    ∷ count_play 1 7
    ∷ reset
    ∷ []

run-Follows_example :
    Follows
      (get_by_id (listed (λ (item : NewsItem). item.id)) 1 (item_1 ∷ []))
      (get_by_id (listed (λ item. item.id)) 1 (run (listed (λ item. item.id)) calls (item_1 ∷ [])))
run-Follows_example = run-Follows (listed (λ (item : NewsItem). item.id)) 1 calls (item_1 ∷ [])
