-- ===== src/News/Pipeline/Examples.antt =====
-- An item that is brought to the air, and the choice between two that have been there.
use fm.Base.{ℕ, zero, suc, String, refl, none, some, List, [], ◌∷◌, ok}
use fm.Table.{listed}
use fm.News.Items.{NewsItem, fetched, ready}
use fm.News.Selection.{select_news_item}
use fm.News.Rotation.{IsChoice, select_news_item-IsChoice}
use fm.News.Pipeline.{Clients, materialize_news_item, generate_summary}
use fm.News.Pipeline.Outcomes.{Settles, materialize_news_item-Settles}
use fm.News.Pipeline.Summary.{Accepts, generate_summary_lem}

abbrev repeat_word : ℕ → List String
repeat_word zero = []
repeat_word (suc n) = "w" ∷ repeat_word n

abbrev clients_1 : Clients
clients_1 = record {
  fetch_article_body = λ url. ok "body";
  summarize = λ text tightened. ok "summary";
  synthesize = λ text id. ok "file:///1.mp3";
  strip = λ text. text;
  split = λ text. repeat_word 150;
}

abbrev item_1 : NewsItem
item_1 = record {
  id = 1;
  source_url = "https://news.example/1";
  summary_ru = none;
  audio_url = none;
  play_count = 0;
  last_played_at = none;
  status = fetched;
  content_hash = none;
}

abbrev aired : ℕ → ℕ → NewsItem
aired id plays = record item_1 {
  id = id;
  play_count = plays;
  last_played_at = some id;
  status = ready;
}

materialize_news_item-Settles_example :
    Settles
      (listed (λ (item : NewsItem). item.id))
      clients_1
      1
      (materialize_news_item (listed (λ item. item.id)) clients_1 1 (item_1 ∷ []))
materialize_news_item-Settles_example =
    materialize_news_item-Settles (listed (λ (item : NewsItem). item.id)) clients_1 1 (item_1 ∷ [])

select_news_item-IsChoice_example :
    IsChoice
      (λ hash. 0)
      3
      (aired 1 3 ∷ aired 2 1 ∷ [])
      (select_news_item (λ hash. 0) 3 (aired 1 3 ∷ aired 2 1 ∷ []))
select_news_item-IsChoice_example =
    select_news_item-IsChoice (λ hash. 0) 3 (aired 1 3 ∷ aired 2 1 ∷ [])

generate_summary_lem_example : Accepts clients_1 "body" (some "summary")
unfolding generate_summary
generate_summary_lem_example = generate_summary_lem clients_1 "body" (some "summary") refl
