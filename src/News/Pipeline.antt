-- ===== src/News/Pipeline.antt =====
-- services/news/pipeline.py, workers/summarize.py, summarizer/validate.py and the voicing of
-- tts/salutespeech.py: an item is brought to the state in which it can go on the air. The article,
-- the summariser and the speech service are parameters, as are `strip` and `split`.
pub mod Outcomes
pub mod Summary
mod Examples
use fm.Base.{
  ℕ, suc, String, ◌+◌, Bool, true, false, ◌&&◌, Option, none, some, List, [], ◌∷◌, Result, ok, err,
  length, find_first, leb, if◌then◌else◌, ◌==◌, nat_eq, string_eq,
}
use fm.Table.{Table}
use fm.News.Items.{
  Status, fetched, summarized, voiced, ready, failed, same_status, NewsItem, NewsError, get_by_id,
  mark_failed, mark_ready, update_summary, update_audio,
}
use fm.News.Selection.{select_news_item}

pub record Clients : Type 0 where
  -- each answers, or raises with a text
  pub fetch_article_body : String → Result String String
  pub summarize : String → Bool → Result String String
  -- `synthesize_mp3_for_summary` and the copy to the item's file, with the URL
  pub synthesize : String → ℕ → Result String String
  pub strip : String → String
  pub split : String → List String

pub data PipelineError : Type 0 where
  lookup_error : ℕ → PipelineError
  repository_error : NewsError → PipelineError
  no_summary : ℕ → PipelineError
  external_error : String → PipelineError

pub data SummarizeResult : Type 0 where
  done skipped gave_up : SummarizeResult

pub data MaterializeResult : Type 0 where
  was_ready materialized not_possible no_item : MaterializeResult

pub record MaterializeStats : Type 0 where
  pub cities : ℕ
  pub pinned : ℕ
  pub ready_count : ℕ
  pub materialized_count : ℕ
  pub failed_count : ℕ
  pub no_item_count : ℕ

unfoldable pub record_result : MaterializeResult → MaterializeStats → MaterializeStats
record_result was_ready stats = record stats { ready_count = stats.ready_count + 1 }
record_result materialized stats = record stats {
  materialized_count = stats.materialized_count + 1;
}
record_result not_possible stats = record stats { failed_count = stats.failed_count + 1 }
record_result no_item stats = record stats { no_item_count = stats.no_item_count + 1 }

module _ (clients : Clients) where
  open clients use {fetch_article_body, summarize, synthesize, strip, split}

  unfoldable pub count_words : String → ℕ
  count_words text = if strip text == "" then 0 else length (split (strip text))

  unfoldable pub is_valid_word_count : String → Bool
  unfolding count_words
  is_valid_word_count text = leb 150 (count_words text) && leb (count_words text) 250

  -- One retry, with the tightened prompt.
  unfoldable pub generate_summary : String → Result String (Option String)
  unfolding is_valid_word_count
  generate_summary source_text = elim (summarize source_text false) [
    | err e ↦ err e
    | ok first ↦
        if is_valid_word_count first then ok (some first) else elim (summarize source_text true) [
          | err e ↦ err e
          | ok second ↦ if is_valid_word_count second then ok (some second) else ok none
        ]
  ]

module _ (table : Table (λ (item : NewsItem). item.id)) (clients : Clients) where
  open table use {Db, rows}

  -- A method of the repository, and what is answered when it does not raise.
  unfoldable pub then_answer :
      {A : Type 0} → A → Result NewsError NewsItem × Db → Result PipelineError A × Db
  then_answer a (ok item, db) = (ok a, db)
  then_answer a (err e, db) = (err (repository_error e), db)

  unfoldable pub write_summary :
      ℕ → Db → Result String (Option String) → Result PipelineError SummarizeResult × Db
  unfolding then_answer mark_failed update_summary
  write_summary item_id db (err e) = (err (external_error e), db)
  write_summary item_id db (ok none) = then_answer gave_up (mark_failed table item_id db)
  write_summary item_id db (ok (some summary)) =
      then_answer done (update_summary table item_id summary db)

  unfoldable pub summarize_news_item : ℕ → String → Db → Result PipelineError SummarizeResult × Db
  unfolding get_by_id write_summary generate_summary
  summarize_news_item item_id source_text db = elim (get_by_id table item_id db) [
    | none ↦ (err (lookup_error item_id), db)
    | some item ↦
        if same_status item.status fetched
        then write_summary item_id db (generate_summary clients source_text)
        else (ok skipped, db)
  ]

  -- `update_audio`, then `mark_ready`.
  unfoldable pub store_audio :
      ℕ → Result NewsError NewsItem × Db → Result PipelineError MaterializeResult × Db
  unfolding mark_ready then_answer
  store_audio item_id (err e, db) = (err (repository_error e), db)
  store_audio item_id (ok _, db) = then_answer materialized (mark_ready table item_id db)

  unfoldable pub voice_item : ℕ → Option String → Db → Result PipelineError MaterializeResult × Db
  unfolding update_audio store_audio
  voice_item item_id none db = (err (no_summary item_id), db)
  voice_item item_id (some summary) db =
      if summary == ""
      then (err (no_summary item_id), db)
      else elim (clients.synthesize summary item_id) [
        | err e ↦ (err (external_error e), db)
        | ok audio_url ↦ store_audio item_id (update_audio table item_id audio_url db)
      ]

  unfoldable pub voice_news_item : ℕ → Db → Result PipelineError MaterializeResult × Db
  unfolding get_by_id voice_item
  voice_news_item item_id db = elim (get_by_id table item_id db) [
    | none ↦ (err (lookup_error item_id), db)
    | some item ↦ voice_item item_id item.summary_ru db
  ]

  -- What follows a summary: the item is read again.
  unfoldable pub after_summary :
      ℕ → Result PipelineError SummarizeResult × Db → Result PipelineError MaterializeResult × Db
  unfolding get_by_id voice_news_item
  after_summary item_id (err e, db) = (err e, db)
  after_summary item_id (ok gave_up, db) = (ok not_possible, db)
  after_summary item_id (ok skipped, db) = (ok not_possible, db)
  after_summary item_id (ok done, db) = elim (get_by_id table item_id db) [
    | none ↦ (ok not_possible, db)
    | some item ↦
        if same_status item.status summarized
        then voice_news_item item_id db
        else (ok not_possible, db)
  ]

  unfoldable pub from_body :
      ℕ → Db → Result String String → Result PipelineError MaterializeResult × Db
  unfolding mark_failed then_answer summarize_news_item after_summary
  from_body item_id db (err e) = (err (external_error e), db)
  from_body item_id db (ok source_text) =
      if clients.strip source_text == ""
      then then_answer not_possible (mark_failed table item_id db)
      else after_summary item_id (summarize_news_item item_id source_text db)

  -- The branches by the status of the item.
  unfoldable pub by_status :
      Status → NewsItem → ℕ → Db → Result PipelineError MaterializeResult × Db
  unfolding from_body voice_news_item mark_ready then_answer
  by_status ready item item_id db = (ok was_ready, db)
  by_status fetched item item_id db =
      from_body item_id db (clients.fetch_article_body item.source_url)
  by_status summarized item item_id db = voice_news_item item_id db
  by_status voiced item item_id db = then_answer materialized (mark_ready table item_id db)
  by_status failed item item_id db = (ok not_possible, db)

  unfoldable pub materialize_news_item : ℕ → Db → Result PipelineError MaterializeResult × Db
  unfolding get_by_id by_status
  materialize_news_item item_id db = elim (get_by_id table item_id db) [
    | none ↦ (err (lookup_error item_id), db)
    | some item ↦ by_status item.status item item_id db
  ]

  abbrev pub first_in : Status → Db → Option NewsItem
  first_in status db = find_first (λ row. same_status row.status status) (rows db)

  -- The table lists its rows by their keys.
  unfoldable pub select_for_materialize : (String → ℕ) → ℕ → Db → Option NewsItem
  unfolding find_first select_news_item
  select_for_materialize get_played_count max_plays db = elim (first_in fetched db) [
    | some item ↦ some item
    | none ↦ elim (first_in summarized db) [
      | some item ↦ some item
      | none ↦ select_news_item get_played_count max_plays (rows db)
    ]
  ]
