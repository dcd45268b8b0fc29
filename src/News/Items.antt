-- ===== src/News/Items.antt =====
-- services/db/models.py and services/news/db/repository.py: the news items and their workflow.
-- A method returns its result, or the exception that it raises, and the database.
pub mod Workflow
mod Runs
mod Examples
use fm.Base.{
  ℕ, suc, ◌+◌, String, ◌≡◌, refl, Bool, true, false, not, ◌&&◌, ◌||◌, Option, none, some, List, [],
  ◌∷◌, Result, ok, err, if◌then◌else◌, ◌==◌, nat_eq, string_eq, find_first, any, count_if,
}
use fm.Datetime.{Datetime}
use fm.Table.{Table}

pub data Status : Type 0 where
  fetched summarized voiced ready failed : Status

abbrev pub same_status : Status → Status → Bool
same_status fetched fetched = true
same_status summarized summarized = true
same_status voiced voiced = true
same_status ready ready = true
same_status failed failed = true
same_status _ _ = false

pub record NewsItem : Type 0 where
  pub id : ℕ
  pub source_url : String
  pub summary_ru : Option String
  pub audio_url : Option String
  pub play_count : ℕ
  pub last_played_at : Option Datetime
  pub status : Status
  pub content_hash : Option String

pub record NewsFetchInput : Type 0 where
  pub source_url : String
  pub content_hash : Option String

pub data NewsError : Type 0 where
  item_not_found : ℕ → NewsError
  invalid_transition : Status → Status → NewsError
  cannot_increment : Status → NewsError
  -- a row with the URL or the hash is there
  integrity_error : NewsError

unfoldable pub allowed_transitions : Status → List Status
allowed_transitions fetched = summarized ∷ failed ∷ []
allowed_transitions summarized = voiced ∷ failed ∷ []
allowed_transitions voiced = ready ∷ failed ∷ []
allowed_transitions ready = []
allowed_transitions failed = []

abbrev pub has_id : ℕ → NewsItem → Bool
has_id item_id item = item.id == item_id

abbrev pub same_text : Option String → Option String → Bool
same_text none _ = false
same_text (some a) none = false
same_text (some a) (some b) = a == b

-- The table's unique columns.
abbrev pub clashes : NewsItem → NewsItem → Bool
clashes a b = a.source_url == b.source_url || same_text a.content_hash b.content_hash

module _ (table : Table (λ (item : NewsItem). item.id)) where
  open table use {Db, rows, next_id, add, update}

  abbrev pub new_item : NewsFetchInput → Db → NewsItem
  new_item fetch db = record {
    id = next_id db;
    source_url = fetch.source_url;
    summary_ru = none;
    audio_url = none;
    play_count = 0;
    last_played_at = none;
    status = fetched;
    content_hash = fetch.content_hash;
  }

  unfoldable pub create_from_fetch : NewsFetchInput → Db → Result NewsError NewsItem × Db
  unfolding any
  create_from_fetch fetch db =
      let item = new_item fetch db in
      if any (clashes item) (rows db) then (err integrity_error, db) else (ok item, add item db)

  unfoldable pub get_by_id : ℕ → Db → Option NewsItem
  unfolding find_first
  get_by_id item_id db = find_first (has_id item_id) (rows db)

  unfoldable pub get_by_source_url : String → Db → Option NewsItem
  unfolding find_first
  get_by_source_url url db = find_first (λ item. item.source_url == url) (rows db)

  unfoldable pub get_by_content_hash : String → Db → Option NewsItem
  unfolding find_first
  get_by_content_hash hash db =
      find_first (λ item. same_text item.content_hash (some hash)) (rows db)

  unfoldable pub assert_transition : Status → Status → Result NewsError (Unit {0})
  unfolding any allowed_transitions
  assert_transition current target =
      if any (same_status target) (allowed_transitions current)
      then ok tt
      else err (invalid_transition current target)

  -- `_require_item`, `_assert_transition` and the flush of the changed item.
  unfoldable pub change_item :
      ℕ → Status → (NewsItem → NewsItem) → Db → Result NewsError NewsItem × Db
  unfolding get_by_id assert_transition
  change_item item_id target change db = elim (get_by_id item_id db) [
    | none ↦ (err (item_not_found item_id), db)
    | some item ↦ elim (assert_transition item.status target) [
      | err e ↦ (err e, db)
      | ok _ ↦ (ok (change item), update (has_id item_id) change db)
    ]
  ]

  unfoldable pub update_summary : ℕ → String → Db → Result NewsError NewsItem × Db
  unfolding change_item
  update_summary item_id summary =
      change_item item_id summarized
        (λ item. record item { summary_ru = some summary; status = summarized })

  unfoldable pub update_audio : ℕ → String → Db → Result NewsError NewsItem × Db
  unfolding change_item
  update_audio item_id audio_url =
      change_item item_id voiced
        (λ item. record item { audio_url = some audio_url; status = voiced })

  unfoldable pub mark_ready : ℕ → Db → Result NewsError NewsItem × Db
  unfolding change_item
  mark_ready item_id = change_item item_id ready (λ item. record item { status = ready })

  unfoldable pub mark_failed : ℕ → Db → Result NewsError NewsItem × Db
  unfolding change_item
  mark_failed item_id = change_item item_id failed (λ item. record item { status = failed })

  abbrev pub played : Datetime → NewsItem → NewsItem
  played when item = record item { play_count = item.play_count + 1; last_played_at = some when }

  unfoldable pub increment_play_count : ℕ → Datetime → Db → Result NewsError NewsItem × Db
  unfolding get_by_id
  increment_play_count item_id when db = elim (get_by_id item_id db) [
    | none ↦ (err (item_not_found item_id), db)
    | some item ↦
        if same_status item.status ready
        then (
          ok (played when item),
          update (λ row. has_id item_id row && same_status row.status ready) (played when) db,
        )
        else (err (cannot_increment item.status), db)
  ]

  -- `reset_postgres_play_counts` of the midnight reset; it answers the number of rows.
  unfoldable pub reset_play_counts : Db → ℕ × Db
  unfolding count_if
  reset_play_counts db =
      let is_played : NewsItem → Bool = λ row. not (row.play_count == 0) in
      (
        count_if is_played (rows db),
        update is_played (λ row. record row { play_count = 0; last_played_at = none }) db,
      )
