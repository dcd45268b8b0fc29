-- ===== src/News/Air/Materialize.antt =====
-- services/news/workers/materialize_cron.py: one run of the materialize worker. The counter of plays
-- reads the store as a number; the exception for a counter that is none is left out, and so are the
-- entries of the speech cache in Redis, whose keys lie apart from those of the pins.
use fm.Base.{ℕ, suc, String, none, some, List, [], ◌∷◌, length, Result, ok, err}
use fm.Datetime.{Datetime}
use fm.Table.{Table}
use fm.Redis.{Redis}
use fm.News.Clock.{ClockError, enqueue_slot_for_materialize}
use fm.News.Items.{NewsItem}
use fm.News.Pipeline.{
  Clients, PipelineError, MaterializeResult, no_item, MaterializeStats, record_result,
  materialize_news_item, select_for_materialize,
}
use fm.News.Air.Pins.{pin_slot_item}

pub data MaterializeError : Type 0 where
  clock : ClockError → MaterializeError
  pipeline : PipelineError → MaterializeError

pub record Materializer (S : Type 0) : Type 0 where
  pub cities : List String
  pub clients : Clients
  pub slot_iso : Datetime → String
  pub get_played_count : S → String → ℕ
  pub max_plays : ℕ

module _ (redis : Redis) (table : Table (λ (item : NewsItem). item.id)) where
  open redis use {Store}
  open table use {Db}

  abbrev pub Step : Type 0
  Step = Result MaterializeError MaterializeStats × Db × Store

  abbrev pub then_next : Step → (MaterializeStats → Db → Store → Step) → Step
  then_next (err e, db, s) next = (err e, db, s)
  then_next (ok stats, db, s) next = next stats db s

  -- The commit of a city's session, or its rollback.
  unfoldable pub settle :
      MaterializeStats → Db → Store → Result PipelineError MaterializeResult × Db → Step
  unfolding record_result
  settle stats before s (ok result, db) = (ok (record_result result stats), db, s)
  settle stats before s (err e, db) = (err (pipeline e), before, s)

  module _ (worker : Materializer Store) (slot_key : String) where
    -- The session of one city.
    unfoldable pub materialize_city : String → MaterializeStats → Db → Store → Step
    unfolding select_for_materialize pin_slot_item materialize_news_item settle record_result
    materialize_city city stats db s =
        elim (select_for_materialize table worker.clients (worker.get_played_count s)
          worker.max_plays db) [
            | none ↦ (ok (record_result no_item stats), db, s)
            | some item ↦
                settle (record stats { pinned = suc stats.pinned }) db
                  (pin_slot_item redis city slot_key item.id s)
                  (materialize_news_item table worker.clients item.id db)
          ]

    unfoldable pub materialize_cities : List String → MaterializeStats → Db → Store → Step
    unfolding materialize_city
    materialize_cities [] stats db s = (ok stats, db, s)
    materialize_cities (city ∷ cities) stats db s =
        then_next (materialize_city city stats db s) (materialize_cities cities)

  abbrev pub first_stats : ℕ → MaterializeStats
  first_stats cities = record {
    cities = cities;
    pinned = 0;
    ready_count = 0;
    materialized_count = 0;
    failed_count = 0;
    no_item_count = 0;
  }

  unfoldable pub run_materialize : Materializer Store → Datetime → Db → Store → Step
  unfolding enqueue_slot_for_materialize materialize_cities
  run_materialize worker now db s = elim (enqueue_slot_for_materialize now) [
    | err e ↦ (err (clock e), db, s)
    | ok slot ↦
        materialize_cities worker (worker.slot_iso slot) worker.cities
          (first_stats (length worker.cities)) db s
  ]
