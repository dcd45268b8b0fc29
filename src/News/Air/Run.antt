-- ===== src/News/Air/Run.antt =====
-- services/news/workers/enqueue_cron.py: one run of the enqueue worker. What it reads of the queues
-- for the slip guard and the exchange with the injector, which works on the same store, are
-- parameters. `max_slip_sec` is in microseconds.
use fm.Base.{
  ℕ, String, Bool, true, false, not, ◌&&◌, Option, none, some, List, [], ◌∷◌, length, Result, ok,
  err, if◌then◌else◌, ◌==◌, string_eq,
}
use fm.Base.Int.{ℤ, pos, negsuc}
use fm.Base.Values.{Value}
use fm.Datetime.{Datetime}
use fm.Table.{Table}
use fm.Redis.{Redis}
use fm.Ads.Client.{Response}
use fm.News.Clock.{current_enqueue_slot}
use fm.News.Items.{NewsItem, ready, same_status, get_by_id}
use fm.News.Air.{
  AirTools, AirError, slip_error, index_error, text_or, build_news_pair_payload, NewsEnqueue,
  accepted, failure, enqueue_news_pair, record_air_slot,
}
use fm.Injector.Upkeep.{list_items}
use fm.News.Slip.{SlipError, crash, should_skip_for_slip}
use fm.News.Air.Pins.{get_pinned_item_id}

pub record EnqueueStats : Type 0 where
  pub cities : ℕ
  pub enqueued : Bool
  pub skipped_slip : Bool
  pub skipped_no_pin : Bool
  pub skipped_not_ready : Bool
  pub skipped_injector : Bool
  pub item_id : Option ℤ

abbrev pub no_stats : ℕ → EnqueueStats
no_stats cities = record {
  cities = cities;
  enqueued = false;
  skipped_slip = false;
  skipped_no_pin = false;
  skipped_not_ready = false;
  skipped_injector = false;
  item_id = none;
}

pub record Worker (S : Type 0) : Type 0 where
  pub cities : List String
  pub tools : AirTools
  pub slot_iso : Datetime → String
  pub max_slip_sec : ℕ
  -- HGETALL, and the parsers of the slip guard
  pub hgetall : S → String → List (String × String)
  pub started_at : String → Option Datetime
  pub parse_float : String → Option ℤ
  pub to_int : Value → Result SlipError ℤ
  pub to_float : Value → Result SlipError ℤ
  pub post : Value → S → Result AirError Response × S

module _ (redis : Redis) (table : Table (λ (item : NewsItem). item.id)) where
  open redis use {Store}
  open table use {Db}

  -- How a run ends: its statistics or an exception, and what it leaves.
  abbrev pub Ending : Type 0
  Ending = Result AirError EnqueueStats × Db × Store

  -- The pins of all cities, or `none` at the first city that has none.
  unfoldable pub read_pins : List String → String → Store → Result AirError (Option (List ℤ))
  unfolding get_pinned_item_id
  read_pins [] slot_key s = ok (some [])
  read_pins (city ∷ cities) slot_key s =
      let rest = read_pins cities slot_key s in
      elim (get_pinned_item_id redis city slot_key s) [
        | err e ↦ err e
        | ok none ↦ ok none
        | ok (some item_id) ↦ elim rest [
          | err e ↦ err e
          | ok none ↦ ok none
          | ok (some pins) ↦ ok (some (item_id ∷ pins))
        ]
      ]

  abbrev pub find_pinned : ℤ → Db → Option NewsItem
  find_pinned (pos n) db = get_by_id table n db
  find_pinned (negsuc n) db = none

  module _ (worker : Worker Store) (slot : Datetime) where
    abbrev stats_0 : EnqueueStats
    stats_0 = no_stats (length worker.cities)

    -- `session.commit()`, or the rollback of a session that an exception leaves.
    unfoldable pub committed : ℤ → Db → Result AirError (Unit {0}) × Db × Store → Ending
    committed item_id before (ok _, db, s) =
        (ok (record stats_0 { enqueued = true; item_id = some item_id }), db, s)
    committed item_id before (err e, db, s) = (err e, before, s)

    unfoldable pub after_reply : ℤ → NewsItem → Db → Store → Result AirError NewsEnqueue → Ending
    unfolding record_air_slot committed
    after_reply item_id item db s (err e) = (err e, db, s)
    after_reply item_id item db s (ok (failure code message city)) =
        (ok (record stats_0 { skipped_injector = true }), db, s)
    after_reply item_id item db s (ok (accepted id city_tags)) =
        committed item_id db (record_air_slot redis table item slot db s)

    unfoldable pub after_post : ℤ → NewsItem → Db → Result AirError Response × Store → Ending
    unfolding after_reply enqueue_news_pair
    after_post item_id item db (err e, s) = (err e, db, s)
    after_post item_id item db (ok response, s) =
        after_reply item_id item db s (enqueue_news_pair response)

    unfoldable pub send : ℤ → NewsItem → Db → Store → Result AirError Value → Ending
    unfolding after_post
    send item_id item db s (err e) = (err e, db, s)
    send item_id item db s (ok payload) = after_post item_id item db (worker.post payload s)

    abbrev pub may_air : NewsItem → Bool
    may_air item = same_status item.status ready && not (text_or "" item.audio_url == "")

    -- The part inside the session.
    unfoldable pub air_item : ℤ → Db → Store → Ending
    unfolding send build_news_pair_payload get_by_id
    air_item item_id db s = elim (find_pinned item_id db) [
      | none ↦ (ok (record stats_0 { skipped_not_ready = true }), db, s)
      | some item ↦
          if may_air item
          then send item_id item db s (build_news_pair_payload worker.tools item)
          else (ok (record stats_0 { skipped_not_ready = true }), db, s)
    ]

    unfoldable pub from_pins : Db → Store → Result AirError (Option (List ℤ)) → Ending
    unfolding air_item
    from_pins db s (err e) = (err e, db, s)
    from_pins db s (ok none) = (ok (record stats_0 { skipped_no_pin = true }), db, s)
    -- `pinned[self.cities[0]]` without a city
    from_pins db s (ok (some [])) = (err index_error, db, s)
    from_pins db s (ok (some (item_id ∷ pins))) = air_item item_id db s

    unfoldable pub after_guard : Db → Store → Result SlipError (Bool × Option String) → Ending
    unfolding read_pins from_pins
    after_guard db s (err e) = (err slip_error, db, s)
    after_guard db s (ok (true, city)) = (ok (record stats_0 { skipped_slip = true }), db, s)
    after_guard db s (ok (false, city)) =
        from_pins db s (read_pins worker.cities (worker.slot_iso slot) s)

    -- The queue of a city, through `QueueClient.list_items`.
    abbrev pub queue_of : Store → String → Result SlipError (List Value)
    queue_of s city = elim (list_items redis city s) [ none ↦ err crash | some items ↦ ok items ]

    unfoldable pub guard : Datetime → Store → Result SlipError (Bool × Option String)
    unfolding should_skip_for_slip list_items
    guard now s =
        should_skip_for_slip worker.started_at worker.parse_float worker.to_int worker.to_float
          (worker.hgetall s) (queue_of s) worker.cities slot now worker.max_slip_sec

  unfoldable pub run_once : Worker Store → Datetime → Db → Store → Ending
  unfolding current_enqueue_slot after_guard guard
  run_once worker now db s =
      let slot = current_enqueue_slot now in after_guard worker slot db s (guard worker slot now s)
