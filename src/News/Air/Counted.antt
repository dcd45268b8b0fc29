-- ===== src/News/Air/Counted.antt =====
-- What a run of the enqueue worker counts.
use fm.Base.{
  ℕ, String, ◌+◌, ◌≡◌, refl, Bool, true, false, Option, none, some, List, [], ◌∷◌, Result, ok, err,
  if◌then◌else◌, ◌==◌, string_eq, nat_eq, Bool-cases, Option-cases, inl, inr, ◌≢◌, ◌⊎◌,
}
use fm.Base.Int.{ℤ}
use fm.Base.Values.{Value, get_field}
use fm.Datetime.{Datetime}
use fm.Table.{Table}
use fm.Redis.{Redis}
use fm.Ads.Client.{Response}
use fm.News.Clock.{current_enqueue_slot}
use fm.News.Items.{NewsItem}
use fm.News.Air.{
  AirError, build_news_pair_payload, NewsEnqueue, accepted, failure, enqueue_news_pair,
  read_accepted, record_air_slot,
}
use fm.News.Air.Run.{
  EnqueueStats, Worker, read_pins, find_pinned, may_air, committed, after_reply, after_post, send,
  air_item, from_pins, after_guard, guard, run_once,
}
use fm.News.Slip.{SlipError}
use fm.News.Air.Plays.{IsCounted, Counts, record_air_slot-Counts}

answered :
    (response : Response) (id city_tags : Value)
    → enqueue_news_pair response ≡ ok (accepted id city_tags)
    → (response.status_code == 201) ≡ true
unfolding enqueue_news_pair
answered response id city_tags e = elim (Bool-cases (response.status_code == 201)) [
  | inl f ↦ f
  | inr f ↦ absurd (cc (rw (f, enqueue_news_pair) at e))
]

read_accepted-accepts :
    (body : Option Value) (code : ℕ) (message city : Value)
    → read_accepted body ≢ ok (failure code message city)
unfolding read_accepted
read_accepted-accepts none code message city h = cc h
read_accepted-accepts (some (Value.dict body)) code message city h =
    elim (Option-cases (get_field "id" body)) [
      | inl e ↦ cc (rw (e, read_accepted) at h)
      | inr (id, e) ↦ cc (rw (e, read_accepted) at h)
    ]
read_accepted-accepts (some Value.null) code message city h = cc h
read_accepted-accepts (some (Value.bool b)) code message city h = cc h
read_accepted-accepts (some (Value.int n)) code message city h = cc h
read_accepted-accepts (some (Value.str t)) code message city h = cc h
read_accepted-accepts (some (Value.list vs)) code message city h = cc h

refused :
    (response : Response) (code : ℕ) (message city : Value)
    → enqueue_news_pair response ≡ ok (failure code message city)
    → (response.status_code == 201) ≡ false
unfolding enqueue_news_pair
refused response code message city e = elim (Bool-cases (response.status_code == 201)) [
  | inl f ↦
      absurd
        (read_accepted-accepts response.body code message city (rw (f, enqueue_news_pair) at e))
  | inr f ↦ f
]

module _ (redis : Redis) (table : Table (λ (item : NewsItem). item.id)) where
  open redis use {Store}
  open table use {Db, rows}

  module _ (worker : Worker Store) (slot : Datetime) (before : Db) (start : Store) where
    -- An answer by which the play was passed on.
    abbrev pub Passed : NewsItem → Store → Type 0
    Passed item s =
        (payload : Value) × (response : Response) × (build_news_pair_payload worker.tools item
          ≡ ok payload)
        × (worker.post payload start ≡ (ok response, s))
        × ((response.status_code == 201) ≡ true)

    -- Nothing was sent, or the injector answered with another status than 201.
    abbrev pub Unsent : Store → Type 0
    Unsent s =
        (s ≡ start)
        ⊎ ((payload : Value) × (response : Response) × (worker.post payload start
              ≡ (ok response, s))
            × ((response.status_code == 201) ≡ false))

    -- All cities have a pin, and the first one's item is aired.
    abbrev pub Aired : Option ℤ → Db → Store → Type 0
    Aired item_id db s =
        (n : ℤ) × (pins : List ℤ) × (item : NewsItem) × (sent : Store) × (item_id ≡ some n)
        × (read_pins redis table worker.cities (worker.slot_iso slot) start ≡ ok (some (n ∷ pins)))
        × (find_pinned redis table n before ≡ some item)
        × (may_air redis table worker slot item ≡ true)
        × Passed item sent
        × IsCounted redis table item slot before sent db s

    abbrev one : Bool → ℕ
    one b = if b then 1 else 0

    abbrev pub outcomes : EnqueueStats → ℕ
    outcomes stats =
        one stats.enqueued
        + one stats.skipped_slip
        + one stats.skipped_no_pin
        + one stats.skipped_not_ready
        + one stats.skipped_injector

    abbrev pub Ends : Result AirError EnqueueStats × Db × Store → Type 0
    Ends (err e, db, s) = db ≡ before
    Ends (ok stats, db, s) =
        (outcomes stats ≡ 1)
        × (stats.enqueued ≡ false → (db ≡ before) × Unsent s)
        × (stats.enqueued ≡ true → Aired stats.item_id db s)

    committed-Ends :
        (n : ℤ) (pins : List ℤ) (item : NewsItem) (sent : Store)
        (p : Result AirError (Unit {0}) × Db × Store)
        → read_pins redis table worker.cities (worker.slot_iso slot) start ≡ ok (some (n ∷ pins))
        → find_pinned redis table n before ≡ some item
        → may_air redis table worker slot item ≡ true
        → Passed item sent
        → Counts redis table item slot before sent p
        → Ends (committed redis table worker slot n before p)
    unfolding committed
    committed-Ends n pins item sent (err e, db, s) a b c d h = refl
    committed-Ends n pins item sent (ok _, db, s) a b c d h =
        (refl, (λ f. cc), (λ f. (n, pins, item, sent, refl, a, b, c, d, h)))

    module _ (n : ℤ) (pins : List ℤ) (item : NewsItem)
        (pinned : read_pins redis table worker.cities (worker.slot_iso slot) start
          ≡ ok (some (n ∷ pins)))
        (there : find_pinned redis table n before ≡ some item)
        (fit : may_air redis table worker slot item ≡ true) where
      after_reply-Ends :
          (sent : Store) (reply : Result AirError NewsEnqueue)
          → ((id city_tags : Value) → reply ≡ ok (accepted id city_tags) → Passed item sent)
          → ((code : ℕ) (message city : Value)
              → reply ≡ ok (failure code message city)
              → Unsent sent)
          → Ends (after_reply redis table worker slot n item before sent reply)
      unfolding after_reply
      after_reply-Ends sent (err e) h k = refl
      after_reply-Ends sent (ok (failure code message city)) h k =
          (refl, (λ f. (refl, k code message city refl)), (λ f. cc))
      after_reply-Ends sent (ok (accepted id city_tags)) h k =
          committed-Ends n pins item sent (record_air_slot redis table item slot before sent) pinned
            there fit (h id city_tags refl)
            (record_air_slot-Counts redis table item slot before sent)

      after_post-Ends :
          (payload : Value) (p : Result AirError Response × Store)
          → build_news_pair_payload worker.tools item ≡ ok payload
          → worker.post payload start ≡ p
          → Ends (after_post redis table worker slot n item before p)
      unfolding after_post
      after_post-Ends payload (err e, sent) built h = refl
      after_post-Ends payload (ok response, sent) built h =
          after_reply-Ends sent (enqueue_news_pair response)
            (λ id city_tags e. (payload, response, built, h, answered response id city_tags e))
            (λ code message city e.
              inr (payload, response, h, refused response code message city e))

      send-Ends :
          (payload : Result AirError Value)
          → build_news_pair_payload worker.tools item ≡ payload
          → Ends (send redis table worker slot n item before start payload)
      unfolding send
      send-Ends (err e) h = refl
      send-Ends (ok payload) h = after_post-Ends payload (worker.post payload start) h refl

    air_item-Ends :
        (n : ℤ) (pins : List ℤ)
        → read_pins redis table worker.cities (worker.slot_iso slot) start ≡ ok (some (n ∷ pins))
        → Ends (air_item redis table worker slot n before start)
    unfolding air_item
    air_item-Ends n pins h = elim (Option-cases (find_pinned redis table n before)) [
      | inl e ↦ rw (e, air_item) (refl, (λ f. (refl, inl refl)), (λ f. cc))
      | inr (item, e) ↦ elim (Bool-cases (may_air redis table worker slot item)) [
        | inl f ↦
            rw (e, air_item)
              (rw f (send-Ends n pins item h e f (build_news_pair_payload worker.tools item) refl))
        | inr f ↦ rw (e, air_item) (rw f (refl, (λ g. (refl, inl refl)), (λ g. cc)))
      ]
    ]

    from_pins-Ends :
        (p : Result AirError (Option (List ℤ)))
        → read_pins redis table worker.cities (worker.slot_iso slot) start ≡ p
        → Ends (from_pins redis table worker slot before start p)
    unfolding from_pins
    from_pins-Ends (err e) h = refl
    from_pins-Ends (ok none) h = (refl, (λ f. (refl, inl refl)), (λ f. cc))
    from_pins-Ends (ok (some [])) h = refl
    from_pins-Ends (ok (some (n ∷ pins))) h = air_item-Ends n pins h

    after_guard-Ends :
        (r : Result SlipError (Bool × Option String))
        → Ends (after_guard redis table worker slot before start r)
    unfolding after_guard
    after_guard-Ends (err e) = refl
    after_guard-Ends (ok (true, city)) = (refl, (λ f. (refl, inl refl)), (λ f. cc))
    after_guard-Ends (ok (false, city)) =
        from_pins-Ends (read_pins redis table worker.cities (worker.slot_iso slot) start) refl

  -- A run of the enqueue worker ends in exactly one of five ways, or raises. Unless it enqueued,
  -- the table is as it was, and either nothing was sent or the injector's answer was not 201. If it
  -- did, every city had a pin for the current slot, the injector answered 201 to the payload of the
  -- first city's item, which was ready and had a file, and that item alone has one play more, at
  -- the slot, in the table and in the mirror in Redis.
  pub run_once-Ends :
      (worker : Worker Store) (now : Datetime) (db : Db) (s : Store)
      → Ends worker (current_enqueue_slot now) db s (run_once redis table worker now db s)
  unfolding run_once
  run_once-Ends worker now db s =
      after_guard-Ends worker (current_enqueue_slot now) db s
        (guard redis table worker (current_enqueue_slot now) now s)
