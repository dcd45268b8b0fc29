-- ===== src/News/Air/Handover.antt =====
-- What a materialize run leaves for the enqueue run of its slot.
use fm.Base.{
  ℕ, suc, String, ◌+◌, ◌≤◌, ◌≡◌, refl, some, List, [], ◌∷◌, length, All, Result, ok, err,
  if◌then◌else◌, ◌==◌, string_eq, string_refl, Bool-cases, Option-cases, Result-cases, inl, inr,
  arith,
}
use fm.Base.Int.{ℤ, pos}
use fm.Base.Values.{int}
use fm.Datetime.{Datetime}
use fm.Table.{Table}
use fm.Redis.{Redis, json}
use fm.News.Clock.{enqueue_slot_for_materialize}
use fm.News.Items.{NewsItem}
use fm.News.Pipeline.{
  PipelineError, MaterializeResult, was_ready, materialized, not_possible, no_item,
  MaterializeStats, record_result, materialize_news_item, select_for_materialize,
}
use fm.News.Air.Pins.{slot_pin_key, pin_slot_item, get_pinned_item_id}
use fm.News.Air.Run.{read_pins}
use fm.News.Air.Materialize.{
  MaterializeError, Materializer, then_next, settle, materialize_city, materialize_cities,
  first_stats, run_materialize,
}

abbrev pub recorded : MaterializeStats → ℕ
recorded stats =
    stats.ready_count + stats.materialized_count + stats.failed_count + stats.no_item_count

record_result-recorded :
    (result : MaterializeResult) (stats : MaterializeStats)
    → (recorded (record_result result stats) ≡ suc (recorded stats))
      × (stats.no_item_count ≤ (record_result result stats).no_item_count)
unfolding record_result
record_result-recorded was_ready stats = omega arith
record_result-recorded materialized stats = omega arith
record_result-recorded not_possible stats = omega arith
record_result-recorded no_item stats = omega arith

no_item-counted :
    (stats : MaterializeStats)
    → (record_result no_item stats).no_item_count ≡ stats.no_item_count + 1
unfolding record_result
no_item-counted stats = omega arith

module _ (redis : Redis) (table : Table (λ (item : NewsItem). item.id)) (slot_key : String) where
  open redis use {Store, get}
  open table use {Db}

  abbrev pub IsPinned : Store → String → Type 0
  IsPinned s city = (n : ℤ) × (get_pinned_item_id redis city slot_key s ≡ ok (some n))

  pinned-get :
      (city other : String) (n : ℕ) (s : Store)
      → get (slot_pin_key city slot_key) (pin_slot_item redis other slot_key n s) ≡ (
          if slot_pin_key other slot_key == slot_pin_key city slot_key
          then some (json (int (pos n)))
          else get (slot_pin_key city slot_key) s)
  unfolding pin_slot_item
  pinned-get city other n s =
      redis.get-set (slot_pin_key other slot_key) (json (int (pos n))) s
        (slot_pin_key city slot_key)

  pub pin-reads :
      (city : String) (n : ℕ) (s : Store)
      → get_pinned_item_id redis city slot_key (pin_slot_item redis city slot_key n s)
        ≡ ok (some (pos n))
  unfolding get_pinned_item_id
  pin-reads city n s =
      rw (pinned-get city city n s, get_pinned_item_id)
        (rw (string_refl (slot_pin_key city slot_key)) refl)

  pin-keeps :
      (other : String) (n : ℕ) (s : Store) (city : String)
      → IsPinned s city
      → IsPinned (pin_slot_item redis other slot_key n s) city
  unfolding get_pinned_item_id
  pin-keeps other n s city (m, h) =
      elim (Bool-cases (slot_pin_key other slot_key == slot_pin_key city slot_key)) [
        | inl e ↦ (pos n, rw (pinned-get city other n s, get_pinned_item_id) (rw e refl))
        | inr e ↦ (m, rw (pinned-get city other n s, get_pinned_item_id) (rw e h))
      ]

  read_pins-pinned :
      (cities : List String) (s : Store)
      → All (IsPinned s) cities
      → (pins : List ℤ) × (read_pins redis table cities slot_key s ≡ ok (some pins))
  unfolding read_pins
  read_pins-pinned [] s h = ([], refl)
  read_pins-pinned (city ∷ cities) s ((n, h), hs) =
      let (pins, rest) = read_pins-pinned cities s hs in
      (n ∷ pins, rw (h, read_pins) (rw rest refl))

  module _ (worker : Materializer Store) where
    -- A step of the loop for the cities `done`.
    abbrev Advances :
        List String
        → MaterializeStats
        → Store
        → Result MaterializeError MaterializeStats × Db × Store
        → Type 0
    Advances done stats s (err e, db', s') = Unit
    Advances done stats s (ok stats', db', s') =
        (recorded stats' ≡ recorded stats + length done)
        × (stats.no_item_count ≤ stats'.no_item_count)
        × ((city : String) → IsPinned s city → IsPinned s' city)
        × (stats'.no_item_count ≡ stats.no_item_count → All (IsPinned s') done)

    settle-Advances :
        (city : String) (n : ℕ) (stats : MaterializeStats) (db : Db) (s : Store)
        (p : Result PipelineError MaterializeResult × Db)
        → Advances (city ∷ []) stats s (
            settle redis table
              (record stats { pinned = suc stats.pinned })
              db
              (pin_slot_item redis city slot_key n s)
              p)
    unfolding settle
    settle-Advances city n stats db s (err e, db') = tt
    settle-Advances city n stats db s (ok result, db') =
        let (total, grows) =
          record_result-recorded result (record stats { pinned = suc stats.pinned }) in
        (
          omega (arith, total),
          grows,
          (λ c h. pin-keeps city n s c h),
          (λ h. ((pos n, pin-reads city n s), tt)),
        )

    city-Advances :
        (city : String) (stats : MaterializeStats) (db : Db) (s : Store)
        → Advances
            (city ∷ [])
            stats
            s
            (materialize_city redis table worker slot_key city stats db s)
    unfolding materialize_city
    city-Advances city stats db s =
        elim (Option-cases (
          select_for_materialize table worker.clients (worker.get_played_count s) worker.max_plays
            db)) [
              | inl e ↦ rw (e, materialize_city) (missing city stats db s)
              | inr (item, e) ↦
                  rw (e, materialize_city)
                    (settle-Advances city item.id stats db s
                      (materialize_news_item table worker.clients item.id db))
            ]
      where
        missing :
            (city : String) (stats : MaterializeStats) (db : Db) (s : Store)
            → Advances (city ∷ []) stats s (ok (record_result no_item stats), db, s)
        missing city stats db s =
            let (total, grows) = record_result-recorded no_item stats in
            (
              omega (arith, total),
              grows,
              (λ c h. h),
              (λ h. absurd (omega (arith, h, no_item-counted stats))),
            )

    joined :
        (city : String) (cities : List String) (stats : MaterializeStats) (s : Store)
        (stats' : MaterializeStats) (s' : Store)
        (p : Result MaterializeError MaterializeStats × Db × Store)
        → Advances cities stats' s' p
        → (recorded stats' ≡ recorded stats + 1)
        → stats.no_item_count ≤ stats'.no_item_count
        → ((c : String) → IsPinned s c → IsPinned s' c)
        → (stats'.no_item_count ≡ stats.no_item_count → IsPinned s' city)
        → Advances (city ∷ cities) stats s p
    joined city cities stats s stats' s' (err e, db, t) h total grows keeps has = tt
    joined city cities stats s stats' s' (ok last, db, t) (total', grows', keeps', has') total grows
          keeps has =
        (
          omega (arith, total, total'),
          omega (arith, grows, grows'),
          (λ c h. keeps' c (keeps c h)),
          (λ h. (
            keeps' city (has (omega (arith, h, grows, grows'))),
            has' (omega (arith, h, grows, grows')),
          )),
        )

    chain :
        (city : String) (cities : List String) (stats : MaterializeStats) (s : Store)
        (p : Result MaterializeError MaterializeStats × Db × Store)
        (next : MaterializeStats
          → Db
          → Store
          → Result MaterializeError MaterializeStats × Db × Store)
        → ((stats' : MaterializeStats) (db' : Db) (s' : Store)
            → Advances cities stats' s' (next stats' db' s'))
        → Advances (city ∷ []) stats s p
        → Advances (city ∷ cities) stats s (then_next redis table p next)
    chain city cities stats s (err e, db', s') next h k = tt
    chain city cities stats s (ok stats', db', s') next h k =
        joined city cities stats s stats' s' (next stats' db' s') (h stats' db' s')
          (omega (arith, k.0)) k.1 k.2 (λ e. (k.3 e).0)

    cities-Advances :
        (cities : List String) (stats : MaterializeStats) (db : Db) (s : Store)
        → Advances cities stats s (materialize_cities redis table worker slot_key cities stats db s)
    unfolding materialize_cities
    cities-Advances [] stats db s = (omega arith, omega arith, (λ c h. h), (λ h. tt))
    cities-Advances (city ∷ cities) stats db s =
        chain city cities stats s (materialize_city redis table worker slot_key city stats db s)
          (materialize_cities redis table worker slot_key cities) (cities-Advances cities)
          (city-Advances city stats db s)

module _ (redis : Redis) (table : Table (λ (item : NewsItem). item.id)) where
  open redis use {Store}
  open table use {Db}

  module _ (worker : Materializer Store) (now : Datetime) where
    abbrev pub Prepares : Result MaterializeError MaterializeStats × Db × Store → Type 0
    Prepares (err e, db, s) = Unit
    Prepares (ok stats, db, s) =
        (slot : Datetime) × (enqueue_slot_for_materialize now ≡ ok slot)
        × (recorded stats ≡ length worker.cities)
        × (stats.no_item_count ≡ 0
            → (pins : List ℤ) × (read_pins redis table worker.cities (worker.slot_iso slot) s
                ≡ ok (some pins)))

    prepared :
        (slot : Datetime) (s : Store) (p : Result MaterializeError MaterializeStats × Db × Store)
        → enqueue_slot_for_materialize now ≡ ok slot
        → Advances redis table
            (worker.slot_iso slot)
            worker
            worker.cities
            (first_stats redis table (length worker.cities))
            s
            p
        → Prepares p
    prepared slot s (err e, db, t) at h = tt
    prepared slot s (ok stats, db, t) at (total, grows, keeps, has) = (
      slot,
      at,
      omega (arith, total),
      (λ none_missing.
          read_pins-pinned redis table (worker.slot_iso slot) worker.cities t (has none_missing)),
    )

    -- A materialize run that does not raise is one for a slot and has recorded one result for every
    -- city; and if no city was without an item, the enqueue run of that slot finds a pin of every city,
    -- whatever was pinned before.
    pub run_materialize-Prepares :
        (db : Db) (s : Store) → Prepares (run_materialize redis table worker now db s)
    unfolding run_materialize
    run_materialize-Prepares db s = elim (Result-cases (enqueue_slot_for_materialize now)) [
      | inr (e, f) ↦ rw (f, run_materialize) tt
      | inl (slot, f) ↦
          rw (f, run_materialize)
            (prepared slot s _ f (
              cities-Advances redis table (worker.slot_iso slot) worker worker.cities
                (first_stats redis table (length worker.cities)) db s))
    ]
