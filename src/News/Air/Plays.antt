-- ===== src/News/Air/Plays.antt =====
-- How a play is counted in the table and in the mirror.
use fm.Base.{
  String, ◌≡◌, refl, true, false, ◌&&◌, map, Result, ok, err, if◌then◌else◌, ◌==◌, string_eq,
  nat_eq, string_refl, Bool-cases, Option-cases, Result-cases, inl, inr,
}
use fm.Base.Int.{ℤ, pos, ◌+ℤ◌}
use fm.Base.Values.{Value}
use fm.Datetime.{Datetime}
use fm.Table.{Table}
use fm.Redis.{Redis, json}
use fm.News.Items.{
  NewsItem, NewsError, ready, same_status, has_id, played, get_by_id, increment_play_count,
}
use fm.News.Air.{
  AirError, text_or, played_key, get_played_count, increment_played_count, mirror, then_mirror,
  record_air_slot,
}

module _ (redis : Redis) (table : Table (λ (item : NewsItem). item.id)) where
  open redis use {Store}
  open table use {Db, rows}

  abbrev pub play_counted : NewsItem → Datetime → NewsItem → NewsItem
  play_counted item slot row =
      if has_id item.id row && same_status row.status ready then played table slot row else row

  -- The mirror counts one play more of a text that is not empty, and the lists of the store stay.
  abbrev pub Mirrored : String → Store → Store → Type 0
  Mirrored hash s s' =
      ((key : String) → (played_key hash == key) ≡ false → redis.lrange key s' ≡ redis.lrange key s)
      × ((hash == "") ≡ true → s' ≡ s)
      × ((hash == "") ≡ false
          → (n : ℤ) × (get_played_count redis hash s ≡ ok n)
            × (get_played_count redis hash s' ≡ ok (n +ℤ pos 1)))

  -- The item's row alone has one play more, at the slot, and so has its mirror.
  abbrev pub IsCounted : NewsItem → Datetime → Db → Store → Db → Store → Type 0
  IsCounted item slot db s db' s' =
      (rows db' ≡ map (play_counted item slot) (rows db))
      × Mirrored (text_or "" item.content_hash) s s'

  abbrev pub Counts :
      NewsItem → Datetime → Db → Store → Result AirError (Unit {0}) × Db × Store → Type 0
  Counts item slot db s (ok _, db', s') = IsCounted item slot db s db' s'
  Counts item slot db s (err e, db', s') = Unit

  counter-incremented :
      (hash : String) (s : Store) (n : ℤ)
      → get_played_count redis hash s ≡ ok n
      → (increment_played_count redis hash s
          ≡ (ok (n +ℤ pos 1), redis.set (played_key hash) (json (Value.int (n +ℤ pos 1))) s))
  unfolding increment_played_count
  counter-incremented hash s n e = rw (e, increment_played_count) refl

  counter-stuck :
      (hash : String) (s : Store) (exc : AirError)
      → get_played_count redis hash s ≡ err exc
      → increment_played_count redis hash s ≡ (err exc, s)
  unfolding increment_played_count
  counter-stuck hash s exc e = rw (e, increment_played_count) refl

  counter-set :
      (hash : String) (s : Store) (n : ℤ)
      → get_played_count redis hash (redis.set (played_key hash) (json (Value.int n)) s) ≡ ok n
  unfolding get_played_count
  counter-set hash s n =
      rw
        (redis.get-set (played_key hash) (json (Value.int n)) s (played_key hash), get_played_count)
        (rw (string_refl (played_key hash)) refl)

  mirror-Counts :
      (item : NewsItem) (slot : Datetime) (before db : Db) (s : Store)
      → rows db ≡ map (play_counted item slot) (rows before)
      → Counts item slot before s (mirror redis table item.content_hash db s)
  unfolding mirror
  mirror-Counts item slot before db s h =
      let hash = text_or "" item.content_hash in
      elim (Bool-cases (hash == "")) [
        | inl e ↦ rw (e, mirror) (h, ((λ key f. refl), (λ f. refl), (λ f. cc)))
        | inr e ↦ elim (Result-cases (get_played_count redis hash s)) [
          | inr (exc, f) ↦ rw (e, mirror) (rw (counter-stuck hash s exc f) tt)
          | inl (n, f) ↦
              rw (e, mirror)
                (rw (counter-incremented hash s n f) (
                  h,
                  (
                    redis.lrange-set (played_key hash) _ s,
                    (λ g. cc),
                    (λ g. (n, f, counter-set hash s (n +ℤ pos 1))),
                  ),
                ))
        ]
      ]

  abbrev Plays : NewsItem → Datetime → Db → Result NewsError NewsItem × Db → Type 0
  Plays item slot db (ok row, db') = rows db' ≡ map (play_counted item slot) (rows db)
  Plays item slot db (err e, db') = Unit

  increment-Plays :
      (item : NewsItem) (slot : Datetime) (db : Db)
      → Plays item slot db (increment_play_count table item.id slot db)
  unfolding increment_play_count
  increment-Plays item slot db = elim (Option-cases (get_by_id table item.id db)) [
    | inl e ↦ rw (e, increment_play_count) tt
    | inr (row, e) ↦ elim (Bool-cases (same_status row.status ready)) [
      | inl f ↦ rw (e, increment_play_count) (rw f (table.rows-update _ _ db))
      | inr f ↦ rw (e, increment_play_count) (rw f tt)
    ]
  ]

  then_mirror-Counts :
      (item : NewsItem) (slot : Datetime) (before : Db) (s : Store)
      (p : Result NewsError NewsItem × Db)
      → Plays item slot before p
      → Counts item slot before s (then_mirror redis table item.content_hash s p)
  then_mirror-Counts item slot before s (err e, db) h = tt
  then_mirror-Counts item slot before s (ok row, db) h = mirror-Counts item slot before db s h

  pub record_air_slot-Counts :
      (item : NewsItem) (slot : Datetime) (db : Db) (s : Store)
      → Counts item slot db s (record_air_slot redis table item slot db s)
  unfolding record_air_slot
  record_air_slot-Counts item slot db s = elim (Bool-cases (same_status item.status ready)) [
    | inl e ↦
        rw (e, record_air_slot)
          (then_mirror-Counts item slot db s (increment_play_count table item.id slot db)
            (increment-Plays item slot db))
    | inr e ↦ rw (e, record_air_slot) tt
  ]
