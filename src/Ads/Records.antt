-- ===== src/Ads/Records.antt =====
-- services/db/models.py (Ad) and services/ads/repository.py: the rows of the ads.
use fm.Base.{
  ℕ, String, Bool, true, false, Option, none, some, Result, ok, err, ◌==◌, nat_eq, find_first,
  count_if,
}
use fm.Table.{Table}

pub data AdStatus : Type 0 where
  pending queued played rejected : AdStatus

abbrev pub same_ad_status : AdStatus → AdStatus → Bool
same_ad_status pending pending = true
same_ad_status queued queued = true
same_ad_status played played = true
same_ad_status rejected rejected = true
same_ad_status _ _ = false

pub record Ad : Type 0 where
  pub id : ℕ
  pub telegram_user_id : ℕ
  pub city_tag : String
  pub audio_url : String
  pub status : AdStatus

pub data AdError : Type 0 where
  ad_not_found : ℕ → AdError

abbrev pub is_ad : ℕ → Ad → Bool
is_ad ad_id row = row.id == ad_id

module _ (table : Table (λ (row : Ad). row.id)) where
  open table use {Db, rows, next_id, add, update}

  unfoldable pub create_pending : ℕ → String → String → Db → Ad × Db
  create_pending telegram_user_id city_tag audio_url db =
      let row : Ad = record {
        id = next_id db;
        telegram_user_id = telegram_user_id;
        city_tag = city_tag;
        audio_url = audio_url;
        status = pending;
      } in
      (row, add row db)

  unfoldable pub find_ad : ℕ → Db → Option Ad
  unfolding find_first
  find_ad ad_id db = find_first (is_ad ad_id) (rows db)

  -- `mark_queued` and `mark_rejected`: the UPDATE, then the row or an exception.
  unfoldable pub mark : AdStatus → ℕ → Db → Result AdError Ad × Db
  unfolding find_ad
  mark status ad_id db =
      let db' = update (is_ad ad_id) (λ row. record row { status = status }) db in
      elim (find_ad ad_id db') [ none ↦ (err (ad_not_found ad_id), db') | some row ↦ (ok row, db') ]

  unfoldable pub mark_queued : ℕ → Db → Result AdError Ad × Db
  unfolding mark
  mark_queued = mark queued

  unfoldable pub mark_rejected : ℕ → Db → Result AdError Ad × Db
  unfolding mark
  mark_rejected = mark rejected

  unfoldable pub count_by_status : AdStatus → Db → ℕ
  unfolding count_if
  count_by_status status db = count_if (λ row. same_ad_status row.status status) (rows db)
