-- ===== src/Music/StreamCache.antt =====
-- The cache of stream URLs of services/music/yandex_provider.py, with a session, and
-- services/cron/cleanup_tracks.py. The table is a parameter.
pub mod Transparent
mod Examples
use fm.Base.{
  ℕ, String, ◌+◌, Bool, true, false, Option, none, some, Result, ok, err, ltb, if◌then◌else◌,
  string_eq,
}
use fm.Datetime.{Datetime}
use fm.Keyed.{Keyed}
use fm.Music.Yandex.{
  StreamUrl, ProviderError, stale_data, Client, Texts, Resolved, ask, refresh_buffer,
  expiry_from_url, first_info,
}

pub record TrackCache : Type 0 where
  pub yandex_track_id : String
  pub title : String
  pub artist : String
  pub stream_url : String
  pub stream_url_expires : Datetime

module _ (texts : Texts) (client : Client)
    (table : Keyed (λ (row : TrackCache). row.yandex_track_id)) where
  open table use {Db, find, write}

  -- The flush of an insertion: when another session has inserted the row, it is read again and changed.
  abbrev pub flush_new : TrackCache → Db → Result ProviderError Db
  flush_new row db = ok (write row db)

  -- The flush of a change.
  abbrev pub flush_changed : TrackCache → Db → Option TrackCache → Result ProviderError Db
  flush_changed row db none = err stale_data
  flush_changed row db (some there) = ok (write row db)

  -- `race` is what other sessions commit between the SELECT and the flush.
  unfoldable pub upsert_cache : (Db → Db) → TrackCache → Db → Result ProviderError Db
  upsert_cache race row db = elim (find row.yandex_track_id db) [
    | none ↦ flush_new row (race db)
    | some cached ↦ flush_changed row (race db) (find row.yandex_track_id (race db))
  ]

  abbrev pub stored : StreamUrl → Db → Result ProviderError Db → Result ProviderError StreamUrl × Db
  stored stream before (ok db) = (ok stream, db)
  stored stream before (err e) = (err e, before)

  abbrev pub keep_link :
      (Db → Db)
      → String
      → Db
      → String
      → Result ProviderError Datetime
      → Result ProviderError (String × String)
      → Result ProviderError StreamUrl × Db
  keep_link race track_id db link (err e) about = (err e, db)
  keep_link race track_id db link (ok expires_at) (err e) = (err e, db)
  keep_link race track_id db link (ok expires_at) (ok (title, artist)) =
      let row : TrackCache = record {
        yandex_track_id = track_id;
        title = title;
        artist = artist;
        stream_url = link;
        stream_url_expires = expires_at;
      } in
      stored (record { url = link; expires_at = expires_at }) db (upsert_cache race row db)

  abbrev pub keep_answer :
      (Db → Db)
      → String
      → Datetime
      → Db
      → Result ProviderError (Resolved texts client)
      → Result ProviderError StreamUrl × Db
  keep_answer race track_id now db (err e) = (err e, db)
  keep_answer race track_id now db (ok (link, tracks)) =
      keep_link race track_id db link (expiry_from_url texts link now)
        (first_info texts client tracks)

  unfoldable pub resolve_from_api :
      (Db → Db) → String → Datetime → Db → Result ProviderError StreamUrl × Db
  unfolding ask expiry_from_url upsert_cache
  resolve_from_api race track_id now db =
      keep_answer race track_id now db (ask texts client track_id)

  -- `later` is the second reading of the clock, behind the calls of the client.
  unfoldable pub resolve_stream_url :
      (Db → Db) → String → Datetime → Datetime → Db → Result ProviderError StreamUrl × Db
  unfolding resolve_from_api
  resolve_stream_url race track_id now later db = elim (find track_id db) [
    | none ↦ resolve_from_api race track_id later db
    | some cached ↦
        if ltb (now + refresh_buffer) cached.stream_url_expires
        then (ok (record { url = cached.stream_url; expires_at = cached.stream_url_expires }), db)
        else resolve_from_api race track_id later db
  ]

module _ (table : Keyed (λ (row : TrackCache). row.yandex_track_id)) where
  open table use {Db, delete}

  unfoldable pub cleanup_expired_tracks : Datetime → Db → Db
  cleanup_expired_tracks now db = delete (λ row. ltb row.stream_url_expires now) db
