-- ===== src/Music/StreamCache/Transparent.antt =====
-- Where the answers of the provider with its cache come from.
use fm.Base.{
  String, ◌+◌, ◌<◌, ◌≤◌, ◌≡◌, refl, sym, ◌∙◌, subst, ap, ◌⊎◌, inl, inr, Option, none, some, List,
  [], ◌∷◌, Result, ok, err, ◌>>=◌, ltb, ltb→lt, if◌then◌else◌, ◌==◌, string_eq, string_iff,
  Bool-cases, Option-cases, Result-cases, arith,
}
use mathlib.Core.Option.{some_inj}
use fm.Datetime.{Datetime}
use fm.Keyed.{Keyed}
use fm.Music.Yandex.{
  StreamUrl, ProviderError, Client, Texts, Resolved, ask, refresh_buffer, expiry_from_url,
  first_info,
}
use fm.Music.StreamCache.{
  TrackCache, upsert_cache, keep_answer, resolve_from_api, resolve_stream_url,
  cleanup_expired_tracks,
}

-- What a worker does with the provider: it resolves a track, with the client as it answers at that
-- moment and two readings of the clock, or cleans up.
pub data Use : Type 0 where
  resolve : Client → String → Datetime → Datetime → Use
  clean : Datetime → Use

-- The answers so far with their tracks, the latest first.
abbrev pub Given : Type 0
Given = List (String × StreamUrl)

unfoldable pub last_given : String → Given → Option StreamUrl
last_given track_id [] = none
last_given track_id ((id, stream) ∷ given) =
    let before = last_given track_id given in if id == track_id then some stream else before

abbrev pub and_answer : String → Result ProviderError StreamUrl → Given → Given
and_answer track_id (ok stream) given = (track_id, stream) ∷ given
and_answer track_id (err e) given = given

abbrev pub stream_of : TrackCache → StreamUrl
stream_of row = record { url = row.stream_url; expires_at = row.stream_url_expires }

module _ (texts : Texts) (table : Keyed (λ (row : TrackCache). row.yandex_track_id)) where
  open table use {Db, find, write, delete}

  -- What the client gives at a moment: its link, with the expiry in the link, when its track has an id.
  abbrev pub fetched : Client → String → Datetime → Result ProviderError StreamUrl
  fetched client track_id later = ask texts client track_id >>= (λ answer.
      expiry_from_url texts answer.0 later >>= (λ expires_at.
        first_info texts client answer.1
        >>= (λ about. ok (record { url = answer.0; expires_at = expires_at }))))

  abbrev pub resolve_alone :
      Client → String → Datetime → Datetime → Db → Result ProviderError StreamUrl × Db
  resolve_alone client track_id now later db =
      resolve_stream_url texts client table (λ db. db) track_id now later db

  -- Each cached URL is the last answer for its track.
  abbrev pub IsLast : Given → Db → Type 0
  IsLast given db =
      (track_id : String) (row : TrackCache)
      → find track_id db ≡ some row
      → last_given track_id given ≡ some (stream_of row)

  -- No row holds a URL of the track that is valid for more than two minutes.
  abbrev pub IsStale : String → Datetime → Db → Type 0
  IsStale track_id now db =
      (row : TrackCache)
      → find track_id db ≡ some row
      → row.stream_url_expires ≤ now + refresh_buffer

  -- The answer is the last one, still valid for more than two minutes, or a new one.
  abbrev pub Honest :
      Client → String → Datetime → Datetime → Given → Db → Result ProviderError StreamUrl → Type 0
  Honest client track_id now later given db answer =
      ((stream : StreamUrl) × (answer ≡ ok stream)
        × (last_given track_id given ≡ some stream)
        × (now + refresh_buffer < stream.expires_at))
      ⊎ ((answer ≡ fetched client track_id later) × IsStale track_id now db)

  upsert-written :
      (client : Client) (row : TrackCache) (db : Db)
      → upsert_cache texts client table (λ db. db) row db ≡ ok (write row db)
  unfolding upsert_cache
  upsert-written client row db = elim (Option-cases (find row.yandex_track_id db)) [
    | inl e ↦ rw (e, upsert_cache) refl
    | inr (cached, e) ↦ rw (e, upsert_cache) (rw e refl)
  ]

  write-IsLast :
      (row : TrackCache) (given : Given) (db : Db)
      → IsLast given db
      → IsLast ((row.yandex_track_id, stream_of row) ∷ given) (write row db)
  unfolding last_given
  write-IsLast row given db k track_id found e =
      elim (Bool-cases (row.yandex_track_id == track_id)) [
        | inl f ↦
            rw (f, last_given)
              (ap (λ r. some (stream_of r))
                (some_inj.0 (rw f at (sym (table.find-write row db track_id) ∙ e))))
        | inr f ↦
            rw (f, last_given)
              (k track_id found (rw f at (sym (table.find-write row db track_id) ∙ e)))
      ]

  again-IsLast :
      (id : String) (stream : StreamUrl) (given : Given) (db : Db)
      → last_given id given ≡ some stream
      → IsLast given db
      → IsLast ((id, stream) ∷ given) db
  unfolding last_given
  again-IsLast id stream given db h k track_id row e = elim (Bool-cases (id == track_id)) [
    | inl f ↦
        rw (f, last_given)
          (sym h
            ∙ subst (λ i. last_given i given ≡ some (stream_of row))
                (sym ((string_iff id track_id).0 f)) (k track_id row e))
    | inr f ↦ rw (f, last_given) (k track_id row e)
  ]

  abbrev Fetches : Client → String → Datetime → Given → Result ProviderError StreamUrl × Db → Type 0
  Fetches client track_id later given (answer, db) =
      (answer ≡ fetched client track_id later) × IsLast (and_answer track_id answer given) db

  keep_answer-Fetches :
      (client : Client) (track_id : String) (later : Datetime) (given : Given) (db : Db)
      (answer : Result ProviderError (Resolved texts client))
      → ask texts client track_id ≡ answer
      → IsLast given db
      → Fetches client track_id later given
          (keep_answer texts client table (λ db. db) track_id later db answer)
  keep_answer-Fetches client track_id later given db (err e) h k = (rw h refl, k)
  keep_answer-Fetches client track_id later given db (ok (link, tracks)) h k =
      elim (Result-cases (expiry_from_url texts link later)) [
        | inr (e, f) ↦ rw f (rw h (rw f refl), k)
        | inl (expires_at, f) ↦ elim (Result-cases (first_info texts client tracks)) [
          | inr (e, g) ↦ rw f (rw g (rw h (rw f (rw g refl)), k))
          | inl (about, g) ↦
              let row : TrackCache = record {
                yandex_track_id = track_id;
                title = about.0;
                artist = about.1;
                stream_url = link;
                stream_url_expires = expires_at;
              } in
              rw f (
                rw g (
                  rw (upsert-written client row db)
                    (rw h (rw f (rw g refl)), write-IsLast row given db k)))
        ]
      ]

  abbrev Fine :
      Client
      → String
      → Datetime
      → Datetime
      → Given
      → Db
      → Result ProviderError StreamUrl × Db
      → Type 0
  Fine client track_id now later given db (answer, db') =
      Honest client track_id now later given db answer
      × IsLast (and_answer track_id answer given) db'

  fetched-Fine :
      (client : Client) (track_id : String) (now later : Datetime) (given : Given) (db : Db)
      → IsLast given db
      → IsStale track_id now db
      → Fine client track_id now later given db
          (resolve_from_api texts client table (λ db. db) track_id later db)
  unfolding resolve_from_api
  fetched-Fine client track_id now later given db h stale =
      let (same, last) =
        keep_answer-Fetches client track_id later given db (ask texts client track_id) refl h in
      (inr (same, stale), last)

  resolve-Fine :
      (client : Client) (track_id : String) (now later : Datetime) (given : Given) (db : Db)
      → IsLast given db
      → Fine client track_id now later given db (resolve_alone client track_id now later db)
  unfolding resolve_stream_url
  resolve-Fine client track_id now later given db h = elim (Option-cases (find track_id db)) [
    | inl e ↦
        let same : resolve_alone client track_id now later db
            ≡ resolve_from_api texts client table (λ db. db) track_id later db =
          rw (e, resolve_stream_url) refl in
        subst (Fine client track_id now later given db) (sym same)
          (fetched-Fine client track_id now later given db h (λ row f. absurd (cc (e, f))))
    | inr (cached, e) ↦ elim (Bool-cases (ltb (now + refresh_buffer) cached.stream_url_expires)) [
      | inl f ↦
          let same : resolve_alone client track_id now later db ≡ (ok (stream_of cached), db) =
            rw (e, resolve_stream_url) (rw f refl) in
          subst (Fine client track_id now later given db) (sym same) (
            inl (stream_of cached, refl, h track_id cached e, ltb→lt _ _ f),
            again-IsLast track_id (stream_of cached) given db (h track_id cached e) h,
          )
      | inr f ↦
          let same : resolve_alone client track_id now later db
              ≡ resolve_from_api texts client table (λ db. db) track_id later db =
            rw (e, resolve_stream_url) (rw f refl) in
          subst (Fine client track_id now later given db) (sym same) (
            fetched-Fine client track_id now later given db h (λ row g.
              subst (λ r. r.stream_url_expires ≤ now + refresh_buffer) (some_inj.0 (sym e ∙ g))
                (ground (arith, f))))
    ]
  ]

  clean-IsLast :
      (now : Datetime) (given : Given) (db : Db)
      → IsLast given db
      → IsLast given (cleanup_expired_tracks table now db)
  unfolding cleanup_expired_tracks
  clean-IsLast now given db h track_id row e = elim (Option-cases (find track_id db)) [
    | inl f ↦ absurd (cc (rw f at (sym (table.find-delete _ db track_id) ∙ e)))
    | inr (there, f) ↦ elim (Bool-cases (ltb there.stream_url_expires now)) [
      | inl g ↦ absurd (cc (rw g at (rw f at (sym (table.find-delete _ db track_id) ∙ e))))
      | inr g ↦ h track_id row (f ∙ rw g at (rw f at (sym (table.find-delete _ db track_id) ∙ e)))
    ]
  ]

  -- Each answer of a sequence of uses, from one state of the table to the next.
  abbrev pub AllHonest : List Use → Given → Db → Type 0
  AllHonest [] given db = Unit
  AllHonest (resolve client track_id now later ∷ uses) given db =
      let (answer, db') = resolve_alone client track_id now later db in
      Honest client track_id now later given db answer
      × AllHonest uses (and_answer track_id answer given) db'
  AllHonest (clean now ∷ uses) given db = AllHonest uses given (cleanup_expired_tracks table now db)

  -- Over any sequence of resolutions and clean-ups by one session, with a client that may answer
  -- otherwise each time, and from a table that holds no URL but the last one given for its track: each
  -- answer is either that last URL with its own expiry, more than two minutes ahead, or what the client
  -- and the expiry in its link give at that moment, an exception included; and the client is the
  -- source only when the table has no URL of the track that is valid for more than two minutes.
  pub provider-AllHonest :
      (uses : List Use) (given : Given) (db : Db) → IsLast given db → AllHonest uses given db
  provider-AllHonest [] given db h = tt
  provider-AllHonest (resolve client track_id now later ∷ uses) given db h =
      let (honest, last) = resolve-Fine client track_id now later given db h in
      (honest, provider-AllHonest uses _ (resolve_alone client track_id now later db).1 last)
  provider-AllHonest (clean now ∷ uses) given db h =
      provider-AllHonest uses given (cleanup_expired_tracks table now db)
        (clean-IsLast now given db h)
