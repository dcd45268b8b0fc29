-- ===== src/Music/Yandex.antt =====
-- services/music/yandex_provider.py and provider.py: the Yandex catalogue. The client is a third-party
-- library; it and the parsing of texts are parameters. An instant before 1970 counts as 1970.

use fm.Base.{
  ℕ, String, ◌+◌, ◌*◌, ◌/◌, Bool, Option, none, some, List, [], ◌∷◌, keep, take, Result, ok, err,
  ◌>>=◌, ltb, if◌then◌else◌, ◌==◌, string_eq,
}
use Prim.Native.String.{◌++◌}
use fm.Base.Int.{ℤ, pos, pos_part, ltb_ℤ}
use fm.Datetime.{Datetime, minute_us}
use fm.Music.Resolve.{TrackInfo}

pub record StreamUrl : Type 0 where
  pub url : String
  pub expires_at : Datetime

-- A track of the client; `none` and an empty text are missing alike.
pub record YandexTrack : Type 0 where
  pub id : String
  pub title : Option String
  pub artists : List (Option String)
  pub duration_ms : Option ℕ

pub record DownloadInfo : Type 0 where
  pub codec : Option String
  pub bitrate_in_kbps : Option ℕ
  pub direct_link : Option String

pub data ClientError : Type 0 where
  unauthorized yandex_error : ClientError

pub data ProviderError : Type 0 where
  invalid_token call_failed missing_id invalid_playlist no_variants no_link : ProviderError
  -- uncaught: a link that cannot be split, and a number that is out of the range of the platform
  malformed_link expiry_overflow : ProviderError
  -- the flush of a row that another session has deleted
  stale_data : ProviderError

pub record Client : Type 0 where
  pub search : String → Result ClientError (List YandexTrack)
  -- the tracks of a playlist, unwrapped from their short forms
  pub users_playlists : ℕ → ℕ → Result ClientError (List YandexTrack)
  pub tracks_download_info : String → Result ClientError (List DownloadInfo)
  pub tracks : List String → Result ClientError (List YandexTrack)

-- An instant, or one of the two exceptions of a number that is out of range.
pub data Stamp : Type 0 where
  instant : Datetime → Stamp
  value_error overflow_error : Stamp

pub record Texts : Type 0 where
  -- the two numbers of `<uid>:<kind>` in a text without blanks around it
  pub match_playlist : String → Option (ℕ × ℕ)
  -- `parse_qs(urlparse(url).query)`, by the first value of a key; `none` for a URL that cannot be split
  pub parse_query : String → Option (String → Option String)
  -- `int(text)`
  pub parse_int : String → Option ℤ
  -- `datetime.fromtimestamp(raw, tz=UTC)`
  pub fromtimestamp : ℤ → Stamp

-- Both `except` clauses.
abbrev pub unavailable : {A : Type 0} → Result ClientError A → Result ProviderError A
unavailable (ok a) = ok a
unavailable (err unauthorized) = err invalid_token
unavailable (err yandex_error) = err call_failed

-- `value or default`
abbrev pub known : String → Option String → String
known fallback none = fallback
known fallback (some value) = if value == "" then fallback else value

-- `", ".join(…)` of the names that are not empty
unfoldable pub artist_names : List (Option String) → String
artist_names [] = ""
artist_names (artist ∷ artists) =
    let rest = artist_names artists in
    let name = known "" artist in
    if name == "" then rest else if rest == "" then name else name ++ ", " ++ rest

abbrev pub duration_sec : Option ℕ → Option ℕ
duration_sec none = none
duration_sec (some ms) = some (ms / 1000)

unfoldable pub track_info : YandexTrack → Result ProviderError TrackInfo
unfolding artist_names
track_info track =
    if track.id == ""
    then err missing_id
    else ok (record {
      track_id = track.id;
      title = known "Unknown" track.title;
      artist = known "Unknown" (some (artist_names track.artists));
      duration_sec = duration_sec track.duration_ms;
    })

unfoldable pub track_infos : List YandexTrack → Result ProviderError (List TrackInfo)
unfolding track_info
track_infos [] = ok []
track_infos (track ∷ tracks) = do
  info ← track_info track
  infos ← track_infos tracks
  ok (info ∷ infos)

abbrev pub bitrate : DownloadInfo → ℕ
bitrate info = elim info.bitrate_in_kbps [ none ↦ 0 | some kbps ↦ kbps ]

-- `max(…, key=…)`: the first of the greatest.
unfoldable pub best : DownloadInfo → List DownloadInfo → DownloadInfo
best info [] = info
best info (next ∷ rest) = best (if ltb (bitrate info) (bitrate next) then next else info) rest

abbrev pub is_mp3 : DownloadInfo → Bool
is_mp3 info = known "" info.codec == "mp3"

-- `mp3_variants or download_info`
abbrev pub candidates : List DownloadInfo → List DownloadInfo → List DownloadInfo
candidates [] all = all
candidates (info ∷ infos) all = info ∷ infos

abbrev pub best_of : List DownloadInfo → Result ProviderError DownloadInfo
best_of [] = err no_variants
best_of (info ∷ infos) = ok (best info infos)

unfoldable pub pick_download_info : List DownloadInfo → Result ProviderError DownloadInfo
unfolding keep best
pick_download_info infos = best_of (candidates (keep is_mp3 infos) infos)

abbrev pub refresh_buffer : ℕ
refresh_buffer = 2 * minute_us

module _ (texts : Texts) where
  -- Milliseconds when the number is too great for seconds.
  abbrev pub in_seconds : ℤ → ℤ
  in_seconds raw = if ltb_ℤ (pos 10_000_000_000) raw then pos (pos_part raw / 1000) else raw

  abbrev pub stamp_of : Option ℤ → Stamp
  stamp_of none = value_error
  stamp_of (some raw) = texts.fromtimestamp (in_seconds raw)

  -- Without a known expiry the URL is good for as long as the buffer.
  unfoldable pub expiry_at :
      (String → Option String) → List String → Datetime → Result ProviderError Datetime
  expiry_at query [] now = ok (now + refresh_buffer)
  expiry_at query (key ∷ keys) now =
      let further = expiry_at query keys now in
      elim (query key) [
        | none ↦ further
        | some value ↦ elim (stamp_of (texts.parse_int value)) [
          | instant t ↦ ok t
          | value_error ↦ further
          | overflow_error ↦ err expiry_overflow
        ]
      ]

  unfoldable pub expiry_from_url : String → Datetime → Result ProviderError Datetime
  unfolding expiry_at
  expiry_from_url url now = elim (texts.parse_query url) [
    | none ↦ err malformed_link
    | some query ↦ expiry_at query ("expires" ∷ "ts" ∷ "et" ∷ []) now
  ]

  module _ (client : Client) where
    unfoldable pub search : String → ℕ → Result ProviderError (List TrackInfo)
    unfolding track_infos
    search query limit = do
      results ← unavailable (client.search query)
      track_infos (take limit results)

    unfoldable pub get_playlist_tracks : String → Result ProviderError (List TrackInfo)
    unfolding track_infos
    get_playlist_tracks playlist_id = elim (texts.match_playlist playlist_id) [
      | none ↦ err invalid_playlist
      | some (uid, kind) ↦ unavailable (client.users_playlists kind uid) >>= track_infos
    ]

    -- The link of a track and what the client has on it.
    abbrev pub Resolved : Type 0
    Resolved = String × List YandexTrack

    abbrev pub first_info : List YandexTrack → Result ProviderError (String × String)
    first_info [] = ok ("Unknown", "Unknown")
    first_info (track ∷ tracks) = track_info track >>= (λ info. ok (info.title, info.artist))

    abbrev pub link_of : DownloadInfo → Result ProviderError String
    link_of info =
        if known "" info.direct_link == "" then err no_link else ok (known "" info.direct_link)

    unfoldable pub ask : String → Result ProviderError Resolved
    unfolding pick_download_info track_info
    ask track_id = do
      infos ← unavailable (client.tracks_download_info track_id)
      tracks ← unavailable (client.tracks (track_id ∷ []))
      variant ← pick_download_info infos
      link ← link_of variant
      ok (link, tracks)
