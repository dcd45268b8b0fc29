-- ===== src/Music/StreamCache/Examples.antt =====
-- A URL that is cached, used again, cleaned up and fetched anew.
use fm.Base.{String, ◌≡◌, refl, Option, none, some, List, [], ◌∷◌, ok, string_eq}
use fm.Keyed.{by_key}
use fm.Music.Yandex.{Client, Texts, value_error}
use fm.Music.StreamCache.{TrackCache, resolve_stream_url}
use fm.Music.StreamCache.Transparent.{Use, resolve, clean, IsLast, AllHonest, provider-AllHonest}

abbrev texts_1 : Texts
texts_1 = record {
  match_playlist = λ id. none;
  parse_query = λ url. some (λ key. none);
  parse_int = λ text. none;
  fromtimestamp = λ raw. value_error;
}

abbrev client_1 : Client
client_1 = record {
  search = λ query. ok [];
  users_playlists = λ kind uid. ok [];
  tracks_download_info = λ id. ok (
      record {
        codec = some "aac";
        bitrate_in_kbps = some 320;
        direct_link = some "https://c/1.aac";
      }
      ∷ record {
        codec = some "mp3";
        bitrate_in_kbps = some 192;
        direct_link = some "https://c/1.mp3";
      }
      ∷ []);
  tracks = λ ids. ok [];
}

abbrev no_rows : String → Option TrackCache
no_rows id = none

-- The client gives another link later on.
abbrev client_2 : Client
client_2 = record client_1 {
  tracks_download_info = λ id. ok (
      record {
        codec = some "mp3";
        bitrate_in_kbps = some 192;
        direct_link = some "https://c/2.mp3";
      }
      ∷ []);
}

no_rows-IsLast : IsLast texts_1 (by_key (λ (row : TrackCache). row.yandex_track_id)) [] no_rows
no_rows-IsLast id row h = absurd (cc h)

abbrev uses_1 : List Use
uses_1 =
    resolve client_1 "1" 0 5
    ∷ resolve client_2 "1" 4 7
    ∷ clean 900_000_000
    ∷ resolve client_2 "1" 900_000_000 900_000_001
    ∷ []

provider-AllHonest_example :
    AllHonest texts_1 (by_key (λ (row : TrackCache). row.yandex_track_id)) uses_1 [] no_rows
provider-AllHonest_example =
    provider-AllHonest texts_1 (by_key (λ (row : TrackCache). row.yandex_track_id)) uses_1 []
      no_rows no_rows-IsLast

first_answer :
    (resolve_stream_url texts_1 client_1
      (by_key (λ (row : TrackCache). row.yandex_track_id))
      (λ db. db)
      "1"
      0
      5
      no_rows).0
    ≡ ok (record { url = "https://c/1.mp3"; expires_at = 120_000_005 })
unfolding resolve_stream_url
first_answer = refl
