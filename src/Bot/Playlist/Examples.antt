-- ===== src/Bot/Playlist/Examples.antt =====
-- An admin gives one city a playlist.
use fm.Base.{String, ◌≡◌, refl, true, Option, none, some, [], ◌∷◌, arith, string_eq}
use fm.Keyed.{by_key}
use fm.Bot.Auth.{Access}
use fm.Music.Rules.{Names, PlaylistRulesDocument}
use fm.Bot.Playlist.{PlaylistConfig, updated, playlist_command}
use fm.Bot.Playlist.Policy.{Takes, playlist_command-Takes}

abbrev names_1 : Names
names_1 = record { strip = λ s. s; normalize_artist = λ s. s; is_playlist_id = λ s. true }

abbrev access_1 : Access
access_1 = record { operators = none; admins = some (7 ∷ []); open_access = true }

abbrev document_1 : PlaylistRulesDocument
document_1 = record {
  default_rules = record {
    yandex_playlist_ids = "1:2" ∷ [];
    max_track_duration_sec = 600;
    blocklisted_artists = [];
  };
  cities = [];
}

abbrev empty : String → Option PlaylistConfig
empty tag = none

playlist_command-Takes_example :
    Takes names_1
      (by_key (λ (row : PlaylistConfig). row.city_tag))
      access_1
      7
      5
      document_1
      "msk"
      empty
      (playlist_command names_1
        (by_key (λ (row : PlaylistConfig). row.city_tag))
        access_1
        7
        ("3:4" ∷ [])
        "msk"
        9
        empty)
playlist_command-Takes_example =
    playlist_command-Takes names_1 (by_key (λ (row : PlaylistConfig). row.city_tag)) (λ text. refl)
      access_1 7 ("3:4" ∷ []) "msk" 5 9 document_1 empty (omega arith)

updated_1 :
    (playlist_command names_1
      (by_key (λ (row : PlaylistConfig). row.city_tag))
      access_1
      7
      ("3:4" ∷ [])
      "msk"
      9
      empty).0
    ≡ updated "3:4"
unfolding playlist_command
updated_1 = refl
