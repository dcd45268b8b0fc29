-- ===== src/Music/Examples.antt =====
-- A catalogue of two tracks, and a policy file with one city.
use fm.Base.{ℕ, String, true, ◌+◌, refl, none, some, [], ◌∷◌}
use fm.Base.Int.{pos}
use fm.Base.Values.{Value, int, str, list, dict, nil, cons, end, field}
use fm.Music.Rules.{Names, PlaylistRulesDocument, ResolvedCityRules, parse_rules_document}
use fm.Music.Resolve.{TrackInfo, resolve_city_rules}
use fm.Music.Policy.{IsPolicy, resolve_city_rules-IsPolicy}
use fm.Music.Buffer.{Providers, accepted, Settings, yandex}
use fm.Music.Worker.{Progress, Job}

abbrev names_1 : Names
names_1 = record { strip = λ s. s; normalize_artist = λ s. s; is_playlist_id = λ s. true }

abbrev file_1 : Value
file_1 = dict (
    field "default"
      (dict (
        field "yandex_playlist_ids" (list (cons (str "1:2") nil))
          (field "max_track_duration_sec" (int (pos 600)) end)))
      end)

abbrev document_1 : PlaylistRulesDocument
document_1 = record {
  default_rules = record {
    yandex_playlist_ids = "1:2" ∷ [];
    max_track_duration_sec = 600;
    blocklisted_artists = [];
  };
  cities = [];
}

abbrev rules_1 : ResolvedCityRules
rules_1 = record {
  city_tag = "moscow";
  yandex_playlist_ids = "1:2" ∷ [];
  max_track_duration_sec = 300;
  blocklisted_artists = [];
}

resolve_city_rules-IsPolicy_example : IsPolicy names_1 rules_1
unfolding parse_rules_document resolve_city_rules
resolve_city_rules-IsPolicy_example =
    resolve_city_rules-IsPolicy names_1 file_1 document_1 5 "moscow"
      (some (field "max_track_duration_sec" (int (pos 300)) end, 9)) rules_1 refl refl

abbrev settings_1 : Settings
settings_1 = record { buffer_target = 2; default_duration_sec = 180 }

abbrev providers_1 : Providers
providers_1 = record {
  get_playlist_tracks = λ provider id. none;
  resolve_stream_url = λ provider id. some id;
}

abbrev track_of : String → TrackInfo
track_of id = record { track_id = id; title = "T"; artist = "A"; duration_sec = none }

abbrev job_1 : Job ℕ
job_1 = record {
  city_tag = "moscow";
  rules = rules_1;
  catalog = track_of "a" ∷ track_of "b" ∷ [];
  provider = yandex;
  deficit = 2;
  post = λ payload n. (accepted, n + 1);
}

abbrev start : Progress
start = record { added = 0; catalog_index = 1; excluded = "a" ∷ [] }
