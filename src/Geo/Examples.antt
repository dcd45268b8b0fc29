-- ===== src/Geo/Examples.antt =====
-- A registry of two cities.
use fm.Base.{ℕ, String, false, ◌+◌, refl, Option, none, some, [], ◌∷◌}
use fm.Base.Int.{ℤ, pos, pos_part}
use fm.Geo.Registry.{CityEntry, CityRegistry, load_registry, collect, match_name, nearest_tag}
use fm.Geo.Detect.{GeoIpHit, geo_detect, geo_reverse}
use fm.Geo.Names.{load_registry-IsRegistry, Nearest, nearest_tag_lem}
use fm.Geo.Listed.{Loads, load_registry-Loads}
use fm.Geo.Called.{Matched, match_name_lem}
use fm.Geo.Answers.{Answers, geo_detect-Answers}
use fm.Geo.Places.{Located, geo_reverse-Located}

abbrev moscow : CityEntry
moscow = record {
  tag = "moscow";
  name = "Moscow";
  display_name = some "Москва";
  lat = some (pos 55_755_800);
  lon = some (pos 37_617_300);
  aliases = "Moskva" ∷ [];
}

abbrev kazan : CityEntry
kazan = record {
  tag = "kazan";
  name = "Kazan";
  display_name = none;
  lat = none;
  lon = none;
  aliases = [];
}

abbrev registry_2 : CityRegistry
registry_2 = record { cities = collect (moscow ∷ kazan ∷ []) []; default_tag = "moscow" }

abbrev plane : ℤ → ℤ → ℤ → ℤ → ℕ
plane a b c d = pos_part a + pos_part b + pos_part c + pos_part d

abbrev hit : String → Option GeoIpHit
hit ip = some (record { city_name = some "Moskva"; latitude = none; longitude = none })

load_registry-Loads_example :
    Loads (moscow ∷ kazan ∷ []) "moscow" (load_registry (moscow ∷ kazan ∷ []) "moscow")
load_registry-Loads_example = load_registry-Loads (moscow ∷ kazan ∷ []) "moscow"

match_name_lem_example :
    Matched (λ s. s) registry_2 "Moskva" (match_name (λ s. s) registry_2 (some "Moskva"))
match_name_lem_example = match_name_lem (λ s. s) registry_2 "Moskva" refl

nearest_tag_lem_example :
    Nearest plane (pos 1) (pos 2) registry_2 (nearest_tag plane (pos 1) (pos 2) registry_2)
nearest_tag_lem_example = nearest_tag_lem plane (pos 1) (pos 2) registry_2

geo_detect-Answers_example : Answers registry_2 (
    geo_detect
      (λ s. s)
      plane
      (λ ip. false)
      []
      (some hit)
      registry_2
      (record { client_host = some "1.2.3.4"; forwarded_first = none }))
unfolding load_registry
geo_detect-Answers_example =
    geo_detect-Answers (λ s. s) plane (λ ip. false) [] (some hit) registry_2
      (record { client_host = some "1.2.3.4"; forwarded_first = none })
      (load_registry-IsRegistry (moscow ∷ kazan ∷ []) "moscow" registry_2 refl)

geo_reverse-Located_example :
    Located plane (pos 1) (pos 2) registry_2 (geo_reverse (λ s. s) plane registry_2 (pos 1) (pos 2))
unfolding load_registry
geo_reverse-Located_example =
    geo_reverse-Located plane (pos 1) (pos 2) (λ s. s) registry_2
      (load_registry-IsRegistry (moscow ∷ kazan ∷ []) "moscow" registry_2 refl)
