-- ===== src/Geo/Registry.antt =====
-- services/geo/cities.py: the registry of the active cities. Coordinates are in millionths of a
-- degree; the folding of names (a regular expression and `casefold`) and the great-circle distance
-- (floating point) are parameters.
use fm.Base.{
  ℕ, String, Bool, true, ◌||◌, Option, none, some, List, [], ◌∷◌, Result, ok, err, any, find_first,
  ltb, if◌then◌else◌, ◌==◌, string_eq,
}
use fm.Base.Int.{ℤ}

pub record City : Type 0 where
  pub tag : String
  pub name : String
  pub display_name : String
  pub lat : Option ℤ
  pub lon : Option ℤ
  pub aliases : List String

-- An entry of cities.yaml.
pub record CityEntry : Type 0 where
  pub tag : String
  pub name : String
  pub display_name : Option String
  pub lat : Option ℤ
  pub lon : Option ℤ
  pub aliases : List String

-- A `dict` keeps the order in which its keys came in.
pub record CityRegistry : Type 0 where
  pub cities : List (String × City)
  pub default_tag : String

pub data RegistryError : Type 0 where
  default_not_active : String → RegistryError

unfoldable pub parse_city_entry : CityEntry → City
parse_city_entry entry = record {
  tag = entry.tag;
  name = entry.name;
  display_name = elim entry.display_name [
    | none ↦ entry.name
    | some shown ↦ if shown == "" then entry.name else shown
  ];
  lat = entry.lat;
  lon = entry.lon;
  aliases = entry.aliases;
}

-- `cities[tag] = city`
unfoldable pub put : String → City → List (String × City) → List (String × City)
put tag city [] = (tag, city) ∷ []
put tag city ((t, c) ∷ rest) =
    let others = put tag city rest in if t == tag then (t, city) ∷ rest else (t, c) ∷ others

unfoldable pub lookup : String → List (String × City) → Option City
lookup tag [] = none
lookup tag ((t, c) ∷ rest) = if t == tag then some c else lookup tag rest

unfoldable pub collect : List CityEntry → List (String × City) → List (String × City)
unfolding parse_city_entry put
collect [] cities = cities
collect (entry ∷ entries) cities = collect entries (put entry.tag (parse_city_entry entry) cities)

unfoldable pub get : CityRegistry → String → Option City
unfolding lookup
get registry tag = lookup tag registry.cities

unfoldable pub default_city : CityRegistry → Result RegistryError City
unfolding get
default_city registry = elim (get registry registry.default_tag) [
  | none ↦ err (default_not_active registry.default_tag)
  | some city ↦ ok city
]

-- `load_registry`, over the entries of the file.
unfoldable pub load_registry : List CityEntry → String → Result RegistryError CityRegistry
unfolding collect lookup
load_registry entries default = elim (lookup default (collect entries [])) [
  | none ↦ err (default_not_active default)
  | some _ ↦ ok (record { cities = collect entries []; default_tag = default })
]

module _ (normalize_name : String → String) where
  -- One of the names of the city is the text.
  unfoldable pub is_named : String → City → Bool
  unfolding any
  is_named normalized city =
      normalize_name city.name == normalized
      || normalize_name city.display_name == normalized
      || any (λ alias. normalize_name alias == normalized) city.aliases
      || normalized == normalize_name city.tag

  unfoldable pub match_name : CityRegistry → Option String → Option String
  unfolding is_named find_first
  match_name registry none = none
  match_name registry (some raw_name) =
      if raw_name == ""
      then none
      else elim (find_first (λ entry. is_named (normalize_name raw_name) entry.1) registry.cities) [
        | none ↦ none
        | some (tag, city) ↦ some city.tag
      ]

-- Whether a distance beats the best one so far.
abbrev pub beats : ℕ → Option (String × ℕ) → Bool
beats d none = true
beats d (some (tag, best)) = ltb d best

module _ (haversine : ℤ → ℤ → ℤ → ℤ → ℕ) (lat lon : ℤ) where
  unfoldable pub distance_to : City → Option ℕ
  distance_to city = elim city.lat [
    | none ↦ none
    | some city_lat ↦ elim city.lon [
      | none ↦ none
      | some city_lon ↦ some (haversine lat lon city_lat city_lon)
    ]
  ]

  unfoldable pub search_nearest : List (String × City) → Option (String × ℕ) → Option (String × ℕ)
  unfolding distance_to
  search_nearest [] best = best
  search_nearest ((tag, city) ∷ rest) best = search_nearest rest (elim (distance_to city) [
    | none ↦ best
    | some d ↦ if beats d best then some (tag, d) else best
  ])

  unfoldable pub nearest_tag : CityRegistry → Option String
  unfolding search_nearest
  nearest_tag registry = elim (search_nearest registry.cities none) [
    | none ↦ none
    | some (tag, d) ↦ some tag
  ]
