-- ===== src/Geo/Detect.antt =====
-- services/geo/geoip.py, reverse.py and main.py: from a request to a city. The GeoIP database and
-- the class of an address are parameters.
use fm.Base.{
  ℕ, String, Bool, true, ◌&&◌, Option, none, some, List, Result, ok, err, ◌>>=◌, contains,
  if◌then◌else◌, string_eq,
}
use fm.Base.Int.{ℤ, pos, negsuc, ltb_ℤ}
use fm.Geo.Registry.{City, CityRegistry, RegistryError, get, default_city, match_name, nearest_tag}

pub record GeoIpHit : Type 0 where
  pub city_name : Option String
  pub latitude : Option ℤ
  pub longitude : Option ℤ

pub data GeoSource : Type 0 where
  geoip reverse default : GeoSource

pub record GeoCityResponse : Type 0 where
  pub city_tag : String
  pub city_name : String
  pub source : GeoSource

pub data GeoError : Type 0 where
  registry_error : RegistryError → GeoError
  invalid_coordinates : GeoError

-- What the request carries: the peer and the first part of X-Forwarded-For, stripped.
pub record Request : Type 0 where
  pub client_host : Option String
  pub forwarded_first : Option String

-- -90 ≤ lat ≤ 90 and -180 ≤ lon ≤ 180, in millionths of a degree.
unfoldable pub are_valid : ℤ → ℤ → Bool
are_valid lat lon =
    ltb_ℤ (negsuc 90_000_000) lat
    && ltb_ℤ lat (pos 90_000_001)
    && (ltb_ℤ (negsuc 180_000_000) lon && ltb_ℤ lon (pos 180_000_001))

abbrev pub response_of : City → GeoSource → GeoCityResponse
response_of city source = record {
  city_tag = city.tag;
  city_name = city.display_name;
  source = source;
}

unfoldable pub default_response : CityRegistry → Result GeoError GeoCityResponse
unfolding default_city
default_response registry = elim (default_city registry) [
  | err e ↦ err (registry_error e)
  | ok city ↦ ok (response_of city default)
]

unfoldable pub build_response : CityRegistry → String → GeoSource → Result GeoError GeoCityResponse
unfolding get default_response
build_response registry tag source = elim (get registry tag) [
  | none ↦ default_response registry
  | some city ↦ ok (response_of city source)
]

-- The answer by the tag that was found.
abbrev pub respond : CityRegistry → GeoSource → Option String → Result GeoError GeoCityResponse
respond registry source none = default_response registry
respond registry source (some tag) = build_response registry tag source

module _ (is_private : String → Bool) where
  unfoldable pub trusts_forwarded_headers : String → List String → Bool
  unfolding contains
  trusts_forwarded_headers peer trusted_proxies =
      if contains peer trusted_proxies then true else is_private peer

  abbrev pub peer_of : Request → String
  peer_of request = elim request.client_host [ none ↦ "127.0.0.1" | some host ↦ host ]

  unfoldable pub get_client_ip : Request → List String → String
  unfolding trusts_forwarded_headers
  get_client_ip request trusted_proxies =
      if trusts_forwarded_headers (peer_of request) trusted_proxies
      then elim request.forwarded_first [ none ↦ peer_of request | some address ↦ address ]
      else peer_of request

module _ (normalize_name : String → String) (haversine : ℤ → ℤ → ℤ → ℤ → ℕ) where
  unfoldable pub resolve_city_tag : CityRegistry → Option GeoIpHit → Option String
  unfolding match_name nearest_tag
  resolve_city_tag registry none = none
  resolve_city_tag registry (some hit) = elim (match_name normalize_name registry hit.city_name) [
    | some tag ↦ some tag
    | none ↦ elim hit.latitude [
      | none ↦ none
      | some lat ↦ elim hit.longitude [
        | none ↦ none
        | some lon ↦ nearest_tag haversine lat lon registry
      ]
    ]
  ]

  unfoldable pub reverse_geocode : CityRegistry → ℤ → ℤ → Result GeoError (Option String)
  unfolding are_valid nearest_tag
  reverse_geocode registry lat lon =
      if are_valid lat lon
      then ok (nearest_tag haversine lat lon registry)
      else err invalid_coordinates

  -- `geoip` is `none` when the database is not there.
  unfoldable pub geo_detect :
      (String → Bool)
      → List String
      → Option (String → Option GeoIpHit)
      → CityRegistry
      → Request
      → Result GeoError GeoCityResponse
  unfolding get_client_ip resolve_city_tag default_response build_response
  geo_detect is_private trusted_proxies none registry request = default_response registry
  geo_detect is_private trusted_proxies (some look_up) registry request =
      respond registry geoip
        (resolve_city_tag registry (look_up (get_client_ip is_private request trusted_proxies)))

  unfoldable pub geo_reverse : CityRegistry → ℤ → ℤ → Result GeoError GeoCityResponse
  unfolding reverse_geocode default_response build_response
  geo_reverse registry lat lon = reverse_geocode registry lat lon >>= respond registry reverse
