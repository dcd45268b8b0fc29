-- ===== src/Geo/Answers.antt =====
-- What the endpoints answer.
use fm.Base.{
  String, ◌≡◌, refl, ◌∙◌, ap, Bool, Option, none, some, List, Result, ok, err, Option-cases, inl,
  inr, ℕ,
}
use fm.Base.Int.{ℤ}
use fm.Geo.Registry.{City, CityRegistry, get, default_city}
use fm.Geo.Detect.{
  GeoIpHit, GeoSource, geoip, default, GeoCityResponse, GeoError, Request, default_response,
  build_response, respond, geo_detect,
}
use fm.Geo.Names.{IsRegistry, lookup-tag}

-- The answer is an active city under its tag; when it is marked as the default it is the default city.
abbrev pub IsAnswer : CityRegistry → GeoCityResponse → Type 0
IsAnswer registry response =
    ((city : City) × (get registry response.city_tag ≡ some city)
      × (response.city_name ≡ city.display_name))
    × (response.source ≡ default → response.city_tag ≡ registry.default_tag)

abbrev pub Answers : CityRegistry → Result GeoError GeoCityResponse → Type 0
Answers registry (ok response) = IsAnswer registry response
Answers registry (err e) = ⊥

default_response-Answers :
    (registry : CityRegistry) → IsRegistry registry → Answers registry (default_response registry)
unfolding default_response default_city get
default_response-Answers registry (tagged, (city, e)) =
    let same = lookup-tag registry.default_tag registry.cities city tagged e in
    rw (e, default_response) (((city, ap (get registry) same ∙ e, refl), (λ h. same)))

build_response-Answers :
    (registry : CityRegistry) (tag : String) (source : GeoSource)
    → IsRegistry registry
    → (source ≡ default → ⊥)
    → Answers registry (build_response registry tag source)
unfolding build_response get
build_response-Answers registry tag source h active = elim (Option-cases (get registry tag)) [
  | inl e ↦ rw (e, build_response) (default_response-Answers registry h)
  | inr (city, e) ↦
      let same = lookup-tag tag registry.cities city h.0 e in
      rw (e, build_response) (((city, ap (get registry) same ∙ e, refl), (λ k. absurd (active k))))
]

respond-Answers :
    (registry : CityRegistry) (source : GeoSource) (tag : Option String)
    → IsRegistry registry
    → (source ≡ default → ⊥)
    → Answers registry (respond registry source tag)
respond-Answers registry source none h active = default_response-Answers registry h
respond-Answers registry source (some tag) h active =
    build_response-Answers registry tag source h active

module _ (normalize_name : String → String) (haversine : ℤ → ℤ → ℤ → ℤ → ℕ) where
  -- With a registry as it is read from the file, the detection answers an active city whatever the
  -- request, the address and the GeoIP database are, and marks only the default city as the default.
  pub geo_detect-Answers :
      (is_private : String → Bool) (trusted_proxies : List String)
      (database : Option (String → Option GeoIpHit)) (registry : CityRegistry) (request : Request)
      → IsRegistry registry
      → Answers registry
          (geo_detect normalize_name haversine is_private trusted_proxies database registry request)
  unfolding geo_detect
  geo_detect-Answers is_private trusted_proxies none registry request h =
      default_response-Answers registry h
  geo_detect-Answers is_private trusted_proxies (some look_up) registry request h =
      respond-Answers registry geoip _ h (λ k. cc)
