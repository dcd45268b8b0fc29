-- ===== src/Geo/Places.antt =====
-- What the reverse lookup answers for a place.
use fm.Base.{
  ℕ, suc, String, ◌≡◌, ◌≤◌, refl, ◌∙◌, sym, ap, subst, true, false, Option, none, some, List, [],
  ◌∷◌, Exists, Result, ok, err, arith, Bool-cases, inl, inr, ◌==◌, string_iff, string_eq,
}
use fm.Base.Int.{ℤ, pos, negsuc}
use fm.Geo.Registry.{City, CityRegistry, get, lookup, nearest_tag, default_city}
use fm.Geo.Detect.{
  GeoCityResponse, GeoError, invalid_coordinates, registry_error, GeoSource, geoip, reverse,
  default, are_valid, geo_reverse, reverse_geocode, respond, build_response, default_response,
}
use fm.Geo.Names.{IsRegistry, Nearest, At, nearest_tag_lem, lookup-tag}
use fm.Geo.Answers.{IsAnswer}

-- The distance from 0.
abbrev pub magnitude : ℤ → ℕ
magnitude (pos n) = n
magnitude (negsuc n) = suc n

-- A latitude of at most 90 degrees and a longitude of at most 180, in millionths of a degree.
abbrev pub OnGlobe : ℤ → ℤ → Type 0
OnGlobe lat lon = (magnitude lat ≤ 90_000_000) × (magnitude lon ≤ 180_000_000)

are_valid-OnGlobe : (lat lon : ℤ) → are_valid lat lon ≡ true → OnGlobe lat lon
unfolding are_valid
are_valid-OnGlobe lat lon h = ground arith

OnGlobe-are_valid : (lat lon : ℤ) → are_valid lat lon ≡ false → OnGlobe lat lon → ⊥
unfolding are_valid
OnGlobe-are_valid lat lon h (a, b) = ground arith

module _ (haversine : ℤ → ℤ → ℤ → ℤ → ℕ) (lat lon : ℤ) where
  -- The city that was chosen: the nearest one, or the default one when no city has a position.
  abbrev pub IsChosen : CityRegistry → GeoCityResponse → GeoSource → Type 0
  IsChosen registry response geoip = ⊥
  IsChosen registry response reverse = Nearest haversine lat lon registry (some response.city_tag)
  IsChosen registry response default =
      (response.city_tag ≡ registry.default_tag) × Nearest haversine lat lon registry none

  abbrev pub Located : CityRegistry → Result GeoError GeoCityResponse → Type 0
  Located registry (ok response) =
      OnGlobe lat lon × IsAnswer registry response × IsChosen registry response response.source
  Located registry (err invalid_coordinates) = OnGlobe lat lon → ⊥
  Located registry (err (registry_error e)) = ⊥

  lookup-At :
      (tag : String) (d : ℕ) (cities : List (String × City))
      → Exists (At haversine lat lon tag d) cities
      → (city : City) × (lookup tag cities ≡ some city)
  unfolding lookup
  lookup-At tag d [] h = absurd h
  lookup-At tag d ((t, c) ∷ rest) h = elim (Bool-cases (t == tag)) [
    | inl e ↦ rw (e, lookup) (c, refl)
    | inr e ↦ elim h [
      | inl (same, k) ↦ absurd (cc (e, (string_iff t tag).1 same))
      | inr k ↦ rw (e, lookup) (lookup-At tag d rest k)
    ]
  ]

  respond-Located :
      (registry : CityRegistry) (tag : Option String)
      → IsRegistry registry
      → OnGlobe lat lon
      → Nearest haversine lat lon registry tag
      → Located registry (respond registry reverse tag)
  unfolding default_response default_city build_response get
  respond-Located registry none (tagged, (city, e)) place near =
      let same = lookup-tag registry.default_tag registry.cities city tagged e in
      rw (e, default_response)
        (place, ((city, ap (get registry) same ∙ e, refl), (λ h. same)), (same, near))
  respond-Located registry (some tag) (tagged, k) place (d, (found, away)) =
      let (city, e) = lookup-At tag d registry.cities found in
      let same = lookup-tag tag registry.cities city tagged e in
      rw (e, build_response)
        (
          place,
          ((city, ap (get registry) same ∙ e, refl), (λ h. absurd (cc h))),
          subst (λ t. Nearest haversine lat lon registry (some t)) (sym same) (d, (found, away)),
        )

  -- With a registry as it is read from the file, the reverse lookup answers an active city for a place
  -- on the globe: the nearest one, marked so, or the default one, marked so, when no city of the
  -- registry has a position. It refuses a place exactly when the latitude exceeds 90 degrees or the
  -- longitude 180, to either side.
  pub geo_reverse-Located :
      (normalize_name : String → String) (registry : CityRegistry)
      → IsRegistry registry
      → Located registry (geo_reverse normalize_name haversine registry lat lon)
  unfolding geo_reverse reverse_geocode
  geo_reverse-Located normalize_name registry h = elim (Bool-cases (are_valid lat lon)) [
    | inl e ↦
        rw (e, geo_reverse)
          (respond-Located registry (nearest_tag haversine lat lon registry) h
            (are_valid-OnGlobe lat lon e) (nearest_tag_lem haversine lat lon registry))
    | inr e ↦ rw (e, geo_reverse) (OnGlobe-are_valid lat lon e)
  ]
