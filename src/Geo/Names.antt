-- ===== src/Geo/Names.antt =====
-- What a search of the registry finds.
use fm.Base.{
  ℕ, String, ◌≡◌, ◌≤◌, refl, sym, ◌∙◌, ap, subst, true, false, Option, none, some, List, [], ◌∷◌,
  All, Exists, arith, ◌==◌, string_eq, Bool-cases, Option-cases, inl, inr, string_iff, ok, ok_inj,
  ◌⊎◌,
}
use mathlib.Core.Option.{some_inj}
use fm.Base.Int.{ℤ}
use fm.Geo.Registry.{
  City, CityEntry, CityRegistry, parse_city_entry, put, lookup, collect, get, load_registry,
  distance_to, beats, search_nearest, nearest_tag,
}

-- Every city stands under its own tag.
abbrev pub IsTagged : List (String × City) → Type 0
IsTagged cities = All (λ entry. entry.1.tag ≡ entry.0) cities

abbrev pub IsRegistry : CityRegistry → Type 0
IsRegistry registry =
    IsTagged registry.cities × ((city : City) × (get registry registry.default_tag ≡ some city))

pub lookup-tag :
    (tag : String) (cities : List (String × City)) (city : City)
    → IsTagged cities
    → lookup tag cities ≡ some city
    → city.tag ≡ tag
unfolding lookup
lookup-tag tag [] city h e = absurd (cc e)
lookup-tag tag ((t, c) ∷ rest) city (h, hs) e = elim (Bool-cases (t == tag)) [
  | inl same ↦ cc (h, (string_iff t tag).0 same, some_inj.0 (rw same at e))
  | inr other ↦ lookup-tag tag rest city hs (rw other at e)
]

put-IsTagged :
    (tag : String) (city : City) (cities : List (String × City))
    → city.tag ≡ tag
    → IsTagged cities
    → IsTagged (put tag city cities)
unfolding put
put-IsTagged tag city [] h k = (h, tt)
put-IsTagged tag city ((t, c) ∷ rest) h (k, ks) = elim (Bool-cases (t == tag)) [
  | inl same ↦ rw same (cc (h, (string_iff t tag).0 same), ks)
  | inr other ↦ rw other (k, put-IsTagged tag city rest h ks)
]

collect-IsTagged :
    (entries : List CityEntry) (cities : List (String × City))
    → IsTagged cities
    → IsTagged (collect entries cities)
unfolding collect parse_city_entry
collect-IsTagged [] cities h = h
collect-IsTagged (entry ∷ entries) cities h =
    collect-IsTagged entries _ (put-IsTagged entry.tag (parse_city_entry entry) cities refl h)

-- The cities that are read stand under their tags, and the default city is among them.
pub load_registry-IsRegistry :
    (entries : List CityEntry) (default_tag : String) (registry : CityRegistry)
    → load_registry entries default_tag ≡ ok registry
    → IsRegistry registry
unfolding load_registry get
load_registry-IsRegistry entries default_tag registry h =
    elim (Option-cases (lookup default_tag (collect entries []))) [
      | inl e ↦ absurd (cc (rw (e, load_registry) at h))
      | inr (city, e) ↦
          subst IsRegistry (ok_inj (rw (e, load_registry) at h))
            (collect-IsTagged entries [] tt, (city, e))
    ]

beats-le :
    (n : ℕ) (best : Option (String × ℕ)) (u : String) (e : ℕ)
    → beats n best ≡ true
    → best ≡ some (u, e)
    → n ≤ e
beats-le n none u e h k = absurd (cc k)
beats-le n (some (t, d)) u e h k = ground (arith, h, ap (λ y. y.1) (some_inj.0 k))

beats-ge : (n : ℕ) (t : String) (e : ℕ) → beats n (some (t, e)) ≡ false → e ≤ n
beats-ge n t e h = ground (arith, h)

module _ (haversine : ℤ → ℤ → ℤ → ℤ → ℕ) (lat lon : ℤ) where
  abbrev pub Away : ℕ → String × City → Type 0
  Away d entry = (e : ℕ) → distance_to haversine lat lon entry.1 ≡ some e → d ≤ e

  abbrev pub At : String → ℕ → String × City → Type 0
  At tag d entry = (entry.0 ≡ tag) × (distance_to haversine lat lon entry.1 ≡ some d)

  -- The result of a search that goes on from the best city so far.
  abbrev Found : List (String × City) → Option (String × ℕ) → Option (String × ℕ) → Type 0
  Found cities best none =
      (best ≡ none) × All (λ entry. distance_to haversine lat lon entry.1 ≡ none) cities
  Found cities best (some (tag, d)) =
      ((best ≡ some (tag, d)) ⊎ Exists (At tag d) cities)
      × ((t : String) (e : ℕ) → best ≡ some (t, e) → d ≤ e)
      × All (Away d) cities

  Found-skip :
      (tag : String) (city : City) (rest : List (String × City)) (best r : Option (String × ℕ))
      → distance_to haversine lat lon city ≡ none
      → Found rest best r
      → Found ((tag, city) ∷ rest) best r
  Found-skip tag city rest best none h (b, a) = (b, (h, a))
  Found-skip tag city rest best (some (t, d)) h (inl b, m, a) =
      (inl b, m, ((λ e k. absurd (cc (h, k))), a))
  Found-skip tag city rest best (some (t, d)) h (inr x, m, a) =
      (inr (inr x), m, ((λ e k. absurd (cc (h, k))), a))

  Found-take :
      (tag : String) (city : City) (rest : List (String × City)) (best r : Option (String × ℕ))
      (n : ℕ)
      → distance_to haversine lat lon city ≡ some n
      → beats n best ≡ true
      → Found rest (some (tag, n)) r
      → Found ((tag, city) ∷ rest) best r
  Found-take tag city rest best none n h b (e, a) = absurd (cc e)
  Found-take tag city rest best (some (t, d)) n h b (x, m, a) = (
    elim x [
      | inl e ↦ inr (inl (ap (λ y. y.0) (some_inj.0 e), h ∙ ap some (ap (λ y. y.1) (some_inj.0 e))))
      | inr y ↦ inr (inr y)
    ],
    (λ u e k. omega (arith, beats-le n best u e b k, m tag n refl)),
    ((λ e k. omega (arith, m tag n refl, some_inj.0 (sym h ∙ k))), a),
  )

  Found-leave :
      (tag : String) (city : City) (rest : List (String × City)) (best r : Option (String × ℕ))
      (n : ℕ)
      → distance_to haversine lat lon city ≡ some n
      → beats n best ≡ false
      → Found rest best r
      → Found ((tag, city) ∷ rest) best r
  Found-leave tag city rest none r n h b f = absurd (cc b)
  Found-leave tag city rest (some (t, e)) none n h b (x, a) = absurd (cc x)
  Found-leave tag city rest (some (t, e)) (some (u, d)) n h b (x, m, a) = (
    elim x [ inl y ↦ inl y | inr y ↦ inr (inr y) ],
    m,
    ((λ k z. omega (arith, m t e refl, beats-ge n t e b, some_inj.0 (sym h ∙ z))), a),
  )

  search_nearest_lem :
      (cities : List (String × City)) (best : Option (String × ℕ))
      → Found cities best (search_nearest haversine lat lon cities best)
  unfolding search_nearest
  search_nearest_lem [] none = (refl, tt)
  search_nearest_lem [] (some (tag, d)) =
      (inl refl, (λ t e h. omega (arith, ap (λ y. y.1) (some_inj.0 h))), tt)
  search_nearest_lem ((tag, city) ∷ rest) best =
      elim (Option-cases (distance_to haversine lat lon city)) [
        | inl e ↦
            rw (e, search_nearest)
              (Found-skip tag city rest best _ e (search_nearest_lem rest best))
        | inr (n, e) ↦ elim (Bool-cases (beats n best)) [
          | inl b ↦
              rw (e, search_nearest)
                (rw b
                  (Found-take tag city rest best _ n e b (search_nearest_lem rest (some (tag, n)))))
          | inr b ↦
              rw (e, search_nearest)
                (rw b (Found-leave tag city rest best _ n e b (search_nearest_lem rest best)))
        ]
      ]

  abbrev pub Nearest : CityRegistry → Option String → Type 0
  Nearest registry none =
      All (λ entry. distance_to haversine lat lon entry.1 ≡ none) registry.cities
  Nearest registry (some tag) =
      (d : ℕ) × (Exists (At tag d) registry.cities × All (Away d) registry.cities)

  -- The city that is found has a position, and no city of the registry with a position is nearer; none
  -- is found only when no city has a position.
  pub nearest_tag_lem :
      (registry : CityRegistry) → Nearest registry (nearest_tag haversine lat lon registry)
  unfolding nearest_tag
  nearest_tag_lem registry =
      go (search_nearest haversine lat lon registry.cities none)
        (search_nearest_lem registry.cities none)
    where
      go :
          (r : Option (String × ℕ))
          → Found registry.cities none r
          → Nearest registry (elim r [ none ↦ none | some x ↦ some x.0 ])
      go none (e, a) = a
      go (some (tag, d)) (inl e, m, a) = absurd (cc e)
      go (some (tag, d)) (inr y, m, a) = (d, (y, a))
