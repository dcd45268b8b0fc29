-- ===== src/Geo/Called.antt =====
-- Which names are a city's.
use fm.Base.{
  String, ◌≡◌, refl, sym, true, false, ◌||◌, Option, none, some, List, [], ◌∷◌, ◌++◌, All, any,
  Exists, find_first, ◌==◌, string_eq, string_iff, Bool-cases, ap, inl, inr, ◌⊎◌,
}
use fm.Geo.Registry.{City, CityRegistry, is_named, match_name}

module _ (normalize_name : String → String) where
  -- The normal form of the name, of the name to display, of an alias or of the tag is the text.
  abbrev pub HasName : String → City → Type 0
  HasName text city =
      (normalize_name city.name ≡ text)
      ⊎ ((normalize_name city.display_name ≡ text)
          ⊎ (Exists (λ alias. normalize_name alias ≡ text) city.aliases
              ⊎ (normalize_name city.tag ≡ text)))

  abbrev pub HasNoName : String → City → Type 0
  HasNoName text city = HasName text city → ⊥

  -- The first city that has the name, or that none has it.
  abbrev pub Matched : CityRegistry → String → Option String → Type 0
  Matched registry name none =
      All (λ entry. HasNoName (normalize_name name) entry.1) registry.cities
  Matched registry name (some tag) =
      (before after : List (String × City)) × (key : String) × (city : City) × (registry.cities
        ≡ before ++ (key, city) ∷ after)
      × (city.tag ≡ tag)
      × HasName (normalize_name name) city
      × All (λ entry. HasNoName (normalize_name name) entry.1) before

  any-alias :
      (text : String) (aliases : List String)
      → any (λ alias. normalize_name alias == text) aliases ≡ true
      → Exists (λ alias. normalize_name alias ≡ text) aliases
  unfolding any
  any-alias text [] h = absurd (cc h)
  any-alias text (alias ∷ aliases) h = elim (Bool-cases (normalize_name alias == text)) [
    | inl e ↦ inl ((string_iff (normalize_name alias) text).0 e)
    | inr e ↦ inr (any-alias text aliases (rw e at h))
  ]

  no-alias :
      (text : String) (aliases : List String)
      → any (λ alias. normalize_name alias == text) aliases ≡ false
      → Exists (λ alias. normalize_name alias ≡ text) aliases
      → ⊥
  unfolding any
  no-alias text [] h k = k
  no-alias text (alias ∷ aliases) h (inl k) =
      cc (rw ((string_iff (normalize_name alias) text).1 k) at h)
  no-alias text (alias ∷ aliases) h (inr k) = elim (Bool-cases (normalize_name alias == text)) [
    | inl e ↦ cc (rw e at h)
    | inr e ↦ no-alias text aliases (rw e at h) k
  ]

  is_named-HasName :
      (text : String) (city : City) → is_named normalize_name text city ≡ true → HasName text city
  unfolding is_named
  is_named-HasName text city h = elim (Bool-cases (normalize_name city.name == text)) [
    | inl e ↦ inl ((string_iff (normalize_name city.name) text).0 e)
    | inr e ↦ elim (Bool-cases (normalize_name city.display_name == text)) [
      | inl f ↦ inr (inl ((string_iff (normalize_name city.display_name) text).0 f))
      | inr f ↦ elim (Bool-cases (any (λ alias. normalize_name alias == text) city.aliases)) [
        | inl g ↦ inr (inr (inl (any-alias text city.aliases g)))
        | inr g ↦ inr (
            inr (
              inr (
                sym ((string_iff text (normalize_name city.tag)).0 (rw (e, f, g, is_named) at h)))))
      ]
    ]
  ]

  not_further :
      (text : String) (city : City)
      → (normalize_name city.name == text) ≡ false
      → (normalize_name city.display_name == text) ≡ false
      → (any (λ alias. normalize_name alias == text) city.aliases
          || text == normalize_name city.tag)
        ≡ false
      → ((normalize_name city.display_name ≡ text)
          ⊎ (Exists (λ alias. normalize_name alias ≡ text) city.aliases
              ⊎ (normalize_name city.tag ≡ text)))
      → ⊥
  not_further text city e f h (inl k) =
      cc (f, (string_iff (normalize_name city.display_name) text).1 k)
  not_further text city e f h (inr (inl k)) =
      elim (Bool-cases (any (λ alias. normalize_name alias == text) city.aliases)) [
        | inl g ↦ cc (rw g at h)
        | inr g ↦ no-alias text city.aliases g k
      ]
  not_further text city e f h (inr (inr k)) =
      elim (Bool-cases (any (λ alias. normalize_name alias == text) city.aliases)) [
        | inl g ↦ cc (rw g at h)
        | inr g ↦ cc (rw g at h, (string_iff text (normalize_name city.tag)).1 (sym k))
      ]

  is_named-HasNoName :
      (text : String) (city : City)
      → is_named normalize_name text city ≡ false
      → HasNoName text city
  unfolding is_named
  is_named-HasNoName text city h (inl k) =
      cc (rw ((string_iff (normalize_name city.name) text).1 k, is_named) at h)
  is_named-HasNoName text city h (inr k) = elim (Bool-cases (normalize_name city.name == text)) [
    | inl e ↦ cc (rw (e, is_named) at h)
    | inr e ↦ elim (Bool-cases (normalize_name city.display_name == text)) [
      | inl f ↦ cc (rw (e, f, is_named) at h)
      | inr f ↦ not_further text city e f (rw (e, f, is_named) at h) k
    ]
  ]

  abbrev Found : String → List (String × City) → Option (String × City) → Type 0
  Found text cities none = All (λ entry. HasNoName text entry.1) cities
  Found text cities (some entry) =
      (before after : List (String × City)) × (cities ≡ before ++ entry ∷ after)
      × HasName text entry.1
      × All (λ other. HasNoName text other.1) before

  Found-further :
      (text : String) (entry : String × City) (cities : List (String × City))
      (found : Option (String × City))
      → HasNoName text entry.1
      → Found text cities found
      → Found text (entry ∷ cities) found
  Found-further text entry cities none k h = (k, h)
  Found-further text entry cities (some other) k (before, after, same, named, others) =
      (entry ∷ before, after, ap (λ r. entry ∷ r) same, named, (k, others))

  find-Found :
      (text : String) (cities : List (String × City))
      → Found text cities (find_first (λ entry. is_named normalize_name text entry.1) cities)
  unfolding find_first
  find-Found text [] = tt
  find-Found text ((key, city) ∷ rest) = elim (Bool-cases (is_named normalize_name text city)) [
    | inl e ↦ rw (e, find_first) ([], rest, refl, is_named-HasName text city e, tt)
    | inr e ↦
        rw (e, find_first)
          (Found-further text (key, city) rest _ (is_named-HasNoName text city e)
            (find-Found text rest))
  ]

  -- A name that is not empty matches the first city of the registry that has it as its name, its name
  -- to display, an alias or its tag, all in their normal form; when no city has it, nothing matches.
  pub match_name_lem :
      (registry : CityRegistry) (name : String)
      → (name == "") ≡ false
      → Matched registry name (match_name normalize_name registry (some name))
  unfolding match_name
  match_name_lem registry name h =
      rw (h, match_name)
        (go
          (find_first (λ entry. is_named normalize_name (normalize_name name) entry.1)
            registry.cities)
          (find-Found (normalize_name name) registry.cities))
    where
      go :
          (found : Option (String × City))
          → Found (normalize_name name) registry.cities found
          → Matched registry name (elim found [ none ↦ none | some (tag, city) ↦ some city.tag ])
      go none k = k
      go (some (key, city)) (before, after, same, named, others) =
          (before, after, key, city, same, refl, named, others)
