-- ===== src/Geo/Listed.antt =====
-- What the registry holds of the file.
use fm.Base.{
  String, ◌≡◌, ◌≢◌, refl, sym, ◌∙◌, Option, none, some, List, [], ◌∷◌, Result, ok, err,
  if◌then◌else◌, ◌==◌, string_eq, string_iff, Bool-cases, Option-cases, inl, inr,
}
use fm.Geo.Registry.{
  City, CityEntry, CityRegistry, RegistryError, default_not_active, parse_city_entry, put, lookup,
  collect, get, load_registry,
}
use fm.Geo.Names.{IsRegistry, load_registry-IsRegistry}

-- The last entry of the file with a tag.
abbrev pub last_with : String → List CityEntry → Option CityEntry
last_with tag [] = none
last_with tag (entry ∷ entries) =
    let later = last_with tag entries in
    elim later [ some found ↦ some found | none ↦ if entry.tag == tag then some entry else none ]

-- The city of an entry, or another one where there is no entry.
abbrev pub city_of : Option City → Option CityEntry → Option City
city_of other none = other
city_of other (some entry) = some (record {
  tag = entry.tag;
  name = entry.name;
  display_name = elim entry.display_name [
    | none ↦ entry.name
    | some shown ↦ if shown == "" then entry.name else shown
  ];
  lat = entry.lat;
  lon = entry.lon;
  aliases = entry.aliases;
})

lookup-put :
    (tag : String) (city : City) (cities : List (String × City)) (k : String)
    → lookup k (put tag city cities) ≡ (if tag == k then some city else lookup k cities)
unfolding lookup put
lookup-put tag city [] k = refl
lookup-put tag city ((t, c) ∷ rest) k = elim (Bool-cases (t == tag)) [
  | inl e ↦ elim (Bool-cases (tag == k)) [
    | inl f ↦ rw e (rw ((string_iff t tag).0 e) (rw f refl))
    | inr f ↦ rw e (rw ((string_iff t tag).0 e) (rw f refl))
  ]
  | inr e ↦ elim (Bool-cases (t == k)) [
    | inl f ↦ elim (Bool-cases (tag == k)) [
      | inl g ↦
          absurd
            (cc (e, (string_iff t tag).1 ((string_iff t k).0 f ∙ sym ((string_iff tag k).0 g))))
      | inr g ↦ rw e (rw f (rw g refl))
    ]
    | inr f ↦ rw e (rw f (lookup-put tag city rest k))
  ]
]

lookup-collect :
    (entries : List CityEntry) (cities : List (String × City)) (tag : String)
    → lookup tag (collect entries cities) ≡ city_of (lookup tag cities) (last_with tag entries)
unfolding collect parse_city_entry
lookup-collect [] cities tag = refl
lookup-collect (entry ∷ entries) cities tag =
    lookup-collect entries (put entry.tag (parse_city_entry entry) cities) tag
    ∙ after (last_with tag entries)
  where
    after :
        (later : Option CityEntry)
        → city_of (lookup tag (put entry.tag (parse_city_entry entry) cities)) later
          ≡ city_of (lookup tag cities) (elim later [
            | some found ↦ some found
            | none ↦ if entry.tag == tag then some entry else none
          ])
    after (some found) = refl
    after none =
        lookup-put entry.tag (parse_city_entry entry) cities tag
        ∙ elim (Bool-cases (entry.tag == tag)) [ inl e ↦ rw e refl | inr e ↦ rw e refl ]

-- What is read of the file, or the refusal of its default city.
abbrev pub Loads : List CityEntry → String → Result RegistryError CityRegistry → Type 0
Loads entries default (err e) =
    (e ≡ default_not_active default) × (last_with default entries ≡ none)
Loads entries default (ok registry) =
    (registry.default_tag ≡ default)
    × (last_with default entries ≢ none)
    × IsRegistry registry
    × ((tag : String) → get registry tag ≡ city_of none (last_with tag entries))

-- The registry that is read holds under each tag exactly the city of the last entry of the file
-- with the tag, every city with that entry's names, aliases and position, and the entry's name
-- where it has no name to display; every city stands under its own tag. The file is refused exactly
-- when no entry has the default tag.
pub load_registry-Loads :
    (entries : List CityEntry) (default : String)
    → Loads entries default (load_registry entries default)
unfolding load_registry lookup get
load_registry-Loads entries default = elim (Option-cases (lookup default (collect entries []))) [
  | inl e ↦
      rw (e, load_registry)
        (refl, missing (last_with default entries) (sym (lookup-collect entries [] default) ∙ e))
  | inr (city, e) ↦
      rw (e, load_registry)
        (
          refl,
          there (last_with default entries) city (sym (lookup-collect entries [] default) ∙ e),
          load_registry-IsRegistry entries default _ (rw (e, load_registry) refl),
          (λ tag. lookup-collect entries [] tag),
        )
]
  where
    missing : (o : Option CityEntry) → city_of none o ≡ none → o ≡ none
    missing none h = refl
    missing (some entry) h = absurd (cc h)

    there : (o : Option CityEntry) (city : City) → city_of none o ≡ some city → o ≢ none
    there none city h k = cc h
    there (some entry) city h k = cc k
