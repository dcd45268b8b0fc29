-- ===== src/Music/Rules.antt =====
-- services/music/rules_schema.py: the policy of playlist_rules.yaml and its checks. `strip`, the
-- normal form of an artist's name and the pattern of a playlist id (a regular expression) are
-- parameters; a set of artists is a list, and the keys of a mapping are texts.
use fm.Base.{
  ℕ, zero, String, Bool, Option, none, some, List, [], ◌∷◌, Result, ok, err, ◌>>=◌, if◌then◌else◌,
  ◌==◌, string_eq, put,
}
use fm.Base.Int.{pos}
use fm.Base.Values.{
  Value, Values, Fields, null, int, str, list, dict, nil, cons, end, field, get_field, get_or,
}

pub record Names : Type 0 where
  pub strip : String → String
  pub normalize_artist : String → String
  pub is_playlist_id : String → Bool

pub data Field : Type 0 where
  playlist_ids max_duration blocklist root default_rules cities : Field
  city : String → Field

-- `PlaylistRulesError`, with the field that is wrong.
pub data RulesError : Type 0 where
  invalid : Field → RulesError

pub record DefaultPlaylistRules : Type 0 where
  pub yandex_playlist_ids : List String
  pub max_track_duration_sec : ℕ
  pub blocklisted_artists : List String

pub record CityRulesOverride : Type 0 where
  pub yandex_playlist_ids : Option (List String)
  pub max_track_duration_sec : Option ℕ
  pub blocklisted_artists : Option (List String)

pub record PlaylistRulesDocument : Type 0 where
  pub default_rules : DefaultPlaylistRules
  pub cities : List (String × CityRulesOverride)

pub record ResolvedCityRules : Type 0 where
  pub city_tag : String
  pub yandex_playlist_ids : List String
  pub max_track_duration_sec : ℕ
  pub blocklisted_artists : List String

-- A check of a value that is there; one that is not passes.
abbrev pub optional :
    {A : Type 0} → (Value → Result RulesError A) → Option Value → Result RulesError (Option A)
optional check none = ok none
optional check (some null) = ok none
optional check (some v) = check v >>= λ a. ok (some a)

abbrev pub replaced :
    {A : Type 0} → (Value → Result RulesError A) → A → Option Value → Result RulesError A
replaced check base none = ok base
replaced check base (some v) = check v

module _ (names : Names) where
  open names use {strip, normalize_artist, is_playlist_id}

  unfoldable pub validate_ids : Values → Result RulesError (List String)
  validate_ids nil = ok []
  validate_ids (cons (str item) items) =
      let rest = validate_ids items in
      if is_playlist_id (strip item)
      then rest >>= (λ ids. ok (strip item ∷ ids))
      else err (invalid playlist_ids)
  validate_ids (cons _ items) = err (invalid playlist_ids)

  unfoldable pub validate_playlist_ids : Value → Result RulesError (List String)
  unfolding validate_ids
  validate_playlist_ids (list (cons v vs)) = validate_ids (cons v vs)
  validate_playlist_ids _ = err (invalid playlist_ids)

  unfoldable pub validate_artists : Values → Result RulesError (List String)
  validate_artists nil = ok []
  validate_artists (cons (str item) items) =
      let rest = validate_artists items in
      if strip item == ""
      then err (invalid blocklist)
      else rest >>= (λ artists. ok (normalize_artist item ∷ artists))
  validate_artists (cons _ items) = err (invalid blocklist)

  unfoldable pub validate_blocklist : Value → Result RulesError (List String)
  unfolding validate_artists
  validate_blocklist null = ok []
  validate_blocklist (list items) = validate_artists items
  validate_blocklist _ = err (invalid blocklist)

  unfoldable pub validate_max_duration : Value → Result RulesError ℕ
  validate_max_duration (int (pos zero)) = err (invalid max_duration)
  validate_max_duration (int (pos n)) = ok n
  validate_max_duration _ = err (invalid max_duration)

  unfoldable pub parse_default_rules : Fields → Result RulesError DefaultPlaylistRules
  unfolding validate_playlist_ids validate_max_duration validate_blocklist get_field
  parse_default_rules raw = do
    ids ← validate_playlist_ids (get_or null "yandex_playlist_ids" raw)
    max_sec ← validate_max_duration (get_or null "max_track_duration_sec" raw)
    artists ← validate_blocklist (get_or (list nil) "blocklisted_artists" raw)
    ok (record {
      yandex_playlist_ids = ids;
      max_track_duration_sec = max_sec;
      blocklisted_artists = artists;
    })

  unfoldable pub parse_city_override : Fields → Result RulesError CityRulesOverride
  unfolding validate_playlist_ids validate_max_duration validate_blocklist get_field
  parse_city_override raw = do
    ids ← optional validate_playlist_ids (get_field "yandex_playlist_ids" raw)
    max_sec ← optional validate_max_duration (get_field "max_track_duration_sec" raw)
    artists ← optional validate_blocklist (get_field "blocklisted_artists" raw)
    ok (record {
      yandex_playlist_ids = ids;
      max_track_duration_sec = max_sec;
      blocklisted_artists = artists;
    })

  unfoldable pub parse_cities :
      Fields
      → List (String × CityRulesOverride)
      → Result RulesError (List (String × CityRulesOverride))
  unfolding parse_city_override put
  parse_cities end cities_so_far = ok cities_so_far
  parse_cities (field tag (dict raw) rest) cities_so_far =
      if strip tag == ""
      then err (invalid cities)
      else parse_city_override raw >>= λ override.
          parse_cities rest (put (strip tag) override cities_so_far)
  parse_cities (field tag _ rest) cities_so_far =
      if strip tag == "" then err (invalid cities) else err (invalid (city tag))

  unfoldable pub cities_of : Option Value → Result RulesError Fields
  cities_of none = ok end
  cities_of (some null) = ok end
  cities_of (some (dict raw)) = ok raw
  cities_of (some _) = err (invalid cities)

  -- The cities are checked before the default rules.
  unfoldable pub parse_mapping : Fields → Option Value → Result RulesError PlaylistRulesDocument
  unfolding cities_of parse_cities parse_default_rules get_field
  parse_mapping raw (some (dict default_raw)) = do
    cities_raw ← cities_of (get_field "cities" raw)
    overrides ← parse_cities cities_raw []
    rules ← parse_default_rules default_raw
    ok (record { default_rules = rules; cities = overrides })
  parse_mapping raw _ = err (invalid default_rules)

  unfoldable pub parse_rules_document : Value → Result RulesError PlaylistRulesDocument
  unfolding parse_mapping get_field
  parse_rules_document (dict raw) = parse_mapping raw (get_field "default" raw)
  parse_rules_document _ = err (invalid root)

  -- A key that is there replaces the base's value.
  unfoldable pub merge_rules_dict : ResolvedCityRules → Fields → Result RulesError ResolvedCityRules
  unfolding validate_playlist_ids validate_max_duration validate_blocklist get_field
  merge_rules_dict base override = do
    ids ←
        replaced validate_playlist_ids base.yandex_playlist_ids
          (get_field "yandex_playlist_ids" override)
    max_sec ←
        replaced validate_max_duration base.max_track_duration_sec
          (get_field "max_track_duration_sec" override)
    artists ←
        replaced validate_blocklist base.blocklisted_artists
          (get_field "blocklisted_artists" override)
    ok (record {
      city_tag = base.city_tag;
      yandex_playlist_ids = ids;
      max_track_duration_sec = max_sec;
      blocklisted_artists = artists;
    })
