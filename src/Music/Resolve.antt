-- ===== src/Music/Resolve.antt =====
-- services/music/rules_loader.py and config_service.py: the rules of a city, and the tracks they allow.
use fm.Base.{
  ℕ, String, Bool, true, false, not, Option, none, some, List, [], ◌∷◌, map, keep, any, contains,
  Result, ok, ltb, leb, if◌then◌else◌, ◌==◌, string_eq, look_up,
}
use fm.Base.Values.{Fields, end, field}
use fm.Datetime.{Datetime}
use fm.Music.Rules.{
  Names, RulesError, DefaultPlaylistRules, CityRulesOverride, PlaylistRulesDocument,
  ResolvedCityRules, merge_rules_dict,
}

pub record TrackInfo : Type 0 where
  pub track_id : String
  pub title : String
  pub artist : String
  pub duration_sec : Option ℕ

-- `override.x if override and override.x is not None else base.x`
abbrev pub chosen : {A B : Type 0} → (A → Option B) → B → Option A → B
chosen pick base none = base
chosen pick base (some override) = elim (pick override) [ none ↦ base | some v ↦ v ]

-- The ids of an override count only when there are some.
abbrev pub ids_of_override : CityRulesOverride → Option (List String)
ids_of_override override = elim override.yandex_playlist_ids [
  | none ↦ none
  | some [] ↦ none
  | some (id ∷ ids) ↦ some (id ∷ ids)
]

unfoldable pub apply_city_override :
    String → DefaultPlaylistRules → Option CityRulesOverride → ResolvedCityRules
apply_city_override city_tag base override = record {
  city_tag = city_tag;
  yandex_playlist_ids = chosen ids_of_override base.yandex_playlist_ids override;
  max_track_duration_sec =
      chosen (λ o. o.max_track_duration_sec) base.max_track_duration_sec override;
  blocklisted_artists = chosen (λ o. o.blocklisted_artists) base.blocklisted_artists override;
}

-- The row of playlist_config counts when it has rules and is newer than the file.
unfoldable pub resolve_city_rules :
    Names
    → Datetime
    → PlaylistRulesDocument
    → String
    → Option (Fields × Datetime)
    → Result RulesError ResolvedCityRules
unfolding look_up apply_city_override merge_rules_dict
resolve_city_rules names mtime document city_tag row =
    let resolved =
      apply_city_override city_tag document.default_rules (look_up city_tag document.cities) in
    elim row [
      | none ↦ ok resolved
      | some (end, updated_at) ↦ ok resolved
      | some (field k v rest, updated_at) ↦
          if leb updated_at mtime
          then ok resolved
          else merge_rules_dict names resolved (field k v rest)
    ]

module _ (names : Names) (split_comma : String → List String) where
  open names use {strip, normalize_artist}

  unfoldable pub artist_tokens : String → List String
  unfolding keep
  artist_tokens artist =
      map normalize_artist (keep (λ part. not (strip part == "")) (split_comma artist))

  unfoldable pub is_track_allowed : ResolvedCityRules → TrackInfo → Bool
  unfolding artist_tokens any contains
  is_track_allowed rules track =
      if any (λ token. contains token rules.blocklisted_artists) (artist_tokens track.artist)
      then false
      else elim track.duration_sec [
        | none ↦ true
        | some duration ↦ not (ltb rules.max_track_duration_sec duration)
      ]

  unfoldable pub filter_tracks : ResolvedCityRules → List TrackInfo → List TrackInfo
  unfolding is_track_allowed keep
  filter_tracks rules tracks = keep (is_track_allowed rules) tracks
