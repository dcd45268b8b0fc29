-- ===== src/Music/Buffer.antt =====
-- services/music/buffer_worker.py, enqueue.py and provider.py: one tick of the worker that keeps the
-- queues filled. The providers, the rules and the injector's answers are parameters; the injector
-- works on the store that the worker reads.
use fm.Base.{
  ℕ, zero, suc, String, min, Option, none, some, List, [], ◌∷◌, ◌++◌, if◌then◌else◌, ◌==◌, nat_eq,
  string_eq,
}
use Prim.Native.String.{◌++◌ as str_append}
use fm.Base.Int.{pos}
use fm.Base.Values.{Value, int, str, list, dict, end, field, get_field, is_truthy, is_text}
use fm.Music.Rules.{ResolvedCityRules}
use fm.Music.Resolve.{TrackInfo}

pub data Provider : Type 0 where
  static yandex : Provider

-- `none` is ProviderUnavailable.
pub record Providers : Type 0 where
  pub get_playlist_tracks : Provider → String → Option (List TrackInfo)
  pub resolve_stream_url : Provider → String → Option String

pub data Posted : Type 0 where
  accepted refused raised : Posted

pub record Settings : Type 0 where
  pub buffer_target : ℕ
  pub default_duration_sec : ℕ

unfoldable pub music_payload : String → String → String → String → ℕ → String → Value
music_payload uri city_tag title artist duration_sec track_id = dict (
    field "type" (str "MUSIC") (
      field "uri" (str uri) (
        field "city_tag" (str city_tag) (
          field "meta"
            (dict (
              field "title" (str title) (
                field "artist" (str artist) (
                  field "duration_sec" (int (pos duration_sec))
                    (field "track_id" (str track_id) end)))))
            end))))

-- `",".join(ids)`
unfoldable pub join_comma : List String → String
join_comma [] = ""
join_comma (id ∷ []) = id
join_comma (id ∷ next ∷ rest) = str_append id (str_append "," (join_comma (next ∷ rest)))

-- The track id of a queued item; the outer `none` is an exception.
unfoldable pub queued_id : Value → Option (Option String)
unfolding get_field is_truthy
queued_id (dict item) = elim (get_field "type" item) [
  | none ↦ some none
  | some kind ↦
      if is_text "MUSIC" kind
      then elim (get_field "meta" item) [
        | none ↦ some none
        | some (dict meta) ↦ elim (get_field "track_id" meta) [
          | some (str id) ↦ some (if id == "" then none else some id)
          | some (list vs) ↦ if is_truthy (list vs) then none else some none
          | some (dict fs) ↦ if is_truthy (dict fs) then none else some none
          | _ ↦ some none
        ]
        | some _ ↦ none
      ]
      else some none
]
queued_id _ = none

unfoldable pub queued_ids : List Value → Option (List String)
unfolding queued_id
queued_ids [] = some []
queued_ids (item ∷ items) =
    let rest = queued_ids items in
    elim (queued_id item) [
      | none ↦ none
      | some none ↦ rest
      | some (some id) ↦ elim rest [ none ↦ none | some ids ↦ some (id ∷ ids) ]
    ]

module _ (settings : Settings) (providers : Providers) where
  open providers use {get_playlist_tracks, resolve_stream_url}

  unfoldable pub track_duration : TrackInfo → ResolvedCityRules → ℕ
  track_duration track rules =
      let fallback = min settings.default_duration_sec rules.max_track_duration_sec in
      elim track.duration_sec [ none ↦ fallback | some zero ↦ fallback | some (suc n) ↦ suc n ]

  unfoldable pub resolve_track : Provider → TrackInfo → Option String
  resolve_track provider track = elim (resolve_stream_url provider track.track_id) [
    | some url ↦ some url
    | none ↦ elim provider [ static ↦ none | yandex ↦ resolve_stream_url static track.track_id ]
  ]

  unfoldable pub playlist_tracks : Provider → List String → List TrackInfo
  playlist_tracks provider [] = []
  playlist_tracks provider (id ∷ ids) =
      let rest = playlist_tracks provider ids in
      elim (get_playlist_tracks provider id) [ none ↦ rest | some tracks ↦ tracks ++ rest ]

  abbrev pub ids_for : Provider → ResolvedCityRules → List String
  ids_for static rules = "static" ∷ []
  ids_for yandex rules = rules.yandex_playlist_ids

  -- The tracks that the rules allow, and the provider that resolves them.
  unfoldable pub load_catalog_tracks :
      (ResolvedCityRules → List TrackInfo → List TrackInfo)
      → Provider
      → ResolvedCityRules
      → List TrackInfo × Provider
  unfolding playlist_tracks
  load_catalog_tracks filter_tracks provider rules =
      elim (playlist_tracks provider (ids_for provider rules)) [
        | (track ∷ tracks) ↦ (filter_tracks rules (track ∷ tracks), provider)
        | [] ↦ elim (get_playlist_tracks static "static") [
          | none ↦ ([], static)
          | some tracks ↦ (filter_tracks rules tracks, static)
        ]
      ]
