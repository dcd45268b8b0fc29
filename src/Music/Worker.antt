-- ===== src/Music/Worker.antt =====
-- services/music/buffer_worker.py: the filling of a city's queue.
use fm.Base.{
  ℕ, zero, suc, String, ◌+◌, ◌-◌, ◌*◌, ◌%◌, max, Bool, true, false, Option, none, some, List, [],
  ◌∷◌, ◌++◌, map, length, get_elem?, contains, Result, ok, err, ltb, if◌then◌else◌, ◌==◌, nat_eq,
  string_eq,
}
use fm.Base.Int.{pos}
use fm.Base.Values.{Value}
use fm.Redis.{Redis, Raw}
use fm.Injector.Queue.{count_pending_music, list_playlist_buffer}
use fm.Injector.Upkeep.{
  list_items, get_playlist_fingerprint, set_playlist_fingerprint, get_catalog_cursor,
  set_catalog_cursor, clear_playlist_buffer, remove_pending_items_by_type,
}
use fm.Music.Rules.{ResolvedCityRules}
use fm.Music.Resolve.{TrackInfo}
use fm.Music.Buffer.{
  Provider, Providers, Posted, accepted, refused, raised, Settings, music_payload, join_comma,
  queued_ids, track_duration, resolve_track, load_catalog_tracks,
}

pub record Progress : Type 0 where
  pub added : ℕ
  pub catalog_index : ℕ
  pub excluded : List String

-- Where a loop or one of its rounds ends: with its variables, or by an exception.
pub data Outcome (S : Type 0) : Type 0 where
  finished : Progress → S → Outcome S
  crashed : S → Outcome S

-- The parts of the loop that do not change: the catalogue and its provider, and what posts an item.
pub record Job (S : Type 0) : Type 0 where
  pub city_tag : String
  pub rules : ResolvedCityRules
  pub catalog : List TrackInfo
  pub provider : Provider
  pub deficit : ℕ
  pub post : Value → S → Posted × S

module _ (settings : Settings) (providers : Providers) {S : Type 0} where
  abbrev pub payload_for : Job S → TrackInfo → String → Value
  payload_for job track uri =
      music_payload uri job.city_tag track.title track.artist
        (track_duration settings providers track job.rules) track.track_id

  abbrev pub posted : TrackInfo → Progress → Posted × S → Outcome S
  posted track p (accepted, s) =
      finished (record p { added = p.added + 1; excluded = track.track_id ∷ p.excluded }) s
  posted track p (refused, s) = finished p s
  posted track p (raised, s) = crashed s

  -- One round of the `while` loop.
  unfoldable pub try_track : Job S → TrackInfo → Progress → S → Outcome S
  unfolding contains resolve_track music_payload track_duration
  try_track job track p s =
      let next = record p { catalog_index = p.catalog_index + 1 } in
      if contains track.track_id p.excluded
      then finished next s
      else elim (resolve_track settings providers job.provider track) [
        | none ↦ finished next s
        | some uri ↦ posted track next (job.post (payload_for job track uri) s)
      ]

  -- `catalog[catalog_index % len(catalog)]`
  unfoldable pub round : Job S → Progress → S → Outcome S
  unfolding try_track
  round job p s = elim (get_elem? job.catalog (p.catalog_index % length job.catalog)) [
    | none ↦ crashed s
    | some track ↦ try_track job track p s
  ]

  -- The loop, with the attempts that are left.
  unfoldable pub fill_loop : Job S → ℕ → Progress → S → Outcome S
  unfolding round
  fill_loop job zero p s = finished p s
  fill_loop job (suc attempts) p s =
      if ltb p.added job.deficit
      then elim (round job p s) [
        | crashed s' ↦ crashed s'
        | finished p' s' ↦ fill_loop job attempts p' s'
      ]
      else finished p s

abbrev pub max_attempts : ℕ → List TrackInfo → ℕ
max_attempts deficit catalog = max (deficit * length catalog) (length catalog)

module _ (redis : Redis) (raw_text : Raw → String) where
  open redis use {Store}

  -- `stored == fingerprint`
  abbrev pub same_fingerprint : Option Raw → String → Bool
  same_fingerprint none fingerprint = false
  same_fingerprint (some raw) fingerprint = raw_text raw == fingerprint

  abbrev pub is_some : Option Raw → Bool
  is_some none = false
  is_some (some raw) = true

  abbrev pub purge : String → Store → ℕ × Store
  purge city_tag s =
      let (removed, s') = remove_pending_items_by_type redis city_tag "MUSIC" s in
      (removed, set_catalog_cursor redis city_tag (pos 0) (clear_playlist_buffer redis city_tag s'))

  unfoldable pub sync_playlist_catalog : String → ResolvedCityRules → Store → ℕ × Store
  unfolding join_comma get_playlist_fingerprint set_playlist_fingerprint count_pending_music
      remove_pending_items_by_type clear_playlist_buffer set_catalog_cursor
  sync_playlist_catalog city_tag rules s =
      let fingerprint = join_comma rules.yandex_playlist_ids in
      let stored = get_playlist_fingerprint redis city_tag s in
      if same_fingerprint stored fingerprint
      then (0, s)
      else let stale =
          if is_some stored then true else ltb 0 (count_pending_music redis city_tag s) in
        let (removed, s') = if stale then purge city_tag s else (0, s) in
        (removed, set_playlist_fingerprint redis city_tag fingerprint s')

  unfoldable pub collect_excluded_track_ids : String → Store → Option (List String)
  unfolding list_playlist_buffer list_items queued_ids
  collect_excluded_track_ids city_tag s = elim (list_items redis city_tag s) [
    | none ↦ none
    | some items ↦ elim (queued_ids items) [
      | none ↦ none
      | some ids ↦ some (map raw_text (list_playlist_buffer redis city_tag s) ++ ids)
    ]
  ]

  -- The answer is the number of items added, or an exception.
  pub data FillError : Type 0 where
    fill_error : FillError

  abbrev pub after_loop : String → ℕ → Outcome Store → Result FillError ℕ × Store
  after_loop city_tag size (crashed s) = (err fill_error, s)
  after_loop city_tag size (finished p s) =
      (ok p.added, set_catalog_cursor redis city_tag (pos (p.catalog_index % size)) s)

  module _ (settings : Settings) (providers : Providers)
      (filter_tracks : ResolvedCityRules → List TrackInfo → List TrackInfo) where
    abbrev pub job_for :
        String
        → ResolvedCityRules
        → List TrackInfo × Provider
        → ℕ
        → (Value → Store → Posted × Store)
        → Job Store
    job_for city_tag rules loaded deficit post = record {
      city_tag = city_tag;
      rules = rules;
      catalog = loaded.0;
      provider = loaded.1;
      deficit = deficit;
      post = post;
    }

    -- With the rules and the provider of the session; each is `none` where it raises.
    unfoldable pub fill_city :
        Option ResolvedCityRules
        → Option Provider
        → (Value → Store → Posted × Store)
        → String
        → Store
        → Result FillError ℕ × Store
    unfolding count_pending_music sync_playlist_catalog collect_excluded_track_ids
        load_catalog_tracks fill_loop get_catalog_cursor set_catalog_cursor
    fill_city found_rules found_provider post city_tag s =
        let deficit = settings.buffer_target - count_pending_music redis city_tag s in
        if deficit == 0 then (ok 0, s) else elim found_rules [
          | none ↦ (err fill_error, s)
          | some rules ↦
              let s' = (sync_playlist_catalog city_tag rules s).1 in
              elim found_provider [
                | none ↦ (err fill_error, s')
                | some provider ↦ elim (collect_excluded_track_ids city_tag s') [
                  | none ↦ (err fill_error, s')
                  | some excluded ↦
                      let loaded =
                        load_catalog_tracks settings providers filter_tracks provider rules in
                      elim loaded.0 [
                        | [] ↦ (ok 0, s')
                        | (_ ∷ _) ↦
                            let start : Progress = record {
                              added = 0;
                              catalog_index = get_catalog_cursor redis city_tag s';
                              excluded = excluded;
                            } in
                            after_loop city_tag (length loaded.0) (
                              fill_loop settings providers
                                (job_for city_tag rules loaded deficit post)
                                (max_attempts deficit loaded.0) start s')
                      ]
                ]
              ]
        ]
