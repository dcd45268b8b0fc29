-- ===== src/Bot/Playlist.antt =====
-- services/bot/handlers/playlist.py and services/bot/storage/playlist_config.py: an admin changes the
-- playlist of a city, with the reading of the row in services/music/config_service.py. The pattern of
-- an id is the one of the policy's file; it and `strip` are parameters, as is the table. The texts of
-- the replies are left out.
pub mod Policy
mod Examples
use fm.Base.{
  ℕ, String, Bool, true, false, Option, none, some, List, [], ◌∷◌, Result, if◌then◌else◌, ◌==◌,
  string_eq,
}
use fm.Base.Values.{Fields, list, nil, cons, str, end, field}
use fm.Datetime.{Datetime}
use fm.Keyed.{Keyed}
use fm.Bot.Auth.{Access, is_admin}
use fm.Music.Rules.{Names, RulesError, PlaylistRulesDocument, ResolvedCityRules}
use fm.Music.Resolve.{resolve_city_rules}

pub record PlaylistConfig : Type 0 where
  pub city_tag : String
  pub rules_json : Fields
  pub updated_at : Datetime

pub data PlaylistReply : Type 0 where
  admin_only usage invalid_name city_all : PlaylistReply
  updated : String → PlaylistReply

module _ (names : Names) where
  open names use {strip, is_playlist_id}

  unfoldable pub parse_playlist_name : List String → Option String
  parse_playlist_name (arg ∷ []) = if is_playlist_id (strip arg) then some (strip arg) else none
  parse_playlist_name _ = none

  -- What the table keeps of an id.
  abbrev pub rules_of : String → Fields
  rules_of playlist_id = field "yandex_playlist_ids" (list (cons (str playlist_id) nil)) end

  module _ (table : Keyed (λ (row : PlaylistConfig). row.city_tag)) where
    open table use {Db, find, write}

    unfoldable pub upsert_city_playlist : String → String → Datetime → Db → Db
    upsert_city_playlist city_tag playlist_id now db =
        write (record { city_tag = city_tag; rules_json = rules_of playlist_id; updated_at = now })
          db

    abbrev pub refused_name : List String → PlaylistReply
    refused_name [] = usage
    refused_name (arg ∷ args) = invalid_name

    abbrev pub named : Option String → List String → String → Datetime → Db → PlaylistReply × Db
    named none args city_tag now db = (refused_name args, db)
    named (some playlist_id) args city_tag now db =
        if city_tag == "all"
        then (city_all, db)
        else (updated playlist_id, upsert_city_playlist city_tag playlist_id now db)

    -- `city_tag` is the operator's city.
    unfoldable pub playlist_command :
        Access → ℕ → List String → String → Datetime → Db → PlaylistReply × Db
    unfolding is_admin parse_playlist_name upsert_city_playlist
    playlist_command access user_id args city_tag now db =
        if is_admin access user_id
        then named (parse_playlist_name args) args city_tag now db
        else (admin_only, db)

    abbrev pub rules_in : Option PlaylistConfig → Option (Fields × Datetime)
    rules_in none = none
    rules_in (some row) = some (row.rules_json, row.updated_at)

    unfoldable pub get_city_rules :
        Datetime → PlaylistRulesDocument → String → Db → Result RulesError ResolvedCityRules
    unfolding resolve_city_rules
    get_city_rules mtime document city_tag db =
        resolve_city_rules names mtime document city_tag (rules_in (find city_tag db))
