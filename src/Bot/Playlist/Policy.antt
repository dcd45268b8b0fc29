-- ===== src/Bot/Playlist/Policy.antt =====
-- What a new playlist does to the policies.
use fm.Base.{
  ℕ, String, ◌<◌, ◌≡◌, ◌≢◌, refl, sym, ◌∙◌, ap, true, false, Option, none, some, List, [], ◌∷◌, ok,
  ◌==◌, string_eq, string_iff, string_refl, leb, look_up, Bool-cases, inl, inr, arith,
}
use mathlib.Core.Option.{some_inj}
use fm.Datetime.{Datetime}
use fm.Keyed.{Keyed}
use fm.Bot.Auth.{Access, is_admin}
use fm.Music.Rules.{
  Names, PlaylistRulesDocument, ResolvedCityRules, validate_playlist_ids, merge_rules_dict,
}
use fm.Music.Resolve.{apply_city_override, resolve_city_rules}
use fm.Bot.Playlist.{
  PlaylistConfig, PlaylistReply, updated, parse_playlist_name, rules_of, named, playlist_command,
  upsert_city_playlist, rules_in, get_city_rules,
}

module _ (names : Names) (table : Keyed (λ (row : PlaylistConfig). row.city_tag)) where
  open names use {strip, is_playlist_id}
  open table use {Db, find, write}

  -- The policy of the file for a city.
  abbrev pub file_rules : PlaylistRulesDocument → String → ResolvedCityRules
  file_rules document city_tag =
      apply_city_override city_tag document.default_rules (look_up city_tag document.cities)

  -- What a command leaves: with a new playlist, the policy of the city is the file's with that playlist
  -- alone and no other city's policy changes; else the table stays.
  abbrev pub Takes :
      Access → ℕ → Datetime → PlaylistRulesDocument → String → Db → PlaylistReply × Db → Type 0
  Takes access user_id mtime document city_tag before (updated playlist_id, after) =
      (is_admin access user_id ≡ true)
      × (is_playlist_id playlist_id ≡ true)
      × (city_tag ≢ "all")
      × (get_city_rules names table mtime document city_tag after
          ≡ ok (record (file_rules document city_tag) { yandex_playlist_ids = playlist_id ∷ [] }))
      × ((other : String)
          → other ≢ city_tag
          → get_city_rules names table mtime document other after
            ≡ get_city_rules names table mtime document other before)
  Takes access user_id mtime document city_tag before (_, after) = after ≡ before

  -- The row of a city after a write.
  found :
      (city_tag id : String) (now : Datetime) (db : Db)
      → find city_tag (upsert_city_playlist names table city_tag id now db)
        ≡ some (record { city_tag = city_tag; rules_json = rules_of names id; updated_at = now })
  unfolding upsert_city_playlist
  found city_tag id now db = table.find-write _ db city_tag ∙ rw (string_refl city_tag) refl

  not_found :
      (city_tag id : String) (now : Datetime) (db : Db) (other : String)
      → other ≢ city_tag
      → find other (upsert_city_playlist names table city_tag id now db) ≡ find other db
  unfolding upsert_city_playlist
  not_found city_tag id now db other h =
      table.find-write _ db other ∙ elim (Bool-cases (city_tag == other)) [
        | inl e ↦ absurd (h (sym ((string_iff city_tag other).0 e)))
        | inr e ↦ rw e refl
      ]

  is_newer : (mtime now : Datetime) → mtime < now → leb now mtime ≡ false
  is_newer mtime now later = ground (arith, later)

  new_rules :
      (document : PlaylistRulesDocument) (mtime now : Datetime) (city_tag id : String)
      → strip id ≡ id
      → is_playlist_id id ≡ true
      → mtime < now
      → resolve_city_rules names mtime document city_tag (some (rules_of names id, now))
        ≡ ok (record (file_rules document city_tag) { yandex_playlist_ids = id ∷ [] })
  unfolding resolve_city_rules merge_rules_dict validate_playlist_ids
  new_rules document mtime now city_tag id h k later =
      rw (is_newer mtime now later, resolve_city_rules) (rw (h, resolve_city_rules) (rw k refl))

  named-Takes :
      (access : Access) (user_id : ℕ) (args : List String) (city_tag : String)
      (mtime now : Datetime) (document : PlaylistRulesDocument) (db : Db) (name : Option String)
      → is_admin access user_id ≡ true
      → mtime < now
      → ((id : String) → name ≡ some id → (strip id ≡ id) × (is_playlist_id id ≡ true))
      → Takes access user_id mtime document city_tag db
          (named names table name args city_tag now db)
  named-Takes access user_id [] city_tag mtime now document db none admin later valid = refl
  named-Takes access user_id (arg ∷ args) city_tag mtime now document db none admin later valid =
      refl
  named-Takes access user_id args city_tag mtime now document db (some id) admin later valid =
      elim (Bool-cases (city_tag == "all")) [
        | inl e ↦ rw e refl
        | inr e ↦ rw e (
          admin,
          (valid id refl).1,
          (λ f. absurd (cc (e, (string_iff city_tag "all").1 f))),
          unfold get_city_rules in
              ap (λ o. resolve_city_rules names mtime document city_tag (rules_in names table o))
                (found city_tag id now db)
              ∙ new_rules document mtime now city_tag id (valid id refl).0 (valid id refl).1 later,
          (λ other differ.
              unfold get_city_rules in
              ap (λ o. resolve_city_rules names mtime document other (rules_in names table o))
                (not_found city_tag id now db other differ)),
        )
      ]

  parsed_name :
      ((text : String) → strip (strip text) ≡ strip text)
      → (args : List String) (id : String) → parse_playlist_name names args ≡ some id
      → (strip id ≡ id) × (is_playlist_id id ≡ true)
  unfolding parse_playlist_name
  parsed_name idem (arg ∷ []) id h = elim (Bool-cases (is_playlist_id (strip arg))) [
    | inl e ↦
        let same = some_inj.0 (rw e at h) in
        (ap strip (sym same) ∙ idem arg ∙ same, ap is_playlist_id (sym same) ∙ e)
    | inr e ↦ absurd (cc (rw e at h))
  ]
  parsed_name idem [] id h = absurd (cc h)
  parsed_name idem (arg ∷ next ∷ args) id h = absurd (cc h)

  -- Stripping twice is stripping once, and the policy's file is older than the command. Then /playlist
  -- changes the table only for an admin, with one well-formed id, in a single city; the policy that the
  -- music worker next reads for this city is the file's with this playlist alone, and the policies of
  -- the other cities stay. With any other reply the table stays.
  pub playlist_command-Takes :
      ((text : String) → strip (strip text) ≡ strip text)
      → (access : Access) (user_id : ℕ) (args : List String) (city_tag : String)
        (mtime now : Datetime) (document : PlaylistRulesDocument) (db : Db)
      → mtime < now
      → Takes access user_id mtime document city_tag db
          (playlist_command names table access user_id args city_tag now db)
  unfolding playlist_command
  playlist_command-Takes idem access user_id args city_tag mtime now document db later =
      elim (Bool-cases (is_admin access user_id)) [
        | inl e ↦
            rw (e, playlist_command)
              (named-Takes access user_id args city_tag mtime now document db
                (parse_playlist_name names args) e later (parsed_name idem args))
        | inr e ↦ rw (e, playlist_command) refl
      ]
