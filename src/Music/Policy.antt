-- ===== src/Music/Policy.antt =====
-- Every policy that is put together from checked parts is a usable one.
use fm.Base.{
  String, ◌≤◌, ◌≡◌, subst, Option, none, some, List, [], ◌∷◌, All, ok, bind-ok, ok_inj, Bool-cases,
  Option-cases, inl, inr, arith, leb, ◌==◌, string_eq, put, look_up,
}
use fm.Base.Values.{
  Value, Fields, null, bool, int, str, list, dict, nil, end, field, get_field, get_or,
}
use fm.Datetime.{Datetime}
use fm.Music.Rules.{
  Names, DefaultPlaylistRules, CityRulesOverride, PlaylistRulesDocument, ResolvedCityRules,
  optional, replaced, validate_playlist_ids, validate_max_duration, validate_blocklist,
  parse_default_rules, parse_city_override, parse_cities, cities_of, parse_mapping,
  parse_rules_document, merge_rules_dict,
}
use fm.Music.Resolve.{apply_city_override, resolve_city_rules}
use fm.Music.Checks.{
  AreIds, Checked, validate_playlist_ids-AreIds, validate_max_duration-positive, replaced-holds,
  optional-Checked,
}

module _ (names : Names) where
  open names use {strip, is_playlist_id}

  abbrev pub IsOverride : CityRulesOverride → Type 0
  IsOverride override =
      Checked names (AreIds names) override.yandex_playlist_ids
      × Checked names (λ n. 1 ≤ n) override.max_track_duration_sec

  abbrev pub IsDocument : PlaylistRulesDocument → Type 0
  IsDocument document =
      AreIds names document.default_rules.yandex_playlist_ids
      × (1 ≤ document.default_rules.max_track_duration_sec)
      × All (λ entry. IsOverride entry.1) document.cities

  -- A policy with playlists, all of them well-formed ids, and a positive limit on the duration.
  abbrev pub IsPolicy : ResolvedCityRules → Type 0
  IsPolicy rules = AreIds names rules.yandex_playlist_ids × (1 ≤ rules.max_track_duration_sec)

  put-All :
      (tag : String) (override : CityRulesOverride) (cities : List (String × CityRulesOverride))
      → IsOverride override
      → All (λ entry. IsOverride entry.1) cities
      → All (λ entry. IsOverride entry.1) (put tag override cities)
  unfolding put
  put-All tag override [] h hs = (h, tt)
  put-All tag override ((t, o) ∷ rest) h (k, ks) = elim (Bool-cases (t == tag)) [
    | inl e ↦ rw e (h, ks)
    | inr e ↦ rw e (k, put-All tag override rest h ks)
  ]

  look_up-Checked :
      (tag : String) (cities : List (String × CityRulesOverride))
      → All (λ entry. IsOverride entry.1) cities
      → Checked names IsOverride (look_up tag cities)
  unfolding look_up
  look_up-Checked tag [] h = tt
  look_up-Checked tag ((t, o) ∷ rest) (k, ks) = elim (Bool-cases (t == tag)) [
    | inl e ↦ rw e k
    | inr e ↦ rw e (look_up-Checked tag rest ks)
  ]

  parse_city_override-IsOverride :
      (raw : Fields) (override : CityRulesOverride)
      → parse_city_override names raw ≡ ok override
      → IsOverride override
  unfolding parse_city_override
  parse_city_override-IsOverride raw override h =
      let (ids, a, h1) =
        bind-ok (optional (validate_playlist_ids names) (get_field "yandex_playlist_ids" raw)) _
          override h in
      let (max_sec, b, h2) =
        bind-ok (optional (validate_max_duration names) (get_field "max_track_duration_sec" raw)) _
          override h1 in
      let (artists, c, h3) =
        bind-ok (optional (validate_blocklist names) (get_field "blocklisted_artists" raw)) _
          override h2 in
      subst IsOverride (ok_inj h3) (
        optional-Checked names (AreIds names) (validate_playlist_ids names)
            (validate_playlist_ids-AreIds names) _ ids a,
        optional-Checked names (λ n. 1 ≤ n) (validate_max_duration names)
            (validate_max_duration-positive names) _ max_sec b,
      )

  parse_cities-All :
      (raw : Fields) (so_far parsed : List (String × CityRulesOverride))
      → All (λ entry. IsOverride entry.1) so_far
      → parse_cities names raw so_far ≡ ok parsed
      → All (λ entry. IsOverride entry.1) parsed
  unfolding parse_cities
  parse_cities-All end so_far parsed k h = subst (All (λ entry. IsOverride entry.1)) (ok_inj h) k
  parse_cities-All (field tag (dict raw) rest) so_far parsed k h =
      elim (Bool-cases (strip tag == "")) [
        | inl e ↦ absurd (cc (rw e at h))
        | inr e ↦
            let (override, a, b) = bind-ok (parse_city_override names raw) _ parsed (rw e at h) in
            parse_cities-All rest (put (strip tag) override so_far) parsed
              (put-All (strip tag) override so_far (parse_city_override-IsOverride raw override a)
                k)
              b
      ]
  parse_cities-All (field tag null rest) so_far parsed k h = absurd (ground (arith, h))
  parse_cities-All (field tag (bool b) rest) so_far parsed k h = absurd (ground (arith, h))
  parse_cities-All (field tag (int n) rest) so_far parsed k h = absurd (ground (arith, h))
  parse_cities-All (field tag (str s) rest) so_far parsed k h = absurd (ground (arith, h))
  parse_cities-All (field tag (list vs) rest) so_far parsed k h = absurd (ground (arith, h))

  parse_default_rules-checked :
      (raw : Fields) (rules : DefaultPlaylistRules)
      → parse_default_rules names raw ≡ ok rules
      → AreIds names rules.yandex_playlist_ids × (1 ≤ rules.max_track_duration_sec)
  unfolding parse_default_rules
  parse_default_rules-checked raw rules h =
      let (ids, a, h1) =
        bind-ok (validate_playlist_ids names (get_or null "yandex_playlist_ids" raw)) _ rules h in
      let (max_sec, b, h2) =
        bind-ok (validate_max_duration names (get_or null "max_track_duration_sec" raw)) _ rules
          h1 in
      let (artists, c, h3) =
        bind-ok (validate_blocklist names (get_or (list nil) "blocklisted_artists" raw)) _ rules
          h2 in
      subst
        (λ (r : DefaultPlaylistRules).
          AreIds names r.yandex_playlist_ids × (1 ≤ r.max_track_duration_sec))
        (ok_inj h3)
        (
          validate_playlist_ids-AreIds names _ ids a,
          validate_max_duration-positive names _ max_sec b,
        )

  parse_mapping-IsDocument :
      (raw default_raw : Fields) (document : PlaylistRulesDocument)
      → parse_mapping names raw (some (dict default_raw)) ≡ ok document
      → IsDocument document
  unfolding parse_mapping
  parse_mapping-IsDocument raw default_raw document h =
      let (cities_raw, a, h1) = bind-ok (cities_of names (get_field "cities" raw)) _ document h in
      let (overrides, b, h2) = bind-ok (parse_cities names cities_raw []) _ document h1 in
      let (rules, c, h3) = bind-ok (parse_default_rules names default_raw) _ document h2 in
      let checked = parse_default_rules-checked default_raw rules c in
      subst IsDocument (ok_inj h3)
        (checked.0, checked.1, parse_cities-All cities_raw [] overrides tt b)

  resolved-IsPolicy :
      (city_tag : String) (document : PlaylistRulesDocument)
      → IsDocument document
      → (override : Option CityRulesOverride) → Checked names IsOverride override
      → IsPolicy (apply_city_override city_tag document.default_rules override)
  unfolding apply_city_override
  resolved-IsPolicy city_tag document (ids, max_sec, cities) none h = (ids, max_sec)
  resolved-IsPolicy city_tag document (ids, max_sec, cities) (some override) (h, k) = (
    elim (Option-cases override.yandex_playlist_ids) [
      | inl e ↦ rw e ids
      | inr ([], e) ↦ rw e ids
      | inr (id ∷ rest, e) ↦ rw e (rw e at h)
    ],
    elim (Option-cases override.max_track_duration_sec) [
      | inl e ↦ rw e max_sec
      | inr (n, e) ↦ rw e (rw e at k)
    ],
  )

  merge-IsPolicy :
      (base rules : ResolvedCityRules) (override : Fields)
      → IsPolicy base
      → merge_rules_dict names base override ≡ ok rules
      → IsPolicy rules
  unfolding merge_rules_dict
  merge-IsPolicy base rules override (p, q) h =
      let (ids, a, h1) =
        bind-ok
          (replaced (validate_playlist_ids names) base.yandex_playlist_ids
            (get_field "yandex_playlist_ids" override))
          _ rules h in
      let (max_sec, b, h2) =
        bind-ok
          (replaced (validate_max_duration names) base.max_track_duration_sec
            (get_field "max_track_duration_sec" override))
          _ rules h1 in
      let (artists, c, h3) =
        bind-ok
          (replaced (validate_blocklist names) base.blocklisted_artists
            (get_field "blocklisted_artists" override))
          _ rules h2 in
      subst IsPolicy (ok_inj h3) (
        replaced-holds names (AreIds names) (validate_playlist_ids names)
            (validate_playlist_ids-AreIds names) _ _ ids p a,
        replaced-holds names (λ n. 1 ≤ n) (validate_max_duration names)
            (validate_max_duration-positive names) _ _ max_sec q b,
      )

  parse_rules_document-IsDocument :
      (raw : Value) (document : PlaylistRulesDocument)
      → parse_rules_document names raw ≡ ok document
      → IsDocument document
  unfolding parse_rules_document parse_mapping
  parse_rules_document-IsDocument (dict raw) document h = go (get_field "default" raw) h
    where
      go :
          (default_raw : Option Value)
          → parse_mapping names raw default_raw ≡ ok document
          → IsDocument document
      go (some (dict default_raw)) k = parse_mapping-IsDocument raw default_raw document k
      go none k = absurd (cc k)
      go (some null) k = absurd (cc k)
      go (some (bool b)) k = absurd (cc k)
      go (some (int n)) k = absurd (cc k)
      go (some (str s)) k = absurd (cc k)
      go (some (list vs)) k = absurd (cc k)
  parse_rules_document-IsDocument null document h = absurd (cc h)
  parse_rules_document-IsDocument (bool b) document h = absurd (cc h)
  parse_rules_document-IsDocument (int n) document h = absurd (cc h)
  parse_rules_document-IsDocument (str s) document h = absurd (cc h)
  parse_rules_document-IsDocument (list vs) document h = absurd (cc h)

  -- The rules of every city, out of a file that is accepted and any row of the database that is
  -- accepted, have playlists with well-formed ids and a positive limit on the duration.
  pub resolve_city_rules-IsPolicy :
      (raw : Value) (document : PlaylistRulesDocument) (mtime : Datetime) (city_tag : String)
      (row : Option (Fields × Datetime)) (rules : ResolvedCityRules)
      → parse_rules_document names raw ≡ ok document
      → resolve_city_rules names mtime document city_tag row ≡ ok rules
      → IsPolicy rules
  unfolding resolve_city_rules
  resolve_city_rules-IsPolicy raw document mtime city_tag row rules parsed h = go row h
    where
      file_rules : ResolvedCityRules
      file_rules =
          apply_city_override city_tag document.default_rules (look_up city_tag document.cities)

      base :
          IsPolicy
            (apply_city_override city_tag document.default_rules (look_up city_tag document.cities))
      base =
          let whole = parse_rules_document-IsDocument raw document parsed in
          resolved-IsPolicy city_tag document whole _
            (look_up-Checked city_tag document.cities whole.2)

      go :
          (r : Option (Fields × Datetime))
          → resolve_city_rules names mtime document city_tag r ≡ ok rules
          → IsPolicy rules
      go none k = subst IsPolicy (ok_inj k) base
      go (some (end, updated_at)) k = subst IsPolicy (ok_inj k) base
      go (some (field j v rest, updated_at)) k = elim (Bool-cases (leb updated_at mtime)) [
        | inl e ↦ subst IsPolicy (ok_inj (rw e at k)) base
        | inr e ↦ merge-IsPolicy file_rules rules (field j v rest) base (rw e at k)
      ]
