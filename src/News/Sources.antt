-- ===== src/News/Sources.antt =====
-- services/news/sources_loader.py: the registry of the feeds, from the document that YAML reads. `strip`
-- is a parameter.
use fm.Base.{
  ℕ, suc, String, ◌+◌, Bool, true, false, Option, none, some, List, [], ◌∷◌, map, Result, ok, err,
  ◌>>=◌, ◌>>◌, raise_if, if◌then◌else◌, ◌==◌, string_eq, contains,
}
use fm.Base.Int.{pos}
use fm.Base.Values.{Value, Values, bool, int, str, list, dict, nil, cons, get_field}
use fm.News.Feeds.{NewsSource}

pub data SourcesConfigError : Type 0 where
  -- at an index of the list
  no_mapping bad_id bad_name bad_url bad_enabled bad_weight : ℕ → SourcesConfigError
  root_no_mapping bad_version bad_sources duplicate_id : SourcesConfigError

pub record SourcesRegistry : Type 0 where
  pub version : ℕ
  pub sources : List NewsSource

abbrev pub or_raise : {A : Type 0} → SourcesConfigError → Option A → Result SourcesConfigError A
or_raise e none = err e
or_raise e (some a) = ok a

abbrev pub is_bool : Option Value → Option Bool
is_bool (some (bool b)) = some b
is_bool _ = none

-- `isinstance(value, int) and value >= 0`; a bool is an int.
abbrev pub natural : Option Value → Option ℕ
natural (some (bool b)) = some (if b then 1 else 0)
natural (some (int (pos n))) = some n
natural _ = none

module _ (strip : String → String) where
  -- A text that is not blank, stripped.
  abbrev pub non_blank : Option Value → Option String
  non_blank (some (str text)) = if strip text == "" then none else some (strip text)
  non_blank _ = none

  unfoldable pub parse_source : ℕ → Value → Result SourcesConfigError NewsSource
  unfolding get_field
  parse_source index (dict raw) = do
    id ← or_raise (bad_id index) (non_blank (get_field "id" raw))
    name ← or_raise (bad_name index) (non_blank (get_field "name" raw))
    url ← or_raise (bad_url index) (non_blank (get_field "url" raw))
    enabled ← or_raise (bad_enabled index) (is_bool (get_field "enabled" raw))
    weight ← or_raise (bad_weight index) (natural (get_field "weight" raw))
    ok (record { id = id; name = name; url = url; enabled = enabled; weight = weight })
  parse_source index raw = err (no_mapping index)

  unfoldable pub parse_all : ℕ → Values → Result SourcesConfigError (List NewsSource)
  unfolding parse_source
  parse_all index nil = ok []
  parse_all index (cons raw raws) = do
    source ← parse_source index raw
    sources ← parse_all (index + 1) raws
    ok (source ∷ sources)

  abbrev pub source_ids : List NewsSource → List String
  source_ids sources = map (λ (source : NewsSource). source.id) sources

  -- `len(ids) != len(set(ids))`
  unfoldable pub has_duplicate : List String → Bool
  unfolding contains
  has_duplicate [] = false
  has_duplicate (id ∷ ids) = let rest = has_duplicate ids in if contains id ids then true else rest

  -- A non-empty list.
  abbrev pub some_items : Option Value → Option Values
  some_items (some (list (cons raw raws))) = some (cons raw raws)
  some_items _ = none

  abbrev pub positive : Option ℕ → Option ℕ
  positive (some (suc n)) = some (suc n)
  positive _ = none

  unfoldable pub parse_sources_document : Value → Result SourcesConfigError SourcesRegistry
  unfolding get_field parse_all has_duplicate
  parse_sources_document (dict raw) = do
    version ← or_raise bad_version (positive (natural (get_field "version" raw)))
    items ← or_raise bad_sources (some_items (get_field "sources" raw))
    sources ← parse_all 0 items
    raise_if (has_duplicate (source_ids sources)) duplicate_id
    ok (record { version = version; sources = sources })
  parse_sources_document raw = err root_no_mapping
