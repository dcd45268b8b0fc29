-- ===== src/News/Ingest.antt =====
-- services/news/fetcher/normalize.py and dedup.py: an article becomes a row when it is new.
-- `urllib.parse`, `re`, `hashlib`, `str.strip` and `str.lower` are parameters.

pub mod Once
use fm.Base.{
  ℕ, String, ◌+◌, Bool, true, false, not, ◌&&◌, ◌||◌, Option, none, some, List, [], ◌∷◌, keep,
  Result, ok, err, ltb, leb, if◌then◌else◌, ◌==◌, string_eq, strip as after_prefix,
}
use Prim.Native.String.{count}
use fm.Base.Values.{Value, Values, Fields, str, list, dict, nil, cons, get_field}
use fm.Table.{Table}
use fm.News.Items.{
  NewsItem, NewsFetchInput, NewsError, create_from_fetch, get_by_source_url, get_by_content_hash,
}

pub record Url : Type 0 where
  pub scheme : String
  pub netloc : String
  pub path : String
  pub params : String
  pub query : String
  pub fragment : String

pub record TextTools : Type 0 where
  pub strip : String → String
  pub lower : String → String
  -- `_WHITESPACE_RE.sub(" ", text)`
  pub collapse : String → String
  pub sha256 : String → String
  -- `none` is its ValueError
  pub urlparse : String → Option Url
  pub urlunparse : Url → String
  pub parse_qsl : String → List (String × String)
  pub urlencode : List (String × String) → String

module _ (tools : TextTools) where
  open tools use {strip, lower, collapse, sha256, urlparse, urlunparse, parse_qsl, urlencode}

  -- `key.lower().startswith("utm_")`
  abbrev pub is_tracking : String → Bool
  is_tracking key = elim (after_prefix "utm_" (lower key)) [ none ↦ false | some rest ↦ true ]

  -- The URL that was split, put together anew.
  abbrev pub normalized : String → Url → String
  normalized trimmed parsed =
      if parsed.scheme == "" || parsed.netloc == ""
      then trimmed
      else urlunparse (record parsed {
        scheme = lower parsed.scheme;
        netloc = lower parsed.netloc;
        query = urlencode (keep (λ pair. not (is_tracking pair.0)) (parse_qsl parsed.query));
        fragment = "";
      })

  -- `none` is the ValueError of a malformed URL.
  unfoldable pub normalize_url : String → Option String
  unfolding keep after_prefix
  normalize_url url = if strip url == "" then some (strip url) else elim (urlparse (strip url)) [
    | none ↦ none
    | some parsed ↦ some (normalized (strip url) parsed)
  ]

  unfoldable pub normalize_content : String → String
  normalize_content text = collapse (strip text)

  unfoldable pub content_hash : String → Option String
  unfolding normalize_content
  content_hash text =
      let normalized = normalize_content text in
      if normalized == "" then none else some (sha256 normalized)

pub data IngestResult : Type 0 where
  created skipped_url skipped_hash skipped_conflict skipped_empty_body : IngestResult

module _ (tools : TextTools) (table : Table (λ (item : NewsItem). item.id)) where
  open table use {Db}

  abbrev pub is_there : Option NewsItem → Bool
  is_there none = false
  is_there (some item) = true

  -- `if hash_value is not None: …`
  abbrev pub has_hash : Option String → Db → Bool
  has_hash none db = false
  has_hash (some hash) db = is_there (get_by_content_hash table hash db)

  -- The commit, or the rollback after an IntegrityError.
  abbrev pub inserted : Db → Result NewsError NewsItem × Db → IngestResult × Db
  inserted before (ok item, db) = (created, db)
  inserted before (err e, db) = (skipped_conflict, before)

  -- What follows the normal form of the URL.
  unfoldable pub ingest_url : String → String → Db → IngestResult × Db
  unfolding normalize_content content_hash get_by_source_url get_by_content_hash create_from_fetch
  ingest_url url body_text db =
      let hash = content_hash tools body_text in
      if url == ""
      then (skipped_url, db)
      else if ltb (count (normalize_content tools body_text)) 30
      then (skipped_empty_body, db)
      else if is_there (get_by_source_url table url db)
      then (skipped_url, db)
      else if has_hash hash db
      then (skipped_hash, db)
      else inserted db
          (create_from_fetch table (record { source_url = url; content_hash = hash }) db)

  -- `none` is the exception of a URL that cannot be split.
  unfoldable pub ingest_article : String → String → Db → Option IngestResult × Db
  unfolding normalize_url ingest_url
  ingest_article source_url body_text db = elim (normalize_url tools source_url) [
    | none ↦ (none, db)
    | some url ↦ (some (ingest_url url body_text db).0, (ingest_url url body_text db).1)
  ]
