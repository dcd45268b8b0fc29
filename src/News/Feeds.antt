-- ===== src/News/Feeds.antt =====
-- services/news/fetcher/rss.py and workers/fetch_cron.py: the articles of the feeds. feedparser,
-- BeautifulSoup and the exchanges over HTTP are parameters. What raises is a feed, or a URL that cannot
-- be split; an exception of the database is left out.
pub mod Kept
mod Examples
use fm.Base.{
  ℕ, String, ◌+◌, Bool, true, false, not, ◌&&◌, Option, none, some, List, [], ◌∷◌, keep, Result, ok,
  err, leb, if◌then◌else◌, ◌==◌, string_eq,
}
use Prim.Native.String.{count}
use fm.Base.Values.{Value, Values, Fields, str, list, dict, nil, cons, get_field}
use fm.Table.{Table}
use fm.News.Items.{NewsItem}
use fm.News.Ingest.{TextTools, normalize_url, normalize_content, IngestResult, ingest_article}

pub record FetchedEntry : Type 0 where
  pub source_url : String
  pub title : String
  pub snippet : String

-- What feedparser makes of a feed.
pub record Parsed : Type 0 where
  pub bozo : Bool
  pub entries : List Fields

pub record Fetcher : Type 0 where
  pub tools : TextTools
  -- the GET of a feed with feedparser, and of an article; `err` is an exception
  pub feed : String → Result String Parsed
  pub article : String → Result String String
  -- the text that BeautifulSoup finds
  pub main_text : String → String

pub record FetchStats : Type 0 where
  pub created : ℕ
  pub skipped_url : ℕ
  pub skipped_hash : ℕ
  pub skipped_conflict : ℕ
  pub skipped_empty_body : ℕ
  pub entry_errors : ℕ
  pub source_errors : ℕ

unfoldable pub record_ingest : IngestResult → FetchStats → FetchStats
record_ingest IngestResult.created stats = record stats { created = stats.created + 1 }
record_ingest IngestResult.skipped_url stats = record stats { skipped_url = stats.skipped_url + 1 }
record_ingest IngestResult.skipped_hash stats = record stats {
  skipped_hash = stats.skipped_hash + 1;
}
record_ingest IngestResult.skipped_conflict stats = record stats {
  skipped_conflict = stats.skipped_conflict + 1;
}
record_ingest IngestResult.skipped_empty_body stats = record stats {
  skipped_empty_body = stats.skipped_empty_body + 1;
}

abbrev pub no_fetches : FetchStats
no_fetches = record {
  created = 0;
  skipped_url = 0;
  skipped_hash = 0;
  skipped_conflict = 0;
  skipped_empty_body = 0;
  entry_errors = 0;
  source_errors = 0;
}

pub record NewsSource : Type 0 where
  pub id : String
  pub name : String
  pub url : String
  pub enabled : Bool
  pub weight : ℕ

module _ (fetcher : Fetcher) where
  open fetcher use {tools, feed, article, main_text}

  -- A text that is not blank, stripped.
  abbrev pub stripped : Option Value → Option String
  stripped (some (str text)) =
      let trimmed = tools.strip text in if trimmed == "" then none else some trimmed
  stripped _ = none

  -- The first `href` of `links`.
  unfoldable pub first_href : Values → Option String
  unfolding get_field
  first_href nil = none
  first_href (cons (dict item) items) =
      let rest = first_href items in
      elim (stripped (get_field "href" item)) [ some link ↦ some link | none ↦ rest ]
  first_href (cons item items) = first_href items

  abbrev pub links_of : Option Value → Values
  links_of (some (list items)) = items
  links_of _ = nil

  unfoldable pub entry_link : Fields → Option String
  unfolding get_field first_href
  entry_link entry = elim (stripped (get_field "link" entry)) [
    | some link ↦ some link
    | none ↦ first_href (links_of (get_field "links" entry))
  ]

  unfoldable pub extract_article_text : String → String
  unfolding normalize_content
  extract_article_text html = normalize_content tools (main_text html)

  -- A text that is not blank, as it is.
  abbrev pub not_blank : Option Value → Option String
  not_blank (some (str text)) = if tools.strip text == "" then none else some text
  not_blank _ = none

  -- The text under one of the keys: the `value` of the first of a list, or a text.
  unfoldable pub text_under : Option Value → Option String
  unfolding get_field
  text_under (some (list (cons (dict first) rest))) = not_blank (get_field "value" first)
  text_under value = not_blank value

  abbrev pub first_text : Option String → Option String → Option String
  first_text (some text) other = some text
  first_text none other = other

  unfoldable pub entry_snippet : Fields → String
  unfolding get_field text_under extract_article_text
  entry_snippet entry =
      elim (first_text (text_under (get_field "content" entry)) (
        first_text (text_under (get_field "summary" entry))
          (text_under (get_field "description" entry)))) [
            | none ↦ ""
            | some html ↦ extract_article_text html
          ]

  abbrev pub entry_title : Option Value → String
  entry_title (some (str title)) = tools.strip title
  entry_title _ = ""

  abbrev pub with_entry : FetchedEntry → Option (List FetchedEntry) → Option (List FetchedEntry)
  with_entry entry none = none
  with_entry entry (some entries) = some (entry ∷ entries)

  -- `none` is the exception of a link that cannot be split.
  unfoldable pub parse_entries : List Fields → Option (List FetchedEntry)
  unfolding entry_link entry_snippet normalize_url get_field
  parse_entries [] = some []
  parse_entries (entry ∷ entries) =
      let rest = parse_entries entries in
      elim (entry_link entry) [
        | none ↦ rest
        | some link ↦ elim (normalize_url tools link) [
          | none ↦ none
          | some url ↦
              with_entry
                (record {
                  source_url = url;
                  title = entry_title (get_field "title" entry);
                  snippet = entry_snippet entry;
                })
                rest
        ]
      ]

  abbrev pub no_entries : List Fields → Bool
  no_entries [] = true
  no_entries (entry ∷ entries) = false

  unfoldable pub fetch_feed : String → Result String (List FetchedEntry)
  unfolding parse_entries
  fetch_feed url = elim (feed url) [
    | err e ↦ err e
    | ok parsed ↦
        if parsed.bozo && no_entries parsed.entries
        then err "malformed RSS"
        else elim (parse_entries parsed.entries) [
          | none ↦ err "malformed URL"
          | some entries ↦ ok entries
        ]
  ]

  unfoldable pub resolve_entry_body : FetchedEntry → String
  unfolding extract_article_text
  resolve_entry_body entry =
      if leb 500 (count entry.snippet) then entry.snippet else elim (article entry.source_url) [
        | ok html ↦ extract_article_text html
        | err e ↦ entry.snippet
      ]

module _ (fetcher : Fetcher) (table : Table (λ (item : NewsItem). item.id)) where
  open table use {Db}

  -- The statistics behind the `try` of an entry.
  abbrev pub with_result : FetchStats → Option IngestResult × Db → FetchStats × Db
  with_result stats (some result, db) = (record_ingest result stats, db)
  with_result stats (none, db) = (record stats { entry_errors = stats.entry_errors + 1 }, db)

  unfoldable pub ingest_entry : FetchedEntry → FetchStats × Db → FetchStats × Db
  unfolding resolve_entry_body ingest_article record_ingest
  ingest_entry entry (stats, db) =
      with_result stats
        (ingest_article fetcher.tools table entry.source_url (resolve_entry_body fetcher entry) db)

  unfoldable pub ingest_entries : List FetchedEntry → FetchStats × Db → FetchStats × Db
  unfolding ingest_entry
  ingest_entries [] state = state
  ingest_entries (entry ∷ entries) state = ingest_entries entries (ingest_entry entry state)

  unfoldable pub process_source : NewsSource → FetchStats × Db → FetchStats × Db
  unfolding fetch_feed ingest_entries
  process_source source (stats, db) = elim (fetch_feed fetcher source.url) [
    | err e ↦ (record stats { source_errors = stats.source_errors + 1 }, db)
    | ok entries ↦ ingest_entries entries (stats, db)
  ]

  unfoldable pub process_sources : List NewsSource → FetchStats × Db → FetchStats × Db
  unfolding process_source
  process_sources [] state = state
  process_sources (source ∷ sources) state = process_sources sources (process_source source state)

  unfoldable pub fetch_once : List NewsSource → Db → FetchStats × Db
  unfolding process_sources keep
  fetch_once sources db = process_sources (keep (λ source. source.enabled) sources) (no_fetches, db)
