-- ===== src/News/Feeds/Examples.antt =====
-- A feed with a new article, its repetition, one without a text and one whose URL cannot be split;
-- and a feed that cannot be read.
use fm.Base.{
  String, ◌≡◌, refl, true, false, none, some, List, [], ◌∷◌, keep, ok, err, if◌then◌else◌, ◌==◌,
  string_eq,
}
use fm.Base.Values.{Fields, field, str, end}
use fm.Table.{listed}
use fm.News.Items.{NewsItem}
use fm.News.Ingest.{TextTools, ingest_article}
use fm.News.Ingest.Once.{Ingests, ingest_article-Ingests}
use fm.News.Feeds.{Fetcher, NewsSource, no_fetches, fetch_once}
use fm.News.Feeds.Kept.{Grows, all_entries, all_errors, fetch_once-Grows}

abbrev tools_1 : TextTools
tools_1 = record {
  strip = λ text. text;
  lower = λ text. text;
  collapse = λ text. text;
  sha256 = λ text. text;
  urlparse = λ text.
      if text == "http://[b"
      then none
      else some (record {
        scheme = if text == "odd" then "http" else "";
        netloc = if text == "odd" then "b" else "";
        path = text;
        params = "";
        query = "";
        fragment = "";
      });
  urlunparse = λ url. "http://[b";
  parse_qsl = λ query. [];
  urlencode = λ pairs. "";
}

abbrev entry_with : String → String → Fields
entry_with link summary = field "link" (str link) (field "summary" (str summary) end)

abbrev fetcher_1 : Fetcher
fetcher_1 = record {
  tools = tools_1;
  feed = λ url.
      if url == "https://a.example/rss"
      then ok (record {
        bozo = false;
        entries =
            entry_with "https://a.example/1" "An article of thirty characters or more"
            ∷ entry_with "https://a.example/1" "Another text that has thirty characters"
            ∷ entry_with "https://a.example/2" "short"
            ∷ entry_with "odd" "A third text, whose URL cannot be split"
            ∷ [];
      })
      else err "unreachable";
  article = λ url. err "unreachable";
  main_text = λ html. html;
}

abbrev sources_1 : List NewsSource
sources_1 =
    record { id = "a"; name = "A"; url = "https://a.example/rss"; enabled = true; weight = 1 }
    ∷ record { id = "b"; name = "B"; url = "https://b.example/rss"; enabled = true; weight = 1 }
    ∷ []

fetch_once-Grows_example :
    Grows fetcher_1
      (listed (λ (item : NewsItem). item.id))
      (all_entries fetcher_1
        (listed (λ (item : NewsItem). item.id))
        (keep (λ source. source.enabled) sources_1))
      (all_errors fetcher_1
        (listed (λ (item : NewsItem). item.id))
        (keep (λ source. source.enabled) sources_1))
      (no_fetches, [])
      (fetch_once fetcher_1 (listed (λ item. item.id)) sources_1 [])
fetch_once-Grows_example =
    fetch_once-Grows fetcher_1 (listed (λ (item : NewsItem). item.id)) sources_1 []

counts_1 :
    (fetch_once fetcher_1 (listed (λ (item : NewsItem). item.id)) sources_1 []).0
    ≡ record no_fetches {
      created = 1;
      skipped_url = 1;
      skipped_empty_body = 1;
      entry_errors = 1;
      source_errors = 1;
    }
unfolding fetch_once
counts_1 = refl

ingest_article-Ingests_example :
    Ingests
      (listed (λ (item : NewsItem). item.id))
      tools_1
      "https://a.example/1"
      "An article of thirty characters or more"
      []
      (ingest_article tools_1
        (listed (λ item. item.id))
        "https://a.example/1"
        "An article of thirty characters or more"
        [])
ingest_article-Ingests_example =
    ingest_article-Ingests (listed (λ (item : NewsItem). item.id)) tools_1 "https://a.example/1"
      "An article of thirty characters or more" []
