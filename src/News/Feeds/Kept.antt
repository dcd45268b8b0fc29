-- ===== src/News/Feeds/Kept.antt =====
-- What a fetch cycle leaves in the table.
use fm.Base.{
  ℕ, String, ◌+◌, ◌<◌, ◌≡◌, refl, sym, ◌∙◌, ap, subst, ◌⊎◌, some, List, [], ◌∷◌, ◌++◌, length, keep,
  All, All-imp, Exists, Result, ok, err, length-append, count_if, count_if-append, Result-cases,
  inl, inr, arith, Bool, true, false, Option, none,
}
use mathlib.Core.List.{append_assoc, append-nil}
use Prim.Native.String.{count}
use fm.Table.{Table}
use fm.News.Items.{NewsItem, new_item}
use fm.News.Ingest.{
  normalize_url, normalize_content, content_hash, IngestResult, created, skipped_url, skipped_hash,
  skipped_conflict, skipped_empty_body,
}
use fm.News.Ingest.Once.{fetched_as, Settled, Ingests, ingest_article-Ingests}
use fm.News.Feeds.{
  Fetcher, FetchStats, FetchedEntry, NewsSource, no_fetches, record_ingest, resolve_entry_body,
  fetch_feed, with_result, ingest_entry, ingest_entries, process_source, process_sources,
  fetch_once,
}

abbrev pub articles : FetchStats → ℕ
articles stats =
    stats.created + stats.skipped_url + stats.skipped_hash + stats.skipped_conflict
    + stats.skipped_empty_body

Exists-append : {A : Type 0} (P : A → Type 0) (xs ys : List A) → Exists P xs → Exists P (xs ++ ys)
Exists-append P [] ys h = absurd h
Exists-append P (x ∷ xs) ys (inl h) = inl h
Exists-append P (x ∷ xs) ys (inr h) = inr (Exists-append P xs ys h)

Exists-imp :
    {A : Type 0} (P Q : A → Type 0) (xs : List A)
    → ((x : A) → P x → Q x)
    → Exists P xs
    → Exists Q xs
Exists-imp P Q [] f h = absurd h
Exists-imp P Q (x ∷ xs) f (inl h) = inl (f x h)
Exists-imp P Q (x ∷ xs) f (inr h) = inr (Exists-imp P Q xs f h)

Exists-last : {A : Type 0} (P : A → Type 0) (xs : List A) (x : A) → P x → Exists P (xs ++ x ∷ [])
Exists-last P [] x h = inl h
Exists-last P (y ∷ xs) x h = inr (Exists-last P xs x h)

All-append : {A : Type 0} (P : A → Type 0) (xs ys : List A) → All P xs → All P ys → All P (xs ++ ys)
All-append P [] ys h k = k
All-append P (x ∷ xs) ys (h, hs) k = (h, All-append P xs ys hs k)

module _ (fetcher : Fetcher) (table : Table (λ (item : NewsItem). item.id)) where
  open table use {Db, rows}

  -- A row stands for an entry: it has its normal URL, or the hash of its text.
  abbrev pub Stands : String → FetchedEntry → NewsItem → Type 0
  Stands url entry row =
      (row.source_url ≡ url)
      ⊎ ((hash : String) × (content_hash fetcher.tools (resolve_entry_body fetcher entry)
            ≡ some hash)
          × (row.content_hash ≡ some hash))

  abbrev pub KeptAs : List NewsItem → FetchedEntry → Option String → Type 0
  KeptAs rs entry none = Unit
  KeptAs rs entry (some url) =
      (url ≡ "")
      ⊎ ((count (normalize_content fetcher.tools (resolve_entry_body fetcher entry)) < 30)
          ⊎ Exists (Stands url entry) rs)

  -- Nothing of an entry is lost that has a URL and a text.
  abbrev pub IsKept : List NewsItem → FetchedEntry → Type 0
  IsKept rs entry = KeptAs rs entry (normalize_url fetcher.tools entry.source_url)

  -- The URL of the entry cannot be split.
  abbrev pub is_malformed : FetchedEntry → Bool
  is_malformed entry = elim (normalize_url fetcher.tools entry.source_url) [
    | none ↦ true
    | some url ↦ false
  ]

  pub record Grows (entries : List FetchedEntry) (errors : ℕ) (from to : FetchStats × Db)
      : Type 0 where
    pub added : List NewsItem
    pub appended : rows to.1 ≡ rows from.1 ++ added
    pub counted : to.0.created ≡ from.0.created + length added
    pub total :
        articles to.0 + to.0.entry_errors ≡ articles from.0 + from.0.entry_errors + length entries
    pub raised : to.0.entry_errors ≡ from.0.entry_errors + count_if is_malformed entries
    pub no_conflict : to.0.skipped_conflict ≡ from.0.skipped_conflict
    pub failing : to.0.source_errors ≡ from.0.source_errors + errors
    pub kept : All (IsKept (rows to.1)) entries

  KeptAs-append :
      (rs more : List NewsItem) (entry : FetchedEntry) (url : Option String)
      → KeptAs rs entry url
      → KeptAs (rs ++ more) entry url
  KeptAs-append rs more entry none h = tt
  KeptAs-append rs more entry (some url) (inl h) = inl h
  KeptAs-append rs more entry (some url) (inr (inl h)) = inr (inl h)
  KeptAs-append rs more entry (some url) (inr (inr h)) =
      inr (inr (Exists-append (Stands url entry) rs more h))

  Grows-refl : (state : FetchStats × Db) → Grows [] 0 state state
  Grows-refl state = record {
    added = [];
    appended = sym (append-nil (rows state.1));
    counted = omega arith;
    total = omega arith;
    raised = unfold count_if in omega arith;
    no_conflict = refl;
    failing = omega arith;
    kept = tt;
  }

  Grows-trans :
      (es fs : List FetchedEntry) (m n : ℕ) (a b c : FetchStats × Db)
      → Grows es m a b
      → Grows fs n b c
      → Grows (es ++ fs) (m + n) a c
  Grows-trans es fs m n a b c g h = record {
    added = g.added ++ h.added;
    appended =
        h.appended ∙ ap (λ rs. rs ++ h.added) g.appended ∙ append_assoc (rows a.1) g.added h.added;
    counted = omega (arith, g.counted, h.counted, length-append g.added h.added);
    total = omega (arith, g.total, h.total, length-append es fs);
    raised = omega (arith, g.raised, h.raised, count_if-append is_malformed es fs);
    no_conflict = h.no_conflict ∙ g.no_conflict;
    failing = omega (arith, g.failing, h.failing);
    kept =
        All-append (IsKept (rows c.1)) es fs
          (All-imp (IsKept (rows b.1)) (IsKept (rows c.1)) es
            (λ entry k.
              subst (λ rs. IsKept rs entry) (sym h.appended)
                (KeptAs-append (rows b.1) h.added entry
                  (normalize_url fetcher.tools entry.source_url) k))
            g.kept)
          h.kept;
  }

  -- An entry that leaves the table as it was.
  unchanged :
      (entry : FetchedEntry) (from to : FetchStats × Db)
      → to.1 ≡ from.1
      → to.0.created ≡ from.0.created
      → articles to.0 + to.0.entry_errors ≡ articles from.0 + from.0.entry_errors + 1
      → to.0.entry_errors ≡ from.0.entry_errors + count_if is_malformed (entry ∷ [])
      → to.0.skipped_conflict ≡ from.0.skipped_conflict
      → to.0.source_errors ≡ from.0.source_errors
      → IsKept (rows from.1) entry
      → Grows (entry ∷ []) 0 from to
  unchanged entry from to same h k r l m n = record {
    added = [];
    appended = ap rows same ∙ sym (append-nil (rows from.1));
    counted = omega (arith, h);
    total = omega (arith, k);
    raised = r;
    no_conflict = l;
    failing = omega (arith, m);
    kept = (subst (λ db. IsKept (rows db) entry) (sym same) n, tt);
  }

  well_formed :
      (entry : FetchedEntry) (url : String)
      → normalize_url fetcher.tools entry.source_url ≡ some url
      → count_if is_malformed (entry ∷ []) ≡ 0
  unfolding count_if
  well_formed entry url e = rw (e, is_malformed) refl

  malformed :
      (entry : FetchedEntry)
      → normalize_url fetcher.tools entry.source_url ≡ none
      → count_if is_malformed (entry ∷ []) ≡ 1
  unfolding count_if
  malformed entry e = rw (e, is_malformed) refl

  -- An entry with a URL, by what becomes of it.
  Settled-Grows :
      (entry : FetchedEntry) (stats : FetchStats) (db : Db) (url : String) (p : IngestResult × Db)
      → normalize_url fetcher.tools entry.source_url ≡ some url
      → Settled table fetcher.tools url (resolve_entry_body fetcher entry) db p
      → Grows (entry ∷ []) 0 (stats, db) (with_result fetcher table stats (some p.0, p.1))
  unfolding record_ingest
  Settled-Grows entry stats db url (created, db') e (h, k, l, m) = record {
    added =
        new_item table (fetched_as fetcher.tools url (resolve_entry_body fetcher entry)) db ∷ [];
    appended = h;
    counted = omega arith;
    total = omega arith;
    raised = omega (arith, well_formed entry url e);
    no_conflict = refl;
    failing = omega arith;
    kept = (
      subst (KeptAs (rows db') entry) (sym e) (
          inr (
            inr (
              subst (Exists (Stands url entry)) (sym h)
                (Exists-last (Stands url entry) (rows db) _ (inl refl))))),
      tt,
    );
  }
  Settled-Grows entry stats db url (skipped_url, db') e (h, inl k) =
      unchanged entry _ _ h refl (omega arith) (omega (arith, well_formed entry url e)) refl refl
        (subst (KeptAs (rows db) entry) (sym e) (inl k))
  Settled-Grows entry stats db url (skipped_url, db') e (h, inr k) =
      unchanged entry _ _ h refl (omega arith) (omega (arith, well_formed entry url e)) refl refl (
        subst (KeptAs (rows db) entry) (sym e)
          (inr (inr (Exists-imp _ (Stands url entry) (rows db) (λ row f. inl f) k))))
  Settled-Grows entry stats db url (skipped_hash, db') e (h, (hash, at, k)) =
      unchanged entry _ _ h refl (omega arith) (omega (arith, well_formed entry url e)) refl refl (
        subst (KeptAs (rows db) entry) (sym e)
          (inr (inr (Exists-imp _ (Stands url entry) (rows db) (λ row f. inr (hash, at, f)) k))))
  Settled-Grows entry stats db url (skipped_conflict, db') e h = absurd h
  Settled-Grows entry stats db url (skipped_empty_body, db') e (h, k) =
      unchanged entry _ _ h refl (omega arith) (omega (arith, well_formed entry url e)) refl refl
        (subst (KeptAs (rows db) entry) (sym e) (inr (inl k)))

  with_result-Grows :
      (entry : FetchedEntry) (stats : FetchStats) (db : Db) (p : Option IngestResult × Db)
      → Ingests table fetcher.tools entry.source_url (resolve_entry_body fetcher entry) db p
      → Grows (entry ∷ []) 0 (stats, db) (with_result fetcher table stats p)
  with_result-Grows entry stats db (none, db') (e, h) =
      unchanged entry _ _ h refl (omega arith) (omega (arith, malformed entry e)) refl refl
        (subst (KeptAs (rows db) entry) (sym e) tt)
  with_result-Grows entry stats db (some result, db') (url, e, h) =
      Settled-Grows entry stats db url (result, db') e h

  ingest_entry-Grows :
      (entry : FetchedEntry) (state : FetchStats × Db)
      → Grows (entry ∷ []) 0 state (ingest_entry fetcher table entry state)
  unfolding ingest_entry
  ingest_entry-Grows entry (stats, db) = with_result-Grows entry stats db _ (
      ingest_article-Ingests table fetcher.tools entry.source_url (resolve_entry_body fetcher entry)
        db)

  ingest_entries-Grows :
      (entries : List FetchedEntry) (state : FetchStats × Db)
      → Grows entries 0 state (ingest_entries fetcher table entries state)
  unfolding ingest_entries
  ingest_entries-Grows [] state = Grows-refl state
  ingest_entries-Grows (entry ∷ entries) state =
      Grows-trans (entry ∷ []) entries 0 0 state (ingest_entry fetcher table entry state) _
        (ingest_entry-Grows entry state)
        (ingest_entries-Grows entries (ingest_entry fetcher table entry state))

  -- The entries of the feeds that can be read, and the number of those that cannot.
  abbrev pub entries_of : Result String (List FetchedEntry) → List FetchedEntry
  entries_of (ok entries) = entries
  entries_of (err e) = []

  abbrev pub errors_of : Result String (List FetchedEntry) → ℕ
  errors_of (ok entries) = 0
  errors_of (err e) = 1

  abbrev pub all_entries : List NewsSource → List FetchedEntry
  all_entries [] = []
  all_entries (source ∷ sources) = entries_of (fetch_feed fetcher source.url) ++ all_entries sources

  abbrev pub all_errors : List NewsSource → ℕ
  all_errors [] = 0
  all_errors (source ∷ sources) = errors_of (fetch_feed fetcher source.url) + all_errors sources

  process_source-Grows :
      (source : NewsSource) (state : FetchStats × Db)
      → Grows
          (entries_of (fetch_feed fetcher source.url))
          (errors_of (fetch_feed fetcher source.url))
          state
          (process_source fetcher table source state)
  unfolding process_source
  process_source-Grows source (stats, db) = elim (Result-cases (fetch_feed fetcher source.url)) [
    | inl (entries, e) ↦ rw (e, process_source) (ingest_entries-Grows entries (stats, db))
    | inr (exc, e) ↦
        rw (e, process_source)
          (record {
            added = [];
            appended = sym (append-nil (rows db));
            counted = omega arith;
            total = omega arith;
            raised = unfold count_if in omega arith;
            no_conflict = refl;
            failing = refl;
            kept = tt;
          })
  ]

  process_sources-Grows :
      (sources : List NewsSource) (state : FetchStats × Db)
      → Grows
          (all_entries sources)
          (all_errors sources)
          state
          (process_sources fetcher table sources state)
  unfolding process_sources
  process_sources-Grows [] state = Grows-refl state
  process_sources-Grows (source ∷ sources) state =
      Grows-trans _ (all_entries sources) _ (all_errors sources) state
        (process_source fetcher table source state) _ (process_source-Grows source state)
        (process_sources-Grows sources (process_source fetcher table source state))

  -- A fetch cycle only adds rows at the end of the table, as many as it counts as created. It counts
  -- each entry of the enabled feeds that can be read once, as an error exactly when its URL cannot be
  -- split, and each feed that cannot be read; the database never refuses a row; and every other entry
  -- with a URL and a text of thirty characters or more has a row with its URL or its hash afterwards.
  pub fetch_once-Grows :
      (sources : List NewsSource) (db : Db)
      → Grows
          (all_entries (keep (λ source. source.enabled) sources))
          (all_errors (keep (λ source. source.enabled) sources))
          (no_fetches, db)
          (fetch_once fetcher table sources db)
  unfolding fetch_once
  fetch_once-Grows sources db =
      process_sources-Grows (keep (λ source. source.enabled) sources) (no_fetches, db)
