-- ===== src/News/Ingest/Once.antt =====
-- When an article becomes a row.
use fm.Base.{
  String, ◌≡◌, ◌<◌, ◌≤◌, ◌≢◌, refl, sym, ap, ◌⊎◌, true, false, Option, none, some, List, [], ◌∷◌,
  ◌++◌, All, any, find_first-none, find_first-true, find_first-Exists, Exists, ◌==◌, string_eq,
  string_iff, ltb, ltb→lt, Bool-cases, Option-cases, inl, inr, arith,
}
use Prim.Native.String.{count}
use fm.Table.{Table}
use fm.News.Items.{
  NewsItem, NewsFetchInput, new_item, same_text, clashes, create_from_fetch, get_by_source_url,
  get_by_content_hash,
}
use fm.News.Ingest.{
  TextTools, normalize_url, normalize_content, content_hash, IngestResult, created, skipped_url,
  skipped_hash, skipped_conflict, skipped_empty_body, is_there, has_hash, inserted, ingest_url,
  ingest_article,
}

abbrev pub fetched_as : TextTools → String → String → NewsFetchInput
fetched_as tools url body_text = record {
  source_url = url;
  content_hash = content_hash tools body_text;
}

module _ (table : Table (λ (item : NewsItem). item.id)) where
  open table use {Db, rows}

  same_symm : (a b : String) → (a == b) ≡ false → (b == a) ≡ false
  same_symm a b h = elim (Bool-cases (b == a)) [
    | inr e ↦ e
    | inl e ↦ absurd (cc (h, (string_iff a b).1 (sym ((string_iff b a).0 e))))
  ]

  same_text_symm : (a b : Option String) → same_text b a ≡ false → same_text a b ≡ false
  same_text_symm none b h = refl
  same_text_symm (some a) none h = refl
  same_text_symm (some a) (some b) h = same_symm b a h

  no_clash :
      (item : NewsItem) (rs : List NewsItem)
      → All (λ row. (row.source_url == item.source_url) ≡ false) rs
      → All (λ row. same_text row.content_hash item.content_hash ≡ false) rs
      → any (clashes item) rs ≡ false
  unfolding any
  no_clash item [] h k = refl
  no_clash item (row ∷ rs) (h, hs) (k, ks) =
      rw (same_symm row.source_url item.source_url h)
        (rw (same_text_symm item.content_hash row.content_hash k) (no_clash item rs hs ks))

  no_hash :
      (tools : TextTools) (hash : Option String) (db : Db)
      → has_hash tools table hash db ≡ false
      → All (λ row. same_text row.content_hash hash ≡ false) (rows db)
  unfolding get_by_content_hash
  no_hash tools none db h = none_same (rows db)
    where
      none_left : (o : Option String) → same_text o none ≡ false
      none_left none = refl
      none_left (some x) = refl

      none_same : (rs : List NewsItem) → All (λ row. same_text row.content_hash none ≡ false) rs
      none_same [] = tt
      none_same (row ∷ rs) = (none_left row.content_hash, none_same rs)
  no_hash tools (some hash) db h = elim (Option-cases (get_by_content_hash table hash db)) [
    | inl e ↦ find_first-none (λ row. same_text row.content_hash (some hash)) (rows db) e
    | inr (item, e) ↦ absurd (cc (rw e at h))
  ]

  module _ (tools : TextTools) (url body_text : String) (db : Db) where
    -- What an answer says of an article, by its normal URL, and of the table.
    abbrev pub Settled : IngestResult × Db → Type 0
    Settled (created, db') =
        (rows db' ≡ rows db ++ new_item table (fetched_as tools url body_text) db ∷ [])
        × (any (clashes (new_item table (fetched_as tools url body_text) db)) (rows db) ≡ false)
        × (url ≢ "")
        × (30 ≤ count (normalize_content tools body_text))
    Settled (skipped_url, db') =
        (db' ≡ db) × ((url ≡ "") ⊎ Exists (λ row. row.source_url ≡ url) (rows db))
    Settled (skipped_hash, db') =
        (db' ≡ db)
        × ((hash : String) × (content_hash tools body_text ≡ some hash)
            × Exists (λ row. row.content_hash ≡ some hash) (rows db))
    Settled (skipped_conflict, db') = ⊥
    Settled (skipped_empty_body, db') =
        (db' ≡ db) × (count (normalize_content tools body_text) < 30)

    same_text-some :
        (o : Option String) (hash : String) → same_text o (some hash) ≡ true → o ≡ some hash
    same_text-some none hash h = cc
    same_text-some (some a) hash h = ap some ((string_iff a hash).0 h)

    url_row :
        is_there tools table (get_by_source_url table url db) ≡ true
        → Exists (λ row. row.source_url ≡ url) (rows db)
    unfolding get_by_source_url
    url_row h = elim (Option-cases (get_by_source_url table url db)) [
      | inl e ↦ absurd (cc (rw e at h))
      | inr (item, e) ↦
          find_first-Exists (λ row. row.source_url ≡ url) (λ row. row.source_url == url) (rows db)
            item e
            ((string_iff item.source_url url).0
              (find_first-true (λ row. row.source_url == url) (rows db) item e))
    ]

    hash_row :
        (o : Option String)
        → has_hash tools table o db ≡ true
        → (hash : String) × (o ≡ some hash) × Exists (λ row. row.content_hash ≡ some hash) (rows db)
    unfolding get_by_content_hash
    hash_row none h = absurd (cc h)
    hash_row (some hash) h = elim (Option-cases (get_by_content_hash table hash db)) [
      | inl e ↦ absurd (cc (rw e at h))
      | inr (item, e) ↦ (
        hash,
        refl,
        find_first-Exists (λ row. row.content_hash ≡ some hash)
            (λ row. same_text row.content_hash (some hash)) (rows db) item e
            (same_text-some item.content_hash hash
              (find_first-true (λ row. same_text row.content_hash (some hash)) (rows db) item e)),
      )
    ]

    no_url :
        is_there tools table (get_by_source_url table url db) ≡ false
        → All (λ row. (row.source_url == url) ≡ false) (rows db)
    unfolding get_by_source_url
    no_url h = elim (Option-cases (get_by_source_url table url db)) [
      | inl e ↦ find_first-none (λ row. row.source_url == url) (rows db) e
      | inr (item, e) ↦ absurd (cc (rw e at h))
    ]

    inserted-Settled :
        url ≢ ""
        → 30 ≤ count (normalize_content tools body_text)
        → any (clashes (new_item table (fetched_as tools url body_text) db)) (rows db) ≡ false
        → Settled
            (inserted tools table db (create_from_fetch table (fetched_as tools url body_text) db))
    unfolding create_from_fetch
    inserted-Settled h k e = rw (e, create_from_fetch) (table.rows-add _ db, e, h, k)

    ingest_url-Settled : Settled (ingest_url tools table url body_text db)
    unfolding ingest_url
    ingest_url-Settled = elim (Bool-cases (url == "")) [
      | inl e ↦ rw (e, ingest_url) (refl, inl ((string_iff url "").0 e))
      | inr e ↦ elim (Bool-cases (ltb (count (normalize_content tools body_text)) 30)) [
        | inl f ↦ rw (e, ingest_url) (rw f (refl, ltb→lt _ _ f))
        | inr f ↦ elim (Bool-cases (is_there tools table (get_by_source_url table url db))) [
          | inl g ↦ rw (e, ingest_url) (rw f (rw g (refl, inr (url_row g))))
          | inr g ↦ elim (Bool-cases (has_hash tools table (content_hash tools body_text) db)) [
            | inl h ↦
                rw (e, ingest_url)
                  (rw f (rw g (rw h (refl, hash_row (content_hash tools body_text) h))))
            | inr h ↦
                rw (e, ingest_url)
                  (rw f (
                    rw g (
                      rw h (
                        inserted-Settled (λ q. absurd (cc (e, (string_iff url "").1 q)))
                          (ground (arith, f))
                          (no_clash (new_item table (fetched_as tools url body_text) db) (rows db)
                            (no_url g) (no_hash tools (content_hash tools body_text) db h))))))
          ]
        ]
      ]
    ]

  -- An article whose URL cannot be split raises; any other settles by its normal URL.
  abbrev pub Ingests : TextTools → String → String → Db → Option IngestResult × Db → Type 0
  Ingests tools source_url body_text db (none, db') =
      (normalize_url tools source_url ≡ none) × (db' ≡ db)
  Ingests tools source_url body_text db (some result, db') =
      (url : String) × (normalize_url tools source_url ≡ some url)
      × Settled tools url body_text db (result, db')

  -- An article is ingested exactly when its URL can be split and is not empty, it has thirty characters
  -- or more and no row has its URL or its hash, and then its row comes last; in all other cases the table
  -- stays as it is and the answer, or the exception of the URL, tells why. The database never has to
  -- refuse a row, as long as no other session writes.
  pub ingest_article-Ingests :
      (tools : TextTools) (source_url body_text : String) (db : Db)
      → Ingests tools source_url body_text db (ingest_article tools table source_url body_text db)
  unfolding ingest_article
  ingest_article-Ingests tools source_url body_text db =
      elim (Option-cases (normalize_url tools source_url)) [
        | inl e ↦ rw (e, ingest_article) (e, refl)
        | inr (url, e) ↦ rw (e, ingest_article) (url, e, ingest_url-Settled tools url body_text db)
      ]
