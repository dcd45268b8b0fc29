-- ===== src/Metadata/Preview.antt =====
-- The order and the bounds of the preview of a queue.
use fm.Base.{
  ℕ, suc, String, ◌≤◌, ◌<◌, ◌≡◌, ◌≢◌, refl, sym, ◌∙◌, ap, subst, Bool, true, false, ◌&&◌, none,
  List, [], ◌∷◌, ◌++◌, map, take, length, length-take, keep, keep-map, All-map, All-imp,
  map-reverse, reverse, All, ok, arith, Bool-cases, Option-cases, Result-cases, inl, inr, ok_inj,
  string_eq,
}
use Prim.Native.String.{◌++◌ as str_append}
use fm.Base.Int.{ℤ, leb_ℤ}
use fm.Base.Sort.{sort, IsSorted, sort-All, sort-IsSorted, keep-insert-other, keep-insert-last}
use fm.Base.Values.{Value, Fields, get_field}
use fm.Redis.{Raw}
use fm.Geo.Registry.{CityRegistry, get}
use fm.Metadata.NowPlaying.{Parsers}
use fm.Metadata.Queue.{
  QueueItemPreview, key_le, item_priority, enumerate_from, by_priority, items_of,
  sort_pending_items, meta_of, artist_of, content_type_of, preview_duration_sec, to_preview_item,
  preview_all, read_queue_preview, decode,
}

behind :
    (n p q : ℤ) (i j : ℕ)
    → i < j
    → leb_ℤ n p && leb_ℤ p n ≡ true
    → leb_ℤ n q && leb_ℤ q n ≡ true
    → key_le p q i j ≡ false
behind n p q i j h a b = ground (arith, h, a, b)

no_higher : (p q : ℤ) (i j : ℕ) → key_le p q i j ≡ true → leb_ℤ q p ≡ true
no_higher p q i j h = ground (arith, h)

module _ (parsers : Parsers) (show : Value → String) where
  abbrev priority : Fields → ℤ
  priority item = item_priority parsers show item

  abbrev before : ℕ × Fields → ℕ × Fields → Bool
  before a b = (by_priority parsers show).le a b

  abbrev pub has_priority : ℤ → Fields → Bool
  has_priority n item =
      leb_ℤ n (item_priority parsers show item) && leb_ℤ (item_priority parsers show item) n

  abbrev pub Descending : List Fields → Type 0
  Descending [] = Unit
  Descending (x ∷ xs) =
      All (λ y. leb_ℤ (item_priority parsers show y) (item_priority parsers show x) ≡ true) xs
      × Descending xs

  entries-Descending :
      (entries : List (ℕ × Fields))
      → IsSorted (by_priority parsers show) entries
      → Descending (items_of parsers show entries)
  entries-Descending [] h = tt
  entries-Descending ((i, x) ∷ entries) (h, hs) = (
    All-map (λ entry. entry.1) (λ y. leb_ℤ (priority y) (priority x) ≡ true) entries
        (All-imp (λ y. before (i, x) y ≡ true) (λ y. leb_ℤ (priority y.1) (priority x) ≡ true)
          entries (λ (j, y) k. no_higher (priority x) (priority y) i j k) h),
    entries-Descending entries hs,
  )

  enumerate-All :
      (i k : ℕ) (items : List Fields)
      → i ≤ k
      → All (λ (e : ℕ × Fields). i ≤ e.0) (enumerate_from parsers show k items)
  unfolding enumerate_from
  enumerate-All i k [] h = tt
  enumerate-All i k (x ∷ items) h = (h, enumerate-All i (suc k) items (omega arith))

  -- One priority class of the sorted entries is the class of the queue, the other way round.
  keep-sort :
      (n : ℤ) (i : ℕ) (items : List Fields)
      → keep
          (λ e. has_priority n e.1)
          (sort (by_priority parsers show) (enumerate_from parsers show i items))
        ≡ reverse (keep (λ e. has_priority n e.1) (enumerate_from parsers show i items))
  unfolding sort enumerate_from keep
  keep-sort n i [] = refl
  keep-sort n i (x ∷ items) = elim (Bool-cases (has_priority n x)) [
    | inr e ↦ rw e (
        keep-insert-other (by_priority parsers show) (λ z. has_priority n z.1) (i, x) rest e
        ∙ keep-sort n (suc i) items)
    | inl e ↦ rw e (
        keep-insert-last (by_priority parsers show) (λ z. has_priority n z.1) (i, x) rest e
          (sort-IsSorted (by_priority parsers show) entries)
          (All-imp (λ (z : ℕ × Fields). suc i ≤ z.0)
            (λ z. has_priority n z.1 ≡ true → before (i, x) z ≡ false) rest
            (λ (j, y) later same. behind n (priority x) (priority y) i j later e same)
            (sort-All (by_priority parsers show) (λ z. suc i ≤ z.0) entries
              (enumerate-All (suc i) (suc i) items (omega arith))))
        ∙ ap (λ r. r ++ (i, x) ∷ []) (keep-sort n (suc i) items))
  ]
    where
      entries : List (ℕ × Fields)
      entries = enumerate_from parsers show (suc i) items

      rest : List (ℕ × Fields)
      rest = sort (by_priority parsers show) entries

  items-enumerate :
      (i : ℕ) (items : List Fields)
      → items_of parsers show (enumerate_from parsers show i items) ≡ items
  unfolding enumerate_from
  items-enumerate i [] = refl
  items-enumerate i (x ∷ items) = ap (λ r. x ∷ r) (items-enumerate (suc i) items)

  -- The preview lists the items of a queue by falling priority, and the items of one priority from the
  -- tail of the queue to its head, which is the order in which they came in.
  pub sort_pending_items_lem :
      (items : List Fields)
      → Descending (sort_pending_items parsers show items)
        × ((n : ℤ)
            → keep (has_priority n) (sort_pending_items parsers show items)
              ≡ reverse (keep (has_priority n) items))
  unfolding sort_pending_items
  sort_pending_items_lem items = (
    entries-Descending _
        (sort-IsSorted (by_priority parsers show) (enumerate_from parsers show 0 items)),
    (λ n.
        keep-map (λ e. e.1) (has_priority n)
          (sort (by_priority parsers show) (enumerate_from parsers show 0 items))
        ∙ ap (map (λ e. e.1)) (keep-sort n 0 items)
        ∙ map-reverse (λ e. e.1)
            (keep (λ e. has_priority n e.1) (enumerate_from parsers show 0 items))
        ∙ ap reverse
            (sym (keep-map (λ e. e.1) (has_priority n) (enumerate_from parsers show 0 items)))
        ∙ ap (λ r. reverse (keep (has_priority n) r)) (items-enumerate 0 items)),
  )

  duration-positive : (item meta : Fields) → 1 ≤ preview_duration_sec parsers show item meta
  unfolding preview_duration_sec
  duration-positive item meta = ground arith

  preview-positive :
      (item : Fields) (preview : QueueItemPreview)
      → to_preview_item parsers show item ≡ ok preview
      → 1 ≤ preview.duration_sec
  unfolding to_preview_item
  preview-positive item preview h = elim (Result-cases (meta_of parsers show item)) [
    | inr (e, a) ↦ absurd (cc (rw (a, to_preview_item) at h))
    | inl (meta, a) ↦ elim (Result-cases (artist_of parsers show (get_field "artist" meta))) [
      | inr (e, b) ↦ absurd (cc (rw b at (rw (a, to_preview_item) at h)))
      | inl (artist, b) ↦
          elim (Result-cases (content_type_of parsers show (get_field "type" item))) [
            | inr (e, c) ↦ absurd (cc (rw c at (rw b at (rw (a, to_preview_item) at h))))
            | inl (kind, c) ↦
                subst (λ p. 1 ≤ p.duration_sec)
                  (ok_inj (rw c at (rw b at (rw (a, to_preview_item) at h))))
                  (duration-positive item meta)
          ]
    ]
  ]

  preview_all-bounded :
      (items : List Fields) (previews : List QueueItemPreview)
      → preview_all parsers show items ≡ ok previews
      → (length previews ≡ length items) × All (λ p. 1 ≤ p.duration_sec) previews
  unfolding preview_all
  preview_all-bounded [] previews h =
      subst (λ p. (length p ≡ 0) × All (λ q. 1 ≤ q.duration_sec) p) (ok_inj h) (refl, tt)
  preview_all-bounded (item ∷ items) previews h =
      elim (Result-cases (to_preview_item parsers show item)) [
        | inr (e, a) ↦ absurd (cc (rw (a, preview_all) at h))
        | inl (p, a) ↦ elim (Result-cases (preview_all parsers show items)) [
          | inr (e, b) ↦ absurd (cc (rw b at (rw (a, preview_all) at h)))
          | inl (ps, b) ↦
              let rest = preview_all-bounded items ps b in
              subst (λ q. (length q ≡ suc (length items)) × All (λ r. 1 ≤ r.duration_sec) q)
                (ok_inj (rw b at (rw (a, preview_all) at h)))
                (ap suc rest.0, (preview-positive item p a, rest.1))
        ]
      ]

  -- A preview is of an active city, has at most the limit of items, and each of them lasts a second
  -- or more.
  pub read_queue_preview-bounded :
      (lrange : String → List Raw) (registry : CityRegistry) (limit : ℕ) (city_tag : String)
      (previews : List QueueItemPreview)
      → read_queue_preview parsers show lrange registry limit city_tag ≡ ok previews
      → (get registry city_tag ≢ none)
        × (length previews ≤ limit)
        × All (λ p. 1 ≤ p.duration_sec) previews
  unfolding read_queue_preview
  read_queue_preview-bounded lrange registry limit city_tag previews h =
      elim (Option-cases (get registry city_tag)) [
        | inl e ↦ absurd (cc (rw (e, read_queue_preview) at h))
        | inr (city, e) ↦
            let items =
              sort_pending_items parsers show
                (decode parsers show (lrange (str_append "fm21:queue:" city_tag))) in
            let bounded =
              preview_all-bounded (take limit items) previews (rw (e, read_queue_preview) at h) in
            (
              (λ k. absurd (cc (e, k))),
              omega (arith, bounded.0, length-take limit items),
              bounded.1,
            )
      ]
