-- ===== src/News/Rotation.antt =====
-- Which of the ready items is chosen.
use fm.Base.{
  ℕ, String, ◌≡◌, refl, sym, subst, Bool, true, false, Option, none, some, List, [], ◌∷◌, keep, All,
  All-imp, All-zip, All-empty, keep-none-All, keep-cons-All, Exists, ◌∙◌, Bool-cases, List-cases,
  inl, inr,
}
use fm.Base.Sort.{sort-All, sort-All-inv, sort-IsSorted, head-keep, head-least}
use fm.News.Items.{NewsItem}
use fm.News.Selection.{
  plays_before, by_rotation, is_ready, list_ready_ordered, is_under_play_cap, select_news_item,
}

module _ (get_played_count : String → ℕ) (max_plays : ℕ) where
  abbrev under : NewsItem → Bool
  under item = is_under_play_cap get_played_count max_plays item

  -- An item below the cap goes before one at the cap; within a group the rotation decides.
  abbrev pub IsPreferred : NewsItem → NewsItem → Type 0
  IsPreferred a b =
      (is_under_play_cap get_played_count max_plays b ≡ true
        → is_under_play_cap get_played_count max_plays a ≡ true)
      × (is_under_play_cap get_played_count max_plays a
            ≡ is_under_play_cap get_played_count max_plays b
          → plays_before a b ≡ true)

  -- A row that is ready.
  abbrev pub IsRow : List NewsItem → NewsItem → Type 0
  IsRow rows item = Exists (λ row. (row ≡ item) × (is_ready row ≡ true)) rows

  abbrev pub IsChoice : List NewsItem → Option NewsItem → Type 0
  IsChoice rows none = keep is_ready rows ≡ []
  IsChoice rows (some item) = IsRow rows item × All (IsPreferred item) (keep is_ready rows)

  keep-Exists : (rows : List NewsItem) → All (IsRow rows) (keep is_ready rows)
  unfolding keep
  keep-Exists [] = tt
  keep-Exists (r ∷ rows) =
      let later =
        All-imp (IsRow rows) (IsRow (r ∷ rows)) (keep is_ready rows) (λ item found. inr found)
          (keep-Exists rows) in
      elim (Bool-cases (is_ready r)) [
        | inl e ↦ subst (All (IsRow (r ∷ rows))) (yes e) (inl (refl, e), later)
        | inr e ↦ subst (All (IsRow (r ∷ rows))) (skip e) later
      ]
    where
      yes : is_ready r ≡ true → r ∷ keep is_ready rows ≡ keep is_ready (r ∷ rows)
      yes e = rw e refl

      skip : is_ready r ≡ false → keep is_ready rows ≡ keep is_ready (r ∷ rows)
      skip e = rw e refl

  chosen-IsChoice :
      (rows : List NewsItem) (item : NewsItem) (rest : List NewsItem)
      → keep under (list_ready_ordered rows) ≡ item ∷ rest
      → IsChoice rows (some item)
  unfolding list_ready_ordered
  chosen-IsChoice rows item rest h =
      let candidates = list_ready_ordered rows in
      let (below, least) =
        head-keep by_rotation under candidates item rest
          (sort-IsSorted by_rotation (keep is_ready rows)) h in
      (
        keep-cons-All _ under candidates item rest h
            (sort-All by_rotation (IsRow rows) (keep is_ready rows) (keep-Exists rows)),
        sort-All-inv by_rotation (IsPreferred item) (keep is_ready rows) (
            All-imp (λ z. under z ≡ true → plays_before item z ≡ true) (IsPreferred item) candidates
              (λ z k. ((λ h. below), (λ same. k (sym same ∙ below)))) least),
      )

  rotated-IsChoice :
      (rows : List NewsItem) (item : NewsItem) (rest : List NewsItem)
      → keep under (list_ready_ordered rows) ≡ []
      → list_ready_ordered rows ≡ item ∷ rest
      → IsChoice rows (some item)
  unfolding list_ready_ordered
  rotated-IsChoice rows item rest e h =
      let candidates = list_ready_ordered rows in
      let capped = keep-none-All under candidates e in
      let first =
        head-least by_rotation candidates item rest (sort-IsSorted by_rotation (keep is_ready rows))
          h in
      (
        first_of candidates item rest h
            (sort-All by_rotation (IsRow rows) (keep is_ready rows) (keep-Exists rows)),
        sort-All-inv by_rotation (IsPreferred item) (keep is_ready rows) (
            All-imp (λ z. (under z ≡ false) × (plays_before item z ≡ true)) (IsPreferred item)
              candidates (λ z (low, k). ((λ h. absurd (cc (low, h))), (λ same. k)))
              (All-zip (λ z. under z ≡ false) (λ z. plays_before item z ≡ true) candidates capped
                first)),
      )
    where
      first_of :
          (xs : List NewsItem) (x : NewsItem) (rest : List NewsItem)
          → xs ≡ x ∷ rest
          → All (IsRow rows) xs
          → IsRow rows x
      first_of [] x rest h a = absurd (cc h)
      first_of (y ∷ ys) x rest h (a, more) = subst (IsRow rows) (cc h) a

  -- Nothing is chosen only when no item is ready. A chosen item is ready; it is below the cap on plays
  -- if any ready item is; and among the ready items that are below the cap as it is, or are at the cap
  -- as it is, it is the one whose last play is the longest ago.
  pub select_news_item-IsChoice :
      (rows : List NewsItem) → IsChoice rows (select_news_item get_played_count max_plays rows)
  unfolding select_news_item list_ready_ordered
  select_news_item-IsChoice rows = elim (List-cases (keep under (list_ready_ordered rows))) [
    | inr (item, rest, e) ↦ rw (e, select_news_item) (chosen-IsChoice rows item rest e)
    | inl e ↦ elim (List-cases (list_ready_ordered rows)) [
      | inl f ↦
          rw (e, select_news_item)
            (rw f (
              All-empty (keep is_ready rows) (
                sort-All-inv by_rotation (λ z. ⊥) (keep is_ready rows)
                  (subst (All (λ z. ⊥)) (sym f) tt))))
      | inr (item, rest, f) ↦ rw (e, select_news_item) (rw f (rotated-IsChoice rows item rest e f))
    ]
  ]
