-- ===== src/News/Selection.antt =====
-- services/news/selection.py: the item for an air slot.
use fm.Base.{
  ℕ, String, ◌≡◌, Bool, true, false, not, ◌&&◌, ◌||◌, max, Option, none, some, List, [], ◌∷◌, keep,
  ltb, leb, arith, if◌then◌else◌, ◌==◌, nat_eq, string_eq,
}
use fm.Base.Sort.{Order, sort}
use fm.Datetime.{Datetime}
use fm.News.Items.{NewsItem, ready, same_status}

-- `ORDER BY last_played_at ASC NULLS FIRST, id`
abbrev pub earlier : Option Datetime → ℕ → Option Datetime → ℕ → Bool
earlier none i none j = leb i j
earlier none i (some u) j = true
earlier (some t) i none j = false
earlier (some t) i (some u) j = ltb t u || (leb t u && leb i j)

earlier_trans :
    (a b c : Option Datetime) (i j k : ℕ)
    → earlier a i b j ≡ true
    → earlier b j c k ≡ true
    → earlier a i c k ≡ true
earlier_trans a b c i j k h g = ground (arith, h, g)

earlier_total : (a b : Option Datetime) (i j : ℕ) → earlier a i b j ≡ false → earlier b j a i ≡ true
earlier_total a b i j h = ground (arith, h)

abbrev pub plays_before : NewsItem → NewsItem → Bool
plays_before a b = earlier a.last_played_at a.id b.last_played_at b.id

pub plays_before_trans :
    (a b c : NewsItem) → plays_before a b ≡ true → plays_before b c ≡ true → plays_before a c ≡ true
plays_before_trans a b c h g =
    earlier_trans a.last_played_at b.last_played_at c.last_played_at a.id b.id c.id h g

pub plays_before_total : (a b : NewsItem) → plays_before a b ≡ false → plays_before b a ≡ true
plays_before_total a b h = earlier_total a.last_played_at b.last_played_at a.id b.id h

abbrev pub by_rotation : Order NewsItem
by_rotation = record {
  le = plays_before;
  le-trans = plays_before_trans;
  le-total = plays_before_total;
}

abbrev pub is_ready : NewsItem → Bool
is_ready item = same_status item.status ready

unfoldable pub list_ready_ordered : List NewsItem → List NewsItem
unfolding sort keep
list_ready_ordered rows = sort by_rotation (keep is_ready rows)

-- `get_played_count` gives the counter of the mirror in Redis.
module _ (get_played_count : String → ℕ) where
  unfoldable pub is_at_play_cap : ℕ → String → Bool
  is_at_play_cap cap content_hash = leb cap (get_played_count content_hash)

  unfoldable pub is_under_play_cap : ℕ → NewsItem → Bool
  unfolding is_at_play_cap
  is_under_play_cap cap item = if leb cap item.play_count then false else elim item.content_hash [
    | none ↦ true
    | some hash ↦ if hash == "" then true else not (is_at_play_cap cap hash)
  ]

  unfoldable pub select_news_item : ℕ → List NewsItem → Option NewsItem
  unfolding list_ready_ordered is_under_play_cap keep
  select_news_item max_plays rows =
      elim (keep (is_under_play_cap max_plays) (list_ready_ordered rows)) [
        | (item ∷ _) ↦ some item
        | [] ↦ elim (list_ready_ordered rows) [ [] ↦ none | (item ∷ _) ↦ some item ]
      ]

  unfoldable pub effective_play_count : NewsItem → ℕ
  effective_play_count item = elim item.content_hash [
    | none ↦ item.play_count
    | some hash ↦
        if hash == "" then item.play_count else max item.play_count (get_played_count hash)
  ]
