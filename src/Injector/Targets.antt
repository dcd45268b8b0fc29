-- ===== src/Injector/Targets.antt =====
-- The items that a request is split into: one for each target, each an independent copy.
use fm.Base.{
  ℕ, suc, String, ◌≡◌, refl, ap, true, List, [], ◌∷◌, arith, ◌==◌, string_eq, count_if, All,
}
use fm.Base.Values.{Fields}
use fm.Injector.Fanout.{
  ItemType, type_name, type_priority, QueueItem, cities_of, items_from, resolve_target_cities,
}
use fm.Injector.Cap.{IsDistinct, AreAds}

module _ (uuid : ℕ → String) (t : ItemType) (uri : String) (meta : Fields) where
  pub cities_of-items_from :
      (n : ℕ) (targets : List String) → cities_of (items_from uuid t uri meta n targets) ≡ targets
  unfolding items_from
  cities_of-items_from n [] = refl
  cities_of-items_from n (c ∷ cs) = ap (λ l. c ∷ l) (cities_of-items_from (suc n) cs)

  -- What the item for a target is.
  abbrev pub IsCopy : String × QueueItem → Type 0
  IsCopy p =
      (p.1.item_type ≡ t)
      × (p.1.priority ≡ type_priority t)
      × (p.1.uri ≡ uri)
      × (p.1.city_tag ≡ p.0)
      × (p.1.meta ≡ meta)

  pub items_from-IsCopy :
      (n : ℕ) (targets : List String) → All IsCopy (items_from uuid t uri meta n targets)
  unfolding items_from
  items_from-IsCopy n [] = tt
  items_from-IsCopy n (c ∷ cs) = ((refl, refl, refl, refl, refl), items_from-IsCopy (suc n) cs)

  pub items_from-AreAds :
      (n : ℕ) (targets : List String)
      → (type_name t == "AD") ≡ true
      → AreAds (items_from uuid t uri meta n targets)
  unfolding items_from
  items_from-AreAds n [] h = tt
  items_from-AreAds n (c ∷ cs) h = (h, items_from-AreAds (suc n) cs h)

pub resolve-IsDistinct :
    (city : String) (active : List String)
    → IsDistinct active
    → IsDistinct (resolve_target_cities city active)
unfolding resolve_target_cities count_if
resolve-IsDistinct city active d c = ground (arith, d c)
