-- ===== src/Injector/Cap.antt =====
-- The cap on the pending ads of a city.
use fm.Base.{
  ℕ, ◌+◌, ◌≤◌, ◌<◌, String, ◌≡◌, refl, true, List, [], ◌∷◌, arith, ◌==◌, string_eq, count_if, All,
  Option-cases, inl, inr, ◌⊎◌, string_iff,
}
use fm.Redis.{Redis}
use fm.Injector.Fanout.{type_name, QueueItem, cities_of}
use fm.Injector.Queue.{
  scan_ads, dumps, queue_key, count_pending_ads, push_all, pushes_of, keys_of, check_keys, room,
  enqueue_ad, fanout_ad, full, broken, Check,
}
use fm.Injector.Counts.{count_pending_ads-lpush, scan-pending, has_type-dumps}

-- No tag stands twice in the list.
abbrev pub IsDistinct : List String → Type 0
IsDistinct cities = (c : String) → count_if (λ x. x == c) cities ≤ 1

abbrev pub AreAds : List (String × QueueItem) → Type 0
AreAds items = All (λ (p : String × QueueItem). (type_name p.1.item_type == "AD") ≡ true) items

pub Check-cases : (k : Check) → (k ≡ room) ⊎ ((key : String) × (k ≡ full key)) ⊎ (k ≡ broken)
Check-cases room = inl refl
Check-cases (full key) = inr (inl (key, refl))
Check-cases broken = inr (inr refl)

module _ (redis : Redis) (max_ads : ℕ) where
  open redis use {Store, lrange, lpush}

  abbrev pub IsCapped : Store → Type 0
  IsCapped s = (c : String) → count_pending_ads redis c s ≤ max_ads

  pub enqueue_ad-IsCapped :
      (city : String) (item : QueueItem) (s : Store)
      → IsCapped s
      → IsCapped (enqueue_ad redis max_ads city item s).1
  unfolding enqueue_ad
  enqueue_ad-IsCapped city item s h c =
      elim (Option-cases (scan_ads 0 (lrange (queue_key city) s))) [
        | inl e ↦ ground (arith, e, h c)
        | inr (n, e) ↦ ground (
          arith,
          e,
          h c,
          scan-pending redis city s e,
          count_pending_ads-lpush redis city (dumps item) s c,
          string_iff city c,
        )
      ]

  count-push_all :
      (items : List (String × QueueItem)) (s : Store) (c : String)
      → AreAds items
      → count_pending_ads redis c (push_all redis (pushes_of items) s)
        ≡ count_pending_ads redis c s + count_if (λ x. x == c) (cities_of items)
  unfolding push_all count_if
  count-push_all [] s c h = omega arith
  count-push_all ((city, item) ∷ items) s c h = ground (
    arith,
    count-push_all items (lpush (queue_key city) (dumps item) s) c h.1,
    count_pending_ads-lpush redis city (dumps item) s c,
    has_type-dumps "AD" item,
    h.0,
  )

  room-lt :
      (items : List (String × QueueItem)) (s : Store) (c : String)
      → check_keys redis max_ads (keys_of items) s ≡ room
      → 0 < count_if (λ x. x == c) (cities_of items)
      → count_pending_ads redis c s < max_ads
  unfolding check_keys count_if
  room-lt [] s c h p = absurd (omega arith)
  room-lt ((city, item) ∷ items) s c h p =
      elim (Option-cases (scan_ads 0 (lrange (queue_key city) s))) [
        | inl e ↦ absurd (ground (arith, e))
        | inr (n, e) ↦
            ground (arith, e, scan-pending redis city s e, string_iff city c, room-lt items s c)
      ]

  pub fanout_ad-IsCapped :
      (items : List (String × QueueItem)) (s : Store)
      → IsDistinct (cities_of items)
      → AreAds items
      → IsCapped s
      → IsCapped (fanout_ad redis max_ads items s).1
  unfolding fanout_ad
  fanout_ad-IsCapped [] s d a h c = h c
  fanout_ad-IsCapped (first ∷ items) s d a h c =
      elim (Check-cases (check_keys redis max_ads (keys_of (first ∷ items)) s)) [
        | inl e ↦ ground (
          arith,
          e,
          h c,
          d c,
          count-push_all (first ∷ items) s c a,
          room-lt (first ∷ items) s c e,
        )
        | inr (inl (key, e)) ↦ ground (arith, e, h c)
        | inr (inr e) ↦ ground (arith, e, h c)
      ]
