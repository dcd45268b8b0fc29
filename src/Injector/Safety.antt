-- ===== src/Injector/Safety.antt =====
-- What the endpoint keeps, whatever is asked of it.
use fm.Base.{
  ℕ, suc, String, ◌≡◌, refl, ◌∙◌, true, false, Option, List, [], ◌∷◌, ◌>>◌, arith, ◌==◌, string_eq,
  All, Bool-cases, inl, inr, Result-cases,
}
use fm.Base.Values.{Fields}
use fm.Redis.{Redis}
use fm.Injector.Fanout.{ItemType, type_name, QueueItem, cities_of, prepare_enqueue, items_from}
use fm.Injector.Queue.{dumps, count_pending_ads, enqueue_item, record_playlist_buffer}
use fm.Injector.Counts.{count_pending_ads-lpush, has_type-dumps, lrange-buffer}
use fm.Injector.Cap.{IsCapped, IsDistinct, AreAds, enqueue_ad-IsCapped, fanout_ad-IsCapped}
use fm.Injector.Targets.{cities_of-items_from, items_from-AreAds, resolve-IsDistinct}
use fm.Injector.Service.{
  Settings, EnqueueRequest, enqueue, enqueue_items, put_items, enqueue_ads, enqueue_each,
  enqueue_one, require_internal_token, validate_request, meta_fields,
}

abbrev AreOthers : List (String × QueueItem) → Type 0
AreOthers items = All (λ (p : String × QueueItem). (type_name p.1.item_type == "AD") ≡ false) items

items_from-AreOthers :
    (uuid : ℕ → String) (t : ItemType) (uri : String) (meta : Fields) (n : ℕ)
    (targets : List String)
    → (type_name t == "AD") ≡ false
    → AreOthers (items_from uuid t uri meta n targets)
unfolding items_from
items_from-AreOthers uuid t uri meta n [] h = tt
items_from-AreOthers uuid t uri meta n (c ∷ cs) h =
    (h, items_from-AreOthers uuid t uri meta (suc n) cs h)

module _ (redis : Redis) where
  open redis use {Store}

  count-buffer :
      (city track_id : String) (n : ℕ) (s : Store) (c : String)
      → count_pending_ads redis c (record_playlist_buffer redis city track_id n s)
        ≡ count_pending_ads redis c s
  unfolding count_pending_ads
  count-buffer city track_id n s c = rw lrange-buffer

  count-enqueue_item :
      (city : String) (item : QueueItem) (s : Store) (c : String)
      → (type_name item.item_type == "AD") ≡ false
      → count_pending_ads redis c (enqueue_item redis city item s) ≡ count_pending_ads redis c s
  unfolding enqueue_item
  count-enqueue_item city item s c h =
      ground
        (arith, count_pending_ads-lpush redis city (dumps item) s c, has_type-dumps "AD" item, h)

  count-enqueue_one :
      (body : EnqueueRequest) (city : String) (item : QueueItem) (s : Store) (c : String)
      → (type_name item.item_type == "AD") ≡ false
      → count_pending_ads redis c (enqueue_one redis body city item s) ≡ count_pending_ads redis c s
  unfolding enqueue_one
  count-enqueue_one body city item s c h = ground (
    arith,
    count-enqueue_item city item s c h,
    count-buffer city body.meta.track_id 100 (enqueue_item redis city item s) c,
  )

  count-enqueue_each :
      (body : EnqueueRequest) (items : List (String × QueueItem)) (s : Store) (c : String)
      → AreOthers items
      → count_pending_ads redis c (enqueue_each redis body items s) ≡ count_pending_ads redis c s
  unfolding enqueue_each
  count-enqueue_each body [] s c h = refl
  count-enqueue_each body ((city, item) ∷ items) s c h =
      count-enqueue_each body items (enqueue_one redis body city item s) c h.1
      ∙ count-enqueue_one body city item s c h.0

  enqueue_ads-IsCapped :
      (max_ads : ℕ) (items : List (String × QueueItem)) (s : Store)
      → IsDistinct (cities_of items)
      → AreAds items
      → IsCapped redis max_ads s
      → IsCapped redis max_ads (enqueue_ads redis max_ads items s).1
  unfolding enqueue_ads
  enqueue_ads-IsCapped max_ads ((city, item) ∷ []) s d a h =
      enqueue_ad-IsCapped redis max_ads city item s h
  enqueue_ads-IsCapped max_ads [] s d a h = fanout_ad-IsCapped redis max_ads [] s d a h
  enqueue_ads-IsCapped max_ads (p ∷ q ∷ items) s d a h =
      fanout_ad-IsCapped redis max_ads (p ∷ q ∷ items) s d a h

  put_items-IsCapped :
      (max_ads : ℕ) (body : EnqueueRequest) (items : List (String × QueueItem)) (s : Store)
      → IsDistinct (cities_of items)
      → ((type_name body.item_type == "AD") ≡ true → AreAds items)
      → ((type_name body.item_type == "AD") ≡ false → AreOthers items)
      → IsCapped redis max_ads s
      → IsCapped redis max_ads (put_items redis max_ads body items s).1
  unfolding put_items
  put_items-IsCapped max_ads body items s d ads others h c =
      elim (Bool-cases (type_name body.item_type == "AD")) [
        | inl e ↦ rw e (enqueue_ads-IsCapped max_ads items s d (ads e) h c)
        | inr e ↦ rw e (rw (count-enqueue_each body items s c (others e)) (h c))
      ]

  enqueue_items-IsCapped :
      (max_ads : ℕ) (body : EnqueueRequest) (items : List (String × QueueItem)) (s : Store)
      → IsDistinct (cities_of items)
      → ((type_name body.item_type == "AD") ≡ true → AreAds items)
      → ((type_name body.item_type == "AD") ≡ false → AreOthers items)
      → IsCapped redis max_ads s
      → IsCapped redis max_ads (enqueue_items redis max_ads body items s).1
  unfolding enqueue_items
  enqueue_items-IsCapped max_ads body [] s d ads others h = h
  enqueue_items-IsCapped max_ads body (p ∷ items) s d ads others h =
      put_items-IsCapped max_ads body (p ∷ items) s d ads others h

  -- If no tag stands twice among the active cities, no request, accepted or refused, makes the
  -- pending ads of any city exceed the limit.
  pub enqueue-IsCapped :
      (cfg : Settings) (uuid : ℕ → String) (token : Option String) (body : EnqueueRequest)
      (s : Store)
      → IsDistinct cfg.active_cities
      → IsCapped redis cfg.max_pending_ads s
      → IsCapped redis cfg.max_pending_ads (enqueue redis cfg uuid token body s).1
  unfolding enqueue prepare_enqueue
  enqueue-IsCapped cfg uuid token body s d h =
      elim (Result-cases
        (require_internal_token cfg.internal_token token >> validate_request cfg body)) [
          | inr (e, q) ↦ rw (q, enqueue) h
          | inl (u, q) ↦
              rw (q, enqueue)
                (enqueue_items-IsCapped cfg.max_pending_ads body _ s
                  (rw cities_of-items_from (resolve-IsDistinct body.city_tag cfg.active_cities d))
                  (items_from-AreAds uuid body.item_type body.uri (meta_fields body.meta) 0 _)
                  (items_from-AreOthers uuid body.item_type body.uri (meta_fields body.meta) 0 _) h)
        ]
