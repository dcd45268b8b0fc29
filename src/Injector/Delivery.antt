-- ===== src/Injector/Delivery.antt =====
-- What an accepted request puts into the queues, and that a refused one puts nothing.
use fm.Base.{
  ℕ, ◌≤◌, String, ◌≡◌, refl, ◌∙◌, ap, Option, none, some, List, [], ◌∷◌, ◌>>◌, arith, if◌then◌else◌,
  ◌==◌, string_eq, count_if, Bool-cases, Option-cases, inl, inr, leb, ok, err, Result, Result-cases,
}
use fm.Redis.{Redis, Raw}
use fm.Injector.Fanout.{
  type_name, QueueItem, cities_of, ids_of, prepare_enqueue, resolve_target_cities,
}
use fm.Injector.Queue.{
  QueueError, dumps, queue_key, enqueue_item, enqueue_ad, fanout_ad, fanout_ad_script,
  enqueue_ad_script, push_all, pushes_of, keys_of, check_keys, scan_ads,
}
use fm.Injector.Counts.{lrange-lpush_queue, lrange-buffer}
use fm.Injector.Cap.{IsDistinct, Check-cases}
use fm.Injector.Targets.{cities_of-items_from, resolve-IsDistinct}
use fm.Injector.Service.{
  HttpError, EnqueueResponse, Settings, EnqueueRequest, enqueue, enqueue_items, put_items,
  enqueue_ads, enqueue_each, enqueue_one, require_internal_token, validate_request, meta_fields,
  respond,
}

-- The item that a list of targets holds for a city.
unfoldable pub item_for : String → List (String × QueueItem) → Option QueueItem
item_for c [] = none
item_for c ((city, item) ∷ items) = if city == c then some item else item_for c items

-- A queue, newest first, behind the push of an item.
abbrev pub deliver : Option QueueItem → List Raw → List Raw
deliver none queue = queue
deliver (some item) queue = dumps item ∷ queue

item_for-absent :
    (c : String) (items : List (String × QueueItem))
    → count_if (λ x. x == c) (cities_of items) ≤ 0
    → item_for c items ≡ none
unfolding item_for count_if
item_for-absent c [] h = refl
item_for-absent c ((city, item) ∷ items) h = ground (arith, item_for-absent c items)

module _ (redis : Redis) where
  open redis use {Store, lrange, lpush}

  -- The pushes of a whole list, by way of any function that pushes one item at a time.
  module _ (put : String → QueueItem → Store → Store)
      (put_lem : (city : String) (item : QueueItem) (s : Store) (c : String)
        → lrange (queue_key c) (put city item s)
          ≡ (if city == c then dumps item ∷ lrange (queue_key c) s else lrange (queue_key c) s))
      (put_all : List (String × QueueItem) → Store → Store)
      (put_all_nil : (s : Store) → put_all [] s ≡ s)
      (put_all_cons : (city : String) (item : QueueItem) (items : List (String × QueueItem))
          (s : Store)
        → put_all ((city, item) ∷ items) s ≡ put_all items (put city item s)) where
    put_all-delivers :
        (items : List (String × QueueItem)) (s : Store) (c : String)
        → count_if (λ x. x == c) (cities_of items) ≤ 1
        → lrange (queue_key c) (put_all items s)
          ≡ deliver (item_for c items) (lrange (queue_key c) s)
    unfolding item_for count_if
    put_all-delivers [] s c h = ap (lrange (queue_key c)) (put_all_nil s)
    put_all-delivers ((city, item) ∷ items) s c h = elim (Bool-cases (city == c)) [
      | inl e ↦ ground (
        arith,
        e,
        put_all_cons city item items s,
        put_lem city item s c,
        put_all-delivers items (put city item s) c,
        item_for-absent c items,
      )
      | inr e ↦ ground (
        arith,
        e,
        put_all_cons city item items s,
        put_lem city item s c,
        put_all-delivers items (put city item s) c,
      )
    ]

  push_all-delivers :
      (items : List (String × QueueItem)) (s : Store) (c : String)
      → count_if (λ x. x == c) (cities_of items) ≤ 1
      → lrange (queue_key c) (push_all redis (pushes_of items) s)
        ≡ deliver (item_for c items) (lrange (queue_key c) s)
  unfolding push_all
  push_all-delivers =
      put_all-delivers (λ city item s. lpush (queue_key city) (dumps item) s)
        (λ city item s c. lrange-lpush_queue redis city (dumps item) s c)
        (λ items s. push_all redis (pushes_of items) s) (λ s. refl) (λ city item items s. refl)

  enqueue_one-delivers :
      (body : EnqueueRequest) (city : String) (item : QueueItem) (s : Store) (c : String)
      → lrange (queue_key c) (enqueue_one redis body city item s)
        ≡ (if city == c then dumps item ∷ lrange (queue_key c) s else lrange (queue_key c) s)
  unfolding enqueue_one enqueue_item
  enqueue_one-delivers body city item s c = ground (
    arith,
    lrange-lpush_queue redis city (dumps item) s c,
    lrange-buffer redis city body.meta.track_id 100 (lpush (queue_key city) (dumps item) s) c,
  )

  enqueue_each-delivers :
      (body : EnqueueRequest) (items : List (String × QueueItem)) (s : Store) (c : String)
      → count_if (λ x. x == c) (cities_of items) ≤ 1
      → lrange (queue_key c) (enqueue_each redis body items s)
        ≡ deliver (item_for c items) (lrange (queue_key c) s)
  unfolding enqueue_each
  enqueue_each-delivers body =
      put_all-delivers (enqueue_one redis body) (enqueue_one-delivers body)
        (enqueue_each redis body) (λ s. refl) (λ city item items s. refl)

  -- Either the exception leaves the store alone, or every queue has its item.
  abbrev Delivered :
      {E A : Type 0} → List (String × QueueItem) → Store → Result E A × Store → Type 0
  Delivered items s (ok a, s') =
      (c : String)
      → count_if (λ x. x == c) (cities_of items) ≤ 1
      → lrange (queue_key c) s' ≡ deliver (item_for c items) (lrange (queue_key c) s)
  Delivered items s (err e, s') = s' ≡ s

  fanout_ad-Delivered :
      (max_ads : ℕ) (items : List (String × QueueItem)) (s : Store)
      → Delivered items s (fanout_ad redis max_ads items s)
  unfolding fanout_ad item_for
  fanout_ad-Delivered max_ads [] s = λ c h. refl
  fanout_ad-Delivered max_ads (p ∷ items) s =
      elim (Check-cases (check_keys redis max_ads (keys_of (p ∷ items)) s)) [
        | inl e ↦ rw (e, fanout_ad_script) (push_all-delivers (p ∷ items) s)
        | inr (inl (key, e)) ↦ rw (e, fanout_ad_script)
        | inr (inr e) ↦ rw (e, fanout_ad_script)
      ]

  enqueue_ad-Delivered :
      (max_ads : ℕ) (city : String) (item : QueueItem) (s : Store)
      → Delivered ((city, item) ∷ []) s (enqueue_ad redis max_ads city item s)
  unfolding enqueue_ad item_for
  enqueue_ad-Delivered max_ads city item s =
      elim (Option-cases (scan_ads 0 (lrange (queue_key city) s))) [
        | inl e ↦ rw (e, enqueue_ad_script)
        | inr (n, e) ↦ elim (Bool-cases (leb max_ads n)) [
          | inl q ↦ rw (e, enqueue_ad_script) (rw q)
          | inr q ↦
              rw (e, enqueue_ad_script)
                (rw q λ c h. ground (arith, lrange-lpush_queue redis city (dumps item) s c))
        ]
      ]

  put_items-Delivered :
      (max_ads : ℕ) (body : EnqueueRequest) (items : List (String × QueueItem)) (s : Store)
      → Delivered items s (put_items redis max_ads body items s)
  unfolding put_items enqueue_ads
  put_items-Delivered max_ads body items s = elim (Bool-cases (type_name body.item_type == "AD")) [
    | inl e ↦ rw e (ads items)
    | inr e ↦ rw e (enqueue_each-delivers body items s)
  ]
    where
      ads : (l : List (String × QueueItem)) → Delivered l s (enqueue_ads redis max_ads l s)
      ads [] = fanout_ad-Delivered max_ads [] s
      ads ((city, item) ∷ []) = enqueue_ad-Delivered max_ads city item s
      ads (p ∷ q ∷ l) = fanout_ad-Delivered max_ads (p ∷ q ∷ l) s

  -- What an answer of the endpoint says of the items and the store.
  abbrev Answers :
      List (String × QueueItem) → Store → Result HttpError EnqueueResponse × Store → Type 0
  Answers items s (ok r, s') =
      (r.city_tags ≡ cities_of items)
      × (r.ids ≡ ids_of items)
      × ((c : String)
          → count_if (λ x. x == c) (cities_of items) ≤ 1
          → lrange (queue_key c) s' ≡ deliver (item_for c items) (lrange (queue_key c) s))
  Answers items s (err e, s') = s' ≡ s

  respond-Answers :
      (max_ads : ℕ) (p : String × QueueItem) (items : List (String × QueueItem)) (s : Store)
      (r : Result QueueError (Unit {0}) × Store)
      → Delivered (p ∷ items) s r
      → Answers (p ∷ items) s (respond max_ads (p ∷ items) r.0, r.1)
  respond-Answers max_ads p items s (ok u, s') h = (refl, refl, h)
  respond-Answers max_ads p items s (err e, s') h = h

  enqueue_items-Answers :
      (max_ads : ℕ) (body : EnqueueRequest) (items : List (String × QueueItem)) (s : Store)
      → Answers items s (enqueue_items redis max_ads body items s)
  unfolding enqueue_items
  enqueue_items-Answers max_ads body [] s = refl
  enqueue_items-Answers max_ads body (p ∷ items) s =
      respond-Answers max_ads p items s (put_items redis max_ads body (p ∷ items) s)
        (put_items-Delivered max_ads body (p ∷ items) s)

  module _ (cfg : Settings) (uuid : ℕ → String) (token : Option String) (body : EnqueueRequest)
      (s s' : Store) where
    abbrev items_of : List (String × QueueItem)
    items_of =
        prepare_enqueue uuid body.item_type body.uri (meta_fields body.meta) body.city_tag
          cfg.active_cities

    enqueue-Answers : Answers items_of s (enqueue redis cfg uuid token body s)
    unfolding enqueue
    enqueue-Answers =
        elim (Result-cases
          (require_internal_token cfg.internal_token token >> validate_request cfg body)) [
            | inr (e, q) ↦ rw (q, enqueue)
            | inl (u, q) ↦
                rw (q, enqueue) (enqueue_items-Answers cfg.max_pending_ads body items_of s)
          ]

    -- A refused request, whatever the reason, leaves the store as it was: a fan-out puts its item
    -- into the queues of all its cities or into none.
    pub enqueue-refused :
        (e : HttpError) → enqueue redis cfg uuid token body s ≡ (err e, s') → s' ≡ s
    enqueue-refused e h = rw h at enqueue-Answers

    -- If no tag stands twice among the active cities, an accepted request puts exactly the item
    -- that is prepared for a city at the head of that city's queue, and leaves the queues of the
    -- other cities as they were; the answer lists the target cities and the items' ids.
    pub enqueue-delivers :
        (r : EnqueueResponse)
        → IsDistinct cfg.active_cities
        → enqueue redis cfg uuid token body s ≡ (ok r, s')
        → (r.city_tags ≡ resolve_target_cities body.city_tag cfg.active_cities)
          × (r.ids ≡ ids_of items_of)
          × ((c : String)
              → lrange (queue_key c) s' ≡ deliver (item_for c items_of) (lrange (queue_key c) s))
    unfolding prepare_enqueue
    enqueue-delivers r d h =
        let answers : Answers items_of s (ok r, s') = rw h at enqueue-Answers in
        let targets : cities_of items_of ≡ resolve_target_cities body.city_tag cfg.active_cities =
          cities_of-items_from uuid body.item_type body.uri (meta_fields body.meta) 0 _ in
        (
          answers.0 ∙ targets,
          answers.1,
          λ c. answers.2 c (rw targets (resolve-IsDistinct body.city_tag cfg.active_cities d c)),
        )
