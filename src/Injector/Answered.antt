-- ===== src/Injector/Answered.antt =====
-- What an answer of the endpoint says of the request.
use fm.Base.{
  ℕ, suc, String, ◌≡◌, refl, ap, true, false, not, ◌&&◌, Option, none, some, List, [], ◌∷◌,
  contains, ltb, Result, ok, err, ◌>>◌, Result-cases, Bool-cases, inl, inr, ◌==◌, string_eq, nat_eq,
  string_iff,
}
use fm.Base.Values.{Value, Fields}
use fm.Redis.{Redis}
use fm.Common.{secrets_match}
use fm.Injector.Fanout.{
  ItemType, QueueItem, build_queue_item, type_name, enqueue_types, resolve_target_cities,
  items_from, prepare_enqueue,
}
use fm.Injector.Queue.{QueueError, full_error, script_error}
use fm.Injector.Service.{
  Settings, EnqueueRequest, EnqueueResponse, HttpError, require_internal_token, validate_request,
  respond, enqueue_items, enqueue,
}
use fm.Injector.Delivery.{item_for, enqueue-refused}
use fm.Injector.Requests.{Invalid, HttpLayer, read_request, response_to, with_request, post_enqueue}

-- A refusal does not have the status of a success.
abbrev pub Refuses : {A : Type 0} → Result HttpError A → Type 0
Refuses (ok a) = Unit
Refuses (err e) = (e.status == 201) ≡ false

then-Refuses :
    {A : Type 0} (m : Result HttpError (Unit {0})) (k : Result HttpError A)
    → Refuses m
    → Refuses k
    → Refuses (m >> k)
then-Refuses (ok u) k h g = g
then-Refuses (err e) k h g = h

require_internal_token-Refuses :
    (internal_token : String) (token : Option String)
    → Refuses (require_internal_token internal_token token)
unfolding require_internal_token
require_internal_token-Refuses internal_token token = elim (Bool-cases (internal_token == "")) [
  | inl e ↦ rw (e, require_internal_token) refl
  | inr e ↦ elim (Bool-cases (secrets_match token internal_token)) [
    | inl f ↦ rw (e, require_internal_token) (rw f tt)
    | inr f ↦ rw (e, require_internal_token) (rw f refl)
  ]
]

validate_request-Refuses :
    (cfg : Settings) (body : EnqueueRequest) → Refuses (validate_request cfg body)
unfolding validate_request
validate_request-Refuses cfg body =
    elim (Bool-cases (not (contains (type_name body.item_type) enqueue_types))) [
      | inl e ↦ rw (e, validate_request) refl
      | inr e ↦
          elim (Bool-cases
            (not (body.city_tag == "all") && not (contains body.city_tag cfg.active_cities))) [
              | inl f ↦ rw (e, validate_request) (rw f refl)
              | inr f ↦
                  elim (Bool-cases (
                    type_name body.item_type == "AD"
                    && ltb cfg.max_ad_duration_sec body.meta.duration_sec)) [
                      | inl g ↦ rw (e, validate_request) (rw f (rw g refl))
                      | inr g ↦ rw (e, validate_request) (rw f (rw g tt))
                    ]
            ]
    ]

respond-Refuses :
    (max_ads : ℕ) (items : List (String × QueueItem)) (done : Result QueueError (Unit {0}))
    → Refuses (respond max_ads items done)
respond-Refuses max_ads items (ok u) = tt
respond-Refuses max_ads items (err (full_error city)) = refl
respond-Refuses max_ads items (err script_error) = refl

module _ (redis : Redis) where
  open redis use {Store}

  enqueue_items-Refuses :
      (max_ads : ℕ) (body : EnqueueRequest) (items : List (String × QueueItem)) (s : Store)
      → Refuses (enqueue_items redis max_ads body items s).0
  unfolding enqueue_items
  enqueue_items-Refuses max_ads body [] s = refl
  enqueue_items-Refuses max_ads body (first ∷ rest) s = respond-Refuses max_ads (first ∷ rest) _

  enqueue-Refuses :
      (cfg : Settings) (uuid : ℕ → String) (token : Option String) (body : EnqueueRequest)
      (s : Store)
      → Refuses (enqueue redis cfg uuid token body s).0
  unfolding enqueue
  enqueue-Refuses cfg uuid token body s =
      let checks = require_internal_token cfg.internal_token token >> validate_request cfg body in
      let refuses =
        then-Refuses (require_internal_token cfg.internal_token token) (validate_request cfg body)
          (require_internal_token-Refuses cfg.internal_token token)
          (validate_request-Refuses cfg body) in
      elim (Result-cases checks) [
        | inl (u, e) ↦ rw (e, enqueue) (enqueue_items-Refuses cfg.max_pending_ads body _ s)
        | inr (exc, e) ↦ rw (e, enqueue) (rw e at refuses)
      ]

  -- A response 201 is one to a well-formed request that the endpoint accepts.
  pub post_enqueue-accepted :
      (layer : HttpLayer) (cfg : Settings) (uuid : ℕ → String) (token : Option String)
      (payload : Value) (s : Store)
      → ((post_enqueue layer redis cfg uuid token payload s).0.status_code == 201) ≡ true
      → (body : EnqueueRequest) × (r : EnqueueResponse) × (read_request layer payload ≡ ok body)
        × (enqueue redis cfg uuid token body s
            ≡ (ok r, (post_enqueue layer redis cfg uuid token payload s).1))
  unfolding post_enqueue
  post_enqueue-accepted layer cfg uuid token payload s h =
      elim (Result-cases (require_internal_token cfg.internal_token token)) [
        | inr (exc, e) ↦ absurd (
            cc (
              rw e at (require_internal_token-Refuses cfg.internal_token token),
              rw (e, post_enqueue) at h,
            ))
        | inl (u, e) ↦
            rw (e, post_enqueue)
              (read (read_request layer payload) refl (rw (e, post_enqueue) at h))
      ]
    where
      answered :
          (body : EnqueueRequest) (p : Result HttpError EnqueueResponse × Store)
          → enqueue redis cfg uuid token body s ≡ p
          → ((response_to layer p.0).status_code == 201) ≡ true
          → Refuses p.0
          → (r : EnqueueResponse) × (p ≡ (ok r, p.1))
      answered body (ok r, t) e k refuses = (r, refl)
      answered body (err exc, t) e k refuses = absurd (cc (k, refuses))

      read :
          (m : Result Invalid EnqueueRequest)
          → read_request layer payload ≡ m
          → ((with_request layer redis cfg uuid token payload s m).0.status_code == 201) ≡ true
          → (body : EnqueueRequest) × (r : EnqueueResponse) × (read_request layer payload ≡ ok body)
            × (enqueue redis cfg uuid token body s
                ≡ (ok r, (with_request layer redis cfg uuid token payload s m).1))
      read (err refusal) e k = absurd (cc k)
      read (ok body) e k =
          let (r, f) =
            answered body (enqueue redis cfg uuid token body s) refl k
              (enqueue-Refuses cfg uuid token body s) in
          (body, r, e, f)

  -- A response with another status leaves the store as it was.
  pub post_enqueue-refused :
      (layer : HttpLayer) (cfg : Settings) (uuid : ℕ → String) (token : Option String)
      (payload : Value) (s : Store)
      → ((post_enqueue layer redis cfg uuid token payload s).0.status_code == 201) ≡ false
      → (post_enqueue layer redis cfg uuid token payload s).1 ≡ s
  unfolding post_enqueue
  post_enqueue-refused layer cfg uuid token payload s h =
      elim (Result-cases (require_internal_token cfg.internal_token token)) [
        | inr (exc, e) ↦ rw (e, post_enqueue) refl
        | inl (u, e) ↦
            rw (e, post_enqueue) (read (read_request layer payload) (rw (e, post_enqueue) at h))
      ]
    where
      kept :
          (body : EnqueueRequest) (p : Result HttpError EnqueueResponse × Store)
          → enqueue redis cfg uuid token body s ≡ p
          → ((response_to layer p.0).status_code == 201) ≡ false
          → p.1 ≡ s
      kept body (ok r, t) e k = absurd (cc k)
      kept body (err exc, t) e k = enqueue-refused redis cfg uuid token body s t exc e

      read :
          (m : Result Invalid EnqueueRequest)
          → ((with_request layer redis cfg uuid token payload s m).0.status_code == 201) ≡ false
          → (with_request layer redis cfg uuid token payload s m).1 ≡ s
      read (err invalid_body) k = refl
      read (ok body) k = kept body (enqueue redis cfg uuid token body s) refl k

-- The item that is prepared for a target.
module _ (uuid : ℕ → String) (t : ItemType) (uri : String) (meta : Fields) where
  item_for-items_from :
      (n : ℕ) (c : String) (targets : List String)
      → contains c targets ≡ true
      → (m : ℕ) × (item_for c (items_from uuid t uri meta n targets)
          ≡ some (build_queue_item (uuid m) t uri c meta))
  unfolding items_from contains item_for
  item_for-items_from n c [] h = absurd (cc h)
  item_for-items_from n c (target ∷ targets) h = elim (Bool-cases (target == c)) [
    | inl e ↦ (
      n,
      rw e (
          ap (λ city. some (build_queue_item (uuid n) t uri city meta))
            ((string_iff target c).0 e)),
    )
    | inr e ↦ let (m, f) = item_for-items_from (suc n) c targets (rw e at h) in (m, rw e f)
  ]

  item_for-others :
      (n : ℕ) (c : String) (targets : List String)
      → contains c targets ≡ false
      → item_for c (items_from uuid t uri meta n targets) ≡ none
  unfolding items_from contains item_for
  item_for-others n c [] h = refl
  item_for-others n c (target ∷ targets) h = elim (Bool-cases (target == c)) [
    | inl e ↦ absurd (cc (rw e at h))
    | inr e ↦ rw e (item_for-others (suc n) c targets (rw e at h))
  ]

  -- A request for all cities prepares an item for every active city and for no other.
  pub item_for-all :
      (c : String) (active : List String)
      → contains c active ≡ true
      → (m : ℕ) × (item_for c (prepare_enqueue uuid t uri meta "all" active)
          ≡ some (build_queue_item (uuid m) t uri c meta))
  unfolding prepare_enqueue resolve_target_cities
  item_for-all c active h = item_for-items_from 0 c active h

  pub item_for-none :
      (c : String) (active : List String)
      → contains c active ≡ false
      → item_for c (prepare_enqueue uuid t uri meta "all" active) ≡ none
  unfolding prepare_enqueue resolve_target_cities
  item_for-none c active h = item_for-others 0 c active h
