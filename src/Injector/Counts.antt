-- ===== src/Injector/Counts.antt =====
-- How the operations of the queues change the number of pending ads of a city.
use fm.Base.{
  ℕ, suc, ◌+◌, String, ◌≡◌, refl, string_iff, some, List, [], ◌∷◌, arith, if◌then◌else◌, ◌==◌,
  string_eq, count_if, key_same, key_other, Bool-cases, Option-cases, ◌&&◌, clash, inl, inr, Bool,
}
use fm.Base.Values.{dict, null, bool, int, str, list}
use fm.Redis.{Redis, Raw, json, text}
use fm.Injector.Fanout.{type_name, QueueItem}
use fm.Injector.Queue.{
  has_type, lua_is_ad, scan_ads, dumps, queue_key, playlist_buffer_key, count_pending_ads,
  record_playlist_buffer, queue_prefix, buffer_prefix,
}

lua-eq-python : (raw : Raw) {b : Bool} → lua_is_ad raw ≡ some b → has_type "AD" raw ≡ b
unfolding lua_is_ad has_type
lua-eq-python (text t) h = cc
lua-eq-python (json null) h = cc
lua-eq-python (json (bool b)) h = cc
lua-eq-python (json (int n)) h = cc
lua-eq-python (json (str t)) h = cc
lua-eq-python (json (list vs)) h = cc
lua-eq-python (json (dict fs)) h = ground arith

scan_step :
    (n : ℕ) (b : Bool) (raw : Raw) (items : List Raw) {m : ℕ}
    → has_type "AD" raw ≡ b
    → m ≡ (if b then n + 1 else n) + count_if (has_type "AD") items
    → m ≡ n + count_if (has_type "AD") (raw ∷ items)
unfolding count_if
scan_step n b raw items e h = ground arith

-- The scripts count what `count_pending_ads` counts, unless an item makes them fail.
pub scan_ads-count :
    (n : ℕ) (items : List Raw) {m : ℕ}
    → scan_ads n items ≡ some m
    → m ≡ n + count_if (has_type "AD") items
unfolding scan_ads count_if
scan_ads-count n [] h = ground arith
scan_ads-count n (raw ∷ items) {m} h = elim (Option-cases (lua_is_ad raw)) [
  | inl e ↦ absurd (ground (arith, e))
  | inr (b, e) ↦
      scan_step n b raw items (lua-eq-python raw e)
        (scan_ads-count (if b then n + 1 else n) items (rw (e, scan_ads) at h))
]

pub has_type-dumps :
    (t : String) (item : QueueItem) → has_type t (dumps item) ≡ (type_name item.item_type == t)
unfolding has_type dumps
has_type-dumps t item = refl

module _ (redis : Redis) where
  open redis use {Store, lrange, lpush, ltrim}

  -- A push on one queue, read from any queue.
  pub lrange-lpush_queue :
      (city : String) (raw : Raw) (s : Store) (c : String)
      → lrange (queue_key c) (lpush (queue_key city) raw s)
        ≡ (if city == c then raw ∷ lrange (queue_key c) s else lrange (queue_key c) s)
  unfolding queue_key
  lrange-lpush_queue city raw s c = elim (Bool-cases (city == c)) [
    | inl e ↦ cc (
      redis.lrange-lpush (queue_key city) raw s (queue_key c),
      key_same queue_prefix city c,
      (string_iff city c).0 e,
    )
    | inr e ↦
        cc
          (e, redis.lrange-lpush (queue_key city) raw s (queue_key c), key_same queue_prefix city c)
  ]

  pub count_pending_ads-lpush :
      (city : String) (raw : Raw) (s : Store) (c : String)
      → count_pending_ads redis c (lpush (queue_key city) raw s) ≡ (
          if city == c && has_type "AD" raw
          then suc (count_pending_ads redis c s)
          else count_pending_ads redis c s)
  unfolding count_pending_ads count_if
  count_pending_ads-lpush city raw s c = ground (arith, lrange-lpush_queue city raw s c)

  -- Keys that are no queues do not matter to the counts.
  pub lrange-buffer :
      (city track_id : String) (n : ℕ) (s : Store) (c : String)
      → lrange (queue_key c) (record_playlist_buffer redis city track_id n s)
        ≡ lrange (queue_key c) s
  unfolding record_playlist_buffer queue_key playlist_buffer_key clash
  lrange-buffer city track_id n s c = cc (
    redis.lrange-ltrim (playlist_buffer_key city) n
        (lpush (playlist_buffer_key city) (text track_id) s) (queue_key c),
    redis.lrange-lpush (playlist_buffer_key city) (text track_id) s (queue_key c),
    key_other buffer_prefix queue_prefix city c refl,
  )

  pub scan-pending :
      (city : String) (s : Store) {n : ℕ}
      → scan_ads 0 (lrange (queue_key city) s) ≡ some n
      → count_pending_ads redis city s ≡ n
  unfolding count_pending_ads
  scan-pending city s h = omega (arith, scan_ads-count 0 (lrange (queue_key city) s) h)
