-- ===== src/Injector/Purge.antt =====
-- The upkeep of queues and buffers: what `remove_pending_items_by_type` and
-- `record_playlist_buffer` leave behind.
use mathlib.Core.List.{reverse, reverse-cons, reverse-reverse, append_assoc, append-nil}
use fm.Base.{
  ℕ, ◌≤◌, String, ◌≡◌, refl, sym, ap, not, List, [], ◌∷◌, ◌++◌, arith, if◌then◌else◌, ◌==◌,
  string_eq, count_if, keep, take, length, length-take, Bool-cases, inl, inr, key_same, string_iff,
  string_refl,
}
use fm.Redis.{Redis, Raw, text}
use fm.Injector.Queue.{
  has_type, queue_key, queue_prefix, buffer_prefix, playlist_buffer_key, list_playlist_buffer,
  record_playlist_buffer,
}
use fm.Injector.Upkeep.{split_by_type, push_each, remove_pending_items_by_type}

split_by_type_lem :
    (t : String) (raws : List Raw)
    → split_by_type t raws ≡ (keep (λ raw. not (has_type t raw)) raws, count_if (has_type t) raws)
unfolding split_by_type keep count_if
split_by_type_lem t [] = refl
split_by_type_lem t (raw ∷ raws) = ground (arith, split_by_type_lem t raws)

keep_all :
    (t : String) (raws : List Raw)
    → count_if (has_type t) raws ≡ 0
    → keep (λ raw. not (has_type t raw)) raws ≡ raws
unfolding keep count_if
keep_all t [] h = refl
keep_all t (raw ∷ raws) h = ground (arith, keep_all t raws)

module _ (redis : Redis) where
  open redis use {Store, lrange, lpush, delete}

  buffer-record :
      (city track_id : String) (max_len : ℕ) (s : Store) (c : String)
      → list_playlist_buffer redis c (record_playlist_buffer redis city track_id max_len s) ≡ (
          if city == c
          then take max_len (text track_id ∷ list_playlist_buffer redis c s)
          else list_playlist_buffer redis c s)
  unfolding list_playlist_buffer record_playlist_buffer playlist_buffer_key
  buffer-record city track_id max_len s c =
      let key = playlist_buffer_key city in
      ground (
        arith,
        redis.lrange-ltrim key max_len (lpush key (text track_id) s) (playlist_buffer_key c),
        redis.lrange-lpush key (text track_id) s (playlist_buffer_key c),
        redis.lrange-lpush key (text track_id) s key,
        key_same buffer_prefix city c,
        string_iff city c,
        string_refl key,
      )

  -- The buffer of a city takes the track as its newest and keeps the newest `max_len`; the
  -- buffers of other cities stay as they were, and the buffer never holds more than `max_len`.
  pub record_playlist_buffer-bounded :
      (city track_id : String) (max_len : ℕ) (s : Store)
      → ((c : String)
          → list_playlist_buffer redis c (record_playlist_buffer redis city track_id max_len s) ≡ (
              if city == c
              then take max_len (text track_id ∷ list_playlist_buffer redis c s)
              else list_playlist_buffer redis c s))
        × (length (
              list_playlist_buffer redis city
                (record_playlist_buffer redis city track_id max_len s))
            ≤ max_len)
  record_playlist_buffer-bounded city track_id max_len s = (
    buffer-record city track_id max_len s,
    rw (buffer-record city track_id max_len s city) (
        rw (string_refl city)
          (omega (arith, length-take max_len (text track_id ∷ list_playlist_buffer redis city s)))),
  )

  lrange-push_each :
      (key : String) (raws : List Raw) (s : Store) (j : String)
      → lrange j (push_each redis key raws s)
        ≡ (if key == j then reverse raws ++ lrange j s else lrange j s)
  unfolding push_each
  lrange-push_each key [] s j = ground arith
  lrange-push_each key (raw ∷ raws) s j = elim (Bool-cases (key == j)) [
    | inl e ↦ rw (lrange-push_each key raws (lpush key raw s) j) (
        rw (redis.lrange-lpush key raw s j) (
          rw e (
            rw ((string_iff key j).0 e)
              (rw reverse-cons (sym (append_assoc (reverse raws) (raw ∷ []) (lrange j s)))))))
    | inr e ↦
        rw (lrange-push_each key raws (lpush key raw s) j)
          (rw (redis.lrange-lpush key raw s j) (rw e))
  ]

  queue-purged :
      (city t : String) (s : Store) (c : String)
      → lrange (queue_key c) (remove_pending_items_by_type redis city t s).1 ≡ (
          if city == c
          then keep (λ raw. not (has_type t raw)) (lrange (queue_key c) s)
          else lrange (queue_key c) s)
  unfolding remove_pending_items_by_type queue_key
  queue-purged city t s c =
      let key = queue_key city in
      let raws = lrange key s in
      let kept = keep (λ raw. not (has_type t raw)) raws in
      rw (split_by_type_lem t raws) (
        ground (
          arith,
          keep_all t raws,
          lrange-push_each key (reverse kept) (delete key s) (queue_key c),
          redis.lrange-delete key s (queue_key c),
          reverse-reverse kept,
          append-nil kept,
          key_same queue_prefix city c,
          string_iff city c,
        ))

  -- The purge takes all items of the type out of the queue of the city and keeps the others in
  -- their order, answers how many it took, and leaves the queues of the other cities alone.
  pub remove_pending_items_by_type_lem :
      (city t : String) (s : Store)
      → ((remove_pending_items_by_type redis city t s).0
          ≡ count_if (has_type t) (lrange (queue_key city) s))
        × ((c : String)
            → lrange (queue_key c) (remove_pending_items_by_type redis city t s).1 ≡ (
                if city == c
                then keep (λ raw. not (has_type t raw)) (lrange (queue_key c) s)
                else lrange (queue_key c) s))
  unfolding remove_pending_items_by_type
  remove_pending_items_by_type_lem city t s =
      (ap (λ p. p.1) (split_by_type_lem t (lrange (queue_key city) s)), queue-purged city t s)
