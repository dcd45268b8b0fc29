-- ===== src/Injector/Examples.antt =====
-- Runs of the endpoint and the queues on small inputs, and the theorems at them.
use fm.Base.{
  ℕ, zero, suc, ◌≤◌, String, ◌≡◌, refl, some, [], ◌∷◌, Result, ok, err, arith, string_iff,
  Bool-cases, inl, inr, subst, count_if, keep, not, if◌then◌else◌, ◌==◌, string_eq,
}
use fm.Redis.{memory, Held, nothing_held}
use fm.Injector.Fanout.{ad, prepare_enqueue, resolve_target_cities, ids_of}
use fm.Injector.Queue.{count_pending_ads, has_type, queue_key, record_playlist_buffer}
use fm.Injector.Upkeep.{remove_pending_items_by_type}
use fm.Injector.Service.{
  Settings, EnqueueRequest, EnqueueResponse, HttpError, http_error, ad_queue_full,
  duration_exceeded, enqueue, meta_fields,
}
use fm.Injector.Cap.{IsCapped, IsDistinct}
use fm.Injector.Safety.{enqueue-IsCapped}
use fm.Injector.Delivery.{enqueue-refused, enqueue-delivers, deliver, item_for}
use fm.Injector.Purge.{remove_pending_items_by_type_lem}

abbrev cfg : Settings
cfg = record {
  max_pending_ads = 1;
  max_ad_duration_sec = 60;
  internal_token = "key";
  active_cities = "moscow" ∷ "spb" ∷ [];
}

abbrev voice_ad : String → ℕ → EnqueueRequest
voice_ad city duration = record {
  item_type = ad;
  uri = "file:///data/ads/1.mp3";
  city_tag = city;
  meta = record {
    title = "Voice ad";
    artist = "";
    duration_sec = duration;
    track_id = "";
    stinger_uri = "";
  };
}

abbrev uuids : ℕ → String
uuids zero = "id-0"
uuids (suc n) = "id-1"

abbrev answer : String → ℕ → Held → Result HttpError EnqueueResponse × Held
answer city duration s = enqueue memory cfg uuids (some "key") (voice_ad city duration) s

-- The store behind an ad for one city.
abbrev one_ad : Held
one_ad = (answer "spb" 30 nothing_held).1

program : Unit {0}
unfolding enqueue queue_key count_pending_ads remove_pending_items_by_type record_playlist_buffer
program = tt

all_cities :
    (answer "all" 30 nothing_held).0
    ≡ ok (record { id = "id-0"; ids = "id-0" ∷ "id-1" ∷ []; city_tags = "moscow" ∷ "spb" ∷ [] })
unfolding program
all_cities = refl

full_for_one_city : answer "all" 30 one_ad ≡ (err (http_error 409 (ad_queue_full "spb" 1)), one_ad)
unfolding program
full_for_one_city = refl

too_long : (answer "spb" 61 nothing_held).0 ≡ err (http_error 400 (duration_exceeded 60))
unfolding program
too_long = refl

distinct : IsDistinct cfg.active_cities
unfolding count_if
distinct c = elim (Bool-cases ("moscow" == c)) [
  | inl e ↦
      subst (λ d. count_if (λ x. x == d) cfg.active_cities ≤ 1) ((string_iff "moscow" c).0 e)
        (omega arith)
  | inr e ↦
      rw e
        (elim (Bool-cases ("spb" == c)) [ inl f ↦ rw f (omega arith) | inr f ↦ rw f (omega arith) ])
]

nothing-IsCapped : IsCapped memory 1 nothing_held
unfolding count_pending_ads
nothing-IsCapped c = omega arith

one_ad-IsCapped : IsCapped memory 1 one_ad
one_ad-IsCapped =
    enqueue-IsCapped memory cfg uuids (some "key") (voice_ad "spb" 30) nothing_held distinct
      nothing-IsCapped

enqueue-IsCapped_example : IsCapped memory 1 (answer "all" 30 one_ad).1
enqueue-IsCapped_example =
    enqueue-IsCapped memory cfg uuids (some "key") (voice_ad "all" 30) one_ad distinct
      one_ad-IsCapped

enqueue-refused_example : one_ad ≡ one_ad
enqueue-refused_example =
    enqueue-refused memory cfg uuids (some "key") (voice_ad "all" 30) one_ad one_ad
      (http_error 409 (ad_queue_full "spb" 1)) full_for_one_city

abbrev everywhere : EnqueueResponse
everywhere = record { id = "id-0"; ids = "id-0" ∷ "id-1" ∷ []; city_tags = "moscow" ∷ "spb" ∷ [] }

all_cities_store : answer "all" 30 nothing_held ≡ (ok everywhere, (answer "all" 30 nothing_held).1)
unfolding program
all_cities_store = refl

enqueue-delivers_example :
    (everywhere.city_tags ≡ resolve_target_cities "all" cfg.active_cities)
    × (everywhere.ids
        ≡ ids_of (
            prepare_enqueue uuids ad "file:///data/ads/1.mp3"
              (meta_fields (voice_ad "all" 30).meta)
              "all"
              cfg.active_cities))
    × ((c : String)
        → memory.lrange (queue_key c) (answer "all" 30 nothing_held).1
          ≡ deliver
              (item_for c (
                prepare_enqueue uuids ad "file:///data/ads/1.mp3"
                  (meta_fields (voice_ad "all" 30).meta)
                  "all"
                  cfg.active_cities))
              [])
enqueue-delivers_example =
    enqueue-delivers memory cfg uuids (some "key") (voice_ad "all" 30) nothing_held
      (answer "all" 30 nothing_held).1 everywhere distinct all_cities_store

abbrev purged : Held
purged = (remove_pending_items_by_type memory "spb" "AD" one_ad).1

remove_pending_items_by_type_lem_example :
    ((remove_pending_items_by_type memory "spb" "AD" one_ad).0
      ≡ count_if (has_type "AD") (one_ad.list_at (queue_key "spb")))
    × ((c : String)
        → purged.list_at (queue_key c) ≡ (
            if "spb" == c
            then keep (λ raw. not (has_type "AD" raw)) (one_ad.list_at (queue_key c))
            else one_ad.list_at (queue_key c)))
remove_pending_items_by_type_lem_example = remove_pending_items_by_type_lem memory "spb" "AD" one_ad
