-- ===== src/News/Air/Broadcast.antt =====
-- The enqueue worker and the injector together: the exchange with the injector is its endpoint, on the
-- same store.
use fm.Base.{
  ℕ, String, ◌≡◌, refl, sym, ◌∙◌, ap, Bool, true, false, Option, some, List, ◌∷◌, contains, Result,
  ok, err, bind-ok, ok_inj, clash, key_other, ◌==◌, string_eq, nat_eq, Bool-cases, inl, inr,
}
use fm.Base.Int.{ℤ}
use fm.Base.Values.{Value, Fields, str, dict, end, field, get_field}
use fm.Datetime.{Datetime}
use fm.Table.{Table}
use fm.Redis.{Redis}
use fm.Ads.Client.{Response}
use fm.Injector.Fanout.{news_pair, build_queue_item, prepare_enqueue}
use fm.Injector.Queue.{queue_key, dumps}
use fm.Injector.Service.{Settings, EnqueueRequest, EnqueueResponse, meta_fields, enqueue}
use fm.Injector.Cap.{IsDistinct}
use fm.Injector.Delivery.{item_for, deliver, enqueue-delivers}
use fm.Injector.Requests.{HttpLayer, read_meta, read_request, post_enqueue}
use fm.Injector.Answered.{post_enqueue-accepted, post_enqueue-refused, item_for-all, item_for-none}
use fm.News.Clock.{current_enqueue_slot}
use fm.News.Items.{NewsItem}
use fm.News.Air.{AirTools, AirError, text_or, played_key, build_news_pair_payload}
use fm.News.Air.Run.{EnqueueStats, Worker, read_pins, find_pinned, run_once}
use fm.News.Air.Counted.{Ends, run_once-Ends}

-- What the injector reads of the body of a request for news.
read_fields :
    (layer : HttpLayer) (uri : String) (meta : Fields) (body : EnqueueRequest)
    → (uri == "") ≡ false
    → read_request layer (
        dict (
          field "type"
            (str "NEWS_PAIR")
            (field "uri" (str uri) (field "city_tag" (str "all") (field "meta" (dict meta) end)))))
      ≡ ok body
    → (body.item_type ≡ news_pair) × (body.uri ≡ uri) × (body.city_tag ≡ "all")
unfolding read_request get_field
read_fields layer uri meta body full read =
    let (m, a, b) =
      bind-ok (read_meta layer (some (dict meta)))
        (λ m. ok (record { item_type = news_pair; uri = uri; city_tag = "all"; meta = m })) body
        (rw (full, read_request) at read) in
    let same = ok_inj b in
    (
      sym (ap (λ (r : EnqueueRequest). r.item_type) same),
      sym (ap (λ (r : EnqueueRequest). r.uri) same),
      sym (ap (λ (r : EnqueueRequest). r.city_tag) same),
    )

read_request-news :
    (layer : HttpLayer) (tools : AirTools) (item : NewsItem) (payload : Value)
    (body : EnqueueRequest)
    → build_news_pair_payload tools item ≡ ok payload
    → read_request layer payload ≡ ok body
    → (body.item_type ≡ news_pair)
      × (body.uri ≡ text_or "" item.audio_url)
      × (body.city_tag ≡ "all")
unfolding build_news_pair_payload
read_request-news layer tools item payload body built read =
    elim (Bool-cases (text_or "" item.audio_url == "")) [
      | inl e ↦ absurd (cc (rw (e, build_news_pair_payload) at built))
      | inr e ↦
          read_fields layer (text_or "" item.audio_url) _ body e
            (ap (read_request layer) (ok_inj (rw (e, build_news_pair_payload) at built)) ∙ read)
    ]

module _ (redis : Redis) (table : Table (λ (item : NewsItem). item.id)) (layer : HttpLayer)
    (cfg : Settings) (uuid : ℕ → String) (token : Option String) where
  open redis use {Store, lrange}
  open table use {Db}

  abbrev pub post_to : Value → Store → Result AirError Response × Store
  post_to payload s =
      let answer = post_enqueue layer redis cfg uuid token payload s in (ok answer.0, answer.1)

  -- The worker whose exchange is the injector's endpoint.
  abbrev pub connected : Worker Store → Worker Store
  connected worker = record worker { post = post_to }

  -- In an active city the news is at the head of the queue; in another the queue stays.
  abbrev pub QueuedAt : Bool → String → String → Store → Store → Type 0
  QueuedAt true c uri s s' =
      (id : String) × (meta : Fields) × (lrange (queue_key c) s'
        ≡ dumps (build_queue_item id news_pair uri c meta) ∷ lrange (queue_key c) s)
  QueuedAt false c uri s s' = lrange (queue_key c) s' ≡ lrange (queue_key c) s

  abbrev pub IsQueued : String → Store → Store → Type 0
  IsQueued uri s s' = (c : String) → QueuedAt (contains c cfg.active_cities) c uri s s'

  delivered :
      (body : EnqueueRequest) (r : EnqueueResponse) (uri : String) (s s' : Store)
      → IsDistinct cfg.active_cities
      → enqueue redis cfg uuid token body s ≡ (ok r, s')
      → (body.item_type ≡ news_pair) × (body.uri ≡ uri) × (body.city_tag ≡ "all")
      → (c : String) (b : Bool) → contains c cfg.active_cities ≡ b
      → QueuedAt b c uri s s'
  delivered body r uri s s' distinct accepted (t, u, v) c b e = at_city b e
    where
      meta : Fields
      meta = meta_fields body.meta

      items :
          item_for c
            (prepare_enqueue uuid body.item_type body.uri meta body.city_tag cfg.active_cities)
          ≡ item_for c (prepare_enqueue uuid news_pair uri meta "all" cfg.active_cities)
      items = rw t (rw u (rw v refl))

      step :
          lrange (queue_key c) s'
          ≡ deliver
              (item_for c (prepare_enqueue uuid news_pair uri meta "all" cfg.active_cities))
              (lrange (queue_key c) s)
      step =
          (enqueue-delivers redis cfg uuid token body s s' r distinct accepted).2 c
          ∙ ap (λ item. deliver item (lrange (queue_key c) s)) items

      at_city : (b : Bool) → contains c cfg.active_cities ≡ b → QueuedAt b c uri s s'
      at_city true f =
          let (m, found) = item_for-all uuid news_pair uri meta c cfg.active_cities f in
          (uuid m, meta, step ∙ ap (λ item. deliver item (lrange (queue_key c) s)) found)
      at_city false f =
          step
          ∙ ap (λ item. deliver item (lrange (queue_key c) s))
              (item_for-none uuid news_pair uri meta c cfg.active_cities f)

  other_key : (hash c : String) → (played_key hash == queue_key c) ≡ false
  unfolding queue_key clash
  other_key hash c = key_other "fm21:news:played:" "fm21:queue:" hash c refl

  -- The mirror is no queue.
  mirrored :
      (uri hash : String) (s sent s' : Store)
      → ((key : String) → (played_key hash == key) ≡ false → lrange key s' ≡ lrange key sent)
      → (c : String) (b : Bool) → QueuedAt b c uri s sent
      → QueuedAt b c uri s s'
  mirrored uri hash s sent s' same c true (id, meta, h) =
      (id, meta, same (queue_key c) (other_key hash c) ∙ h)
  mirrored uri hash s sent s' same c false h = same (queue_key c) (other_key hash c) ∙ h

  -- What a run leaves in the queues.
  abbrev pub Broadcasts :
      Worker Store → Datetime → Db → Store → Result AirError EnqueueStats × Db × Store → Type 0
  Broadcasts worker slot before s (err e, db, s') = Unit
  Broadcasts worker slot before s (ok stats, db, s') =
      (stats.enqueued ≡ false → s' ≡ s)
      × (stats.enqueued ≡ true
          → (n : ℤ) × (pins : List ℤ) × (item : NewsItem) × (stats.item_id ≡ some n)
            × (read_pins redis table worker.cities (worker.slot_iso slot) s ≡ ok (some (n ∷ pins)))
            × (find_pinned redis table n before ≡ some item)
            × IsQueued (text_or "" item.audio_url) s s')

  ended :
      (worker : Worker Store) (slot : Datetime) (db : Db) (s : Store)
      (p : Result AirError EnqueueStats × Db × Store)
      → IsDistinct cfg.active_cities
      → Ends redis table (connected worker) slot db s p
      → Broadcasts worker slot db s p
  ended worker slot db s (err e, db', s') distinct ends = tt
  ended worker slot db s (ok stats, db', s') distinct ends = (
    (λ f. elim (ends.1 f).1 [
      | inl same ↦ same
      | inr (payload, response, posted, code) ↦
          sym (sent_store payload response s' posted)
          ∙ post_enqueue-refused redis layer cfg uuid token payload s
              (answer_code payload response s' posted false code)
    ]),
    (λ aired.
        let (n, pins, item, sent, a, b, c, d, (payload, response, built, posted, code), counted) =
          ends.2 aired in
        let (body, r, read, accepted) =
          post_enqueue-accepted redis layer cfg uuid token payload s
            (answer_code payload response sent posted true code) in
        (
          n,
          pins,
          item,
          a,
          b,
          c,
          (λ city.
              mirrored (text_or "" item.audio_url) (text_or "" item.content_hash) s sent s'
                counted.1.0 city (contains city cfg.active_cities)
                (delivered body r (text_or "" item.audio_url) s sent distinct
                  (accepted ∙ ap (λ t. (ok r, t)) (sent_store payload response sent posted))
                  (read_request-news layer worker.tools item payload body built read) city
                  (contains city cfg.active_cities) refl)),
        )),
  )
    where
      answer_code :
          (payload : Value) (response : Response) (sent : Store)
          → post_to payload s ≡ (ok response, sent)
          → (b : Bool) → (response.status_code == 201) ≡ b
          → ((post_enqueue layer redis cfg uuid token payload s).0.status_code == 201) ≡ b
      answer_code payload response sent posted b code =
          ap (λ (a : Response). a.status_code == 201) (ok_inj (ap (λ p. p.0) posted)) ∙ code

      sent_store :
          (payload : Value) (response : Response) (sent : Store)
          → post_to payload s ≡ (ok response, sent)
          → (post_enqueue layer redis cfg uuid token payload s).1 ≡ sent
      sent_store payload response sent posted = ap (λ p. p.1) posted

  -- The active cities are distinct, and the worker talks to the injector. When a run of the worker
  -- reports a success, every city of the worker had a pin for the current slot, and the item under
  -- the first of these pins, whose id is reported, stands at the head of the queue of every active
  -- city, with its file, while no other queue has changed; a run that reports something else leaves
  -- the store as it was. Of a run that raises nothing is said.
  pub run_once-Broadcasts :
      IsDistinct cfg.active_cities
      → (worker : Worker Store) (now : Datetime) (db : Db) (s : Store)
      → Broadcasts worker
          (current_enqueue_slot now)
          db
          s
          (run_once redis table (connected worker) now db s)
  run_once-Broadcasts distinct worker now db s =
      ended worker (current_enqueue_slot now) db s
        (run_once redis table (connected worker) now db s) distinct
        (run_once-Ends redis table (connected worker) now db s)
