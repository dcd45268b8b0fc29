-- ===== src/News/Air/Examples.antt =====
-- An item that is prepared for the slot of 00:15, and aired.
use fm.Base.{ℕ, String, ◌≡◌, refl, true, none, some, [], ◌∷◌, ok, count_if, arith}
use fm.Base.Int.{pos, ◌+ℤ◌, ◌-ℤ◌}
use fm.Base.Values.{dict, field, str, end, int}
use fm.Datetime.{Datetime}
use fm.Table.{listed}
use fm.Redis.{Held, memory, nothing_held, json}
use fm.News.Clock.{current_enqueue_slot}
use fm.News.Items.{NewsItem, ready}
use fm.News.Slip.{estimate_slip_sec}
use fm.News.Air.{AirTools}
use fm.News.Air.Broadcast.{connected, Broadcasts, run_once-Broadcasts}
use fm.Injector.Service.{Settings}
use fm.Injector.Cap.{IsDistinct}
use fm.Injector.Requests.{HttpLayer, post_enqueue}
use fm.News.Air.Run.{no_stats, Worker, run_once}
use fm.News.Air.Counted.{Ends, run_once-Ends}
use fm.News.Air.Materialize.{Materializer, run_materialize}
use fm.News.Air.Handover.{Prepares, run_materialize-Prepares}

abbrev tools_1 : AirTools
tools_1 = record {
  strip = λ text. text;
  probe_duration = λ path. some 61_500_000;
  default_duration_sec = 90;
  stinger_uri = "file:///data/news/news-stinger.mp3";
}

abbrev slot_name : Datetime → String
slot_name slot = "slot"

abbrev worker_1 : Worker Held
worker_1 = record {
  cities = "msk" ∷ [];
  tools = tools_1;
  slot_iso = slot_name;
  max_slip_sec = 600_000_000;
  hgetall = λ s key. [];
  started_at = λ text. none;
  parse_float = λ text. none;
  to_int = λ value. ok (pos 0);
  to_float = λ value. ok (pos 0);
  post = λ payload s.
      (ok (record { status_code = 201; body = some (dict (field "id" (str "q1") end)) }), s);
}

abbrev item_1 : NewsItem
item_1 = record {
  id = 1;
  source_url = "https://news.example/1";
  summary_ru = some "summary";
  audio_url = some "file:///data/news/1.mp3";
  play_count = 0;
  last_played_at = none;
  status = ready;
  content_hash = some "h";
}

abbrev pinned_1 : Held
pinned_1 = record nothing_held { value_at = λ k. some (json (int (pos 1))) }

run_once-Ends_example :
    Ends memory
      (listed (λ (item : NewsItem). item.id))
      worker_1
      (current_enqueue_slot 901_000_000)
      (item_1 ∷ [])
      pinned_1
      (run_once memory (listed (λ item. item.id)) worker_1 901_000_000 (item_1 ∷ []) pinned_1)
run_once-Ends_example =
    run_once-Ends memory (listed (λ (item : NewsItem). item.id)) worker_1 901_000_000 (item_1 ∷ [])
      pinned_1

aired_1 :
    (run_once memory
      (listed (λ (item : NewsItem). item.id))
      worker_1
      901_000_000
      (item_1 ∷ [])
      pinned_1).1
    ≡ record item_1 { play_count = 1; last_played_at = some 900_000_000 } ∷ []
unfolding run_once estimate_slip_sec ◌+ℤ◌ ◌-ℤ◌
aired_1 = refl

abbrev materializer_1 : Materializer Held
materializer_1 = record {
  cities = "msk" ∷ "spb" ∷ [];
  clients = record {
    fetch_article_body = λ url. ok "body";
    summarize = λ text tightened. ok "summary";
    synthesize = λ text id. ok "file:///1.mp3";
    strip = λ text. text;
    split = λ text. [];
  };
  slot_iso = slot_name;
  get_played_count = λ s hash. 0;
  max_plays = 3;
}

run_materialize-Prepares_example :
    Prepares memory (listed (λ (item : NewsItem). item.id)) materializer_1 120_000_000 (
      run_materialize memory
        (listed (λ item. item.id))
        materializer_1
        120_000_000
        (item_1 ∷ [])
        nothing_held)
run_materialize-Prepares_example =
    run_materialize-Prepares memory (listed (λ (item : NewsItem). item.id)) materializer_1
      120_000_000 (item_1 ∷ []) nothing_held

abbrev cfg_1 : Settings
cfg_1 = record {
  max_pending_ads = 1;
  max_ad_duration_sec = 60;
  internal_token = "key";
  active_cities = "msk" ∷ [];
}

abbrev layer_1 : HttpLayer
layer_1 = record {
  to_int = λ value. elim value [ int n ↦ some n | _ ↦ none ];
  unprocessable = λ value. value;
  message = λ detail. "refused";
}

one_city : IsDistinct cfg_1.active_cities
unfolding count_if
one_city c = ground arith

abbrev uuid_1 : ℕ → String
uuid_1 n = "id"

abbrev worker_2 : Worker Held
worker_2 =
    connected memory (listed (λ (item : NewsItem). item.id)) layer_1 cfg_1 uuid_1 (some "key")
      worker_1

run_once-Broadcasts_example :
    Broadcasts memory
      (listed (λ (item : NewsItem). item.id))
      layer_1
      cfg_1
      uuid_1
      (some "key")
      worker_1
      (current_enqueue_slot 901_000_000)
      (item_1 ∷ [])
      pinned_1
      (run_once memory
        (listed (λ (item : NewsItem). item.id))
        worker_2
        901_000_000
        (item_1 ∷ [])
        pinned_1)
run_once-Broadcasts_example =
    run_once-Broadcasts memory (listed (λ (item : NewsItem). item.id)) layer_1 cfg_1 uuid_1
      (some "key") one_city worker_1 901_000_000 (item_1 ∷ []) pinned_1

sent_1 :
    (run_once memory
      (listed (λ (item : NewsItem). item.id))
      worker_2
      901_000_000
      (item_1 ∷ [])
      pinned_1).0
    ≡ ok (record (no_stats 1) { enqueued = true; item_id = some (pos 1) })
unfolding run_once estimate_slip_sec ◌+ℤ◌ ◌-ℤ◌ post_enqueue
sent_1 = refl
