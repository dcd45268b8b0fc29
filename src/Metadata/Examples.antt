-- ===== src/Metadata/Examples.antt =====
-- A queue of three items and a block that plays.
use fm.Base.{
  ℕ, String, true, false, ◌≡◌, refl, none, some, ok, List, [], ◌∷◌, map, keep, reverse, string_eq,
}
use fm.Base.Int.{ℤ, pos}
use fm.Base.Values.{Value, Fields, str, int, dict, field, end}
use fm.Redis.{Raw, json}
use fm.Geo.Registry.{CityRegistry}
use fm.Metadata.NowPlaying.{Parsers, unreadable, reads, compute_remaining_sec, read_now_playing}
use fm.Metadata.Remaining.{Tells, read_now_playing-Tells}
use fm.Metadata.Queue.{QueueItemPreview, sort_pending_items}
use fm.Metadata.Preview.{Descending, has_priority, sort_pending_items_lem}

abbrev plain : Parsers
plain = record {
  strip = λ s. s;
  upper = λ s. s;
  is_digit = λ s. false;
  ends_with_z = λ s. true;
  epoch = λ s. unreadable;
  fromisoformat = λ s. reads (pos 5_000_000);
  isoformat = λ t. "";
  parse_int = λ s. some (pos 30);
}

abbrev shown : Value → String
shown (str s) = s
shown _ = ""

abbrev one_city : CityRegistry
one_city = record {
  cities =
      (
        "moscow",
        record {
          tag = "moscow";
          name = "Moscow";
          display_name = "Москва";
          lat = none;
          lon = none;
          aliases = [];
        },
      )
      ∷ [];
  default_tag = "moscow";
}

abbrev item_of : String → ℕ → Fields
item_of kind priority = field "type" (str kind) (field "priority" (int (pos priority)) end)

abbrev three : List Fields
three = item_of "MUSIC" 10 ∷ item_of "AD" 100 ∷ item_of "MUSIC" 10 ∷ []

abbrev queue_3 : String → List Raw
queue_3 key = map (λ item. json (dict item)) three

abbrev preview_of : ℕ → QueueItemPreview
preview_of n = record {
  title = "FM21";
  artist = none;
  content_type = fm.Metadata.NowPlaying.ContentType.ad;
  duration_sec = n;
}

abbrev playing : List (String × String)
playing = ("title", "Song") ∷ ("duration_sec", "30") ∷ ("started_at", "1970-01-01T00:00:05Z") ∷ []

sort_pending_items_lem_example :
    Descending plain shown (sort_pending_items plain shown three)
    × ((n : ℤ)
        → keep (has_priority plain shown n) (sort_pending_items plain shown three)
          ≡ reverse (keep (has_priority plain shown n) three))
sort_pending_items_lem_example = sort_pending_items_lem plain shown three

read_now_playing-Tells_example :
    Tells plain one_city "moscow" 7_000_000 playing
      (read_now_playing plain (λ key. playing) one_city "moscow" 7_000_000)
read_now_playing-Tells_example =
    read_now_playing-Tells plain (λ key. playing) one_city "moscow" 7_000_000

-- Two of its thirty seconds are over.
rest_28 : compute_remaining_sec plain (some "1970-01-01T00:00:05Z") 30 7_000_000 ≡ ok 28
unfolding compute_remaining_sec
rest_28 = refl
