-- ===== src/Injector/Fanout.antt =====
-- services/injector/fanout.py: the target cities of a request and the item for each.
use fm.Base.{ℕ, suc, String, List, [], ◌∷◌, ◌++◌, contains, if◌then◌else◌, ◌==◌, string_eq}
use fm.Base.Int.{pos}
use fm.Base.Values.{Value, Fields, int, str, dict, end, field}

pub data ItemType : Type 0 where
  ad news_pair music_order music : ItemType

unfoldable pub type_name : ItemType → String
type_name ad = "AD"
type_name news_pair = "NEWS_PAIR"
type_name music_order = "MUSIC_ORDER"
type_name music = "MUSIC"

abbrev pub phase1_types : List String
phase1_types = "AD" ∷ []

abbrev pub phase2_types : List String
phase2_types = "MUSIC" ∷ "MUSIC_ORDER" ∷ []

abbrev pub phase3_types : List String
phase3_types = "NEWS_PAIR" ∷ []

abbrev pub enqueue_types : List String
enqueue_types = phase1_types ++ (phase2_types ++ phase3_types)

unfoldable pub type_priority : ItemType → ℕ
type_priority ad = 100
type_priority news_pair = 80
type_priority music_order = 50
type_priority music = 10

unfoldable pub resolve_target_cities : String → List String → List String
unfolding contains
resolve_target_cities city_tag active_cities =
    if city_tag == "all"
    then active_cities
    else if contains city_tag active_cities
    then city_tag ∷ []
    else []

pub record QueueItem : Type 0 where
  pub id : String
  pub item_type : ItemType
  pub priority : ℕ
  pub uri : String
  pub city_tag : String
  pub meta : Fields

-- `id` is the text of `uuid.uuid4()`.
unfoldable pub build_queue_item : String → ItemType → String → String → Fields → QueueItem
unfolding type_priority
build_queue_item id item_type uri city_tag meta = record {
  id = id;
  item_type = item_type;
  priority = type_priority item_type;
  uri = uri;
  city_tag = city_tag;
  meta = meta;
}

-- The dictionary that is written to a queue.
unfoldable pub item_value : QueueItem → Value
unfolding type_name
item_value item = dict (
    field "id" (str item.id) (
      field "type" (str (type_name item.item_type)) (
        field "priority" (int (pos item.priority)) (
          field "uri" (str item.uri)
            (field "city_tag" (str item.city_tag) (field "meta" (dict item.meta) end))))))

abbrev pub ids_of : List (String × QueueItem) → List String
ids_of [] = []
ids_of ((city, item) ∷ rest) = item.id ∷ ids_of rest

abbrev pub cities_of : List (String × QueueItem) → List String
cities_of [] = []
cities_of ((city, item) ∷ rest) = city ∷ cities_of rest

module _ (uuid : ℕ → String) (item_type : ItemType) (uri : String) (meta : Fields) where
  -- The comprehension over the targets; the n-th item takes the n-th generated id.
  unfoldable pub items_from : ℕ → List String → List (String × QueueItem)
  unfolding build_queue_item
  items_from n [] = []
  items_from n (target ∷ targets) =
      (target, build_queue_item (uuid n) item_type uri target meta) ∷ items_from (suc n) targets

  unfoldable pub prepare_enqueue : String → List String → List (String × QueueItem)
  unfolding resolve_target_cities items_from
  prepare_enqueue city_tag active_cities =
      items_from 0 (resolve_target_cities city_tag active_cities)
