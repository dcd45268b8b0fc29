-- ===== src/Bot/Order/Examples.antt =====
-- A track that is searched, confirmed twice and cancelled.
use fm.Base.{map, ◌+◌, ◌≤◌, ◌≡◌, refl, none, some, List, [], ◌∷◌, All, count_if, ok}
use Prim.Native.String.{◌++◌}
use fm.Music.Resolve.{TrackInfo}
use fm.Bot.Order.{cancel, confirm, Chat, added, OrderClients}
use fm.Bot.Order.Taps.{
  has_colon, match_order, search_keyboard, confirm_keyboard, read_of, choices_of,
  keyboards-match_order,
}
use fm.Bot.Order.Once.{
  Event, command, tap, effects, is_answered, is_offer, IsFit, pending, effects-once,
}

abbrev clients_1 : OrderClients
clients_1 = record {
  strip = λ text. text;
  default_operator_city = "msk";
  search_tracks =
      λ query. ok (record { track_id = "7"; title = "T"; artist = "A"; duration_sec = none } ∷ []);
  resolve_stream_url = λ id. ok ("https://c/" ++ id);
  enqueue = λ payload. some added;
}

abbrev chat_1 : Chat
chat_1 = record { default_city = none; pending_tracks = [] }

abbrev events_1 : List Event
events_1 =
    command ("T" ∷ "-" ∷ "A" ∷ [])
    ∷ tap "order:confirm:7"
    ∷ tap "order:confirm:7"
    ∷ tap "order:cancel"
    ∷ []

effects-once_example :
    (count_if (is_answered clients_1) (effects clients_1 events_1 chat_1)
      ≤ count_if (is_offer clients_1) (effects clients_1 events_1 chat_1)
        + pending clients_1 chat_1)
    × All (IsFit clients_1) (effects clients_1 events_1 chat_1)
effects-once_example = effects-once clients_1 events_1 chat_1

answered_once : count_if (is_answered clients_1) (effects clients_1 events_1 chat_1) ≡ 1
unfolding effects count_if
answered_once = refl

abbrev found_1 : List TrackInfo
found_1 = record { track_id = "7"; title = "T"; artist = "A"; duration_sec = none } ∷ []

keyboards-match_order_example :
    (map match_order (search_keyboard found_1) ≡ choices_of found_1)
    × (map match_order (confirm_keyboard "7") ≡ read_of confirm "7" ∷ some (cancel, none) ∷ [])
keyboards-match_order_example = keyboards-match_order found_1 "7"

read_7 : read_of confirm "7" ≡ some (confirm, some "7")
unfolding has_colon
read_7 = refl
