-- ===== src/Bot/Order.antt =====
-- services/bot/parsers/order.py and services/bot/handlers/order.py: a track is searched, chosen and
-- ordered. The updates of one chat are handled one after the other. `strip`, the search, the resolution
-- of a URL and the exchange with the injector are parameters; what is written to the user is left out
-- but for its kind.
pub mod Taps
pub mod Once
mod Examples
use fm.Base.{
  ℕ, String, Bool, true, false, ◌||◌, Option, none, some, List, [], ◌∷◌, Result, ok, err, put,
  look_up, if◌then◌else◌, ◌==◌, string_eq, nat_eq,
}
use Prim.Native.Char.{code}
use Prim.Native.String.{◌++◌}
use fm.Base.Int.{pos}
use fm.Base.Values.{Value, int, str, dict, field, end}
use fm.Music.Resolve.{TrackInfo}

-- The dashes —, – and -.
abbrev pub is_dash : ℕ → Bool
is_dash c = c == 8212 || (c == 8211 || c == 45)

abbrev pub with_char : String → Option (String × String) → Option (String × String)
with_char c none = none
with_char c (some (before, after)) = some (c ++ before, after)

-- What stands before and behind the first dash. The blanks around it, which the pattern takes away, go
-- with `strip`.
unfoldable pub split_dash : String → Option (String × String)
split_dash String.[] = none
split_dash (String.◌∷◌ c rest) =
    let later = split_dash rest in
    if is_dash (code c) then some ("", rest) else with_char (String.◌∷◌ c String.[]) later

unfoldable pub join_space : List String → String
join_space [] = ""
join_space (arg ∷ []) = arg
join_space (arg ∷ next ∷ args) = arg ++ (" " ++ join_space (next ∷ args))

module _ (strip : String → String) where
  abbrev pub both_given : Option (String × String) → Option (String × String)
  both_given none = none
  both_given (some (before, after)) =
      if strip before == "" || strip after == "" then none else some (strip before, strip after)

  unfoldable pub parse_order_args : List String → Option (String × String)
  unfolding split_dash join_space
  parse_order_args [] = none
  parse_order_args (arg ∷ args) = both_given (split_dash (strip (join_space (arg ∷ args))))

  unfoldable pub format_search_query : String → String → String
  format_search_query title artist = strip (title ++ (" " ++ artist))

pub data Action : Type 0 where
  select confirm cancel : Action

-- What the chat remembers: `default_city`, and `pending_order_tracks`, which counts as empty when
-- missing.
pub record Chat : Type 0 where
  pub default_city : Option String
  pub pending_tracks : List (String × TrackInfo)

unfoldable pub store_tracks : List TrackInfo → List (String × TrackInfo) → List (String × TrackInfo)
unfolding put
store_tracks [] stored = stored
store_tracks (track ∷ tracks) stored = store_tracks tracks (put track.track_id track stored)

unfoldable pub store_pending_tracks : List TrackInfo → Chat → Chat
unfolding store_tracks
store_pending_tracks tracks chat = record chat { pending_tracks = store_tracks tracks [] }

unfoldable pub get_pending_track : String → Chat → Option TrackInfo
unfolding look_up
get_pending_track track_id chat = look_up track_id chat.pending_tracks

unfoldable pub clear_pending_tracks : Chat → Chat
clear_pending_tracks chat = record chat { pending_tracks = [] }

-- What the injector's answer comes to: a city tag to show, or a message.
pub data OrderAnswer : Type 0 where
  added : OrderAnswer
  refused : OrderAnswer

pub record MusicOrder : Type 0 where
  pub uri : String
  pub city_tag : String
  pub track : TrackInfo
  pub duration_sec : ℕ

pub data OrderReply : Type 0 where
  usage city_all no_results choose stale cancelled asks resolve_failed silent : OrderReply

-- What a handler does: its reply, and the order that it sends with whether it is answered. `crashed` is
-- an exception.
pub data Effect : Type 0 where
  replied : OrderReply → Effect
  sent : MusicOrder → OrderAnswer → Effect
  crashed : MusicOrder → Effect

pub record OrderClients : Type 0 where
  pub strip : String → String
  pub default_operator_city : String
  pub search_tracks : String → Result String (List TrackInfo)
  pub resolve_stream_url : String → Result String String
  -- `enqueue_music_order`; `none` is an exception
  pub enqueue : Value → Option OrderAnswer

unfoldable pub order_payload : MusicOrder → Value
order_payload order = dict (
    field "type" (str "MUSIC_ORDER") (
      field "uri" (str order.uri) (
        field "city_tag" (str order.city_tag) (
          field "meta"
            (dict (
              field "title" (str order.track.title) (
                field "artist" (str order.track.artist) (
                  field "duration_sec" (int (pos order.duration_sec))
                    (field "track_id" (str order.track.track_id) end)))))
            end))))

module _ (clients : OrderClients) where
  open clients use {strip, default_operator_city, search_tracks, resolve_stream_url, enqueue}

  abbrev pub get_operator_city : Chat → String
  get_operator_city chat = elim chat.default_city [
    | none ↦ default_operator_city
    | some city ↦ city
  ]

  abbrev pub offered : Chat → Result String (List TrackInfo) → Effect × Chat
  offered chat (err e) = (replied no_results, chat)
  offered chat (ok []) = (replied no_results, chat)
  offered chat (ok (track ∷ tracks)) = (replied choose, store_pending_tracks (track ∷ tracks) chat)

  unfoldable pub order_command : List String → Chat → Effect × Chat
  unfolding parse_order_args format_search_query store_pending_tracks
  order_command args chat = elim (parse_order_args strip args) [
    | none ↦ (replied usage, chat)
    | some parsed ↦
        if get_operator_city chat == "all"
        then (replied city_all, chat)
        else offered chat (search_tracks (format_search_query strip parsed.0 parsed.1))
  ]

  -- `track.duration_sec or 180`
  abbrev pub duration_or : Option ℕ → ℕ
  duration_or none = 180
  duration_or (some sec) = if sec == 0 then 180 else sec

  -- The pending tracks stay when the exchange raises.
  abbrev pub after_enqueue : MusicOrder → Chat → Option OrderAnswer → Effect × Chat
  after_enqueue order chat none = (crashed order, chat)
  after_enqueue order chat (some answer) = (sent order answer, clear_pending_tracks chat)

  abbrev pub place : TrackInfo → String → Chat → Result String String → Effect × Chat
  place track city_tag chat (err e) = (replied resolve_failed, clear_pending_tracks chat)
  place track city_tag chat (ok url) =
      let order : MusicOrder = record {
        uri = url;
        city_tag = city_tag;
        track = track;
        duration_sec = duration_or track.duration_sec;
      } in
      after_enqueue order chat (enqueue (order_payload order))

  unfoldable pub confirm_track : TrackInfo → Chat → Effect × Chat
  unfolding clear_pending_tracks order_payload
  confirm_track track chat =
      if get_operator_city chat == "all"
      then (replied city_all, chat)
      else place track (get_operator_city chat) chat (resolve_stream_url track.track_id)

  -- The three actions behind the pattern.
  unfoldable pub act : Action → Option String → Chat → Effect × Chat
  unfolding clear_pending_tracks get_pending_track confirm_track
  act cancel track_id chat = (replied cancelled, clear_pending_tracks chat)
  act select none chat = (replied stale, chat)
  act select (some track_id) chat = elim (get_pending_track track_id chat) [
    | none ↦ (replied stale, chat)
    | some track ↦ (replied asks, chat)
  ]
  act confirm none chat = (replied stale, chat)
  act confirm (some track_id) chat = elim (get_pending_track track_id chat) [
    | none ↦ (replied stale, chat)
    | some track ↦ confirm_track track chat
  ]
