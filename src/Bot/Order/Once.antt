-- ===== src/Bot/Order/Once.antt =====
-- Which orders a chat sends, and how often.
use fm.Base.{
  ℕ, String, ◌+◌, ◌≤◌, ◌≡◌, ◌≢◌, refl, Bool, true, false, Option, none, some, List, [], ◌∷◌, All,
  count_if, Result, ok, err, look_up, if◌then◌else◌, ◌==◌, string_eq, string_iff, arith, Bool-cases,
  Option-cases, inl, inr,
}
use fm.Music.Resolve.{TrackInfo}
use fm.Bot.Order.{
  Action, select, confirm, cancel, Chat, MusicOrder, OrderAnswer, OrderReply, choose, Effect,
  replied, sent, crashed, OrderClients, get_operator_city, offered, order_command, after_enqueue,
  place, confirm_track, act, get_pending_track, clear_pending_tracks, store_pending_tracks,
  parse_order_args,
}
use fm.Bot.Order.Taps.{acted, order_callback, match_order}

-- A command, a tap, and a new city of the operator.
pub data Event : Type 0 where
  command : List String → Event
  tap : String → Event
  set_city : String → Event

module _ (clients : OrderClients) where
  unfoldable pub handle : Event → Chat → Effect × Chat
  unfolding order_command order_callback
  handle (command args) chat = order_command clients args chat
  handle (tap text) chat = order_callback clients text chat
  handle (set_city city) chat =
      (replied OrderReply.silent, record chat { default_city = some city })

  unfoldable pub effects : List Event → Chat → List Effect
  unfolding handle
  effects [] chat = []
  effects (event ∷ events) chat = (handle event chat).0 ∷ effects events (handle event chat).1

  -- An order that the injector has answered, and a choice of tracks that has been offered.
  abbrev pub is_answered : Effect → Bool
  is_answered (sent order answer) = true
  is_answered _ = false

  abbrev pub is_offer : Effect → Bool
  is_offer (replied choose) = true
  is_offer _ = false

  -- An order is for one city.
  abbrev pub IsFit : Effect → Type 0
  IsFit (sent order answer) = order.city_tag ≢ "all"
  IsFit (crashed order) = order.city_tag ≢ "all"
  IsFit (replied reply) = Unit

  abbrev one : Bool → ℕ
  one b = if b then 1 else 0

  -- 1 while a choice is pending.
  abbrev pub pending : Chat → ℕ
  pending chat = elim chat.pending_tracks [ [] ↦ 0 | (track ∷ tracks) ↦ 1 ]

  -- What a handler may do from a chat.
  abbrev Allows : ℕ → Effect × Chat → Type 0
  Allows before (effect, chat) =
      (one (is_answered effect) + pending chat ≤ one (is_offer effect) + before) × IsFit effect

  one-pending : (chat : Chat) → pending chat ≤ 1
  one-pending chat = ground arith

  offered-Allows :
      (chat : Chat) (result : Result String (List TrackInfo))
      → Allows (pending chat) (offered clients chat result)
  offered-Allows chat (err e) = (omega arith, tt)
  offered-Allows chat (ok []) = (omega arith, tt)
  offered-Allows chat (ok (track ∷ tracks)) =
      (omega (arith, one-pending (store_pending_tracks (track ∷ tracks) chat)), tt)

  command-Allows :
      (args : List String) (chat : Chat) → Allows (pending chat) (order_command clients args chat)
  unfolding order_command
  command-Allows args chat = elim (Option-cases (parse_order_args clients.strip args)) [
    | inl e ↦ rw (e, order_command) (omega arith, tt)
    | inr (parsed, e) ↦ elim (Bool-cases (get_operator_city clients chat == "all")) [
      | inl f ↦ rw (e, order_command) (rw f (omega arith, tt))
      | inr f ↦ rw (e, order_command) (rw f (offered-Allows chat _))
    ]
  ]

  after_enqueue-Allows :
      (order : MusicOrder) (chat : Chat) (answer : Option OrderAnswer)
      → order.city_tag ≢ "all"
      → pending chat ≡ 1
      → Allows 1 (after_enqueue clients order chat answer)
  unfolding clear_pending_tracks
  after_enqueue-Allows order chat none h k = (omega (arith, k), h)
  after_enqueue-Allows order chat (some answer) h k = (omega arith, h)

  place-Allows :
      (track : TrackInfo) (city_tag : String) (chat : Chat) (url : Result String String)
      → city_tag ≢ "all"
      → pending chat ≡ 1
      → Allows 1 (place clients track city_tag chat url)
  unfolding clear_pending_tracks
  place-Allows track city_tag chat (err e) h k = (omega arith, tt)
  place-Allows track city_tag chat (ok url) h k = after_enqueue-Allows _ chat _ h k

  found-pending :
      (track_id : String) (chat : Chat) (track : TrackInfo)
      → get_pending_track track_id chat ≡ some track
      → pending chat ≡ 1
  unfolding get_pending_track
  found-pending track_id chat track h = in_list chat.pending_tracks h
    where
      in_list :
          (stored : List (String × TrackInfo))
          → look_up track_id stored ≡ some track
          → ◌≡◌ {A = ℕ} (elim stored [ [] ↦ 0 | (first ∷ rest) ↦ 1 ]) 1
      in_list [] e = cc
      in_list (first ∷ rest) e = refl

  confirm-Allows :
      (track : TrackInfo) (chat : Chat)
      → pending chat ≡ 1
      → Allows (pending chat) (confirm_track clients track chat)
  unfolding confirm_track
  confirm-Allows track chat h = elim (Bool-cases (get_operator_city clients chat == "all")) [
    | inl e ↦ rw (e, confirm_track) (omega arith, tt)
    | inr e ↦
        rw (e, confirm_track)
          (rw h (
            place-Allows track (get_operator_city clients chat) chat _
              (λ f. absurd (cc (e, (string_iff (get_operator_city clients chat) "all").1 f))) h))
  ]

  act-Allows :
      (action : Action) (track_id : Option String) (chat : Chat)
      → Allows (pending chat) (act clients action track_id chat)
  unfolding act clear_pending_tracks
  act-Allows cancel track_id chat = (omega arith, tt)
  act-Allows select none chat = (omega arith, tt)
  act-Allows select (some track_id) chat = elim (Option-cases (get_pending_track track_id chat)) [
    | inl e ↦ rw (e, act) (omega arith, tt)
    | inr (track, e) ↦ rw (e, act) (omega arith, tt)
  ]
  act-Allows confirm none chat = (omega arith, tt)
  act-Allows confirm (some track_id) chat = elim (Option-cases (get_pending_track track_id chat)) [
    | inl e ↦ rw (e, act) (omega arith, tt)
    | inr (track, e) ↦ rw (e, act) (confirm-Allows track chat (found-pending track_id chat track e))
  ]

  acted-Allows :
      (m : Option (Action × Option String)) (chat : Chat)
      → Allows (pending chat) (acted clients m chat)
  acted-Allows none chat = (omega arith, tt)
  acted-Allows (some (action, track_id)) chat = act-Allows action track_id chat

  handle-Allows : (event : Event) (chat : Chat) → Allows (pending chat) (handle event chat)
  unfolding handle order_callback
  handle-Allows (command args) chat = command-Allows args chat
  handle-Allows (tap text) chat = acted-Allows (match_order text) chat
  handle-Allows (set_city city) chat = (omega arith, tt)

  -- Whatever is typed and tapped, the injector answers no more orders than choices of tracks were
  -- offered (or were pending before), and no order is sent for all cities at once. An order whose
  -- exchange raises is not answered, and its choice stays.
  pub effects-once :
      (events : List Event) (chat : Chat)
      → (count_if is_answered (effects events chat)
          ≤ count_if is_offer (effects events chat) + pending chat)
        × All IsFit (effects events chat)
  unfolding effects count_if
  effects-once [] chat = (omega arith, tt)
  effects-once (event ∷ events) chat =
      let (step, fit) = handle-Allows event chat in
      let (more, fits) = effects-once events (handle event chat).1 in
      (ground (arith, step, more), (fit, fits))
