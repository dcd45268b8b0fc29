-- ===== src/Bot/Order/Taps.antt =====
-- The buttons of services/bot/handlers/order.py: their callback texts, printed and read. A text does not
-- end in a line break.
use fm.Base.{
  String, ◌≡◌, ◌≢◌, refl, sym, ◌∙◌, Bool, false, ◌||◌, Option, none, some, if◌then◌else◌, ◌==◌,
  string_eq, string_iff, nat_eq, strip as after_prefix, strip-append, strip-clash, clash,
  Bool-cases, inl, inr, map, List, [], ◌∷◌, ap,
}
use Prim.Native.Char.{Char, code}
use Prim.Native.String.{◌++◌}
use text.Mathlib.TextLemmas.{cons-append}
use fm.Music.Resolve.{TrackInfo}
use fm.Bot.Order.{Action, select, confirm, cancel, Chat, OrderClients, Effect, replied, silent, act}

abbrev pub action_name : Action → String
action_name select = "select"
action_name confirm = "confirm"
action_name cancel = "cancel"

-- The text of a button.
unfoldable pub callback_data : Action → Option String → String
callback_data action none = "order:" ++ action_name action
callback_data action (some track_id) = "order:" ++ (action_name action ++ (":" ++ track_id))

-- The callback texts of the two keyboards.
unfoldable pub search_keyboard : List TrackInfo → List String
unfolding callback_data
search_keyboard [] = callback_data cancel none ∷ []
search_keyboard (track ∷ tracks) =
    callback_data select (some track.track_id) ∷ search_keyboard tracks

unfoldable pub confirm_keyboard : String → List String
unfolding callback_data
confirm_keyboard track_id = callback_data confirm (some track_id) ∷ callback_data cancel none ∷ []

unfoldable pub has_colon : String → Bool
has_colon String.[] = false
has_colon (String.◌∷◌ c s) = code c == 58 || has_colon s

-- `(?::(?P<track_id>[^:]+))?$`: nothing, or a colon and a text without one.
unfoldable pub track_part : String → Option (Option String)
unfolding after_prefix has_colon
track_part rest = if rest == "" then some none else elim (after_prefix ":" rest) [
  | none ↦ none
  | some track_id ↦ if track_id == "" || has_colon track_id then none else some (some track_id)
]

abbrev pub with_action : Action → Option (Option String) → Option (Action × Option String)
with_action action none = none
with_action action (some track_id) = some (action, track_id)

unfoldable pub match_order : String → Option (Action × Option String)
unfolding after_prefix track_part
match_order text = elim (after_prefix "order:" text) [
  | none ↦ none
  | some rest ↦ elim (after_prefix "select" rest) [
    | some tail ↦ with_action select (track_part tail)
    | none ↦ elim (after_prefix "confirm" rest) [
      | some tail ↦ with_action confirm (track_part tail)
      | none ↦ elim (after_prefix "cancel" rest) [
        | some tail ↦ with_action cancel (track_part tail)
        | none ↦ none
      ]
    ]
  ]
]

module _ (clients : OrderClients) where
  abbrev pub acted : Option (Action × Option String) → Chat → Effect × Chat
  acted none chat = (replied silent, chat)
  acted (some (action, track_id)) chat = act clients action track_id chat

  unfoldable pub order_callback : String → Chat → Effect × Chat
  unfolding match_order act
  order_callback text chat = acted (match_order text) chat

nil-ne-cons : (c : Char) (s : String) → String.◌∷◌ c s ≢ ""
nil-ne-cons c s e = cc

not_empty : (p s : String) → p ≢ "" → ((p ++ s) == "") ≡ false
not_empty String.[] s h = absurd (h refl)
not_empty (String.◌∷◌ c p) s h = elim (Bool-cases ((String.◌∷◌ c p ++ s) == "")) [
  | inl e ↦
      absurd (
        nil-ne-cons c (p ++ s)
          (sym (cons-append c p s) ∙ (string_iff (String.◌∷◌ c p ++ s) "").0 e))
  | inr e ↦ e
]

track_part-read :
    (track_id : String)
    → track_part (":" ++ track_id)
      ≡ (if track_id == "" || has_colon track_id then none else some (some track_id))
unfolding track_part
track_part-read track_id =
    rw (not_empty ":" track_id (λ f. cc), track_part) (rw (strip-append ":" track_id) refl)

-- What is read of a button with the id of a track: nothing when the id is empty or has a colon.
abbrev pub read_of : Action → String → Option (Action × Option String)
read_of action track_id =
    if track_id == "" || has_colon track_id then none else some (action, some track_id)

with_action-read :
    (action : Action) (track_id : String)
    → with_action action (track_part (":" ++ track_id)) ≡ read_of action track_id
with_action-read action track_id = elim (Bool-cases (track_id == "" || has_colon track_id)) [
  | inl e ↦ rw (track_part-read track_id) (rw e refl)
  | inr e ↦ rw (track_part-read track_id) (rw e refl)
]

match_order-select :
    (track_id : String)
    → match_order (callback_data select (some track_id)) ≡ read_of select track_id
unfolding match_order callback_data
match_order-select track_id =
    rw (strip-append "order:" ("select" ++ (":" ++ track_id)), match_order)
      (rw (strip-append "select" (":" ++ track_id)) (with_action-read select track_id))

match_order-confirm :
    (track_id : String)
    → match_order (callback_data confirm (some track_id)) ≡ read_of confirm track_id
unfolding match_order callback_data clash
match_order-confirm track_id =
    rw (strip-append "order:" ("confirm" ++ (":" ++ track_id)), match_order)
      (rw (strip-clash "select" "confirm" (":" ++ track_id) refl)
        (rw (strip-append "confirm" (":" ++ track_id)) (with_action-read confirm track_id)))

match_order-cancel : match_order (callback_data cancel none) ≡ some (cancel, none)
unfolding match_order callback_data track_part after_prefix
match_order-cancel = refl

-- A choice of each track, and the cancellation.
abbrev pub choices_of : List TrackInfo → List (Option (Action × Option String))
choices_of [] = some (cancel, none) ∷ []
choices_of (track ∷ tracks) = read_of select track.track_id ∷ choices_of tracks

searched : (tracks : List TrackInfo) → map match_order (search_keyboard tracks) ≡ choices_of tracks
unfolding search_keyboard
searched [] = ap (λ m. m ∷ []) match_order-cancel
searched (track ∷ tracks) = cc (match_order-select track.track_id, searched tracks)

-- Every button of the two keyboards is read as what it says: a button of the search as the choice of its
-- track, the button that confirms as the order of its track, and the last button of either as the
-- cancellation, except that a button whose track has an empty id, or one with a colon, is not read.
pub keyboards-match_order :
    (tracks : List TrackInfo) (track_id : String)
    → (map match_order (search_keyboard tracks) ≡ choices_of tracks)
      × (map match_order (confirm_keyboard track_id)
          ≡ read_of confirm track_id ∷ some (cancel, none) ∷ [])
unfolding confirm_keyboard
keyboards-match_order tracks track_id =
    (searched tracks, cc (match_order-confirm track_id, match_order-cancel))
