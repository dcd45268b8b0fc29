-- ===== src/Bot/City/Examples.antt =====
-- A voice that meets a full queue, and is accepted on the second tap; an operator who chooses a city.
use fm.Base.{ℕ, ◌+◌, ◌≤◌, ◌≡◌, refl, none, List, [], ◌∷◌, count_if, contains, Option, nat_eq}
use fm.Bot.City.{accepted, failed}
use fm.Keyed.{by_key}
use fm.Bot.City.Choice.{OperatorPrefs, set_to, city_command}
use fm.Bot.City.Remembered.{Remembers, city_command-Remembers}
use fm.Bot.City.Accepted.{Event, voice, tap, effects, is_accepted, is_voice, held, effects-accepted}

abbrev events_1 : List Event
events_1 =
    voice "f" 9 "aa" 1
    ∷ tap (λ submission. failed 409) "ad:msk:aa" "bb" 2
    ∷ tap (λ submission. accepted) "ad:msk:aa" "cc" 3
    ∷ tap (λ submission. accepted) "ad:msk:bb" "dd" 4
    ∷ tap (λ submission. accepted) "ad:msk:bb" "ee" 5
    ∷ []

effects-accepted_example :
    count_if (is_accepted 60 ("msk" ∷ []) "f") (effects 60 ("msk" ∷ []) events_1 none)
    ≤ count_if (is_voice 60 ("msk" ∷ []) "f") events_1 + held 60 ("msk" ∷ []) "f" none
effects-accepted_example = effects-accepted 60 ("msk" ∷ []) "f" events_1 none

accepted_once :
    count_if (is_accepted 60 ("msk" ∷ []) "f") (effects 60 ("msk" ∷ []) events_1 none) ≡ 1
unfolding effects count_if
accepted_once = refl

abbrev no_prefs : ℕ → Option OperatorPrefs
no_prefs user_id = none

city_command-Remembers_example :
    Remembers
      (by_key (λ (row : OperatorPrefs). row.telegram_user_id))
      ("msk" ∷ "spb" ∷ [])
      "msk"
      7
      none
      no_prefs
      (city_command
        (by_key (λ (row : OperatorPrefs). row.telegram_user_id))
        (λ text. text)
        ("msk" ∷ "spb" ∷ [])
        "msk"
        7
        ("spb" ∷ [])
        5
        none
        no_prefs)
city_command-Remembers_example =
    city_command-Remembers (by_key (λ (row : OperatorPrefs). row.telegram_user_id)) (λ text. text)
      ("msk" ∷ "spb" ∷ []) "msk" 7 ("spb" ∷ []) 5 none no_prefs

chosen_1 :
    (city_command
      (by_key (λ (row : OperatorPrefs). row.telegram_user_id))
      (λ text. text)
      ("msk" ∷ "spb" ∷ [])
      "msk"
      7
      ("spb" ∷ [])
      5
      none
      no_prefs).0
    ≡ set_to "spb"
unfolding city_command contains
chosen_1 = refl
