-- ===== src/Bot/Examples.antt =====
-- Taps on a pending voice, and an operator at the door.
use fm.Base.{String, ◌+◌, ◌≤◌, ◌≡◌, refl, none, some, [], ◌∷◌, true, false, ◌||◌}
use fm.Bot.Auth.{Access, is_admin, auth_middleware}
use fm.Bot.Entry.{CityOf, on_list, auth_middleware_lem}
use fm.Bot.Conversation.{PendingVoice, UserData, pending_voice_ttl, consume_pending_voice}
use fm.Bot.Taps.{consume_pending_voice_lem}

abbrev voice_1 : PendingVoice
voice_1 = record { file_id = "f"; duration = 9; nonce = "aa"; created_at = 5 }

consume_pending_voice_lem_example :
    (◌≡◌ {A = UserData} (some voice_1) (some voice_1))
    × (◌≡◌ {A = String} "aa" "aa")
    × (10 ≤ 5 + pending_voice_ttl)
    × ((consume_pending_voice "aa" 10 (some voice_1)).1 ≡ none)
unfolding consume_pending_voice
consume_pending_voice_lem_example = consume_pending_voice_lem "aa" 10 (some voice_1) voice_1 refl

abbrev access_1 : Access
access_1 = record { operators = some (7 ∷ 8 ∷ []); admins = none; open_access = true }

auth_middleware_lem_example :
    let allowed = is_admin access_1 8 || on_list access_1.operators access_1.open_access 8 in
    let answer = auth_middleware access_1 (some ("msk" ∷ [])) "msk" (some "spb") (some 8) none in
    ((allowed ≡ false) → answer ≡ none)
    × ((allowed ≡ true)
        → (city : String) × (answer ≡ some city)
          × CityOf (some ("msk" ∷ [])) "msk" (some "spb") none city)
auth_middleware_lem_example =
    auth_middleware_lem access_1 (some ("msk" ∷ [])) "msk" (some "spb") none 8
