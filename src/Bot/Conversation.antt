-- ===== src/Bot/Conversation.antt =====
-- services/bot/handlers/conversation.py: the voice that waits for the choice of a city. The user data
-- of a conversation is what stands under `pending_voice`; `time.monotonic` is an argument, in
-- microseconds.
use fm.Base.{ℕ, String, ◌-◌, Bool, false, Option, none, some, ltb, if◌then◌else◌, ◌==◌, string_eq}

pub record PendingVoice : Type 0 where
  pub file_id : String
  pub duration : ℕ
  pub nonce : String
  pub created_at : ℕ

abbrev pub UserData : Type 0
UserData = Option PendingVoice

abbrev pub pending_voice_ttl : ℕ
pending_voice_ttl = 600_000_000

-- `token` is what `secrets.token_hex(4)` gives.
unfoldable pub new_pending_voice : String → ℕ → String → ℕ → PendingVoice
new_pending_voice file_id duration token now = record {
  file_id = file_id;
  duration = duration;
  nonce = token;
  created_at = now;
}

unfoldable pub store_pending_voice : PendingVoice → UserData → UserData
store_pending_voice pending user_data = some pending

unfoldable pub clear_pending_voice : UserData → UserData
clear_pending_voice user_data = none

unfoldable pub is_expired : ℕ → PendingVoice → Bool
is_expired now pending = ltb pending_voice_ttl (now - pending.created_at)

-- `pending["nonce"] != nonce`
abbrev pub same_nonce : PendingVoice → Option String → Bool
same_nonce pending none = false
same_nonce pending (some nonce) = pending.nonce == nonce

unfoldable pub get_pending_voice : Option String → ℕ → UserData → Option PendingVoice × UserData
unfolding is_expired clear_pending_voice
get_pending_voice wanted now none = (none, none)
get_pending_voice wanted now (some pending) =
    if is_expired now pending
    then (none, clear_pending_voice (some pending))
    else if same_nonce pending wanted
    then (some pending, some pending)
    else (none, some pending)

abbrev pub taken : Option PendingVoice × UserData → Option PendingVoice × UserData
taken (none, user_data) = (none, user_data)
taken (some pending, user_data) = (some pending, clear_pending_voice user_data)

unfoldable pub consume_pending_voice : String → ℕ → UserData → Option PendingVoice × UserData
unfolding get_pending_voice clear_pending_voice
consume_pending_voice nonce now user_data = taken (get_pending_voice (some nonce) now user_data)
