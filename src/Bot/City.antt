-- ===== src/Bot/City.antt =====
-- services/bot/handlers/voice.py and city.py: a voice that becomes an ad of the chosen city. The
-- updates of one chat are handled one after the other; `time.monotonic` is an argument, in microseconds.
-- The texts of the replies are left out. The exchange with the ads service is a parameter.
pub mod Accepted
pub mod Choice
pub mod Remembered
mod Examples
use fm.Base.{
  ℕ, String, Bool, true, false, ◌&&◌, ◌||◌, Option, none, some, List, [], ◌∷◌, contains, ltb, leb,
  if◌then◌else◌, ◌==◌, string_eq, nat_eq, strip as after_prefix,
}
use Prim.Native.Char.{code}
use fm.Bot.Conversation.{
  PendingVoice, UserData, new_pending_voice, store_pending_voice, consume_pending_voice,
}

-- `[a-z_]` and `[a-f0-9]`
abbrev pub is_tag_char : ℕ → Bool
is_tag_char c = (leb 97 c && leb c 122) || c == 95

abbrev pub is_nonce_char : ℕ → Bool
is_nonce_char c = (leb 97 c && leb c 102) || (leb 48 c && leb c 57)

abbrev pub in_front : String → String × String → String × String
in_front String.[] parts = parts
in_front (String.◌∷◌ c s) (before, after) = (String.◌∷◌ c before, after)

-- The longest part in front whose characters pass, and the rest.
unfoldable pub span : (ℕ → Bool) → String → String × String
span passes String.[] = (String.[], String.[])
span passes (String.◌∷◌ c s) =
    let rest = span passes s in
    if passes (code c) then in_front (String.◌∷◌ c String.[]) rest else (String.[], String.◌∷◌ c s)

-- `(?::(?P<nonce>[a-f0-9]+))?$`; the text does not end in a line break.
unfoldable pub nonce_part : String → Option (Option String)
unfolding after_prefix span
nonce_part rest = if rest == "" then some none else elim (after_prefix ":" rest) [
  | none ↦ none
  | some nonce ↦
      let (digits, left) = span is_nonce_char nonce in
      if nonce == "" then none else if left == "" then some (some digits) else none
]

abbrev pub with_tag : String → Option (Option String) → Option (String × Option String)
with_tag tag none = none
with_tag tag (some nonce) = some (tag, nonce)

-- AD_CALLBACK_PATTERN
unfoldable pub match_ad : String → Option (String × Option String)
unfolding after_prefix span nonce_part
match_ad text = elim (after_prefix "ad:" text) [
  | none ↦ none
  | some rest ↦
      let (tag, left) = span is_tag_char rest in
      if tag == "" then none else with_tag tag (nonce_part left)
]

abbrev pub is_active : List String → String → Bool
is_active active tag = tag == "all" || contains tag active

-- What the ads service makes of a submission.
pub data SubmitAnswer : Type 0 where
  accepted : SubmitAnswer
  failed : ℕ → SubmitAnswer
  -- an exception, unreachable or other
  raised : SubmitAnswer

pub record Submission : Type 0 where
  pub file_id : String
  pub city_tag : String
  pub duration_sec : ℕ

pub data VoiceEffect : Type 0 where
  too_long asks_city stale unknown_city silent : VoiceEffect
  submitted : Submission → SubmitAnswer → VoiceEffect

-- `token` is what a new nonce would be.
unfoldable pub voice_message : ℕ → String → ℕ → String → ℕ → UserData → VoiceEffect × UserData
unfolding new_pending_voice store_pending_voice
voice_message max_ad_duration_sec file_id duration token now user_data =
    if ltb max_ad_duration_sec duration
    then (too_long, user_data)
    else (asks_city, store_pending_voice (new_pending_voice file_id duration token now) user_data)

module _ (submit : Submission → SubmitAnswer) where
  -- A full queue gives the voice back, under a new nonce.
  abbrev pub after_submit :
      Submission → String → ℕ → UserData → SubmitAnswer → VoiceEffect × UserData
  after_submit submission token now user_data accepted = (submitted submission accepted, user_data)
  after_submit submission token now user_data raised = (submitted submission raised, user_data)
  after_submit submission token now user_data (failed status_code) = (
    submitted submission (failed status_code),
    if status_code == 409
        then store_pending_voice
            (new_pending_voice submission.file_id submission.duration_sec token now) user_data
        else user_data,
  )

  unfoldable pub process_confirmed_voice :
      String → PendingVoice → String → ℕ → UserData → VoiceEffect × UserData
  unfolding new_pending_voice store_pending_voice
  process_confirmed_voice city_tag pending token now user_data =
      let submission : Submission = record {
        file_id = pending.file_id;
        city_tag = city_tag;
        duration_sec = pending.duration;
      } in
      after_submit submission token now user_data (submit submission)

  abbrev pub confirmed :
      String → String → ℕ → Option PendingVoice × UserData → VoiceEffect × UserData
  confirmed city_tag token now (none, user_data) = (stale, user_data)
  confirmed city_tag token now (some pending, user_data) =
      process_confirmed_voice city_tag pending token now user_data

  abbrev pub tapped :
      List String → String → ℕ → Option (String × Option String) → UserData → VoiceEffect × UserData
  tapped active token now none user_data = (silent, user_data)
  tapped active token now (some (city_tag, none)) user_data =
      (if is_active active city_tag then stale else unknown_city, user_data)
  tapped active token now (some (city_tag, some nonce)) user_data =
      if is_active active city_tag
      then confirmed city_tag token now (consume_pending_voice nonce now user_data)
      else (unknown_city, user_data)

  unfoldable pub ad_city_callback :
      List String → String → String → ℕ → UserData → VoiceEffect × UserData
  unfolding match_ad consume_pending_voice process_confirmed_voice contains
  ad_city_callback active text token now user_data =
      tapped active token now (match_ad text) user_data
