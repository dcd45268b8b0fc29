-- ===== src/Bot/City/Accepted.antt =====
-- How often a voice becomes an ad.
use fm.Base.{
  ℕ, String, ◌+◌, ◌≤◌, Bool, false, Option, none, some, List, [], ◌∷◌, count_if, if◌then◌else◌,
  ◌==◌, string_eq, nat_eq, arith, Bool-cases, inl, inr,
}
use fm.Bot.Conversation.{
  PendingVoice, UserData, new_pending_voice, store_pending_voice, clear_pending_voice, is_expired,
  get_pending_voice, consume_pending_voice,
}
use fm.Bot.City.{
  Submission, SubmitAnswer, accepted, failed, raised, VoiceEffect, submitted, is_active, match_ad,
  voice_message, after_submit, process_confirmed_voice, confirmed, tapped, ad_city_callback,
}

-- A voice message, with its file, length and nonce; a tap, with what the ads service would answer.
pub data Event : Type 0 where
  voice : String → ℕ → String → ℕ → Event
  tap : (Submission → SubmitAnswer) → String → String → ℕ → Event

module _ (max_ad_duration_sec : ℕ) (active : List String) where
  unfoldable pub handle : Event → UserData → VoiceEffect × UserData
  unfolding voice_message ad_city_callback
  handle (voice file_id duration token now) user_data =
      voice_message max_ad_duration_sec file_id duration token now user_data
  handle (tap submit text token now) user_data =
      ad_city_callback submit active text token now user_data

  unfoldable pub effects : List Event → UserData → List VoiceEffect
  unfolding handle
  effects [] user_data = []
  effects (event ∷ events) user_data =
      (handle event user_data).0 ∷ effects events (handle event user_data).1

  -- An ad of the file that has been accepted.
  abbrev pub is_accepted : String → VoiceEffect → Bool
  is_accepted file_id (submitted submission accepted) = submission.file_id == file_id
  is_accepted file_id _ = false

  abbrev pub is_voice : String → Event → Bool
  is_voice file_id (voice f duration token now) = f == file_id
  is_voice file_id (tap submit text token now) = false

  abbrev pub held : String → UserData → ℕ
  held file_id none = 0
  held file_id (some pending) = if pending.file_id == file_id then 1 else 0

  abbrev one : Bool → ℕ
  one b = if b then 1 else 0

  consume-held :
      (f nonce : String) (now : ℕ) (user_data : UserData)
      → held f (consume_pending_voice nonce now user_data).0
          + held f (consume_pending_voice nonce now user_data).1
        ≤ held f user_data
  unfolding consume_pending_voice get_pending_voice is_expired clear_pending_voice
  consume-held f nonce now none = omega arith
  consume-held f nonce now (some pending) = ground arith

  process-held :
      (f : String) (submit : Submission → SubmitAnswer) (city_tag : String) (pending : PendingVoice)
      (token : String) (now : ℕ) (user_data : UserData)
      → one (is_accepted f (process_confirmed_voice submit city_tag pending token now user_data).0)
          + held f (process_confirmed_voice submit city_tag pending token now user_data).1
        ≤ held f (some pending) + held f user_data
  unfolding process_confirmed_voice new_pending_voice store_pending_voice
  process-held f submit city_tag pending token now user_data = after (submit _)
    where
      after :
          (answer : SubmitAnswer)
          → one (
                is_accepted f
                  (after_submit submit
                    (record {
                      file_id = pending.file_id;
                      city_tag = city_tag;
                      duration_sec = pending.duration;
                    })
                    token
                    now
                    user_data
                    answer).0)
              + held f
                  (after_submit submit
                    (record {
                      file_id = pending.file_id;
                      city_tag = city_tag;
                      duration_sec = pending.duration;
                    })
                    token
                    now
                    user_data
                    answer).1
            ≤ held f (some pending) + held f user_data
      after accepted = omega arith
      after raised = omega arith
      after (failed status_code) = elim (Bool-cases (status_code == 409)) [
        | inl e ↦ rw e (omega arith)
        | inr e ↦ rw e (omega arith)
      ]

  tap-held :
      (f : String) (submit : Submission → SubmitAnswer) (text token : String) (now : ℕ)
      (user_data : UserData)
      → one (is_accepted f (ad_city_callback submit active text token now user_data).0)
          + held f (ad_city_callback submit active text token now user_data).1
        ≤ held f user_data
  unfolding ad_city_callback
  tap-held f submit text token now user_data = read (match_ad text)
    where
      confirm-held :
          (city_tag : String) (p : Option PendingVoice × UserData)
          → held f p.0 + held f p.1 ≤ held f user_data
          → one (is_accepted f (confirmed submit city_tag token now p).0)
              + held f (confirmed submit city_tag token now p).1
            ≤ held f user_data
      confirm-held city_tag (none, left) h = omega (arith, h)
      confirm-held city_tag (some pending, left) h =
          omega (arith, h, process-held f submit city_tag pending token now left)

      read :
          (m : Option (String × Option String))
          → one (is_accepted f (tapped submit active token now m user_data).0)
              + held f (tapped submit active token now m user_data).1
            ≤ held f user_data
      read none = omega arith
      read (some (city_tag, none)) = elim (Bool-cases (is_active active city_tag)) [
        | inl e ↦ rw e (omega arith)
        | inr e ↦ rw e (omega arith)
      ]
      read (some (city_tag, some nonce)) = elim (Bool-cases (is_active active city_tag)) [
        | inl e ↦ rw e (
            confirm-held city_tag (consume_pending_voice nonce now user_data)
              (consume-held f nonce now user_data))
        | inr e ↦ rw e (omega arith)
      ]

  handle-held :
      (f : String) (event : Event) (user_data : UserData)
      → one (is_accepted f (handle event user_data).0) + held f (handle event user_data).1
        ≤ one (is_voice f event) + held f user_data
  unfolding handle voice_message new_pending_voice store_pending_voice
  handle-held f (voice file_id duration token now) user_data = ground arith
  handle-held f (tap submit text token now) user_data =
      omega (arith, tap-held f submit text token now user_data)

  -- Whatever is sent and tapped, whatever the ads service answers, and although a full queue gives a
  -- voice back, a voice becomes an accepted ad no more often than it was sent (or waited before).
  pub effects-accepted :
      (file_id : String) (events : List Event) (user_data : UserData)
      → count_if (is_accepted file_id) (effects events user_data)
        ≤ count_if (is_voice file_id) events + held file_id user_data
  unfolding effects count_if
  effects-accepted f [] user_data = omega arith
  effects-accepted f (event ∷ events) user_data =
      ground
        (arith, handle-held f event user_data, effects-accepted f events (handle event user_data).1)
