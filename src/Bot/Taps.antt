-- ===== src/Bot/Taps.antt =====
-- What a sequence of messages and taps takes out of a conversation.
use fm.Base.{
  ℕ, String, ◌+◌, ◌-◌, ◌≤◌, ◌≡◌, refl, Bool, true, false, Option, none, some, List, [], ◌∷◌,
  count_if, ltb, arith, ◌==◌, string_eq, Bool-cases, inl, inr, sym, ◌∙◌, ap, subst, string_iff,
}
use mathlib.Core.Option.{some_inj}
use fm.Bot.Conversation.{
  PendingVoice, UserData, pending_voice_ttl, store_pending_voice, clear_pending_voice, is_expired,
  get_pending_voice, consume_pending_voice,
}

-- A voice message, a cancelled choice, a look at the pending voice, a tap on a city.
pub data Event : Type 0 where
  voice : PendingVoice → Event
  cancel : Event
  look : String → ℕ → Event
  tap : String → ℕ → Event

abbrev pub with_taken : Option PendingVoice → List PendingVoice → List PendingVoice
with_taken none rest = rest
with_taken (some pending) rest = pending ∷ rest

-- The voices that the taps take, in their order.
unfoldable pub taken_by : List Event → UserData → List PendingVoice
unfolding store_pending_voice clear_pending_voice get_pending_voice consume_pending_voice
taken_by [] user_data = []
taken_by (voice pending ∷ events) user_data =
    taken_by events (store_pending_voice pending user_data)
taken_by (cancel ∷ events) user_data = taken_by events (clear_pending_voice user_data)
taken_by (look nonce now ∷ events) user_data =
    taken_by events (get_pending_voice (some nonce) now user_data).1
taken_by (tap nonce now ∷ events) user_data =
    with_taken (consume_pending_voice nonce now user_data).0
      (taken_by events (consume_pending_voice nonce now user_data).1)

abbrev pub has_nonce : String → PendingVoice → Bool
has_nonce nonce pending = pending.nonce == nonce

unfoldable pub voices_of : List Event → List PendingVoice
voices_of [] = []
voices_of (voice pending ∷ events) = pending ∷ voices_of events
voices_of (cancel ∷ events) = voices_of events
voices_of (look nonce now ∷ events) = voices_of events
voices_of (tap nonce now ∷ events) = voices_of events

abbrev pub waiting : UserData → List PendingVoice
waiting none = []
waiting (some pending) = pending ∷ []

look-waiting :
    (nonce n : String) (now : ℕ) (user_data : UserData)
    → count_if (has_nonce nonce) (waiting (get_pending_voice (some n) now user_data).1)
      ≤ count_if (has_nonce nonce) (waiting user_data)
unfolding get_pending_voice count_if
look-waiting nonce n now none = omega arith
look-waiting nonce n now (some pending) = ground arith

tap-waiting :
    (nonce n : String) (now : ℕ) (user_data : UserData) (rest : List PendingVoice)
    → count_if (has_nonce nonce) (with_taken (consume_pending_voice n now user_data).0 rest)
        + count_if (has_nonce nonce) (waiting (consume_pending_voice n now user_data).1)
      ≤ count_if (has_nonce nonce) (waiting user_data) + count_if (has_nonce nonce) rest
unfolding consume_pending_voice count_if
tap-waiting nonce n now none rest = omega arith
tap-waiting nonce n now (some pending) rest = ground arith

module _ (nonce : String) (now : ℕ) (held : PendingVoice) where
  expired :
      ltb pending_voice_ttl (now - held.created_at) ≡ true
      → consume_pending_voice nonce now (some held) ≡ (none, none)
  unfolding consume_pending_voice get_pending_voice is_expired
  expired e = rw e refl

  other :
      ltb pending_voice_ttl (now - held.created_at) ≡ false
      → (held.nonce == nonce) ≡ false
      → consume_pending_voice nonce now (some held) ≡ (none, some held)
  unfolding consume_pending_voice get_pending_voice is_expired
  other e f = rw e (rw f refl)

  matched :
      ltb pending_voice_ttl (now - held.created_at) ≡ false
      → (held.nonce == nonce) ≡ true
      → consume_pending_voice nonce now (some held) ≡ (some held, none)
  unfolding consume_pending_voice get_pending_voice is_expired clear_pending_voice
  matched e f = rw e (rw f refl)

-- What a tap takes was waiting, has the nonce of the button, and is no older than its time to live;
-- and nothing waits afterwards.
pub consume_pending_voice_lem :
    (nonce : String) (now : ℕ) (user_data : UserData) (pending : PendingVoice)
    → (consume_pending_voice nonce now user_data).0 ≡ some pending
    → (user_data ≡ some pending)
      × (pending.nonce ≡ nonce)
      × (now ≤ pending.created_at + pending_voice_ttl)
      × ((consume_pending_voice nonce now user_data).1 ≡ none)
unfolding consume_pending_voice
consume_pending_voice_lem nonce now none pending h = absurd (cc h)
consume_pending_voice_lem nonce now (some held) pending h =
    elim (Bool-cases (ltb pending_voice_ttl (now - held.created_at))) [
      | inl e ↦ absurd (cc (ap (λ x. x.0) (sym (expired nonce now held e)) ∙ h))
      | inr e ↦ elim (Bool-cases (held.nonce == nonce)) [
        | inr f ↦ absurd (cc (ap (λ x. x.0) (sym (other nonce now held e f)) ∙ h))
        | inl f ↦
            let same : held ≡ pending =
              some_inj.0 (ap (λ x. x.0) (sym (matched nonce now held e f)) ∙ h) in
            (
              ap some same,
              subst (λ p. p.nonce ≡ nonce) same ((string_iff held.nonce nonce).0 f),
              subst (λ p. now ≤ p.created_at + pending_voice_ttl) same (ground (arith, e)),
              ap (λ x. x.1) (matched nonce now held e f),
            )
      ]
    ]

-- Whatever the user does, and however often a button is tapped, a voice is taken no more often than it
-- was sent (or was waiting before).
pub taken_by-once :
    (nonce : String) (events : List Event) (user_data : UserData)
    → count_if (has_nonce nonce) (taken_by events user_data)
      ≤ count_if (has_nonce nonce) (voices_of events)
        + count_if (has_nonce nonce) (waiting user_data)
unfolding taken_by voices_of count_if
taken_by-once nonce [] user_data = omega arith
taken_by-once nonce (voice pending ∷ events) user_data =
    ground (arith, taken_by-once nonce events (some pending))
taken_by-once nonce (cancel ∷ events) user_data = ground (arith, taken_by-once nonce events none)
taken_by-once nonce (look n now ∷ events) user_data = omega (
  arith,
  taken_by-once nonce events (get_pending_voice (some n) now user_data).1,
  look-waiting nonce n now user_data,
)
taken_by-once nonce (tap n now ∷ events) user_data = omega (
  arith,
  taken_by-once nonce events (consume_pending_voice n now user_data).1,
  tap-waiting nonce n now user_data (taken_by events (consume_pending_voice n now user_data).1),
)
