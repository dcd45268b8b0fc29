-- ===== src/Metadata/Remaining.antt =====
-- What the endpoint says of the block that plays.
use fm.Base.{
  ℕ, String, ◌+◌, ◌-◌, ◌*◌, ◌≤◌, ◌<◌, ◌≡◌, ◌≢◌, refl, Option, none, some, List, [], ◌∷◌, Result, ok,
  err, arith, Option-cases, Bool-cases, inl, inr, ◌⊎◌,
}
use fm.Base.Int.{ℤ, pos, pos_part, neg_part}
use fm.Datetime.{Datetime, second_us}
use fm.Geo.Registry.{City, CityRegistry, get}
use fm.Metadata.NowPlaying.{
  Parsers, Reading, unreadable, reads, raises, NowPlayingError, unknown_city, not_playing,
  bad_instant, NowPlayingResponse, hash_get, non_empty, duration_of, printed, parse_started_at,
  first_reading, parse_started_at_dt, rest_of, compute_remaining_sec, read_now_playing, response_of,
  now_playing_of, floor_second, current_key,
}

module _ (parsers : Parsers) where
  open parsers use {strip, epoch, fromisoformat}

  -- The text is a number of seconds, or else a date, that stands for the instant.
  abbrev pub Begins : Option String → ℤ → Type 0
  Begins raw started =
      (text : String) × (non_empty raw ≡ some text)
      × ((epoch (strip text) ≡ reads started)
          ⊎ ((epoch (strip text) ≡ unreadable) × (fromisoformat (strip text) ≡ reads started)))

  -- There is no text, or it is neither.
  abbrev pub IsUnknown : Option String → Type 0
  IsUnknown raw =
      (non_empty raw ≡ none)
      ⊎ ((text : String) × (non_empty raw ≡ some text)
          × (epoch (strip text) ≡ unreadable)
          × (fromisoformat (strip text) ≡ unreadable))

  -- Reading the text raises an exception.
  abbrev pub IsBad : Option String → Type 0
  IsBad raw =
      (text : String) × (non_empty raw ≡ some text)
      × ((epoch (strip text) ≡ raises)
          ⊎ ((epoch (strip text) ≡ unreadable) × (fromisoformat (strip text) ≡ raises)))

  -- The whole seconds from now to the end of a block; none after its end.
  abbrev pub IsRest : ℤ → ℕ → Datetime → ℕ → Type 0
  IsRest started duration_sec now rest =
      (rest * second_us ≤ duration_sec * second_us + pos_part started - (now + neg_part started))
      × (duration_sec * second_us + pos_part started
          < now + neg_part started + (rest + 1) * second_us)

  abbrev pub Remains : Option String → ℕ → Datetime → ℕ → Type 0
  Remains raw duration_sec now rest =
      (IsUnknown raw × (rest ≡ duration_sec))
      ⊎ ((started : ℤ) × Begins raw started × IsRest started duration_sec now rest)

  abbrev Rested : Option String → ℕ → Datetime → Result NowPlayingError ℕ → Type 0
  Rested raw duration_sec now (ok rest) = Remains raw duration_sec now rest
  Rested raw duration_sec now (err e) = (e ≡ bad_instant) × IsBad raw

  rest_of-Rested :
      (raw : Option String) (duration_sec : ℕ) (now : Datetime) (text : String)
      → non_empty raw ≡ some text
      → (first second : Reading) → epoch (strip text) ≡ first
      → fromisoformat (strip text) ≡ second
      → Rested raw duration_sec now
          (rest_of parsers duration_sec now (first_reading parsers first second))
  rest_of-Rested raw duration_sec now text e raises second f g = (refl, (text, e, inl f))
  rest_of-Rested raw duration_sec now text e (reads started) second f g =
      inr (started, (text, e, inl f), (omega arith, omega arith))
  rest_of-Rested raw duration_sec now text e unreadable raises f g = (refl, (text, e, inr (f, g)))
  rest_of-Rested raw duration_sec now text e unreadable (reads started) f g =
      inr (started, (text, e, inr (f, g)), (omega arith, omega arith))
  rest_of-Rested raw duration_sec now text e unreadable unreadable f g =
      inl (inr (text, e, f, g), refl)

  compute_remaining_sec-Rested :
      (raw : Option String) (duration_sec : ℕ) (now : Datetime)
      → Rested raw duration_sec now (compute_remaining_sec parsers raw duration_sec now)
  unfolding compute_remaining_sec parse_started_at_dt
  compute_remaining_sec-Rested raw duration_sec now = go (non_empty raw) refl
    where
      go :
          (o : Option String)
          → non_empty raw ≡ o
          → Rested raw duration_sec now (
              rest_of parsers duration_sec now (elim o [
                | none ↦ unreadable
                | some text ↦
                    first_reading parsers (epoch (strip text)) (fromisoformat (strip text))
              ]))
      go none e = inl (inl e, refl)
      go (some text) e =
          rest_of-Rested raw duration_sec now text e (epoch (strip text))
            (fromisoformat (strip text)) refl refl

  abbrev Printed : Option String → Result NowPlayingError String → Type 0
  Printed raw (ok text) = Unit
  Printed raw (err e) = (e ≡ bad_instant) × IsBad raw

  printed-Printed :
      (raw : Option String) (now : Datetime) (text : String)
      → non_empty raw ≡ some text
      → (first second : Reading) → epoch (strip text) ≡ first
      → fromisoformat (strip text) ≡ second
      → Printed raw (printed parsers now (strip text) first second)
  printed-Printed raw now text e raises second f g = (refl, (text, e, inl f))
  printed-Printed raw now text e (reads started) second f g = tt
  printed-Printed raw now text e unreadable raises f g =
      elim (Bool-cases (parsers.ends_with_z (strip text))) [
        | inl z ↦ rw z tt
        | inr z ↦ rw z (refl, (text, e, inr (f, g)))
      ]
  printed-Printed raw now text e unreadable (reads parsed) f g =
      elim (Bool-cases (parsers.ends_with_z (strip text))) [ inl z ↦ rw z tt | inr z ↦ rw z tt ]
  printed-Printed raw now text e unreadable unreadable f g =
      elim (Bool-cases (parsers.ends_with_z (strip text))) [ inl z ↦ rw z tt | inr z ↦ rw z tt ]

  parse_started_at-Printed :
      (now : Datetime) (raw : Option String) → Printed raw (parse_started_at parsers now raw)
  unfolding parse_started_at
  parse_started_at-Printed now raw = go (non_empty raw) refl
    where
      go :
          (o : Option String)
          → non_empty raw ≡ o
          → Printed raw (elim o [
            | none ↦ ok (parsers.isoformat (floor_second (pos now)))
            | some text ↦
                printed parsers now (strip text) (epoch (strip text)) (fromisoformat (strip text))
          ])
      go none e = tt
      go (some text) e =
          printed-Printed raw now text e (epoch (strip text)) (fromisoformat (strip text)) refl refl

  duration-positive : (raw : Option String) → 1 ≤ duration_of parsers raw
  unfolding duration_of
  duration-positive none = omega arith
  duration-positive (some raw) = elim (Option-cases (parsers.parse_int raw)) [
    | inl e ↦ rw (e, duration_of) (omega arith)
    | inr (n, e) ↦ rw (e, duration_of) (omega arith)
  ]

  -- The answer for a city and the fields of its hash.
  abbrev pub Tells :
      CityRegistry
      → String
      → Datetime
      → List (String × String)
      → Result NowPlayingError NowPlayingResponse
      → Type 0
  Tells registry city_tag now fields (err unknown_city) = get registry city_tag ≡ none
  Tells registry city_tag now fields (err (not_playing city)) =
      (get registry city_tag ≢ none) × (fields ≡ []) × (city ≡ city_tag)
  Tells registry city_tag now fields (err bad_instant) =
      (get registry city_tag ≢ none) × (fields ≢ []) × IsBad (hash_get "started_at" fields)
  Tells registry city_tag now fields (ok response) =
      (get registry city_tag ≢ none)
      × (fields ≢ [])
      × (response.city_tag ≡ city_tag)
      × (1 ≤ response.duration_sec)
      × Remains (hash_get "started_at" fields) response.duration_sec now response.remaining_sec

  now_playing_of-Tells :
      (registry : CityRegistry) (city_tag : String) (now : Datetime)
      (fields : List (String × String))
      → get registry city_tag ≢ none
      → fields ≢ []
      → Tells registry city_tag now fields (now_playing_of parsers city_tag now fields)
  now_playing_of-Tells registry city_tag now fields there some_field =
      go (parse_started_at parsers now (hash_get "started_at" fields))
        (parse_started_at-Printed now (hash_get "started_at" fields))
        (compute_remaining_sec parsers (hash_get "started_at" fields) _ now)
        (compute_remaining_sec-Rested (hash_get "started_at" fields)
          (duration_of parsers (hash_get "duration_sec" fields)) now)
    where
      go :
          (started_at : Result NowPlayingError String)
          → Printed (hash_get "started_at" fields) started_at
          → (remaining_sec : Result NowPlayingError ℕ)
          → Rested
              (hash_get "started_at" fields)
              (duration_of parsers (hash_get "duration_sec" fields))
              now
              remaining_sec
          → Tells registry city_tag now fields (
              response_of parsers city_tag fields
                (duration_of parsers (hash_get "duration_sec" fields))
                started_at
                remaining_sec)
      go (err e) (same, bad) r k = rw same (there, some_field, bad)
      go (ok text) h (err e) (same, bad) = rw same (there, some_field, bad)
      go (ok text) h (ok rest) k =
          (there, some_field, refl, duration-positive (hash_get "duration_sec" fields), k)

  -- The rest of the block that plays in a city is exact: it is the whole seconds from now to the end of
  -- the block, 0 after its end, and its full duration when its beginning cannot be read; the duration
  -- is a second or more. The answer is about the city that was asked for. A city that is not active
  -- and one without a block are refused as such, and the request fails with an exception only when
  -- reading the beginning raises one.
  pub read_now_playing-Tells :
      (hgetall : String → List (String × String)) (registry : CityRegistry) (city_tag : String)
      (now : Datetime)
      → Tells registry city_tag now
          (hgetall (current_key city_tag))
          (read_now_playing parsers hgetall registry city_tag now)
  unfolding read_now_playing
  read_now_playing-Tells hgetall registry city_tag now = go (get registry city_tag) refl
    where
      known :
          (city : City) (fields : List (String × String))
          → get registry city_tag ≡ some city
          → Tells registry city_tag now fields (elim fields [
            | [] ↦ err (not_playing city_tag)
            | (field ∷ rest) ↦ now_playing_of parsers city_tag now (field ∷ rest)
          ])
      known city [] e = ((λ k. absurd (cc (e, k))), refl, refl)
      known city (field ∷ rest) e =
          now_playing_of-Tells registry city_tag now (field ∷ rest) (λ k. absurd (cc (e, k)))
            (λ k. absurd (cc k))

      go :
          (city : Option City)
          → get registry city_tag ≡ city
          → Tells registry city_tag now (hgetall (current_key city_tag)) (elim city [
            | none ↦ err unknown_city
            | some _ ↦ elim (hgetall (current_key city_tag)) [
              | [] ↦ err (not_playing city_tag)
              | (field ∷ rest) ↦ now_playing_of parsers city_tag now (field ∷ rest)
            ]
          ])
      go none e = e
      go (some city) e = known city (hgetall (current_key city_tag)) e
