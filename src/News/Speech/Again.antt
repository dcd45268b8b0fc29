-- ===== src/News/Speech/Again.antt =====
-- A summary is spoken once.
use fm.Base.{
  ℕ, String, ◌≡◌, refl, ◌⊎◌, inl, inr, Bool, true, Option, none, some, List, Result, ok, err,
  string_eq, string_refl, update, Bool-cases, Option-cases,
}
use fm.Base.Int.{ℤ}
use fm.Redis.{Redis}
use fm.News.Speech.{
  SpeechError, SpeechTools, Auth, State, cache_path, read_cache, from_wav, from_cache,
  synthesize_wav, synthesize_mp3_for_summary,
}
use fm.News.Speech.Kept.{IsCached, written-IsCached, run_calls, run_calls-keeps}

module _ (tools : SpeechTools) (redis : Redis) where
  open redis use {Store, get, set}

  -- What a call for a summary leaves in the cache when it succeeds.
  abbrev pub Leaves : String → Result SpeechError (String × ℤ × Bool) × State tools redis → Type 0
  Leaves summary (err e, st) = Unit
  Leaves summary (ok (path, duration, hit), st) =
      (kept : String) × ((kept ≡ path) ⊎ (kept ≡ tools.resolve path))
      × IsCached tools redis summary kept duration st

  from_wav-Leaves :
      (summary : String) (st : State tools redis) (p : Result SpeechError (List ℕ) × Auth)
      → Leaves summary (from_wav tools redis summary st p)
  from_wav-Leaves summary st (err e, auth) = tt
  from_wav-Leaves summary st (ok wav, auth) = elim (Bool-cases (tools.transcodes wav)) [
    | inr e ↦ rw e tt
    | inl e ↦ elim (Option-cases (tools.probe_duration path)) [
      | inl f ↦ rw e (rw f tt)
      | inr (us, f) ↦ rw e (
          rw f (
            tools.resolve path,
            inr refl,
            written-IsCached tools redis summary path us written
                (rw (string_refl (tools.resolve path)) refl),
          ))
    ]
  ]
    where
      path : String
      path = cache_path tools (tools.sha256 summary)

      written : State tools redis
      written = record st { auth = auth; files = update st.files (tools.resolve path) true }

  from_cache-Leaves :
      (summary : String) (now wall : ℕ) (st : State tools redis)
      (r : Result SpeechError (Option (String × ℤ)))
      → read_cache tools redis summary st ≡ r
      → Leaves summary (from_cache tools redis summary now wall st r)
  from_cache-Leaves summary now wall st (err e) h = tt
  from_cache-Leaves summary now wall st (ok (some (path, duration))) h = (path, inl refl, h)
  from_cache-Leaves summary now wall st (ok none) h =
      from_wav-Leaves summary st (synthesize_wav tools summary now wall st.auth)

  -- Whatever is spoken afterwards, the summary comes from the cache.
  abbrev pub Again : String → Result SpeechError (String × ℤ × Bool) × State tools redis → Type 0
  Again summary (err e, st) = Unit
  Again summary (ok (path, duration, hit), st) =
      (kept : String) × ((kept ≡ path) ⊎ (kept ≡ tools.resolve path))
      × ((calls : List (String × ℕ × ℕ)) (now wall : ℕ)
          → synthesize_mp3_for_summary tools redis summary now wall (run_calls tools redis calls st)
            ≡ (ok (kept, duration, true), run_calls tools redis calls st))

  cached-hit :
      (summary path : String) (duration : ℤ) (now wall : ℕ) (st : State tools redis)
      → IsCached tools redis summary path duration st
      → synthesize_mp3_for_summary tools redis summary now wall st ≡ (ok (path, duration, true), st)
  unfolding synthesize_mp3_for_summary
  cached-hit summary path duration now wall st h = rw (h, synthesize_mp3_for_summary) refl

  left-Again :
      (summary : String) (p : Result SpeechError (String × ℤ × Bool) × State tools redis)
      → Leaves summary p
      → Again summary p
  left-Again summary (err e, st) h = tt
  left-Again summary (ok (path, duration, hit), st) (kept, same, h) = (
    kept,
    same,
    (λ calls now wall.
        cached-hit summary kept duration now wall (run_calls tools redis calls st)
          (run_calls-keeps tools redis summary kept duration calls st h)),
  )

  -- A summary whose speech succeeds is spoken once: after any further calls, for it or for others, a
  -- call for it answers with the same duration and the same file (by its resolved path) as a hit of the
  -- cache, and changes nothing: no token is fetched and no file is written.
  pub synthesize-Again :
      (summary : String) (now wall : ℕ) (st : State tools redis)
      → Again summary (synthesize_mp3_for_summary tools redis summary now wall st)
  unfolding synthesize_mp3_for_summary
  synthesize-Again summary now wall st =
      left-Again summary _
        (from_cache-Leaves summary now wall st (read_cache tools redis summary st) refl)
