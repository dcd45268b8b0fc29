-- ===== src/News/Speech/Kept.antt =====
-- What is in the cache stays there.
use fm.Base.{
  ℕ, String, ◌≡◌, refl, ◌∙◌, ap, inl, inr, true, false, Option, none, some, List, [], ◌∷◌, Result,
  ok, err, if◌then◌else◌, ◌==◌, string_eq, string_iff, string_refl, update, Bool-cases,
  Option-cases, arith,
}
use fm.Base.Int.{ℤ, pos}
use fm.Base.Values.{Value, str, int, dict, field, end, get_field, is_truthy}
use fm.Redis.{Redis, Raw, json, text}
use fm.News.Speech.{
  SpeechError, SpeechTools, Auth, State, cache_path, cache_key, read_cache, write_cache, entry_in,
  entry_of, path_text, is_file, from_wav, from_cache, synthesize_wav, synthesize_mp3_for_summary,
}

module _ (tools : SpeechTools) (redis : Redis) where
  open redis use {Store, get, set}

  -- What a summary is cached as.
  abbrev pub IsCached : String → String → ℤ → State tools redis → Type 0
  IsCached summary path duration st = read_cache tools redis summary st ≡ ok (some (path, duration))

  entry_of-more :
      (a b : Option Value) (st st' : State tools redis) (path : String) (duration : ℤ)
      → ((p : String) → st.files p ≡ true → st'.files p ≡ true)
      → entry_of tools redis a b st ≡ ok (some (path, duration))
      → entry_of tools redis a b st' ≡ ok (some (path, duration))
  unfolding is_truthy
  entry_of-more none b st st' path duration more h = absurd (cc h)
  entry_of-more (some a) none st st' path duration more h = absurd (cc h)
  entry_of-more (some a) (some b) st st' path duration more h =
      elim (Bool-cases (is_file tools redis (path_text tools redis a) st)) [
        | inl e ↦ ground (arith, e, more (tools.resolve (path_text tools redis a)) e, h)
        | inr e ↦ absurd (ground (arith, e, h))
      ]

  entry_in-more :
      (o : Option Raw) (st st' : State tools redis) (path : String) (duration : ℤ)
      → ((p : String) → st.files p ≡ true → st'.files p ≡ true)
      → entry_in tools redis o st ≡ ok (some (path, duration))
      → entry_in tools redis o st' ≡ ok (some (path, duration))
  unfolding entry_in
  entry_in-more (some (json (dict payload))) st st' path duration more h =
      entry_of-more (get_field "cache_path" payload) (get_field "duration_sec" payload) st st' path
        duration more h
  entry_in-more none st st' path duration more h = absurd (cc h)
  entry_in-more (some (text t)) st st' path duration more h = absurd (cc h)
  entry_in-more (some (json Value.null)) st st' path duration more h = absurd (cc h)
  entry_in-more (some (json (Value.bool b))) st st' path duration more h = absurd (cc h)
  entry_in-more (some (json (int n))) st st' path duration more h = absurd (cc h)
  entry_in-more (some (json (str t))) st st' path duration more h = absurd (cc h)
  entry_in-more (some (json (Value.list vs))) st st' path duration more h = absurd (cc h)

  -- A summary stays cached while its key stays and no file goes.
  read_cache-more :
      (summary path : String) (duration : ℤ) (st st' : State tools redis)
      → get (cache_key tools summary) st'.store ≡ get (cache_key tools summary) st.store
      → ((p : String) → st.files p ≡ true → st'.files p ≡ true)
      → IsCached summary path duration st
      → IsCached summary path duration st'
  unfolding read_cache
  read_cache-more summary path duration st st' same more h =
      ap (λ o. entry_in tools redis o st') same
      ∙ entry_in-more (get (cache_key tools summary) st.store) st st' path duration more h

  is_full : (path : String) → (tools.resolve path == "") ≡ false
  is_full path = elim (Bool-cases (tools.resolve path == "")) [
    | inl e ↦ absurd (tools.resolve_full path ((string_iff (tools.resolve path) "").0 e))
    | inr e ↦ e
  ]

  pub written-IsCached :
      (summary path : String) (duration : ℕ) (st : State tools redis)
      → st.files (tools.resolve path) ≡ true
      → IsCached summary
          (tools.resolve path)
          (pos duration)
          (write_cache tools redis summary path duration st)
  unfolding read_cache write_cache entry_in is_truthy get_field
  written-IsCached summary path duration st k =
      ap (λ o. entry_in tools redis o (write_cache tools redis summary path duration st))
        (redis.get-set (cache_key tools summary) _ st.store (cache_key tools summary)
          ∙ ap
              (λ b.
                if b
                then some (noted summary path duration)
                else get (cache_key tools summary) st.store)
              (string_refl (cache_key tools summary)))
      ∙ full
    where
      noted : String → String → ℕ → Raw
      noted summary path duration = json (
          dict (
            field "cache_path" (str (tools.resolve path))
              (field "duration_sec" (int (pos duration)) end)))

      full :
          entry_in tools redis
            (some (noted summary path duration))
            (write_cache tools redis summary path duration st)
          ≡ ok (some (tools.resolve path, pos duration))
      full = rw (is_full path, tools.resolve_idem path, k) refl

  from_wav-keeps :
      (summary other path : String) (duration : ℤ) (st : State tools redis)
      (p : Result SpeechError (List ℕ) × Auth)
      → (cache_key tools other == cache_key tools summary) ≡ false
      → IsCached summary path duration st
      → IsCached summary path duration (from_wav tools redis other st p).1
  unfolding write_cache
  from_wav-keeps summary other path duration st (err e, auth) differ h =
      read_cache-more summary path duration st _ refl (λ p k. k) h
  from_wav-keeps summary other path duration st (ok wav, auth) differ h =
      elim (Bool-cases (tools.transcodes wav)) [
        | inr e ↦
            rw e (
              read_cache-more summary path duration st (record st { auth = auth }) refl (λ p k. k)
                h)
        | inl e ↦
            elim (Option-cases (tools.probe_duration (cache_path tools (tools.sha256 other)))) [
              | inl f ↦ rw e (rw f (read_cache-more summary path duration st written refl more h))
              | inr (us, f) ↦ rw e (
                  rw f (
                    read_cache-more summary path duration st
                      (write_cache tools redis other (cache_path tools (tools.sha256 other)) us
                        written)
                      (other_key us) more h))
            ]
      ]
    where
      target : String
      target = tools.resolve (cache_path tools (tools.sha256 other))

      written : State tools redis
      written = record st { auth = auth; files = update st.files target true }

      more : (p : String) → st.files p ≡ true → written.files p ≡ true
      more p k = elim (Bool-cases (target == p)) [ inl e ↦ rw e refl | inr e ↦ rw e k ]

      noted : ℕ → Raw
      noted us =
          json (dict (field "cache_path" (str target) (field "duration_sec" (int (pos us)) end)))

      other_key :
          (us : ℕ)
          → get
              (cache_key tools summary)
              (write_cache tools redis other
                (cache_path tools (tools.sha256 other))
                us
                written).store
            ≡ get (cache_key tools summary) st.store
      other_key us =
          redis.get-set (cache_key tools other) (noted us) st.store (cache_key tools summary)
          ∙ ap (λ b. if b then some (noted us) else get (cache_key tools summary) st.store) differ

  -- The state that a call leaves keeps what was cached.
  synthesize-keeps :
      (summary other path : String) (duration : ℤ) (now wall : ℕ) (st : State tools redis)
      → IsCached summary path duration st
      → IsCached summary path duration (synthesize_mp3_for_summary tools redis other now wall st).1
  unfolding synthesize_mp3_for_summary
  synthesize-keeps summary other path duration now wall st h =
      elim (Bool-cases (cache_key tools other == cache_key tools summary)) [
        | inl e ↦ rw (same_entry e ∙ h, synthesize_mp3_for_summary) h
        | inr e ↦ missed (read_cache tools redis other st) e
      ]
    where
      same_entry :
          (cache_key tools other == cache_key tools summary) ≡ true
          → read_cache tools redis other st ≡ read_cache tools redis summary st
      same_entry e =
          unfold read_cache in
          ap (λ key. entry_in tools redis (get key st.store) st)
            ((string_iff (cache_key tools other) (cache_key tools summary)).0 e)

      missed :
          (r : Result SpeechError (Option (String × ℤ)))
          → (cache_key tools other == cache_key tools summary) ≡ false
          → IsCached summary path duration (from_cache tools redis other now wall st r).1
      missed (err exc) e = h
      missed (ok (some (p, d))) e = h
      missed (ok none) e =
          from_wav-keeps summary other path duration st
            (synthesize_wav tools other now wall st.auth) e h

  -- The later calls, with their two readings of the clock.
  unfoldable pub run_calls : List (String × ℕ × ℕ) → State tools redis → State tools redis
  unfolding synthesize_mp3_for_summary
  run_calls [] st = st
  run_calls ((summary, now, wall) ∷ calls) st =
      run_calls calls (synthesize_mp3_for_summary tools redis summary now wall st).1

  pub run_calls-keeps :
      (summary path : String) (duration : ℤ) (calls : List (String × ℕ × ℕ))
      (st : State tools redis)
      → IsCached summary path duration st
      → IsCached summary path duration (run_calls calls st)
  unfolding run_calls
  run_calls-keeps summary path duration [] st h = h
  run_calls-keeps summary path duration ((other, now, wall) ∷ calls) st h =
      run_calls-keeps summary path duration calls _
        (synthesize-keeps summary other path duration now wall st h)
