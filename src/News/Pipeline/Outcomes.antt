-- ===== src/News/Pipeline/Outcomes.antt =====
-- In which state the pipeline leaves an item.
use fm.Base.{
  ℕ, String, ◌≡◌, refl, sym, ◌∙◌, ap, subst, Option, none, some, Result, ok, err, any,
  if◌then◌else◌, ◌==◌, nat_eq, string_eq, Bool-cases, Option-cases, Result-cases, inl, inr,
}
use mathlib.Core.Option
use mathlib.Core.Option.{some_inj}
use fm.Table.{Table, find_first-update, find_first-passes}
use fm.News.Items.{
  Status, fetched, summarized, voiced, ready, failed, same_status, allowed_transitions, has_id,
  NewsItem, NewsError, get_by_id, assert_transition, change_item, mark_failed, mark_ready,
  update_summary, update_audio,
}
use fm.News.Pipeline.{
  Clients, PipelineError, SummarizeResult, done, skipped, gave_up, MaterializeResult, was_ready,
  materialized, not_possible, no_item, generate_summary, then_answer, write_summary,
  summarize_news_item, store_audio, voice_item, voice_news_item, after_summary, from_body,
  by_status, materialize_news_item,
}

abbrev pub StatusIs : Status → Option NewsItem → Type 0
StatusIs status none = ⊥
StatusIs status (some item) = item.status ≡ status

module _ (table : Table (λ (item : NewsItem). item.id)) (clients : Clients) (item_id : ℕ) where
  open table use {Db, rows, update}

  -- What the answer says of the item.
  abbrev pub Settles : Result PipelineError MaterializeResult × Db → Type 0
  Settles (ok was_ready, db) = StatusIs ready (get_by_id table item_id db)
  Settles (ok materialized, db) = StatusIs ready (get_by_id table item_id db)
  Settles (ok not_possible, db) = StatusIs failed (get_by_id table item_id db)
  Settles (ok no_item, db) = ⊥
  Settles (err e, db) = Unit

  -- A change that succeeds leaves the item with the status it sets.
  abbrev Sets : Status → Result NewsError NewsItem × Db → Type 0
  Sets status (ok _, db) = StatusIs status (get_by_id table item_id db)
  Sets status (err e, db) = Unit

  changed :
      (change : NewsItem → NewsItem) (db : Db) (item : NewsItem)
      → ((r : NewsItem) → (change r).id ≡ r.id)
      → get_by_id table item_id db ≡ some item
      → get_by_id table item_id (update (has_id item_id) change db) ≡ some (change item)
  unfolding get_by_id
  changed change db item h e =
      find_first-update table (has_id item_id) (has_id item_id) change db
        (λ r. ap (λ n. n == item_id) (h r))
      ∙ ap (Option.map (λ r. if has_id item_id r then change r else r)) e
      ∙ ap (λ b. some (if b then change item else item))
          (find_first-passes (has_id item_id) (rows db) e)

  change_item-Sets :
      (target : Status) (change : NewsItem → NewsItem) (db : Db)
      → ((r : NewsItem) → (change r).id ≡ r.id)
      → ((r : NewsItem) → (change r).status ≡ target)
      → Sets target (change_item table item_id target change db)
  unfolding change_item
  change_item-Sets target change db h k = elim (Option-cases (get_by_id table item_id db)) [
    | inl e ↦ rw (e, change_item) tt
    | inr (item, e) ↦
        elim (Bool-cases (any (same_status target) (allowed_transitions item.status))) [
          | inr illegal ↦ rw (e, change_item) (rw (illegal, assert_transition) tt)
          | inl legal ↦
              rw (e, change_item)
                (rw (legal, assert_transition)
                  (subst (StatusIs target) (sym (changed change db item h e)) (k item)))
        ]
  ]

  failed-Settles :
      (p : Result NewsError NewsItem × Db)
      → Sets failed p
      → Settles (then_answer table clients not_possible p)
  unfolding then_answer
  failed-Settles (ok item, db) h = h
  failed-Settles (err e, db) h = tt

  ready-Settles :
      (p : Result NewsError NewsItem × Db)
      → Sets ready p
      → Settles (then_answer table clients materialized p)
  unfolding then_answer
  ready-Settles (ok item, db) h = h
  ready-Settles (err e, db) h = tt

  mark_failed-Settles :
      (db : Db) → Settles (then_answer table clients not_possible (mark_failed table item_id db))
  unfolding mark_failed
  mark_failed-Settles db = failed-Settles _ (change_item-Sets failed _ db (λ r. refl) (λ r. refl))

  mark_ready-Settles :
      (db : Db) → Settles (then_answer table clients materialized (mark_ready table item_id db))
  unfolding mark_ready
  mark_ready-Settles db = ready-Settles _ (change_item-Sets ready _ db (λ r. refl) (λ r. refl))

  store_audio-Settles :
      (p : Result NewsError NewsItem × Db) → Settles (store_audio table clients item_id p)
  unfolding store_audio
  store_audio-Settles (ok item, db) = mark_ready-Settles db
  store_audio-Settles (err e, db) = tt

  voice_item-Settles :
      (summary : Option String) (db : Db) → Settles (voice_item table clients item_id summary db)
  unfolding voice_item
  voice_item-Settles none db = tt
  voice_item-Settles (some summary) db = elim (Bool-cases (summary == "")) [
    | inl e ↦ rw (e, voice_item) tt
    | inr e ↦ elim (Result-cases (clients.synthesize summary item_id)) [
      | inr (exc, f) ↦ rw (e, voice_item) (rw f tt)
      | inl (audio_url, f) ↦
          rw (e, voice_item) (rw f (store_audio-Settles (update_audio table item_id audio_url db)))
    ]
  ]

  voice_news_item-Settles : (db : Db) → Settles (voice_news_item table clients item_id db)
  unfolding voice_news_item
  voice_news_item-Settles db = elim (Option-cases (get_by_id table item_id db)) [
    | inl e ↦ rw (e, voice_news_item) tt
    | inr (item, e) ↦ rw (e, voice_news_item) (voice_item-Settles item.summary_ru db)
  ]

  abbrev Summarizes : Result PipelineError SummarizeResult × Db → Type 0
  Summarizes (ok done, db) = StatusIs summarized (get_by_id table item_id db)
  Summarizes (ok gave_up, db) = StatusIs failed (get_by_id table item_id db)
  Summarizes (ok skipped, db) = ⊥
  Summarizes (err e, db) = Unit

  done-Summarizes :
      (p : Result NewsError NewsItem × Db)
      → Sets summarized p
      → Summarizes (then_answer table clients done p)
  unfolding then_answer
  done-Summarizes (ok item, db) h = h
  done-Summarizes (err e, db) h = tt

  gave_up-Summarizes :
      (p : Result NewsError NewsItem × Db)
      → Sets failed p
      → Summarizes (then_answer table clients gave_up p)
  unfolding then_answer
  gave_up-Summarizes (ok item, db) h = h
  gave_up-Summarizes (err e, db) h = tt

  write_summary-Summarizes :
      (db : Db) (summary : Result String (Option String))
      → Summarizes (write_summary table clients item_id db summary)
  unfolding write_summary mark_failed update_summary
  write_summary-Summarizes db (err e) = tt
  write_summary-Summarizes db (ok none) =
      gave_up-Summarizes _ (change_item-Sets failed _ db (λ r. refl) (λ r. refl))
  write_summary-Summarizes db (ok (some summary)) =
      done-Summarizes _ (change_item-Sets summarized _ db (λ r. refl) (λ r. refl))

  summarize_news_item-Summarizes :
      (source_text : String) (db : Db) (item : NewsItem)
      → get_by_id table item_id db ≡ some item
      → item.status ≡ fetched
      → Summarizes (summarize_news_item table clients item_id source_text db)
  unfolding summarize_news_item
  summarize_news_item-Summarizes source_text db item e h =
      rw (e, summarize_news_item)
        (rw (ap (λ status. same_status status fetched) h)
          (write_summary-Summarizes db (generate_summary clients source_text)))

  after_summary-Settles :
      (p : Result PipelineError SummarizeResult × Db)
      → Summarizes p
      → Settles (after_summary table clients item_id p)
  unfolding after_summary
  after_summary-Settles (err e, db) h = tt
  after_summary-Settles (ok gave_up, db) h = h
  after_summary-Settles (ok skipped, db) h = absurd h
  after_summary-Settles (ok done, db) h = elim (Option-cases (get_by_id table item_id db)) [
    | inl e ↦ absurd (rw e at h)
    | inr (item, e) ↦
        rw (e, after_summary)
          (rw (ap (λ status. same_status status summarized) (rw e at h))
            (voice_news_item-Settles db))
  ]

  from_body-Settles :
      (db : Db) (item : NewsItem) (body : Result String String)
      → get_by_id table item_id db ≡ some item
      → item.status ≡ fetched
      → Settles (from_body table clients item_id db body)
  unfolding from_body
  from_body-Settles db item (err e) found h = tt
  from_body-Settles db item (ok source_text) found h =
      elim (Bool-cases (clients.strip source_text == "")) [
        | inl e ↦ rw (e, from_body) (mark_failed-Settles db)
        | inr e ↦
            rw (e, from_body)
              (after_summary-Settles (summarize_news_item table clients item_id source_text db)
                (summarize_news_item-Summarizes source_text db item found h))
      ]

  by_status-Settles :
      (status : Status) (db : Db) (item : NewsItem)
      → get_by_id table item_id db ≡ some item
      → item.status ≡ status
      → Settles (by_status table clients status item item_id db)
  unfolding by_status
  by_status-Settles ready db item e h = subst (StatusIs ready) (sym e) h
  by_status-Settles fetched db item e h =
      from_body-Settles db item (clients.fetch_article_body item.source_url) e h
  by_status-Settles summarized db item e h = voice_news_item-Settles db
  by_status-Settles voiced db item e h = mark_ready-Settles db
  by_status-Settles failed db item e h = subst (StatusIs failed) (sym e) h

  -- An answer that the item was ready or has been materialised leaves it ready, and an answer that it
  -- could not be leaves it failed, from whatever state it starts and whatever the article, the
  -- summariser and the speech service answer; there is no other answer unless an exception is raised.
  pub materialize_news_item-Settles :
      (db : Db) → Settles (materialize_news_item table clients item_id db)
  unfolding materialize_news_item
  materialize_news_item-Settles db = elim (Option-cases (get_by_id table item_id db)) [
    | inl e ↦ rw (e, materialize_news_item) tt
    | inr (item, e) ↦ rw (e, materialize_news_item) (by_status-Settles item.status db item e refl)
  ]
