-- ===== src/News/Items/Runs.antt =====
-- What a sequence of calls on the table of news items does to each item.
use fm.Base.{
  ℕ, String, ◌≡◌, refl, sym, ◌∙◌, ap, Bool, true, ◌&&◌, not, none, some, List, [], ◌∷◌, subst, ◌==◌,
  nat_eq, find_first, any, Bool-cases, Option-cases, inl, inr, eqb_iff,
}
use mathlib.Core.Option.{some_inj}
use fm.Datetime.{Datetime}
use fm.Table.{Table, find_first-update, find_first-add, find_first-passes}
use fm.News.Items.{
  Status, ready, same_status, NewsItem, NewsFetchInput, allowed_transitions, has_id, clashes,
  create_from_fetch, new_item, get_by_id, assert_transition, change_item, update_summary,
  update_audio, mark_ready, mark_failed, increment_play_count, played, reset_play_counts,
}
use fm.News.Items.Workflow.{
  stay, Moves, Follows, Follows-refl, Follows-trans, Follows-map, Follows-snoc, IsStep, step,
  summary-IsStep, audio-IsStep, ready-IsStep, failed-IsStep, allowed-Advance,
}

-- The methods that callers use on the table.
pub data Call : Type 0 where
  create : NewsFetchInput → Call
  write_summary : ℕ → String → Call
  write_audio : ℕ → String → Call
  set_ready : ℕ → Call
  set_failed : ℕ → Call
  count_play : ℕ → Datetime → Call
  reset : Call

module _ (table : Table (λ (item : NewsItem). item.id)) where
  open table use {Db, rows, next_id, add, update}

  unfoldable pub perform : Call → Db → Db
  perform (create fetch) db = (create_from_fetch table fetch db).1
  perform (write_summary i t) db = (update_summary table i t db).1
  perform (write_audio i t) db = (update_audio table i t db).1
  perform (set_ready i) db = (mark_ready table i db).1
  perform (set_failed i) db = (mark_failed table i db).1
  perform (count_play i when) db = (increment_play_count table i when db).1
  perform reset db = (reset_play_counts table db).1

  unfoldable pub run : List Call → Db → Db
  unfolding perform
  run [] db = db
  run (c ∷ cs) db = run cs (perform c db)

  update-Follows :
      (i : ℕ) (p : NewsItem → Bool) (f : NewsItem → NewsItem) (db : Db)
      → ((r : NewsItem) → (f r).id ≡ r.id)
      → ((r : NewsItem) → get_by_id table i db ≡ some r → p r ≡ true → Moves r (f r))
      → Follows (get_by_id table i db) (get_by_id table i (update p f db))
  unfolding get_by_id
  update-Follows i p f db h k =
      subst (Follows (find_first (has_id i) (rows db)))
        (sym (find_first-update table (has_id i) p f db (λ r. ap (λ n. n == i) (h r))))
        (Follows-map p f (find_first (has_id i) (rows db)) k)

  get_by_id-id : (i : ℕ) (db : Db) (r : NewsItem) → get_by_id table i db ≡ some r → r.id ≡ i
  unfolding get_by_id
  get_by_id-id i db r h = (eqb_iff r.id i).0 (find_first-passes (has_id i) (rows db) h)

  same_row :
      (i j : ℕ) (db : Db) (item r : NewsItem)
      → get_by_id table j db ≡ some item
      → get_by_id table i db ≡ some r
      → has_id j r ≡ true
      → item ≡ r
  same_row i j db item r e found hit =
      let same : i ≡ j = sym (get_by_id-id i db r found) ∙ (eqb_iff r.id j).0 hit in
      some_inj.0 (sym e ∙ ap (λ n. get_by_id table n db) (sym same) ∙ found)

  change_item-Follows :
      (i j : ℕ) (target : Status) (change : NewsItem → NewsItem) (db : Db)
      → IsStep target change
      → Follows (get_by_id table i db) (get_by_id table i (change_item table j target change db).1)
  unfolding change_item
  change_item-Follows i j target change db (step h k) = elim (Option-cases (get_by_id table j db)) [
    | inl e ↦ rw (e, change_item) (Follows-refl (get_by_id table i db))
    | inr (item, e) ↦
        elim (Bool-cases (any (same_status target) (allowed_transitions item.status))) [
          | inl legal ↦
              rw (e, change_item)
                (rw (legal, assert_transition)
                  (update-Follows i (has_id j) change db h (λ r found hit. k r (
                    allowed-Advance r.status target (
                      subst (λ x. any (same_status target) (allowed_transitions x.status) ≡ true)
                        (same_row i j db item r e found hit) legal)))))
          | inr illegal ↦
              rw (e, change_item)
                (rw (illegal, assert_transition) (Follows-refl (get_by_id table i db)))
        ]
  ]

  create-Follows :
      (i : ℕ) (fetch : NewsFetchInput) (db : Db)
      → Follows (get_by_id table i db) (get_by_id table i (create_from_fetch table fetch db).1)
  unfolding create_from_fetch get_by_id
  create-Follows i fetch db =
      elim (Bool-cases (any (clashes (new_item table fetch db)) (rows db))) [
        | inl e ↦ rw (e, create_from_fetch) (Follows-refl (get_by_id table i db))
        | inr e ↦
            rw (e, create_from_fetch)
              (subst (Follows (find_first (has_id i) (rows db)))
                (sym (find_first-add table (has_id i) (new_item table fetch db) db))
                (Follows-snoc (has_id i) (new_item table fetch db) (find_first (has_id i) (rows db))
                  (stay, tt)))
      ]

  increment-Follows :
      (i j : ℕ) (when : Datetime) (db : Db)
      → Follows (get_by_id table i db) (get_by_id table i (increment_play_count table j when db).1)
  unfolding increment_play_count
  increment-Follows i j when db = elim (Option-cases (get_by_id table j db)) [
    | inl e ↦ rw (e, increment_play_count) (Follows-refl (get_by_id table i db))
    | inr (item, e) ↦ elim (Bool-cases (same_status item.status ready)) [
      | inl legal ↦
          rw (e, increment_play_count)
            (rw legal (
              update-Follows i (λ row. has_id j row && same_status row.status ready)
                (played table when) db (λ r. refl) (λ r found hit. unchanged)))
      | inr illegal ↦
          rw (e, increment_play_count) (rw illegal (Follows-refl (get_by_id table i db)))
    ]
  ]
    where
      unchanged : {r : NewsItem} → Moves r (played table when r)
      unchanged = record { same_url = refl; same_hash = refl; leads = stay; complete = λ c. c }

  reset-Follows :
      (i : ℕ) (db : Db)
      → Follows (get_by_id table i db) (get_by_id table i (reset_play_counts table db).1)
  unfolding reset_play_counts
  reset-Follows i db =
      update-Follows i (λ row. not (row.play_count == 0))
        (λ row. record row { play_count = 0; last_played_at = none }) db (λ r. refl)
        (λ r found hit. record {
          same_url = refl;
          same_hash = refl;
          leads = stay;
          complete = λ c. c;
        })

  perform-Follows :
      (i : ℕ) (c : Call) (db : Db)
      → Follows (get_by_id table i db) (get_by_id table i (perform c db))
  unfolding perform update_summary update_audio mark_ready mark_failed
  perform-Follows i (create fetch) db = create-Follows i fetch db
  perform-Follows i (write_summary j t) db = change_item-Follows i j _ _ db (summary-IsStep t)
  perform-Follows i (write_audio j t) db = change_item-Follows i j _ _ db (audio-IsStep t)
  perform-Follows i (set_ready j) db = change_item-Follows i j _ _ db ready-IsStep
  perform-Follows i (set_failed j) db = change_item-Follows i j _ _ db failed-IsStep
  perform-Follows i (count_play j when) db = increment-Follows i j when db
  perform-Follows i reset db = reset-Follows i db

  -- Whatever calls are made on the table, an item that is there stays, keeps its URL and hash,
  -- and its status moves only along the steps of the workflow; when it held what its status asks
  -- for before, it does after. An item that the calls add starts as fetched and is complete.
  pub run-Follows :
      (i : ℕ) (cs : List Call) (db : Db)
      → Follows (get_by_id table i db) (get_by_id table i (run cs db))
  unfolding run
  run-Follows i [] db = Follows-refl (get_by_id table i db)
  run-Follows i (c ∷ cs) db =
      Follows-trans (get_by_id table i db) (get_by_id table i (perform c db)) _
        (perform-Follows i c db) (run-Follows i cs (perform c db))
