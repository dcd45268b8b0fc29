-- ===== src/Table.antt =====
-- A table of the database as the services use it through SQLAlchemy: its rows in the order of
-- their keys, and the statements. The database is not part of the repository: it is a parameter,
-- with the laws of its statements.
use fm.Base.{
  ℕ, suc, ◌≤◌, ◌<◌, max, ◌≡◌, refl, Bool, not, none, some, List, [], ◌∷◌, ◌++◌, map, keep, All,
  arith, if◌then◌else◌, find_first, true, ap, ◌∙◌,
}
use mathlib.Core.Option

pub record Table {Row : Type 0} (ident : Row → ℕ) : Type 1 where
  pub Db : Type 0
  pub rows : Db → List Row
  -- the next value of the key's sequence
  pub next_id : Db → ℕ
  pub add : Row → Db → Db
  -- `UPDATE … SET … WHERE` and `DELETE … WHERE`
  pub update : (Row → Bool) → (Row → Row) → Db → Db
  pub delete : (Row → Bool) → Db → Db
  pub rows-add : (r : Row) (db : Db) → rows (add r db) ≡ rows db ++ r ∷ []
  pub rows-update :
      (p : Row → Bool) (f : Row → Row) (db : Db)
      → rows (update p f db) ≡ map (λ r. if p r then f r else r) (rows db)
  pub rows-delete :
      (p : Row → Bool) (db : Db) → rows (delete p db) ≡ keep (λ r. not (p r)) (rows db)
  pub next_id-fresh : (db : Db) → All (λ r. ident r < next_id db) (rows db)

module _ {Row : Type 0} (q : Row → Bool) where
  find_first-map :
      (p : Row → Bool) (f : Row → Row)
      → ((r : Row) → q (f r) ≡ q r)
      → (rs : List Row)
      → find_first q (map (λ r. if p r then f r else r) rs)
        ≡ Option.map (λ r. if p r then f r else r) (find_first q rs)
  unfolding find_first
  find_first-map p f h [] = refl
  find_first-map p f h (r ∷ rs) = ground (arith, h r, find_first-map p f h rs)

  find_first-snoc :
      (r : Row) (rs : List Row)
      → find_first q (rs ++ r ∷ [])
        ≡ elim (find_first q rs) [ none ↦ if q r then some r else none | some x ↦ some x ]
  unfolding find_first
  find_first-snoc r [] = refl
  find_first-snoc r (x ∷ rs) = ground (arith, find_first-snoc r rs)

  -- What a search finds passes its test.
  pub find_first-passes : (rs : List Row) {r : Row} → find_first q rs ≡ some r → q r ≡ true
  unfolding find_first
  find_first-passes [] {r} h = cc
  find_first-passes (x ∷ rs) {r} h = ground (arith, find_first-passes rs {r = r})

module _ {Row : Type 0} (ident : Row → ℕ) where
  abbrev pub above : List Row → ℕ
  above [] = 1
  above (r ∷ rs) = max (suc (ident r)) (above rs)

  above-All : (n : ℕ) (rs : List Row) → above rs ≤ n → All (λ r. ident r < n) rs
  above-All n [] h = tt
  above-All n (r ∷ rs) h = (omega arith, above-All n rs (omega arith))

  pub above-fresh : (rs : List Row) → All (λ r. ident r < above rs) rs
  above-fresh rs = above-All (above rs) rs (omega arith)

  -- A table with the laws, for the witnesses.
  abbrev pub listed : Table ident
  listed = record {
    Db = List Row;
    rows = λ db. db;
    next_id = above;
    add = λ r db. db ++ r ∷ [];
    update = λ p f db. map (λ r. if p r then f r else r) db;
    delete = λ p db. keep (λ r. not (p r)) db;
    rows-add = λ r db. refl;
    rows-update = λ p f db. refl;
    rows-delete = λ p db. refl;
    next_id-fresh = above-fresh;
  }

-- A lookup by key finds the changed row, or the row that was added.
module _ {Row : Type 0} {ident : Row → ℕ} (table : Table ident) where
  open table use {Db, rows, add, update}

  pub find_first-update :
      (q : Row → Bool) (p : Row → Bool) (f : Row → Row) (db : Db)
      → ((r : Row) → q (f r) ≡ q r)
      → find_first q (rows (update p f db))
        ≡ Option.map (λ r. if p r then f r else r) (find_first q (rows db))
  find_first-update q p f db h = ap (find_first q) (table.rows-update p f db) ∙ over (rows db)
    where
      over :
          (rs : List Row)
          → find_first q (map (λ r. if p r then f r else r) rs)
            ≡ Option.map (λ r. if p r then f r else r) (find_first q rs)
      over rs = find_first-map q p f h rs

  pub find_first-add :
      (q : Row → Bool) (r : Row) (db : Db)
      → find_first q (rows (add r db))
        ≡ elim (find_first q (rows db)) [ none ↦ if q r then some r else none | some x ↦ some x ]
  find_first-add q r db = ap (find_first q) (table.rows-add r db) ∙ find_first-snoc q r (rows db)
