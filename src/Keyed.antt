-- ===== src/Keyed.antt =====
-- A table of the database with a key that the rows bring along, as the services use it through
-- SQLAlchemy. It is a parameter, with the laws of its statements.
use fm.Base.{◌≡◌, refl, Bool, Option, none, some, if◌then◌else◌, Eq, ◌==◌}

pub record Keyed {K Row : Type 0} ⦃by : Eq K⦄ (key : Row → K) : Type 1 where
  pub Db : Type 0
  -- `SELECT … WHERE key = …`
  pub find : K → Db → Option Row
  -- an INSERT, or an UPDATE of all columns, of the row with this key
  pub write : Row → Db → Db
  -- `DELETE … WHERE`
  pub delete : (Row → Bool) → Db → Db
  pub find-write :
      (r : Row) (db : Db) (k : K) → find k (write r db) ≡ (if key r == k then some r else find k db)
  pub find-delete :
      (p : Row → Bool) (db : Db) (k : K)
      → find k (delete p db)
        ≡ elim (find k db) [ none ↦ none | some r ↦ if p r then none else some r ]

-- A table with the laws, for the witnesses.
abbrev pub by_key : {K Row : Type 0} ⦃by : Eq K⦄ (key : Row → K) → Keyed key
by_key {K} {Row} key = record {
  Db = K → Option Row;
  find = λ k db. db k;
  write = λ r db k. if key r == k then some r else db k;
  delete = λ p db k. elim (db k) [ none ↦ none | some r ↦ if p r then none else some r ];
  find-write = λ r db k. refl;
  find-delete = λ p db k. refl;
}
