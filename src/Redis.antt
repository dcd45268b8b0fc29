-- ===== src/Redis.antt =====
-- The Redis server as the services use it (redis-py calls and the commands of the Lua scripts).
-- The server is not part of the repository: it is a parameter, with the laws of its commands.
use fm.Base.{
  String, ◌≡◌, refl, false, List, [], ◌∷◌, Option, none, some, ℕ, take, update, if◌then◌else◌, ◌==◌,
  string_eq,
}
use fm.Base.Values.{Value}

-- A list element or a value: the JSON text of a value (the decimal text of n is that of the
-- number n), or another text.
pub data Raw : Type 0 where
  json : Value → Raw
  text : String → Raw

pub record Redis : Type 1 where
  pub Store : Type 0
  pub lrange : String → Store → List Raw
  pub lpush : String → Raw → Store → Store
  -- `LTRIM key 0 (n - 1)`
  pub ltrim : String → ℕ → Store → Store
  pub get : String → Store → Option Raw
  pub set : String → Raw → Store → Store
  pub delete : String → Store → Store
  pub lrange-lpush :
      (k : String) (v : Raw) (s : Store) (j : String)
      → lrange j (lpush k v s) ≡ (if k == j then v ∷ lrange k s else lrange j s)
  pub lrange-ltrim :
      (k : String) (n : ℕ) (s : Store) (j : String)
      → lrange j (ltrim k n s) ≡ (if k == j then take n (lrange k s) else lrange j s)
  pub lrange-delete :
      (k : String) (s : Store) (j : String)
      → lrange j (delete k s) ≡ (if k == j then [] else lrange j s)
  pub lrange-set :
      (k : String) (v : Raw) (s : Store) (j : String)
      → (k == j) ≡ false
      → lrange j (set k v s) ≡ lrange j s
  pub get-set :
      (k : String) (v : Raw) (s : Store) (j : String)
      → get j (set k v s) ≡ (if k == j then some v else get j s)
  pub get-delete :
      (k : String) (s : Store) (j : String)
      → get j (delete k s) ≡ (if k == j then none else get j s)
  pub get-lpush :
      (k : String) (v : Raw) (s : Store) (j : String)
      → (k == j) ≡ false
      → get j (lpush k v s) ≡ get j s

-- A server with the laws, for the witnesses: what it holds under each key.
pub record Held : Type 0 where
  pub list_at : String → List Raw
  pub value_at : String → Option Raw

abbrev pub memory : Redis
memory = record {
  Store = Held;
  lrange = λ k s. s.list_at k;
  lpush = λ k v s. record s { list_at = update s.list_at k (v ∷ s.list_at k) };
  ltrim = λ k n s. record s { list_at = update s.list_at k (take n (s.list_at k)) };
  get = λ k s. s.value_at k;
  set = λ k v s. record s { value_at = update s.value_at k (some v) };
  delete = λ k s. record { list_at = update s.list_at k []; value_at = update s.value_at k none };
  lrange-lpush = λ k v s j. refl;
  lrange-ltrim = λ k n s j. refl;
  lrange-delete = λ k s j. refl;
  lrange-set = λ k v s j e. refl;
  get-set = λ k v s j. refl;
  get-delete = λ k s j. refl;
  get-lpush = λ k v s j e. refl;
}

abbrev pub nothing_held : Held
nothing_held = record { list_at = λ k. []; value_at = λ k. none }
