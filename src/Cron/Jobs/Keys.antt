-- ===== src/Cron/Jobs/Keys.antt =====
-- What the deletion of keys leaves in the store.
use fm.Base.{
  String, ◌≡◌, ◌≢◌, refl, ◌∙◌, ap, false, none, List, [], ◌∷◌, All, contains, if◌then◌else◌, ◌==◌,
  string_eq, string_iff, nat_eq, strip, Bool-cases, inl, inr, arith,
}
use fm.Redis.{Redis}
use fm.Cron.Jobs.{delete_keys}

abbrev pub prefix : String
prefix = "fm21:news:played:"

module _ (redis : Redis) where
  open redis use {Store, get, lrange}

  pub delete_keys-get :
      (k : String) (keys : List String) (s : Store)
      → get k (delete_keys redis keys s).1 ≡ (if contains k keys then none else get k s)
  unfolding delete_keys contains
  delete_keys-get k [] s = refl
  delete_keys-get k (key ∷ keys) s =
      ground (arith, delete_keys-get k keys (redis.delete key s), redis.get-delete key s k)

  pub delete_keys-lrange :
      (k : String) (keys : List String) (s : Store)
      → lrange k (delete_keys redis keys s).1 ≡ (if contains k keys then [] else lrange k s)
  unfolding delete_keys contains
  delete_keys-lrange k [] s = refl
  delete_keys-lrange k (key ∷ keys) s =
      ground (arith, delete_keys-lrange k keys (redis.delete key s), redis.lrange-delete key s k)

pub not_contained :
    (k : String) (keys : List String)
    → strip prefix k ≡ none
    → All (λ key. strip prefix key ≢ none) keys
    → contains k keys ≡ false
unfolding contains
not_contained k [] h hs = refl
not_contained k (key ∷ keys) h (g, gs) = elim (Bool-cases (key == k)) [
  | inl e ↦ absurd (g (ap (strip prefix) ((string_iff key k).0 e) ∙ h))
  | inr e ↦ rw e (not_contained k keys h gs)
]
