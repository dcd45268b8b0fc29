-- ===== src/Music/Checks.antt =====
-- What the checks of the fields of a policy let pass.
use fm.Base.{
  ℕ, zero, suc, String, ◌≤◌, ◌≡◌, ◌≢◌, subst, true, Option, none, some, List, [], All, Result, ok,
  ◌>>=◌, bind-ok, ok_inj, Bool-cases, inl, inr, arith, string_eq,
}
use fm.Base.Int.{pos, negsuc}
use fm.Base.Values.{Value, Values, null, bool, int, str, list, dict, nil, cons}
use fm.Music.Rules.{
  Names, RulesError, optional, replaced, validate_ids, validate_playlist_ids, validate_max_duration,
}

module _ (names : Names) where
  open names use {strip, is_playlist_id}

  abbrev pub AreIds : List String → Type 0
  AreIds ids = (ids ≢ []) × All (λ id. is_playlist_id id ≡ true) ids

  validate_ids-All :
      (vs : Values) (ids : List String)
      → validate_ids names vs ≡ ok ids
      → All (λ id. is_playlist_id id ≡ true) ids
  unfolding validate_ids
  validate_ids-All nil ids h = subst (All (λ id. is_playlist_id id ≡ true)) (ok_inj h) tt
  validate_ids-All (cons (str item) vs) ids h = elim (Bool-cases (is_playlist_id (strip item))) [
    | inr e ↦ absurd (cc (rw e at h))
    | inl e ↦
        let (rest, a, b) = bind-ok (validate_ids names vs) _ ids (rw e at h) in
        subst (All (λ id. is_playlist_id id ≡ true)) (ok_inj b) (e, validate_ids-All vs rest a)
  ]
  validate_ids-All (cons null vs) ids h = absurd (cc h)
  validate_ids-All (cons (bool b) vs) ids h = absurd (cc h)
  validate_ids-All (cons (int n) vs) ids h = absurd (cc h)
  validate_ids-All (cons (list us) vs) ids h = absurd (cc h)
  validate_ids-All (cons (dict fs) vs) ids h = absurd (cc h)

  validate_ids-nonempty :
      (v : Value) (vs : Values) (ids : List String)
      → validate_ids names (cons v vs) ≡ ok ids
      → ids ≢ []
  unfolding validate_ids
  validate_ids-nonempty (str item) vs ids h = elim (Bool-cases (is_playlist_id (strip item))) [
    | inr e ↦ absurd (cc (rw e at h))
    | inl e ↦
        let (rest, a, b) = bind-ok (validate_ids names vs) _ ids (rw e at h) in
        subst (λ r. r ≢ []) (ok_inj b) (λ k. cc)
  ]
  validate_ids-nonempty null vs ids h = absurd (cc h)
  validate_ids-nonempty (bool b) vs ids h = absurd (cc h)
  validate_ids-nonempty (int n) vs ids h = absurd (cc h)
  validate_ids-nonempty (list us) vs ids h = absurd (cc h)
  validate_ids-nonempty (dict fs) vs ids h = absurd (cc h)

  pub validate_playlist_ids-AreIds :
      (v : Value) (ids : List String) → validate_playlist_ids names v ≡ ok ids → AreIds ids
  unfolding validate_playlist_ids
  validate_playlist_ids-AreIds (list (cons v vs)) ids h =
      (validate_ids-nonempty v vs ids h, validate_ids-All (cons v vs) ids h)
  validate_playlist_ids-AreIds (list nil) ids h = absurd (cc h)
  validate_playlist_ids-AreIds null ids h = absurd (cc h)
  validate_playlist_ids-AreIds (bool b) ids h = absurd (cc h)
  validate_playlist_ids-AreIds (int n) ids h = absurd (cc h)
  validate_playlist_ids-AreIds (str s) ids h = absurd (cc h)
  validate_playlist_ids-AreIds (dict fs) ids h = absurd (cc h)

  pub validate_max_duration-positive :
      (v : Value) (n : ℕ) → validate_max_duration names v ≡ ok n → 1 ≤ n
  unfolding validate_max_duration
  validate_max_duration-positive (int (pos zero)) n h = absurd (cc h)
  validate_max_duration-positive (int (pos (suc m))) n h =
      subst (λ k. 1 ≤ k) (ok_inj h) (omega arith)
  validate_max_duration-positive (int (negsuc m)) n h = absurd (cc h)
  validate_max_duration-positive null n h = absurd (cc h)
  validate_max_duration-positive (bool b) n h = absurd (cc h)
  validate_max_duration-positive (str s) n h = absurd (cc h)
  validate_max_duration-positive (list vs) n h = absurd (cc h)
  validate_max_duration-positive (dict fs) n h = absurd (cc h)

  abbrev pub Checked : {A : Type 0} → (A → Type 0) → Option A → Type 0
  Checked P none = Unit
  Checked P (some a) = P a

  passed :
      {A : Type 0} (P : A → Type 0) (check : Value → Result RulesError A)
      → ((v : Value) (a : A) → check v ≡ ok a → P a)
      → (v : Value) (r : Option A) → (check v >>= (λ a. ok (some a))) ≡ ok r
      → Checked P r
  passed P check h v r e =
      let (a, b, c) = bind-ok (check v) (λ a. ok (some a)) r e in
      subst (Checked P) (ok_inj c) (h v a b)

  pub replaced-holds :
      {A : Type 0} (P : A → Type 0) (check : Value → Result RulesError A)
      → ((v : Value) (a : A) → check v ≡ ok a → P a)
      → (base : A) (o : Option Value) (r : A) → P base
      → replaced check base o ≡ ok r
      → P r
  replaced-holds P check h base none r p e = subst P (ok_inj e) p
  replaced-holds P check h base (some v) r p e = h v r e

  pub optional-Checked :
      {A : Type 0} (P : A → Type 0) (check : Value → Result RulesError A)
      → ((v : Value) (a : A) → check v ≡ ok a → P a)
      → (o : Option Value) (r : Option A) → optional check o ≡ ok r
      → Checked P r
  optional-Checked P check h none r e = subst (Checked P) (ok_inj e) tt
  optional-Checked P check h (some null) r e = subst (Checked P) (ok_inj e) tt
  optional-Checked P check h (some (bool b)) r e = passed P check h (bool b) r e
  optional-Checked P check h (some (int n)) r e = passed P check h (int n) r e
  optional-Checked P check h (some (str s)) r e = passed P check h (str s) r e
  optional-Checked P check h (some (list vs)) r e = passed P check h (list vs) r e
  optional-Checked P check h (some (dict fs)) r e = passed P check h (dict fs) r e
