-- ===== src/Base/Lists.antt =====
-- Lists measured by native numbers, and the Boolean searches and comprehensions of the source.
use Prim.Native.Nat.{ℕ, zero, suc, ◌+◌, ◌≤◌, min}
use mathlib.Core.Path.{◌≡◌, refl, ap, sym, ◌∙◌, subst}
use mathlib.Core.Logic.{◌⊎◌, inl, inr}
use mathlib.Core.Bool.{Bool, true, false, ◌&&◌, ◌||◌}
use mathlib.Core.List.{List, [], ◌∷◌, ◌++◌, map}
use mathlib.Core.Option.{Option, none, some, some_inj}
use native.Mathlib.Omega.{arith}
use package.fm.Base.Tests.{if◌then◌else◌, Eq, ◌==◌, Bool-cases}

module _ {ℓ} {A : Type ℓ} where
  abbrev pub length : List A → ℕ
  length [] = 0
  length (x ∷ xs) = suc (length xs)

  abbrev pub get_elem? : List A → ℕ → Option A
  get_elem? [] i = none
  get_elem? (x ∷ xs) zero = some x
  get_elem? (x ∷ xs) (suc i) = get_elem? xs i

  abbrev pub take : ℕ → List A → List A
  take zero xs = []
  take (suc n) [] = []
  take (suc n) (x ∷ xs) = x ∷ take n xs

  abbrev pub reverse : List A → List A
  reverse [] = []
  reverse (x ∷ xs) = reverse xs ++ x ∷ []

  -- A comprehension with a Boolean test, `[x for x in xs if p(x)]`.
  unfoldable pub keep : (A → Bool) → List A → List A
  keep p [] = []
  keep p (x ∷ xs) = let rest = keep p xs in if p x then x ∷ rest else rest

  unfoldable pub count_if : (A → Bool) → List A → ℕ
  count_if p [] = 0
  count_if p (x ∷ xs) = if p x then suc (count_if p xs) else count_if p xs

  unfoldable pub any : (A → Bool) → List A → Bool
  any p [] = false
  any p (x ∷ xs) = p x || any p xs

  unfoldable pub all : (A → Bool) → List A → Bool
  all p [] = true
  all p (x ∷ xs) = p x && all p xs

  -- The first element that passes the test.
  unfoldable pub find_first : (A → Bool) → List A → Option A
  find_first p [] = none
  find_first p (x ∷ xs) = if p x then some x else find_first p xs

  abbrev pub All {κ} : (A → Type κ) → List A → Type κ
  All P [] = Unit
  All P (x ∷ xs) = P x × All P xs

  pub All-imp : (P Q : A → Type 0) (xs : List A) → ((x : A) → P x → Q x) → All P xs → All Q xs
  All-imp P Q [] h a = tt
  All-imp P Q (x ∷ xs) h (p, ps) = (h x p, All-imp P Q xs h ps)

  pub All-zip : (P Q : A → Type 0) (xs : List A) → All P xs → All Q xs → All (λ x. P x × Q x) xs
  All-zip P Q [] ps qs = tt
  All-zip P Q (x ∷ xs) (p, ps) (q, qs) = ((p, q), All-zip P Q xs ps qs)

  pub All-empty : (xs : List A) → All (λ x. ⊥) xs → xs ≡ []
  All-empty [] h = refl
  All-empty (x ∷ xs) (h, hs) = absurd h

  pub keep-none-All : (q : A → Bool) (xs : List A) → keep q xs ≡ [] → All (λ x. q x ≡ false) xs
  unfolding keep
  keep-none-All q [] h = tt
  keep-none-All q (x ∷ xs) h = elim (Bool-cases (q x)) [
    | inl e ↦ absurd (cc (rw e at h))
    | inr e ↦ (e, keep-none-All q xs (rw e at h))
  ]

  pub keep-cons-All :
      (P : A → Type 0) (q : A → Bool) (xs : List A) (x : A) (rest : List A)
      → keep q xs ≡ x ∷ rest
      → All P xs
      → P x
  unfolding keep
  keep-cons-All P q [] x rest h a = absurd (cc h)
  keep-cons-All P q (y ∷ ys) x rest h (a, more) = elim (Bool-cases (q y)) [
    | inl e ↦ subst P (cc (rw e at h)) a
    | inr e ↦ keep-cons-All P q ys x rest (rw e at h) more
  ]

  abbrev pub Exists : (A → Type 0) → List A → Type 0
  Exists P [] = ⊥
  Exists P (x ∷ xs) = P x ⊎ Exists P xs

  pub find_first-Exists :
      (P : A → Type 0) (p : A → Bool) (xs : List A) (a : A)
      → find_first p xs ≡ some a
      → P a
      → Exists P xs
  unfolding find_first
  find_first-Exists P p [] a h k = absurd (cc h)
  find_first-Exists P p (x ∷ xs) a h k = elim (Bool-cases (p x)) [
    | inl e ↦ inl (subst P (sym (some_inj.0 (rw e at h))) k)
    | inr e ↦ inr (find_first-Exists P p xs a (rw e at h) k)
  ]

  pub find_first-true : (p : A → Bool) (xs : List A) (a : A) → find_first p xs ≡ some a → p a ≡ true
  unfolding find_first
  find_first-true p [] a h = absurd (cc h)
  find_first-true p (x ∷ xs) a h = elim (Bool-cases (p x)) [
    | inl e ↦ subst (λ y. p y ≡ true) (some_inj.0 (rw e at h)) e
    | inr e ↦ find_first-true p xs a (rw e at h)
  ]

  pub find_first-none :
      (p : A → Bool) (xs : List A) → find_first p xs ≡ none → All (λ x. p x ≡ false) xs
  unfolding find_first
  find_first-none p [] h = tt
  find_first-none p (x ∷ xs) h = elim (Bool-cases (p x)) [
    | inl e ↦ absurd (cc (rw e at h))
    | inr e ↦ (e, find_first-none p xs (rw e at h))
  ]

  pub length-append : (xs ys : List A) → length (xs ++ ys) ≡ length xs + length ys
  length-append [] ys = omega arith
  length-append (x ∷ xs) ys = omega (arith, length-append xs ys)

  pub length-take : (n : ℕ) (xs : List A) → length (take n xs) ≡ min n (length xs)
  length-take zero xs = omega arith
  length-take (suc n) [] = omega arith
  length-take (suc n) (x ∷ xs) = omega (arith, length-take n xs)

  pub count_if-le-length : (p : A → Bool) (xs : List A) → count_if p xs ≤ length xs
  unfolding count_if
  count_if-le-length p [] = omega arith
  count_if-le-length p (x ∷ xs) = ground (arith, count_if-le-length p xs)

  pub length-keep : (p : A → Bool) (xs : List A) → length (keep p xs) ≡ count_if p xs
  unfolding keep count_if
  length-keep p [] = refl
  length-keep p (x ∷ xs) = ground (arith, length-keep p xs)

  pub count_if-append :
      (p : A → Bool) (xs ys : List A) → count_if p (xs ++ ys) ≡ count_if p xs + count_if p ys
  unfolding count_if
  count_if-append p [] ys = omega arith
  count_if-append p (x ∷ xs) ys = ground (arith, count_if-append p xs ys)

module _ {ℓ κ} {A : Type ℓ} {B : Type κ} (f : A → B) where
  pub length-map : (xs : List A) → length (map f xs) ≡ length xs
  length-map [] = refl
  length-map (x ∷ xs) = ap suc (length-map xs)

  pub keep-map : (p : B → Bool) (xs : List A) → keep p (map f xs) ≡ map f (keep (λ x. p (f x)) xs)
  unfolding keep
  keep-map p [] = refl
  keep-map p (x ∷ xs) = elim (Bool-cases (p (f x))) [
    | inl e ↦ rw e (ap (λ r. f x ∷ r) (keep-map p xs))
    | inr e ↦ rw e (keep-map p xs)
  ]

  pub map-append : (xs ys : List A) → map f (xs ++ ys) ≡ map f xs ++ map f ys
  map-append [] ys = refl
  map-append (x ∷ xs) ys = ap (λ r. f x ∷ r) (map-append xs ys)

  pub map-reverse : (xs : List A) → map f (reverse xs) ≡ reverse (map f xs)
  map-reverse [] = refl
  map-reverse (x ∷ xs) = map-append (reverse xs) (x ∷ []) ∙ ap (λ r. r ++ f x ∷ []) (map-reverse xs)

  pub All-map : (P : B → Type 0) (xs : List A) → All (λ x. P (f x)) xs → All P (map f xs)
  All-map P [] h = tt
  All-map P (x ∷ xs) (h, hs) = (h, All-map P xs hs)

module _ {ℓ} {A : Type ℓ} ⦃e : Eq A⦄ where
  -- Python's `x in xs`.
  unfoldable pub contains : A → List A → Bool
  contains a [] = false
  contains a (x ∷ xs) = x == a || contains a xs

-- To split on a computed list and keep the equation.
pub List-cases {ℓ} :
    {A : Type ℓ} (xs : List A) → (xs ≡ []) ⊎ ((y : A) × (ys : List A) × (xs ≡ y ∷ ys))
List-cases [] = inl refl
List-cases (y ∷ ys) = inr (y, ys, refl)
