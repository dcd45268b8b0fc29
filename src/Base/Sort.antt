-- ===== src/Base/Sort.antt =====
-- Sorting by a total preorder: Python's `sort` by a key and the database's ORDER BY.
use mathlib.Core.Path.{◌≡◌, refl, ◌∙◌, subst}
use mathlib.Core.Logic.{inl, inr}
use mathlib.Core.Bool.{Bool, true, false}
use mathlib.Core.List.{List, [], ◌∷◌, ◌++◌}
use native.Mathlib.Omega.{arith}
use package.fm.Base.Tests.{if◌then◌else◌, Bool-cases}
use package.fm.Base.Lists.{All, All-imp, keep, count_if}

pub record Order {ℓ} (A : Type ℓ) : Type ℓ where
  pub le : A → A → Bool
  pub le-trans : (a b c : A) → le a b ≡ true → le b c ≡ true → le a c ≡ true
  pub le-total : (a b : A) → le a b ≡ false → le b a ≡ true

module _ {ℓ} {A : Type ℓ} (order : Order A) where
  open order use {le}

  unfoldable pub insert : A → List A → List A
  insert x [] = x ∷ []
  insert x (y ∷ ys) = let rest = insert x ys in if le x y then x ∷ y ∷ ys else y ∷ rest

  -- Elements that are equal in the order keep their places.
  unfoldable pub sort : List A → List A
  unfolding insert
  sort [] = []
  sort (x ∷ xs) = insert x (sort xs)

  abbrev pub IsSorted : List A → Type 0
  IsSorted [] = Unit
  IsSorted (x ∷ xs) = All (λ y. le x y ≡ true) xs × IsSorted xs

  insert-All : (P : A → Type 0) (x : A) (ys : List A) → P x → All P ys → All P (insert x ys)
  unfolding insert
  insert-All P x [] p ps = (p, tt)
  insert-All P x (y ∷ ys) p (q, ps) = elim (Bool-cases (le x y)) [
    | inl e ↦ rw e (p, (q, ps))
    | inr e ↦ rw e (q, insert-All P x ys p ps)
  ]

  pub sort-All : (P : A → Type 0) (xs : List A) → All P xs → All P (sort xs)
  unfolding sort
  sort-All P [] h = tt
  sort-All P (x ∷ xs) (p, ps) = insert-All P x (sort xs) p (sort-All P xs ps)

  le-All :
      (x y : A) (ys : List A)
      → le x y ≡ true
      → All (λ z. le y z ≡ true) ys
      → All (λ z. le x z ≡ true) ys
  le-All x y [] e h = tt
  le-All x y (z ∷ zs) e (h, hs) = (order.le-trans x y z e h, le-All x y zs e hs)

  insert-IsSorted : (x : A) (ys : List A) → IsSorted ys → IsSorted (insert x ys)
  unfolding insert
  insert-IsSorted x [] h = (tt, tt)
  insert-IsSorted x (y ∷ ys) (h, hs) = elim (Bool-cases (le x y)) [
    | inl e ↦ rw e ((e, le-All x y ys e h), (h, hs))
    | inr e ↦
        rw e
          (insert-All (λ z. le y z ≡ true) x ys (order.le-total x y e) h, insert-IsSorted x ys hs)
  ]

  pub sort-IsSorted : (xs : List A) → IsSorted (sort xs)
  unfolding sort
  sort-IsSorted [] = tt
  sort-IsSorted (x ∷ xs) = insert-IsSorted x (sort xs) (sort-IsSorted xs)

  count_if-insert :
      (p : A → Bool) (x : A) (ys : List A) → count_if p (insert x ys) ≡ count_if p (x ∷ ys)
  unfolding insert count_if
  count_if-insert p x [] = refl
  count_if-insert p x (y ∷ ys) = ground (arith, count_if-insert p x ys)

  -- Nothing is lost or added.
  pub count_if-sort : (p : A → Bool) (xs : List A) → count_if p (sort xs) ≡ count_if p xs
  unfolding sort count_if
  count_if-sort p [] = refl
  count_if-sort p (x ∷ xs) = count_if-insert p x (sort xs) ∙ ground (arith, count_if-sort p xs)

  pub keep-insert-other :
      (q : A → Bool) (x : A) (ys : List A) → q x ≡ false → keep q (insert x ys) ≡ keep q ys
  unfolding insert keep
  keep-insert-other q x [] h = rw h refl
  keep-insert-other q x (y ∷ ys) h = ground (arith, h, keep-insert-other q x ys h)

  keep-none :
      (q : A → Bool) (x : A) (ys : List A)
      → All (λ z. le x z ≡ true) ys
      → All (λ z. q z ≡ true → le x z ≡ false) ys
      → keep q ys ≡ []
  unfolding keep
  keep-none q x [] h k = refl
  keep-none q x (y ∷ ys) (h, hs) (k, ks) = elim (Bool-cases (q y)) [
    | inl e ↦ cc (h, k e)
    | inr e ↦ rw e (keep-none q x ys hs ks)
  ]

  -- An element behind all of its class goes to the end of the class.
  pub keep-insert-last :
      (q : A → Bool) (x : A) (ys : List A)
      → q x ≡ true
      → IsSorted ys
      → All (λ z. q z ≡ true → le x z ≡ false) ys
      → keep q (insert x ys) ≡ keep q ys ++ x ∷ []
  unfolding insert keep
  keep-insert-last q x [] h s k = rw h refl
  keep-insert-last q x (y ∷ ys) h (s, ss) (k, ks) = elim (Bool-cases (le x y)) [
    | inl e ↦ rw e (rw h (rw (keep-none q x (y ∷ ys) (e, le-All x y ys e s) (k, ks)) refl))
    | inr e ↦ rw e (ground (arith, h, keep-insert-last q x ys h ss ks))
  ]

  le_refl : (x : A) → le x x ≡ true
  le_refl x = elim (Bool-cases (le x x)) [ inl e ↦ e | inr e ↦ order.le-total x x e ]

  insert-All-inv : (P : A → Type 0) (x : A) (ys : List A) → All P (insert x ys) → P x × All P ys
  unfolding insert
  insert-All-inv P x [] h = h
  insert-All-inv P x (y ∷ ys) h = elim (Bool-cases (le x y)) [
    | inl e ↦ rw e at h
    | inr e ↦ let (k, rest) = rw e at h in let (p, ps) = insert-All-inv P x ys rest in (p, (k, ps))
  ]

  pub sort-All-inv : (P : A → Type 0) (xs : List A) → All P (sort xs) → All P xs
  unfolding sort
  sort-All-inv P [] h = tt
  sort-All-inv P (x ∷ xs) h =
      let (p, ps) = insert-All-inv P x (sort xs) h in (p, sort-All-inv P xs ps)

  -- The first element that passes a test is the least of those that do.
  pub head-keep :
      (q : A → Bool) (xs : List A) (x : A) (rest : List A)
      → IsSorted xs
      → keep q xs ≡ x ∷ rest
      → (q x ≡ true) × All (λ z. q z ≡ true → le x z ≡ true) xs
  unfolding keep
  head-keep q [] x rest s h = absurd (cc h)
  head-keep q (y ∷ ys) x rest (s, ss) h = elim (Bool-cases (q y)) [
    | inl e ↦
        let same : y ≡ x = cc (rw e at h) in
        subst (λ z. (q z ≡ true) × All (λ w. q w ≡ true → le z w ≡ true) (y ∷ ys)) same
          (
            e,
            (
              (λ k. le_refl y),
              All-imp (λ w. le y w ≡ true) (λ w. q w ≡ true → le y w ≡ true) ys (λ w k j. k) s,
            ),
          )
    | inr e ↦
        let (p, ps) = head-keep q ys x rest ss (rw e at h) in (p, ((λ k. absurd (cc (e, k))), ps))
  ]

  pub head-least :
      (xs : List A) (x : A) (rest : List A)
      → IsSorted xs
      → xs ≡ x ∷ rest
      → All (λ z. le x z ≡ true) xs
  head-least [] x rest s h = absurd (cc h)
  head-least (y ∷ ys) x rest (s, ss) h =
      subst (λ z. All (λ w. le z w ≡ true) (y ∷ ys)) (cc h) (le_refl y, s)
