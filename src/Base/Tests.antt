-- ===== src/Base/Tests.antt =====
-- Boolean tests on native numbers and on texts, and the conditional.
use Prim.Native.Nat.{ℕ, ◌≤◌, ◌<◌, compare, Ordering}
use Prim.Native.String.{String}
use mathlib.Core.Path.{◌≡◌, refl}
use mathlib.Core.Logic.{◌↔◌, ◌⊎◌, inl, inr}
use mathlib.Core.Bool.{Bool, true, false}
use mathlib.Core.Option.{Option, none, some}
use native.Mathlib.Omega.{arith}
use text.Mathlib.Text.{◌==◌ as str_eq}
use text.Mathlib.TextEquality.{eq_iff}

abbrev pub ltb : ℕ → ℕ → Bool
ltb a b = elim (compare a b) [ Ordering.lt ↦ true | _ ↦ false ]

abbrev pub leb : ℕ → ℕ → Bool
leb a b = elim (compare a b) [ Ordering.gt ↦ false | _ ↦ true ]

abbrev pub eqb : ℕ → ℕ → Bool
eqb a b = elim (compare a b) [ Ordering.eq ↦ true | _ ↦ false ]

infix 1 if◌then◌else◌
abbrev pub if◌then◌else◌ {ℓ} : {A : Type ℓ} → Bool → A → A → A
if true then x else y = x
if false then x else y = y

pub ltb→lt : (a b : ℕ) → ltb a b ≡ true → a < b
ltb→lt a b h = ground arith

pub lt→ltb : (a b : ℕ) → a < b → ltb a b ≡ true
lt→ltb a b h = ground arith

pub leb→le : (a b : ℕ) → leb a b ≡ true → a ≤ b
leb→le a b h = ground arith

pub eqb_iff : (a b : ℕ) → (eqb a b ≡ true) ↔ (a ≡ b)
eqb_iff a b = ground arith

pub ruleset tests = (arith, ltb→lt, lt→ltb, leb→le)

-- A type whose values the source compares with `==`: the comparison, and that it is exact.
pub record Eq {ℓ} (A : Type ℓ) : Type ℓ where
  pub same : A → A → Bool
  pub same_sound : (x y : A) → same x y ≡ true → x ≡ y
  pub same_refl : (x : A) → same x x ≡ true

instance abbrev pub string_eq : Eq String
string_eq = record {
  same = str_eq;
  same_sound = λ x y. (eq_iff x y).0;
  same_refl = λ x. (eq_iff x x).1 refl;
}

instance abbrev pub nat_eq : Eq ℕ
nat_eq = record {
  same = eqb;
  same_sound = λ x y. (eqb_iff x y).0;
  same_refl = λ x. (eqb_iff x x).1 refl;
}

abbrev pub ◌==◌ {ℓ} : {A : Type ℓ} ⦃by : Eq A⦄ → A → A → Bool
◌==◌ ⦃by⦄ x y = by.same x y

infix 50 ◌==◌
pub string_iff : (a b : String) → ((a == b) ≡ true) ↔ (a ≡ b)
string_iff = eq_iff

pub string_refl : (a : String) → (a == a) ≡ true
string_refl a = (eq_iff a a).1 refl

-- To split on a computed value and keep the equation.
pub Bool-cases : (b : Bool) → (b ≡ true) ⊎ (b ≡ false)
Bool-cases true = inl refl
Bool-cases false = inr refl

pub Option-cases {ℓ} : {A : Type ℓ} (o : Option A) → (o ≡ none) ⊎ ((a : A) × (o ≡ some a))
Option-cases none = inl refl
Option-cases (some a) = inr (a, refl)
