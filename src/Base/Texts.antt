-- ===== src/Base/Texts.antt =====
-- Texts with a fixed prefix: the keys of the store.
use Prim.Native.Char.{code}
use Prim.Native.String.{String, ◌++◌}
use mathlib.Core.Path.{◌≡◌, refl, sym, ◌∙◌, ap}
use mathlib.Core.Logic.{◌≢◌, inl, inr}
use mathlib.Core.Bool.{Bool, true, false}
use mathlib.Core.Option.{Option, none, some}
use native.Mathlib.Omega.{arith}
use text.Mathlib.TextLemmas.{
  append_cancel_left, cons-append, nil-append, head-eq_of_cons-eq, tail-eq_of_cons-eq,
}
use package.fm.Base.Tests.{
  if◌then◌else◌, ◌==◌, string_eq, nat_eq, string_iff, Bool-cases, eqb_iff, string_refl,
}

-- The rest of a text behind a prefix.
unfoldable pub strip : String → String → Option String
strip String.[] s = some s
strip (String.◌∷◌ c p) String.[] = none
strip (String.◌∷◌ c p) (String.◌∷◌ d s) =
    let rest = strip p s in if code c == code d then rest else none

-- `s.removeprefix(p)`
unfoldable pub removeprefix : String → String → String
unfolding strip
removeprefix p s = elim (strip p s) [ none ↦ s | some rest ↦ rest ]

pub strip-append : (p s : String) → strip p (p ++ s) ≡ some s
unfolding strip
strip-append String.[] s = rw nil-append
strip-append (String.◌∷◌ c p) s =
    rw cons-append (rw ((eqb_iff (code c) (code c)).1 refl) (strip-append p s))

pub removeprefix-append : (p s : String) → removeprefix p (p ++ s) ≡ s
unfolding removeprefix
removeprefix-append p s = rw (strip-append p s, removeprefix)

-- Two prefixes part before either ends.
unfoldable pub clash : String → String → Bool
clash String.[] q = false
clash (String.◌∷◌ c p) String.[] = false
clash (String.◌∷◌ c p) (String.◌∷◌ d q) =
    let rest = clash p q in if code c == code d then rest else true

-- A prefix that parts from the text's own is not there.
pub strip-clash : (p q s : String) → clash p q ≡ true → strip p (q ++ s) ≡ none
unfolding strip clash
strip-clash String.[] q s h = absurd (cc h)
strip-clash (String.◌∷◌ c p) String.[] s h = absurd (cc h)
strip-clash (String.◌∷◌ c p) (String.◌∷◌ d q) s h = elim (Bool-cases (code c == code d)) [
  | inl same ↦ rw cons-append (rw same (strip-clash p q s (rw same at h)))
  | inr other ↦ rw cons-append (rw other refl)
]

clash-ne : (p q a b : String) → clash p q ≡ true → p ++ a ≢ q ++ b
unfolding clash
clash-ne String.[] q a b h e = cc
clash-ne (String.◌∷◌ c p) String.[] a b h e = cc
clash-ne (String.◌∷◌ c p) (String.◌∷◌ d q) a b h e =
    let e' = sym (cons-append c p a) ∙ e ∙ cons-append d q b in
    elim (Bool-cases (code c == code d)) [
      | inl same ↦ clash-ne p q a b (rw same at h) (tail-eq_of_cons-eq e')
      | inr other ↦ absurd (ground (arith, ap code (head-eq_of_cons-eq e')))
    ]

-- Keys with one prefix are told apart by what follows it.
pub key_same : (p a b : String) → ((p ++ a) == (p ++ b)) ≡ (a == b)
key_same p a b = elim (Bool-cases (a == b)) [
  | inl e ↦ rw e (rw ((string_iff a b).0 e) (string_refl (p ++ b)))
  | inr ne ↦ elim (Bool-cases ((p ++ a) == (p ++ b))) [
    | inl e ↦
        cc ((string_iff a b).1 (append_cancel_left p a b ((string_iff (p ++ a) (p ++ b)).0 e)))
    | inr f ↦ f ∙ sym ne
  ]
]

-- Keys with prefixes that clash are different.
pub key_other : (p q a b : String) → clash p q ≡ true → ((p ++ a) == (q ++ b)) ≡ false
key_other p q a b h = elim (Bool-cases ((p ++ a) == (q ++ b))) [
  | inl e ↦ absurd (clash-ne p q a b h ((string_iff (p ++ a) (q ++ b)).0 e))
  | inr f ↦ f
]
