-- ===== src/News/Guard.antt =====
-- Which city makes a news slot slip.
mod Examples
use fm.Base.{
  ℕ, String, ◌+◌, ◌≤◌, ◌≡◌, refl, Bool, true, false, ◌||◌, Option, none, some, List, [], ◌∷◌, All,
  All-imp, contains, if◌then◌else◌, Result, ok, err, ◌>>=◌, bind-ok, ok_inj, ◌==◌, string_eq,
  string_refl, arith, ◌⊎◌, inl, inr, Bool-cases, subst, sym, ◌∙◌, ap,
}
use fm.Base.Int.{ℤ, pos, pos_part, neg_part, ◌≤ℤ◌, ltb_ℤ}
use fm.Base.Values.{Value}
use fm.Datetime.{Datetime}
use fm.News.Slip.{
  SlipError, Worst, worse, worst_loop, skip_if, estimate_slip_sec, should_skip_for_slip,
}

bind-err :
    {E A B : Type 0} (m : Result E A) (f : A → Result E B) (e : E)
    → (m >>= f) ≡ err e
    → (m ≡ err e) ⊎ ((a : A) × (m ≡ ok a) × (f a ≡ err e))
bind-err (ok a) f e h = inr (a, refl, h)
bind-err (err x) f e h = inl (cc h)

module _ (slip : String → Result SlipError ℤ) where
  -- No city of the list slips by more.
  abbrev pub IsBound : ℤ → List String → Type 0
  IsBound bound cities = All (λ city. (s : ℤ) × (slip city ≡ ok s) × s ≤ℤ bound) cities

  abbrev pub Slips : Option String → ℤ → List String → Type 0
  Slips none bound cities = bound ≡ pos 0
  Slips (some city) bound cities = (contains city cities ≡ true) × (slip city ≡ ok bound)

  worse-above :
      (city : String) (worst : Worst) (s : ℤ)
      → (worst.1 ≤ℤ (worse city worst s).1) × (s ≤ℤ (worse city worst s).1)
  worse-above city (c, w) s = ground arith

  -- The loop ends at least where it began, above every city's slip, and with the city it began with or
  -- with a city that slips so much.
  worst_loop-IsBound :
      (cities : List String) (worst last : Worst)
      → worst_loop slip cities worst ≡ ok last
      → (worst.1 ≤ℤ last.1) × IsBound last.1 cities
  unfolding worst_loop
  worst_loop-IsBound [] worst last h = (subst (λ w. worst.1 ≤ℤ w.1) (ok_inj h) (omega arith), tt)
  worst_loop-IsBound (city ∷ cities) worst last h =
      let (s, at, rest) =
        bind-ok (slip city) (λ s. worst_loop slip cities (worse city worst s)) last h in
      let (above, bound) = worst_loop-IsBound cities (worse city worst s) last rest in
      let (old, new) = worse-above city worst s in
      (omega (arith, above, old), ((s, at, omega (arith, above, new)), bound))

  worse-Slips :
      (all : List String) (city : String) (worst : Worst) (s : ℤ)
      → contains city all ≡ true
      → slip city ≡ ok s
      → Slips worst.0 worst.1 all
      → Slips (worse city worst s).0 (worse city worst s).1 all
  worse-Slips all city (c, w) s within at held = elim (Bool-cases (ltb_ℤ w s)) [
    | inl e ↦ rw e (within, at)
    | inr e ↦ rw e held
  ]

  worst_loop-Slips :
      (all cities : List String) (worst last : Worst)
      → ((city : String) → contains city cities ≡ true → contains city all ≡ true)
      → Slips worst.0 worst.1 all
      → worst_loop slip cities worst ≡ ok last
      → Slips last.0 last.1 all
  unfolding worst_loop contains
  worst_loop-Slips all [] worst last within held h = subst (λ w. Slips w.0 w.1 all) (ok_inj h) held
  worst_loop-Slips all (city ∷ cities) worst last within held h =
      let (s, at, rest) =
        bind-ok (slip city) (λ s. worst_loop slip cities (worse city worst s)) last h in
      worst_loop-Slips all cities (worse city worst s) last
        (λ c inside. within c (ground (arith, inside)))
        (worse-Slips all city worst s (within city (rw (string_refl city) refl)) at held) rest

  abbrev pub Verdict : List String → ℕ → Bool × Option String → Type 0
  Verdict cities limit (false, city) = (city ≡ none) × IsBound (pos limit) cities
  Verdict cities limit (true, none) = ⊥
  Verdict cities limit (true, some city) =
      (contains city cities ≡ true)
      × ((s : ℤ) × (slip city ≡ ok s) × (ltb_ℤ (pos limit) s ≡ true) × IsBound s cities)

  weaken : (a b : ℤ) (cities : List String) → a ≤ℤ b → IsBound a cities → IsBound b cities
  weaken a b cities h bound =
      All-imp (λ city. (s : ℤ) × (slip city ≡ ok s) × s ≤ℤ a)
        (λ city. (s : ℤ) × (slip city ≡ ok s) × s ≤ℤ b) cities
        (λ city (s, at, below). (s, at, omega (arith, below, h))) bound

  judged :
      (cities : List String) (limit : ℕ) (last : Worst)
      → IsBound last.1 cities
      → Slips last.0 last.1 cities
      → Verdict cities limit (skip_if limit last)
  judged cities limit (none, w) bound held = elim (Bool-cases (ltb_ℤ (pos limit) w)) [
    | inl e ↦ absurd (ground (arith, e, ap pos_part held, ap neg_part held))
    | inr e ↦ rw e (refl, weaken w (pos limit) cities (ground (arith, e)) bound)
  ]
  judged cities limit (some city, w) bound (within, at) = elim (Bool-cases (ltb_ℤ (pos limit) w)) [
    | inl e ↦ rw e (within, (w, at, e, bound))
    | inr e ↦ rw e (refl, weaken w (pos limit) cities (ground (arith, e)) bound)
  ]

  worst_loop-raises :
      (cities : List String) (worst : Worst) (e : SlipError)
      → worst_loop slip cities worst ≡ err e
      → (city : String) × (contains city cities ≡ true) × (slip city ≡ err e)
  unfolding worst_loop contains
  worst_loop-raises [] worst e h = absurd (cc h)
  worst_loop-raises (city ∷ cities) worst e h =
      elim (bind-err (slip city) (λ s. worst_loop slip cities (worse city worst s)) e h) [
        | inl raised ↦ (city, rw (string_refl city) refl, raised)
        | inr (s, at, rest) ↦
            let (c, inside, raised) = worst_loop-raises cities (worse city worst s) e rest in
            (c, ground (arith, inside), raised)
      ]

  abbrev pub Judgement : List String → ℕ → Result SlipError (Bool × Option String) → Type 0
  Judgement cities limit (ok answer) = Verdict cities limit answer
  Judgement cities limit (err e) =
      (city : String) × (contains city cities ≡ true) × (slip city ≡ err e)

  settled :
      (cities : List String) (limit : ℕ) (result : Result SlipError Worst)
      → worst_loop slip cities (none, pos 0) ≡ result
      → Judgement cities limit (result >>= (λ worst. ok (skip_if limit worst)))
  settled cities limit (ok last) at =
      judged cities limit last (worst_loop-IsBound cities (none, pos 0) last at).1
        (worst_loop-Slips cities cities (none, pos 0) last (λ c inside. inside) refl at)
  settled cities limit (err e) at = worst_loop-raises cities (none, pos 0) e at

-- Whether a slot is skipped, for every state of the queues: an answer "skip" names a city of the list,
-- which slips by more than the limit and by no less than any other; after an answer "go on" no city
-- slips by more than the limit; and the guard raises only where the estimate of one of the cities does.
pub should_skip_for_slip_lem :
    (started_at : String → Option Datetime) (parse_float : String → Option ℤ)
    (to_int to_float : Value → Result SlipError ℤ) (hgetall : String → List (String × String))
    (list_items : String → Result SlipError (List Value)) (cities : List String)
    (slot now : Datetime) (max_slip_sec : ℕ)
    → Judgement
        (λ city.
          estimate_slip_sec started_at parse_float to_int to_float hgetall list_items city slot now)
        cities
        max_slip_sec
        (should_skip_for_slip started_at parse_float to_int to_float hgetall list_items cities slot
          now max_slip_sec)
unfolding should_skip_for_slip
should_skip_for_slip_lem started_at parse_float to_int to_float hgetall list_items cities slot now
      max_slip_sec =
    settled
      (λ city.
        estimate_slip_sec started_at parse_float to_int to_float hgetall list_items city slot now)
      cities max_slip_sec _ refl
