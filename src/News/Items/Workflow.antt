-- ===== src/News/Items/Workflow.antt =====
-- The workflow of a news item: along which steps its status moves, and what it holds at each.
use fm.Base.{
  String, ◌≡◌, ◌≢◌, refl, sym, ◌∙◌, Bool, true, Option, none, some, subst, if◌then◌else◌, nat_eq,
  any, Bool-cases, inl, inr,
}
use mathlib.Core.Option
use mathlib.Core.Option.{some_inj}
use fm.News.Items.{
  Status, fetched, summarized, voiced, ready, failed, same_status, NewsItem, allowed_transitions,
}

-- The steps of the workflow.
pub data Advance : Status → Status → Type 0 where
  summarize : Advance fetched summarized
  voice : Advance summarized voiced
  finish : Advance voiced ready
  drop_fetched : Advance fetched failed
  drop_summarized : Advance summarized failed
  drop_voiced : Advance voiced failed

pub data Leads (a : Status) : Status → Type 0 where
  stay : Leads a a
  onward : {b c : Status} → Leads a b → Advance b c → Leads a c

pub Leads-trans : {a b c : Status} → Leads a b → Leads b c → Leads a c
Leads-trans l stay = l
Leads-trans l (onward m step) = onward (Leads-trans l m) step

-- `_ALLOWED_TRANSITIONS` holds steps of the workflow only.
pub allowed-Advance :
    (a b : Status) → any (same_status b) (allowed_transitions a) ≡ true → Advance a b
unfolding any allowed_transitions
allowed-Advance fetched summarized h = summarize
allowed-Advance fetched failed h = drop_fetched
allowed-Advance summarized voiced h = voice
allowed-Advance summarized failed h = drop_summarized
allowed-Advance voiced ready h = finish
allowed-Advance voiced failed h = drop_voiced
allowed-Advance _ _ h = cc

abbrev pub Held : Option String → Type 0
Held o = o ≢ none

-- What an item holds by its status.
abbrev pub Holds : Status → Option String → Option String → Type 0
Holds summarized summary audio = Held summary
Holds voiced summary audio = Held summary × Held audio
Holds ready summary audio = Held summary × Held audio
Holds _ summary audio = Unit

abbrev pub IsComplete : NewsItem → Type 0
IsComplete item = Holds item.status item.summary_ru item.audio_url

pub record Moves (r r' : NewsItem) : Type 0 where
  pub same_url : r'.source_url ≡ r.source_url
  pub same_hash : r'.content_hash ≡ r.content_hash
  pub leads : Leads r.status r'.status
  pub complete : IsComplete r → IsComplete r'

abbrev pub Follows : Option NewsItem → Option NewsItem → Type 0
Follows none none = Unit
Follows none (some r') = Leads fetched r'.status × IsComplete r'
Follows (some r) none = ⊥
Follows (some r) (some r') = Moves r r'

pub Moves-refl : (r : NewsItem) → Moves r r
Moves-refl r = record { same_url = refl; same_hash = refl; leads = stay; complete = λ c. c }

pub Follows-refl : (o : Option NewsItem) → Follows o o
Follows-refl none = tt
Follows-refl (some r) = Moves-refl r

Moves-trans : (a b c : NewsItem) → Moves a b → Moves b c → Moves a c
Moves-trans a b c m n = record {
  same_url = n.same_url ∙ m.same_url;
  same_hash = n.same_hash ∙ m.same_hash;
  leads = Leads-trans m.leads n.leads;
  complete = λ h. n.complete (m.complete h);
}

pub Follows-trans : (a b c : Option NewsItem) → Follows a b → Follows b c → Follows a c
Follows-trans none none c f g = g
Follows-trans none (some b) none f g = absurd g
Follows-trans none (some b) (some c) f g = (Leads-trans f.0 g.leads, g.complete f.1)
Follows-trans (some a) none c f g = absurd f
Follows-trans (some a) (some b) none f g = absurd g
Follows-trans (some a) (some b) (some c) f g = Moves-trans a b c f g

pub Follows-map :
    (p : NewsItem → Bool) (f : NewsItem → NewsItem) (o : Option NewsItem)
    → ((r : NewsItem) → o ≡ some r → p r ≡ true → Moves r (f r))
    → Follows o (Option.map (λ r. if p r then f r else r) o)
Follows-map p f none h = tt
Follows-map p f (some r) h = elim (Bool-cases (p r)) [
  | inl e ↦ subst (λ b. Moves r (if b then f r else r)) (sym e) (h r refl e)
  | inr e ↦ subst (λ b. Moves r (if b then f r else r)) (sym e) (Moves-refl r)
]

pub Follows-snoc :
    (q : NewsItem → Bool) (x : NewsItem) (o : Option NewsItem)
    → Leads fetched x.status × IsComplete x
    → Follows o (elim o [ none ↦ if q x then some x else none | some r ↦ some r ])
Follows-snoc q x none h = elim (Bool-cases (q x)) [ inl e ↦ rw e h | inr e ↦ rw e tt ]
Follows-snoc q x (some r) h = Moves-refl r

-- The steps of the methods.
pub data IsStep (target : Status) (change : NewsItem → NewsItem) : Type 0 where
  step :
      ((r : NewsItem) → (change r).id ≡ r.id)
      → ((r : NewsItem) → Advance r.status target → Moves r (change r))
      → IsStep target change

pub summary-IsStep :
    (t : String)
    → IsStep summarized (λ item. record item { summary_ru = some t; status = summarized })
summary-IsStep t =
    step (λ r. refl)
      (λ r a. record {
        same_url = refl;
        same_hash = refl;
        leads = onward stay a;
        complete = λ h e. cc;
      })

voice-Holds :
    (a : Status) (s u : Option String) (t : String)
    → Advance a voiced
    → Holds a s u
    → Holds voiced s (some t)
voice-Holds summarized s u t voice h = (h, λ e. cc)
voice-Holds fetched s u t a h = elim a [ ]
voice-Holds voiced s u t a h = elim a [ ]
voice-Holds ready s u t a h = elim a [ ]
voice-Holds failed s u t a h = elim a [ ]

finish-Holds : (a : Status) (s u : Option String) → Advance a ready → Holds a s u → Holds ready s u
finish-Holds voiced s u finish h = h
finish-Holds fetched s u a h = elim a [ ]
finish-Holds summarized s u a h = elim a [ ]
finish-Holds ready s u a h = elim a [ ]
finish-Holds failed s u a h = elim a [ ]

pub audio-IsStep :
    (t : String) → IsStep voiced (λ item. record item { audio_url = some t; status = voiced })
audio-IsStep t =
    step (λ r. refl)
      (λ r a. record {
        same_url = refl;
        same_hash = refl;
        leads = onward stay a;
        complete = voice-Holds r.status r.summary_ru r.audio_url t a;
      })

pub ready-IsStep : IsStep ready (λ item. record item { status = ready })
ready-IsStep =
    step (λ r. refl)
      (λ r a. record {
        same_url = refl;
        same_hash = refl;
        leads = onward stay a;
        complete = finish-Holds r.status r.summary_ru r.audio_url a;
      })

pub failed-IsStep : IsStep failed (λ item. record item { status = failed })
failed-IsStep =
    step (λ r. refl)
      (λ r a. record {
        same_url = refl;
        same_hash = refl;
        leads = onward stay a;
        complete = λ h. tt;
      })
