-- ===== src/Music/Fill.antt =====
-- What the filling of a queue adds.
use fm.Base.{
  ℕ, String, ◌+◌, ◌≤◌, ◌≡◌, max, false, some, none, List, [], ◌∷◌, ◌++◌, length, get_elem?,
  contains, nat_eq, string_eq, ◌⊎◌,
}
use fm.Music.Resolve.{TrackInfo}
use fm.Music.Buffer.{Providers, Posted, accepted, refused, raised, Settings, resolve_track}
use fm.Music.Worker.{Progress, Outcome, finished, crashed, Job, payload_for}

-- The ids are new and all different.
abbrev pub Fresh : List String → List String → Type 0
Fresh [] old = Unit
Fresh (id ∷ ids) old = (contains id (ids ++ old) ≡ false) × Fresh ids old

module _ (settings : Settings) (providers : Providers) {S : Type 0} (job : Job S) where
  -- A track of the catalogue that is playable is posted, and answered so.
  abbrev pub Offers : TrackInfo → String → S → Posted → S → Type 0
  Offers track uri s reply t =
      ((i : ℕ) × (get_elem? job.catalog i ≡ some track))
      × (resolve_track settings providers job.provider track ≡ some uri)
      × (job.post (payload_for settings providers job track uri) s ≡ (reply, t))

  -- The posts from one state to a later one, with the ids that were accepted, the latest first.
  pub data Posts : List String → S → S → Type 0 where
    no_post : {s : S} → Posts [] s s
    took :
        {ids : List String} {s t u : S} (track : TrackInfo) (uri : String)
        → Posts ids s t
        → Offers track uri t accepted u
        → Posts (track.track_id ∷ ids) s u
    turned_down :
        {ids : List String} {s t u : S} (track : TrackInfo) (uri : String)
        → Posts ids s t
        → Offers track uri t refused u
        → Posts ids s u

  -- What breaks the loop off: there is no track to take, or a post that raises.
  abbrev pub Breaks : S → S → Type 0
  Breaks s t =
      ((i : ℕ) × (get_elem? job.catalog i ≡ none) × (t ≡ s))
      ⊎ ((track : TrackInfo) × (uri : String) × Offers track uri s raised t)

  -- From one state of the loop to a later one: what was enqueued in between.
  pub record Adds (p : Progress) (s : S) (q : Progress) (t : S) : Type 0 where
    pub news : List String
    pub excluded_grows : q.excluded ≡ news ++ p.excluded
    pub counted : q.added ≡ length news + p.added
    pub fresh : Fresh news p.excluded
    pub posts : Posts news s t

  abbrev pub Ends : Progress → S → Outcome S → Type 0
  Ends p s (crashed u) =
      (news : List String) × (t : S) × Posts news s t
      × Fresh news p.excluded
      × (length news + p.added ≤ max p.added job.deficit)
      × Breaks t u
  Ends p s (finished q t) = Adds p s q t × (q.added ≤ max p.added job.deficit)

  abbrev Step : Progress → S → Outcome S → Type 0
  Step p s (crashed u) = Breaks s u
  Step p s (finished q t) = Adds p s q t × (q.added ≤ p.added + 1)
