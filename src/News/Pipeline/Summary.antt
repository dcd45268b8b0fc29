-- ===== src/News/Pipeline/Summary.antt =====
-- Which summaries get through.
use fm.Base.{
  String, ◌≤◌, ◌≡◌, ◌∙◌, sym, subst, true, false, Option, none, some, ok, arith, Bool-cases,
  Result-cases, ok_inj, inl, inr, ◌⊎◌,
}
use fm.News.Pipeline.{Clients, count_words, is_valid_word_count, generate_summary}

module _ (clients : Clients) where
  -- The answer of the first or of the second call, within the limits, or that both missed them.
  abbrev pub Accepts : String → Option String → Type 0
  Accepts source_text (some summary) =
      (150 ≤ count_words clients summary)
      × (count_words clients summary ≤ 250)
      × ((clients.summarize source_text false ≡ ok summary)
          ⊎ (clients.summarize source_text true ≡ ok summary))
  Accepts source_text none =
      (text : String)
      → (clients.summarize source_text false ≡ ok text)
        ⊎ (clients.summarize source_text true ≡ ok text)
      → is_valid_word_count clients text ≡ false

  within :
      (text : String)
      → is_valid_word_count clients text ≡ true
      → (150 ≤ count_words clients text) × (count_words clients text ≤ 250)
  unfolding is_valid_word_count
  within text h = ground (arith, h)

  -- A summary that is accepted is what the summariser answered at the first or the second call and has
  -- 150 to 250 words; when none is, no answer of the two calls has that many.
  pub generate_summary_lem :
      (source_text : String) (summary : Option String)
      → generate_summary clients source_text ≡ ok summary
      → Accepts source_text summary
  unfolding generate_summary
  generate_summary_lem source_text summary h =
      elim (Result-cases (clients.summarize source_text false)) [
        | inr (e, a) ↦ absurd (cc (rw (a, generate_summary) at h))
        | inl (first, a) ↦ elim (Bool-cases (is_valid_word_count clients first)) [
          | inl v ↦
              let (low, high) = within first v in
              subst (Accepts source_text) (ok_inj (rw v at (rw (a, generate_summary) at h)))
                (low, high, inl a)
          | inr v ↦ elim (Result-cases (clients.summarize source_text true)) [
            | inr (e, b) ↦ absurd (cc (rw b at (rw v at (rw (a, generate_summary) at h))))
            | inl (second, b) ↦ elim (Bool-cases (is_valid_word_count clients second)) [
              | inl w ↦
                  let (low, high) = within second w in
                  subst (Accepts source_text)
                    (ok_inj (rw w at (rw b at (rw v at (rw (a, generate_summary) at h)))))
                    (low, high, inr b)
              | inr w ↦
                  subst (Accepts source_text)
                    (ok_inj (rw w at (rw b at (rw v at (rw (a, generate_summary) at h)))))
                    (refused first second a b v w)
            ]
          ]
        ]
      ]
    where
      refused :
          (first second : String)
          → clients.summarize source_text false ≡ ok first
          → clients.summarize source_text true ≡ ok second
          → is_valid_word_count clients first ≡ false
          → is_valid_word_count clients second ≡ false
          → Accepts source_text none
      refused first second a b v w text (inl h) =
          subst (λ t. is_valid_word_count clients t ≡ false) (ok_inj (sym a ∙ h)) v
      refused first second a b v w text (inr h) =
          subst (λ t. is_valid_word_count clients t ≡ false) (ok_inj (sym b ∙ h)) w
