-- ===== src/Ads/Requests.antt =====
-- What the status of the answer to a submission says of the ad.
use fm.Base.{
  ℕ, String, ◌≤◌, ◌≡◌, true, false, Option, some, List, Result, ok, err, arith, ltb, length,
  Bool-cases, Option-cases, inl, inr,
}
use fm.Table.{Table}
use fm.Ads.Records.{Ad, queued}
use fm.Ads.Submit.{
  Tools, AdRequest, SubmitError, Submitted, submit_success, submit_queue_full,
  submit_injector_error, output_path, World, duration_exceeded, invalid_city_tag, transcode_failed,
  crash, submit_voice_ad,
}
use fm.Ads.Routes.{Answer, check_token, answer_of, submit_ad}
use fm.Ads.Outcomes.{Recorded, Settled, submit_voice_ad-Settled}

module _ (table : Table (λ (row : Ad). row.id)) where
  created-Recorded :
      (tools : Tools) (request : AdRequest) (w w' : World table)
      (result : Result SubmitError Submitted)
      → Settled table tools request w result w'
      → (answer_of result).0 ≡ 201
      → Recorded table tools request queued true w w'
  unfolding answer_of
  created-Recorded tools request w w' (err (duration_exceeded n)) s h = absurd (omega arith)
  created-Recorded tools request w w' (err (invalid_city_tag n)) s h = absurd (omega arith)
  created-Recorded tools request w w' (err (transcode_failed n)) s h = absurd (omega arith)
  created-Recorded tools request w w' (err crash) s h = absurd (omega arith)
  created-Recorded tools request w w' (ok (submit_success id tag tags url)) s h = s.1
  created-Recorded tools request w w' (ok (submit_queue_full tag message)) s h =
      absurd (omega arith)
  created-Recorded tools request w w' (ok (submit_injector_error status message)) s h =
      absurd (omega (arith, s.0))

  refused-status :
      (internal_token : String) (provided : Option String) (answer : Answer)
      → check_token internal_token provided ≡ some answer
      → 401 ≤ answer.0
  unfolding check_token
  refused-status internal_token provided answer h = ground (arith, h)

  -- An answer 201 to a submission under a new file name means that the table has one row more, which
  -- is queued, with the sender, the city and the file of the request, and that the file is there.
  pub submit_ad-created :
      (internal_token : String) (max_upload_bytes : ℕ) (tools : Tools) (active_cities : List String)
      (provided : Option String) (request : AdRequest) (w : World table)
      → w.files (output_path tools) ≡ false
      → (submit_ad table internal_token max_upload_bytes tools active_cities provided request w).0.0
        ≡ 201
      → Recorded table tools request queued true w
          (submit_ad table internal_token max_upload_bytes tools active_cities provided request w).1
  unfolding submit_ad
  submit_ad-created internal_token max_upload_bytes tools active_cities provided request w new =
      elim (Option-cases (check_token internal_token provided)) [
        | inr (answer, e) ↦
            rw (e, submit_ad)
              (λ h. absurd (omega (arith, refused-status internal_token provided answer e)))
        | inl e ↦ elim (Bool-cases (ltb max_upload_bytes (length request.ogg_bytes))) [
          | inl large ↦ rw (e, submit_ad) (rw large (λ h. absurd (omega arith)))
          | inr small ↦
              rw (e, submit_ad)
                (rw small (
                  created-Recorded tools request w _
                    (submit_voice_ad table tools active_cities request w).0
                    (submit_voice_ad-Settled table tools active_cities request w new)))
        ]
      ]
