-- ===== src/Ads/Examples.antt =====
-- Submissions against an injector that accepts, and one that is full.
use fm.Base.{true, false, refl, some, [], ◌∷◌, ok}
use fm.Base.Values.{dict, field, list, cons, nil, str, end}
use fm.Table.{listed}
use fm.Ads.Records.{Ad, queued}
use fm.Ads.Client.{Exchange, answered}
use fm.Ads.Submit.{Tools, AdRequest, World, submit_voice_ad}
use fm.Ads.Routes.{submit_ad}
use fm.Ads.Outcomes.{Settled, Recorded, submit_voice_ad-Settled}
use fm.Ads.Requests.{submit_ad-created}

abbrev accepting : Exchange
accepting = answered (record {
  status_code = 201;
  body = some (dict (field "city_tags" (list (cons (str "msk") nil)) end));
})

abbrev full : Exchange
full = answered (record {
  status_code = 409;
  body = some (dict (field "detail" (dict (field "city_tag" (str "msk") end)) end));
})

abbrev tools_with : Exchange → Tools
tools_with exchange = record {
  max_ad_duration_sec = 60;
  ads_dir = "/data/ads";
  file_id = "0123456789ab";
  transcode = λ ogg. ok tt;
  probe_duration = ok 12500000;
  post = λ payload. exchange;
}

abbrev request_1 : AdRequest
request_1 = record {
  ogg_bytes = 1 ∷ 2 ∷ [];
  telegram_user_id = 7;
  city_tag = "msk";
  duration_sec = 13;
}

abbrev empty_world : World (listed (λ (row : Ad). row.id))
empty_world = record { db = []; files = λ path. false }

submit_voice_ad-Settled_example :
    Settled
      (listed (λ (row : Ad). row.id))
      (tools_with full)
      request_1
      empty_world
      (submit_voice_ad
        (listed (λ row. row.id))
        (tools_with full)
        ("msk" ∷ [])
        request_1
        empty_world).0
      (submit_voice_ad
        (listed (λ row. row.id))
        (tools_with full)
        ("msk" ∷ [])
        request_1
        empty_world).1
submit_voice_ad-Settled_example =
    submit_voice_ad-Settled (listed (λ (row : Ad). row.id)) (tools_with full) ("msk" ∷ []) request_1
      empty_world refl

submit_ad-created_example :
    Recorded
      (listed (λ (row : Ad). row.id))
      (tools_with accepting)
      request_1
      queued
      true
      empty_world
      (submit_ad
        (listed (λ row. row.id))
        "secret"
        100
        (tools_with accepting)
        ("msk" ∷ [])
        (some "secret")
        request_1
        empty_world).1
unfolding submit_ad
submit_ad-created_example =
    submit_ad-created (listed (λ (row : Ad). row.id)) "secret" 100 (tools_with accepting)
      ("msk" ∷ []) (some "secret") request_1 empty_world refl refl
