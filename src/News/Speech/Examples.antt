-- ===== src/News/Speech/Examples.antt =====
-- A summary that is spoken, and read from the cache.
use fm.Base.{
  String, ◌≡◌, refl, true, false, some, [], ◌∷◌, ok, err, if◌then◌else◌, ◌==◌, string_eq,
  string_iff, Bool-cases, inl, inr, ◌≢◌,
}
use fm.Base.Int.{pos}
use fm.Base.Values.{str, int, field, end}
use fm.Redis.{memory, nothing_held}
use fm.News.Speech.{SpeechTools, value_error, State, synthesize_mp3_for_summary, token_ttl_sec}
use fm.News.Speech.Again.{Again, synthesize-Again}

abbrev root_or : String → String
root_or path = if path == "" then "/" else path

root_or_twice : (path : String) → root_or (root_or path) ≡ root_or path
root_or_twice path = elim (Bool-cases (path == "")) [ inl e ↦ rw e refl | inr e ↦ rw e (rw e refl) ]

root_or_full : (path : String) → root_or path ≢ ""
root_or_full path h = elim (Bool-cases (path == "")) [
  | inl e ↦ cc (rw e at h)
  | inr e ↦ absurd (cc (e, (string_iff path "").1 (rw e at h)))
]

abbrev tools_1 : SpeechTools
tools_1 = record {
  sha256 = λ summary. summary;
  base_dir = "/data/news";
  resolve = root_or;
  resolve_idem = root_or_twice;
  resolve_full = root_or_full;
  credentials = "secret";
  oauth = ok (record { status_code = 200; body = some (field "access_token" (str "t") end) });
  synthesize = λ token summary. ok (record { status_code = 200; content = 1 ∷ [] });
  transcodes = λ wav. true;
  probe_duration = λ path. some 61_000_000;
  show = λ value. "";
  float_of = λ value. err value_error;
}

abbrev state_1 : State tools_1 memory
state_1 = record {
  store = nothing_held;
  files = λ path. false;
  auth = record { token = ""; expires_at = 0 };
}

synthesize-Again_example :
    Again tools_1 memory "summary" (synthesize_mp3_for_summary tools_1 memory "summary" 5 7 state_1)
synthesize-Again_example = synthesize-Again tools_1 memory "summary" 5 7 state_1

spoken_1 :
    (synthesize_mp3_for_summary tools_1 memory "summary" 5 7 state_1).0
    ≡ ok ("/data/news/cache/summary.mp3", pos 61_000_000, false)
unfolding synthesize_mp3_for_summary
spoken_1 = refl

-- Half an hour is cut to 29 minutes.
ttl_1 : token_ttl_sec (field "expires_in" (int (pos 1800)) end) 0 ≡ 1740
unfolding token_ttl_sec
ttl_1 = refl
