-- ===== src/Common.antt =====
-- services/common/security.py
use fm.Base.{String, Bool, false, Option, none, some, if◌then◌else◌, ◌==◌, string_eq, ◌||◌}

-- `hmac.compare_digest` is an equality test, over ASCII texts.
unfoldable pub secrets_match : Option String → String → Bool
secrets_match none expected = false
secrets_match (some provided) expected =
    if provided == "" || expected == "" then false else provided == expected
