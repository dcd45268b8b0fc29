-- ===== src/Bot/Auth.antt =====
-- services/bot/middleware/auth.py: the allowlists. An allowlist is `none` when its variable is empty.
use fm.Base.{
  ℕ, String, Bool, true, false, Option, none, some, List, contains, if◌then◌else◌, ◌==◌, nat_eq,
  string_eq,
}

pub record Access : Type 0 where
  pub operators : Option (List ℕ)
  pub admins : Option (List ℕ)
  pub open_access : Bool

unfoldable pub is_admin : Access → ℕ → Bool
unfolding contains
is_admin access user_id = elim access.admins [ none ↦ false | some ids ↦ contains user_id ids ]

unfoldable pub is_operator : Access → ℕ → Bool
unfolding contains
is_operator access user_id =
    if elim access.admins [ none ↦ false | some ids ↦ contains user_id ids ]
    then true
    else elim access.operators [ none ↦ access.open_access | some ids ↦ contains user_id ids ]

-- The city tags of cities.yaml, or `none` when the file cannot be read.
unfoldable pub valid_city_tag : Option (List String) → String → Bool
unfolding contains
valid_city_tag active tag =
    if tag == "all" then true else elim active [ none ↦ true | some cities ↦ contains tag cities ]

-- What stands under `default_city` afterwards; `stored` is the operator's row.
unfoldable pub ensure_operator_city_loaded :
    Option (List String) → String → Option String → Option String → String
unfolding valid_city_tag
ensure_operator_city_loaded active default_operator_city stored (some city) = city
ensure_operator_city_loaded active default_operator_city none none = default_operator_city
ensure_operator_city_loaded active default_operator_city (some city) none =
    if valid_city_tag active city then city else default_operator_city

-- `none` is ApplicationHandlerStop; else the city of the operator.
unfoldable pub auth_middleware :
    Access
    → Option (List String)
    → String
    → Option String
    → Option ℕ
    → Option String
    → Option String
unfolding is_operator ensure_operator_city_loaded
auth_middleware access active default_operator_city stored none city = none
auth_middleware access active default_operator_city stored (some user_id) city =
    if is_operator access user_id
    then some (ensure_operator_city_loaded active default_operator_city stored city)
    else none
