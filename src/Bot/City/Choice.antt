-- ===== src/Bot/City/Choice.antt =====
-- /city of services/bot/handlers/city.py, with the rows of services/bot/storage/operator_prefs.py. The
-- table is a parameter, as is `lower`.
use fm.Base.{ℕ, String, Option, none, some, List, [], ◌∷◌, if◌then◌else◌, nat_eq}
use fm.Datetime.{Datetime}
use fm.Keyed.{Keyed}
use fm.Bot.City.{is_active}

pub record OperatorPrefs : Type 0 where
  pub telegram_user_id : ℕ
  pub default_city_tag : String
  pub updated_at : Datetime

-- The command shows the city, refuses a tag, or sets it.
pub data CityAnswer : Type 0 where
  shown : String → CityAnswer
  refused : CityAnswer
  set_to : String → CityAnswer

module _ (table : Keyed (λ (row : OperatorPrefs). row.telegram_user_id)) where
  open table use {Db, find, write}

  abbrev pub city_in : Option OperatorPrefs → Option String
  city_in none = none
  city_in (some row) = some row.default_city_tag

  unfoldable pub get_stored_default_city : ℕ → Db → Option String
  get_stored_default_city user_id db = city_in (find user_id db)

  unfoldable pub set_default_city : ℕ → String → Datetime → Db → Db
  set_default_city user_id city_tag now db =
      write (record { telegram_user_id = user_id; default_city_tag = city_tag; updated_at = now })
        db

  -- `city` is what stands under `default_city`, and `city_or` what it counts as.
  abbrev pub city_or : String → Option String → String
  city_or default_operator_city none = default_operator_city
  city_or default_operator_city (some city) = city

  unfoldable pub city_command :
      (String → String)
      → List String
      → String
      → ℕ
      → List String
      → Datetime
      → Option String
      → Db
      → CityAnswer × Option String × Db
  unfolding set_default_city
  city_command lower active default_operator_city user_id [] now city db =
      (shown (city_or default_operator_city city), city, db)
  city_command lower active default_operator_city user_id (arg ∷ args) now city db =
      if is_active active (lower arg)
      then (set_to (lower arg), some (lower arg), set_default_city user_id (lower arg) now db)
      else (refused, city, db)
