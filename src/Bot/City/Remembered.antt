-- ===== src/Bot/City/Remembered.antt =====
-- The choice of a city is remembered.
use fm.Base.{
  ℕ, String, ◌≡◌, refl, ◌∙◌, ap, true, Option, none, some, List, [], ◌∷◌, if◌then◌else◌, ◌==◌,
  nat_eq, string_eq, Bool-cases, inl, inr, arith,
}
use fm.Datetime.{Datetime}
use fm.Keyed.{Keyed}
use fm.Bot.Auth.{Access, is_operator, valid_city_tag, ensure_operator_city_loaded, auth_middleware}
use fm.Bot.City.{is_active}
use fm.Bot.City.Choice.{
  OperatorPrefs, CityAnswer, set_to, city_in, get_stored_default_city, set_default_city,
  city_command,
}

module _ (table : Keyed (λ (row : OperatorPrefs). row.telegram_user_id)) where
  open table use {Db, find, write}

  -- After a choice the conversation has the city, every new conversation of an operator whom the bot
  -- hears starts with it, and the other operators' cities stay; without one nothing changes.
  abbrev pub Remembers :
      List String → String → ℕ → Option String → Db → CityAnswer × Option String × Db → Type 0
  Remembers active default_operator_city user_id city before (set_to tag, now_set, after) =
      (is_active active tag ≡ true)
      × (now_set ≡ some tag)
      × ((access : Access)
          → auth_middleware access (some active) default_operator_city
              (get_stored_default_city table user_id after) (some user_id) none
            ≡ (if is_operator access user_id then some tag else none))
      × ((other : ℕ)
          → get_stored_default_city table other after
            ≡ (if user_id == other then some tag else get_stored_default_city table other before))
  Remembers active default_operator_city user_id city before (_, now_set, after) =
      (now_set ≡ city) × (after ≡ before)

  stored :
      (user_id : ℕ) (tag : String) (now : Datetime) (db : Db) (other : ℕ)
      → get_stored_default_city table other (set_default_city table user_id tag now db)
        ≡ (if user_id == other then some tag else get_stored_default_city table other db)
  unfolding get_stored_default_city set_default_city
  stored user_id tag now db other =
      ap (city_in table) (table.find-write _ db other)
      ∙ elim (Bool-cases (user_id == other)) [ inl e ↦ rw e refl | inr e ↦ rw e refl ]

  own :
      (user_id : ℕ) (tag : String) (now : Datetime) (db : Db)
      → (if user_id == user_id then some tag else get_stored_default_city table user_id db)
        ≡ some tag
  own user_id tag now db = ground arith

  valid_tag :
      (active : List String) (tag : String)
      → is_active active tag ≡ true
      → valid_city_tag (some active) tag ≡ true
  unfolding valid_city_tag
  valid_tag active tag h = elim (Bool-cases (tag == "all")) [
    | inl e ↦ rw e refl
    | inr e ↦ rw e (rw e at h)
  ]

  greeted :
      (access : Access) (active : List String) (default_operator_city tag : String) (user_id : ℕ)
      (city : Option String)
      → city ≡ some tag
      → is_active active tag ≡ true
      → auth_middleware access (some active) default_operator_city city (some user_id) none
        ≡ (if is_operator access user_id then some tag else none)
  unfolding auth_middleware ensure_operator_city_loaded
  greeted access active default_operator_city tag user_id city same fit =
      elim (Bool-cases (is_operator access user_id)) [
        | inl e ↦ rw same (rw (e, auth_middleware) (rw (valid_tag active tag fit) refl))
        | inr e ↦ rw (e, auth_middleware) refl
      ]

  -- /city and the middleware agree: a city that is chosen is active or all, the conversation has it at
  -- once, and the middleware gives it to the operator in every new conversation, while the rows of all
  -- others stay. A tag that is refused, and the command alone, change nothing.
  pub city_command-Remembers :
      (lower : String → String) (active : List String) (default_operator_city : String)
      (user_id : ℕ) (args : List String) (now : Datetime) (city : Option String) (db : Db)
      → Remembers active default_operator_city user_id city db
          (city_command table lower active default_operator_city user_id args now city db)
  unfolding city_command
  city_command-Remembers lower active default_operator_city user_id [] now city db = (refl, refl)
  city_command-Remembers lower active default_operator_city user_id (arg ∷ args) now city db =
      elim (Bool-cases (is_active active (lower arg))) [
        | inr e ↦ rw (e, city_command) (refl, refl)
        | inl e ↦
            rw (e, city_command)
              (
                e,
                refl,
                (λ access.
                    greeted access active default_operator_city (lower arg) user_id _
                      (stored user_id (lower arg) now db user_id ∙ own user_id (lower arg) now db)
                      e),
                stored user_id (lower arg) now db,
              )
      ]
