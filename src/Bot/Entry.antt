-- ===== src/Bot/Entry.antt =====
-- Whom the bot lets in, and with which city.
use fm.Base.{
  ℕ, String, ◌≡◌, refl, ◌⊎◌, Bool, true, false, ◌||◌, Option, none, some, List, contains, nat_eq,
  string_eq, Bool-cases, inl, inr, arith, ◌∙◌,
}
use fm.Bot.Auth.{
  Access, is_admin, is_operator, valid_city_tag, ensure_operator_city_loaded, auth_middleware,
}

-- The city of the conversation, the operator's stored one if it is valid, or the default.
abbrev pub CityOf : Option (List String) → String → Option String → Option String → String → Type 0
CityOf active default_city stored (some held) city = city ≡ held
CityOf active default_city none none city = city ≡ default_city
CityOf active default_city (some kept) none city =
    ((city ≡ kept) × (valid_city_tag active kept ≡ true))
    ⊎ ((city ≡ default_city) × (valid_city_tag active kept ≡ false))

loaded :
    (active : Option (List String)) (default_city : String) (stored held : Option String)
    → CityOf active default_city stored held
        (ensure_operator_city_loaded active default_city stored held)
unfolding ensure_operator_city_loaded
loaded active default_city stored (some held) = refl
loaded active default_city none none = refl
loaded active default_city (some kept) none = elim (Bool-cases (valid_city_tag active kept)) [
  | inl e ↦ inl (rw e refl, e)
  | inr e ↦ inr (rw e refl, e)
]

abbrev pub on_list : Option (List ℕ) → Bool → ℕ → Bool
on_list none otherwise user_id = otherwise
on_list (some ids) otherwise user_id = contains user_id ids

operators :
    (access : Access) (user_id : ℕ)
    → is_operator access user_id
      ≡ (is_admin access user_id || on_list access.operators access.open_access user_id)
unfolding is_operator is_admin
operators access user_id = ground arith

-- The bot hears exactly the updates of admins, of those on the list of operators, and without such a
-- list of everyone when the access is open. The city of the conversation is then the one it has, else
-- the operator's stored one if that is valid, else the default.
pub auth_middleware_lem :
    (access : Access) (active : Option (List String)) (default_city : String)
    (stored held : Option String) (user_id : ℕ)
    → let allowed =
        is_admin access user_id || on_list access.operators access.open_access user_id in
      let answer = auth_middleware access active default_city stored (some user_id) held in
      ((allowed ≡ false) → answer ≡ none)
      × ((allowed ≡ true)
          → (city : String) × (answer ≡ some city) × CityOf active default_city stored held city)
unfolding auth_middleware
auth_middleware_lem access active default_city stored held user_id = (
  (λ e. rw (operators access user_id ∙ e) refl),
  (λ e. (
    ensure_operator_city_loaded active default_city stored held,
    rw (operators access user_id ∙ e) refl,
    loaded active default_city stored held,
  )),
)
