-- ===== src/Metadata/Health.antt =====
-- services/metadata/health.py and listeners.py: the health of the parts and the listeners of a mount.
-- What the probes meet is a parameter.
use fm.Base.{
  ℕ, String, Bool, true, false, Option, none, some, List, [], ◌∷◌, Result, ok, err, all, ltb,
  if◌then◌else◌, ◌==◌, string_eq,
}
use Prim.Native.String.{◌++◌}
use fm.Base.Int.{ℤ, pos_part}
use fm.Base.Values.{Value, Values, Fields, nil, cons, bool, int, str, list, dict, get_field}

-- A `ComponentResult`.
pub data Component : Type 0 where
  up : Component
  down : String → Component

abbrev pub is_ok : Component → Bool
is_ok up = true
is_ok (down detail) = false

-- `ping` answers or raises.
unfoldable pub check_redis : Result String Bool → Component
check_redis (ok true) = up
check_redis (ok false) = down "ping returned false"
check_redis (err exc) = down exc

-- `select` is what the SELECT raises, if it does.
unfoldable pub check_postgres : String → Result String (Unit {0}) → Component
check_postgres database_url select =
    if database_url == ""
    then down "DATABASE_URL is not set"
    else elim select [ ok _ ↦ up | err exc ↦ down exc ]

-- The status of a GET, whose text is a parameter, or what it raises.
unfoldable pub probe_http : (ℕ → String) → Result String ℕ → Component
probe_http decimal (ok status) = if ltb status 400 then up else down ("HTTP " ++ decimal status)
probe_http decimal (err exc) = down exc

pub record Probes : Type 0 where
  pub ping : Result String Bool
  pub database_url : String
  pub select : Result String (Unit {0})
  pub icecast : Result String ℕ
  pub liquidsoap : Result String ℕ

pub data HealthStatus : Type 0 where
  healthy degraded : HealthStatus

unfoldable pub public_status : Result String Bool → HealthStatus × ℕ
unfolding check_redis
public_status ping = if is_ok (check_redis ping) then (healthy, 200) else (degraded, 200)

unfoldable pub components_of : (ℕ → String) → Probes → List (String × Component)
unfolding check_redis check_postgres probe_http
components_of decimal probes =
    ("redis", check_redis probes.ping)
    ∷ ("postgres", check_postgres probes.database_url probes.select)
    ∷ ("icecast", probe_http decimal probes.icecast)
    ∷ ("liquidsoap", probe_http decimal probes.liquidsoap)
    ∷ []

unfoldable pub deep_status : (ℕ → String) → Probes → HealthStatus × List (String × Component) × ℕ
unfolding components_of all
deep_status decimal probes =
    let components = components_of decimal probes in
    if all (λ entry. is_ok entry.1) components
    then (healthy, components, 200)
    else (degraded, components, 503)

-- The objects among the sources of a status page.
unfoldable pub objects_of : Values → List Fields
objects_of nil = []
objects_of (cons (dict source) rest) = source ∷ objects_of rest
objects_of (cons _ rest) = objects_of rest

unfoldable pub normalize_sources : Option Value → List Fields
unfolding objects_of
normalize_sources (some (dict source)) = source ∷ []
normalize_sources (some (list sources)) = objects_of sources
normalize_sources _ = []

module _ (parse_int : String → Option ℤ) (url_path : String → String) where
  -- `url_path` is the path of the URL without the slashes at its end.
  unfoldable pub mount_matches : String → String → Bool
  mount_matches listenurl city_tag =
      let path = url_path listenurl in (if path == "" then "/" else path) == "/" ++ city_tag

  unfoldable pub parse_listeners : Option Value → ℕ
  parse_listeners (some (int n)) = pos_part n
  parse_listeners (some (bool b)) = if b then 1 else 0
  parse_listeners (some (str s)) = elim (parse_int s) [ none ↦ 0 | some n ↦ pos_part n ]
  parse_listeners _ = 0

  unfoldable pub count_sources : String → List Fields → ℕ
  unfolding mount_matches parse_listeners get_field
  count_sources city_tag [] = 0
  count_sources city_tag (source ∷ sources) =
      let rest = count_sources city_tag sources in
      elim (get_field "listenurl" source) [
        | some (str listenurl) ↦
            if mount_matches listenurl city_tag
            then parse_listeners (get_field "listeners" source)
            else rest
        | _ ↦ rest
      ]

  -- `payload` is the JSON object of the status page, or `none` when the fetch or the parse raises.
  unfoldable pub read_listener_count : Option Fields → String → Option ℕ
  unfolding count_sources normalize_sources get_field
  read_listener_count none city_tag = none
  read_listener_count (some payload) city_tag = elim (get_field "icestats" payload) [
    | some (dict icestats) ↦
        some (count_sources city_tag (normalize_sources (get_field "source" icestats)))
    | _ ↦ none
  ]
