-- ===== src/Metadata/Status.antt =====
-- When the deep health check is green.
use fm.Base.{
  ℕ, String, ◌≡◌, refl, ◌↔◌, Bool, true, false, ◌&&◌, all, Result, ok, err, ◌<◌, arith, ◌==◌,
  string_eq, Bool-cases, inl, inr,
}
use fm.Metadata.Health.{
  Probes, up, down, is_ok, check_redis, check_postgres, probe_http, components_of, deep_status,
}

abbrev pub IsUp : Result String ℕ → Type 0
IsUp (ok status) = status < 400
IsUp (err exc) = ⊥

redis_iff : (ping : Result String Bool) → (is_ok (check_redis ping) ≡ true) ↔ (ping ≡ ok true)
unfolding check_redis
redis_iff (ok true) = ((λ h. refl), (λ h. refl))
redis_iff (ok false) = ((λ h. absurd (cc h)), (λ h. absurd (cc h)))
redis_iff (err exc) = ((λ h. absurd (cc h)), (λ h. absurd (cc h)))

postgres_iff :
    (url : String) (select : Result String (Unit {0}))
    → (is_ok (check_postgres url select) ≡ true) ↔ (((url == "") ≡ false) × (select ≡ ok tt))
unfolding check_postgres
postgres_iff url select = elim (Bool-cases (url == "")) [
  | inl e ↦ rw (e, check_postgres) ((λ h. absurd (cc h)), (λ h. absurd (cc h.0)))
  | inr e ↦ rw (e, check_postgres) (go select)
]
  where
    go :
        (s : Result String (Unit {0}))
        → (is_ok (elim s [ ok _ ↦ up | err exc ↦ down exc ]) ≡ true)
          ↔ ((false ≡ false) × (s ≡ ok tt))
    go (ok _) = ((λ h. (refl, refl)), (λ h. refl))
    go (err exc) = ((λ h. absurd (cc h)), (λ h. absurd (cc h.1)))

http_iff :
    (decimal : ℕ → String) (answer : Result String ℕ)
    → (is_ok (probe_http decimal answer) ≡ true) ↔ IsUp answer
unfolding probe_http
http_iff decimal (err exc) = ((λ h. absurd (cc h)), (λ h. absurd h))
http_iff decimal (ok status) = ((λ h. ground (arith, h)), (λ h. ground (arith, h)))

code_iff :
    (decimal : ℕ → String) (probes : Probes)
    → ((deep_status decimal probes).2 ≡ 200)
      ↔ (all (λ entry. is_ok entry.1) (components_of decimal probes) ≡ true)
unfolding deep_status
code_iff decimal probes =
    elim (Bool-cases (all (λ entry. is_ok entry.1) (components_of decimal probes))) [
      | inl e ↦ rw (e, deep_status) ((λ h. refl), (λ h. refl))
      | inr e ↦ rw (e, deep_status) ((λ h. absurd (omega (arith, h))), (λ h. absurd (cc h)))
    ]

all_four :
    (a b c d : Bool)
    → (a && (b && (c && (d && true))) ≡ true) ↔ ((a ≡ true) × (b ≡ true) × (c ≡ true) × (d ≡ true))
all_four a b c d = ground arith

-- The deep check answers 200 exactly when Redis answers its ping, a database URL is set and the
-- database can be queried, and both HTTP probes answer a status below 400.
pub deep_status_lem :
    (decimal : ℕ → String) (probes : Probes)
    → ((deep_status decimal probes).2 ≡ 200) ↔ (
        (probes.ping ≡ ok true)
        × ((probes.database_url == "") ≡ false)
        × (probes.select ≡ ok tt)
        × IsUp probes.icecast
        × IsUp probes.liquidsoap)
unfolding deep_status all components_of
deep_status_lem decimal probes = (
  (λ h.
      let (r, p, i, l) = (all_four _ _ _ _).0 ((code_iff decimal probes).0 h) in
      let (set, selected) = (postgres_iff probes.database_url probes.select).0 p in
      (
        (redis_iff probes.ping).0 r,
        set,
        selected,
        (http_iff decimal probes.icecast).0 i,
        (http_iff decimal probes.liquidsoap).0 l,
      )),
  (λ (r, set, selected, i, l). (code_iff decimal probes).1 (
      (all_four _ _ _ _).1 (
        (redis_iff probes.ping).1 r,
        (postgres_iff probes.database_url probes.select).1 (set, selected),
        (http_iff decimal probes.icecast).1 i,
        (http_iff decimal probes.liquidsoap).1 l,
      ))),
)
