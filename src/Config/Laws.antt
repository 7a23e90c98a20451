-- ===== src/Config/Laws.antt =====
-- What Load accepts.
use apekeeper.Common.{
  ◌≡◌, refl, subst, String, Bool, true, false, not, ltb, none, some, List, [], ◌∷◌, All, ℤ, is_pos,
  Result, ok, err, ◌>>◌, bind-ok, ok-inj, byte_length, arith, Option-cases, then-ok, inl, inr,
}
use apekeeper.Config.{
  Config, ConfigError, invalid, Library, is_between, max_body, max_rate, parse_retention,
  read_config, missing_names, none_missing, check, check_values, check_limits, load,
  is_postgres_url, is_oauth_redirect_url,
}

-- What a start relies on: the secret has at least 32 bytes, the addresses are what they stand for,
-- the retention is positive, and every limit lies in its range.
pub record IsValid (lib : Library) (c : Config) : Type 0 where
  pub retention : is_pos c.snapshot_retention_days ≡ true
  pub complete : missing_names lib c ≡ []
  pub database : is_postgres_url lib c.database_url ≡ true
  pub redirect : is_oauth_redirect_url lib c.oauth_redirect_url ≡ true
  pub secret : ltb (byte_length c.session_secret) 32 ≡ false
  pub schedule : lib.is_time_of_day c.sync_schedule ≡ true
  pub body : is_between max_body c.max_request_body ≡ true
  pub rates :
      All
        (λ v. is_between max_rate v ≡ true)
        (c.rate_limit ∷ c.auth_rate_limit ∷ c.sync_rate_limit ∷ c.export_rate_limit
          ∷ c.mutation_rate_limit ∷ [])
  pub bodies :
      All
        (λ v. is_between max_body v ≡ true)
        (c.auth_body_limit ∷ c.sync_body_limit ∷ c.export_body_limit ∷ c.mutation_body_limit ∷ [])

module _ (lib : Library) where
  check-ok : (b : Bool) (name : String) (x : Unit {0}) → check lib b name ≡ ok x → b ≡ true
  check-ok true name x h = refl
  check-ok false name x h = absurd (ground arith)

  port_body :
      (c : Config)
      → elim (lib.atoi c.server_port) [
        | none ↦ err (invalid "SERVER_PORT")
        | some port ↦ check lib (is_between max_body c.max_request_body) "MAX_REQUEST_BODY_BYTES"
      ]
        ≡ ok tt
      → is_between max_body c.max_request_body ≡ true
  port_body c h = elim (Option-cases (lib.atoi c.server_port)) [
    | inl e ↦ absurd (ground arith)
    | inr (p, e) ↦
        check-ok (is_between max_body c.max_request_body) "MAX_REQUEST_BODY_BYTES" tt (ground arith)
  ]

  retention-pos : (n : ℤ) → parse_retention lib ≡ ok n → is_pos n ≡ true
  unfolding parse_retention
  retention-pos n h = ground arith

  none_missing-empty : (ns : List String) → none_missing lib ns ≡ ok tt → ns ≡ []
  none_missing-empty [] h = refl
  none_missing-empty (n ∷ ns) h = absurd (ground arith)

  -- one test of a chain, and the chain before it
  peel :
      (m : Result ConfigError (Unit {0})) (b : Bool) (name : String)
      → (m >> check lib b name) ≡ ok tt
      → (m ≡ ok tt) × (b ≡ true)
  peel m b name h =
      let (before, last) = then-ok m (check lib b name) tt h in (before, check-ok b name tt last)

  limits-IsValid :
      (c : Config)
      → check_limits lib c ≡ ok tt
      → All
          (λ v. is_between max_rate v ≡ true)
          (c.rate_limit ∷ c.auth_rate_limit ∷ c.sync_rate_limit ∷ c.export_rate_limit
            ∷ c.mutation_rate_limit ∷ [])
        × All
            (λ v. is_between max_body v ≡ true)
            (c.auth_body_limit ∷ c.sync_body_limit ∷ c.export_body_limit ∷ c.mutation_body_limit
              ∷ [])
  unfolding check_limits
  limits-IsValid c h =
      let (h9, level) = peel _ (lib.is_level c.log_level) "LOG_LEVEL" h in
      let (h8, l8) =
        peel _ (is_between max_body c.mutation_body_limit) "MUTATION_MAX_BODY_BYTES" h9 in
      let (h7, l7) = peel _ (is_between max_body c.export_body_limit) "EXPORT_MAX_BODY_BYTES" h8 in
      let (h6, l6) = peel _ (is_between max_body c.sync_body_limit) "SYNC_MAX_BODY_BYTES" h7 in
      let (h5, l5) = peel _ (is_between max_body c.auth_body_limit) "AUTH_MAX_BODY_BYTES" h6 in
      let (h4, l4) =
        peel _ (is_between max_rate c.mutation_rate_limit) "MUTATION_RATE_LIMIT_PER_MINUTE" h5 in
      let (h3, l3) =
        peel _ (is_between max_rate c.export_rate_limit) "EXPORT_RATE_LIMIT_PER_MINUTE" h4 in
      let (h2, l2) =
        peel _ (is_between max_rate c.sync_rate_limit) "SYNC_RATE_LIMIT_PER_MINUTE" h3 in
      let (h1, l1) =
        peel _ (is_between max_rate c.auth_rate_limit) "AUTH_RATE_LIMIT_PER_MINUTE" h2 in
      let l0 = check-ok (is_between max_rate c.rate_limit) "RATE_LIMIT_PER_MINUTE" tt h1 in
      ((l0, (l1, (l2, (l3, (l4, tt))))), (l5, (l6, (l7, (l8, tt)))))

  values-IsValid :
      (c : Config)
      → check_values lib c ≡ ok tt
      → (is_postgres_url lib c.database_url ≡ true)
        × (is_oauth_redirect_url lib c.oauth_redirect_url ≡ true)
        × (ltb (byte_length c.session_secret) 32 ≡ false)
        × (lib.is_time_of_day c.sync_schedule ≡ true)
        × (is_between max_body c.max_request_body ≡ true)
  unfolding check_values
  values-IsValid c h =
      let (h4, port) = then-ok _ _ tt h in
      let (h3, schedule) = peel _ (lib.is_time_of_day c.sync_schedule) "SYNC_SCHEDULE" h4 in
      let (h2, secret) = peel _ (not (ltb (byte_length c.session_secret) 32)) "SESSION_SECRET" h3 in
      let (h1, redirect) =
        peel _ (is_oauth_redirect_url lib c.oauth_redirect_url) "OAUTH_REDIRECT_URL" h2 in
      let database = check-ok (is_postgres_url lib c.database_url) "DATABASE_URL" tt h1 in
      (database, redirect, ground arith, schedule, port_body c port)

  -- A configuration that Load returns without an error is valid: nothing that is required is empty,
  -- the database is a PostgreSQL URL and the redirect an HTTP URL with a host, the secret has at least
  -- 32 bytes, the schedule is a time of day, the retention is positive, every rate lies between 1 and
  -- 10000 and every body limit between 1 and 16777216.
  pub load-IsValid : (c : Config) → load lib ≡ ok c → IsValid lib c
  unfolding load read_config
  load-IsValid c h =
      let (days, retained, h1) = bind-ok (parse_retention lib) _ c h in
      let d = read_config lib days in
      let (h2, same) = then-ok _ (ok d) c h1 in
      let (h3, limits) = then-ok _ (check_limits lib d) tt h2 in
      let (given, values) = then-ok _ (check_values lib d) tt h3 in
      let (rates, bodies) = limits-IsValid d limits in
      let (database, redirect, secret, schedule, body) = values-IsValid d values in
      subst (IsValid lib) (ok-inj d c same) (record {
        retention = retention-pos days retained;
        complete = none_missing-empty (missing_names lib d) given;
        database = database;
        redirect = redirect;
        secret = secret;
        schedule = schedule;
        body = body;
        rates = rates;
        bodies = bodies;
      })
