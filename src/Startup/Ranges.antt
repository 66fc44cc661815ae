-- ===== src/Startup/Ranges.antt =====
-- The settings that internal/config/config.go lets through, and the durations made of them.
use go_rest_boilerplate.Base.{
  ℕ, ◌*◌, ◌^◌, ◌≤◌, ◌<◌, ℤ, pos, negsuc, Bool, true, false, ◌≡◌, refl, ap, arith, String, List, [],
  ◌∷◌, Bool-cases, inl, inr,
}
use go_rest_boilerplate.Base.Int.{lt_ℤ}
use go_rest_boilerplate.Exec.{Result, ok, err}
use go_rest_boilerplate.Time.{hour}
use go_rest_boilerplate.Startup.{
  Config, Library, apply_defaults, outside, first_bad, range_checks, check_environment,
  lacks_required, check, checked, loaded, initialize_app_config,
}
use go_rest_boilerplate.Startup.Wiring.{natural, jwt_service}

abbrev pub Within : ℕ → ℕ → ℤ → Type 0
Within low high (pos n) = (low ≤ n) × (n ≤ high)
Within low high (negsuc n) = ⊥

abbrev pub AtLeast : ℕ → ℤ → Type 0
AtLeast low (pos n) = low ≤ n
AtLeast low (negsuc n) = ⊥

-- No check fails.
unfoldable pub AllFalse : List (Bool × String) → Type 0
AllFalse [] = Unit
AllFalse ((b, m) ∷ cs) = (b ≡ false) × AllFalse cs

first_bad_ok :
    (cs : List (Bool × String)) (r : Result (Unit {0})) → first_bad cs r ≡ ok tt → AllFalse cs
unfolding first_bad AllFalse
first_bad_ok [] r h = tt
first_bad_ok ((true, m) ∷ cs) r h = ground (arith, h)
first_bad_ok ((false, m) ∷ cs) r h = (refl, first_bad_ok cs r h)

outside-Within : (low high : ℕ) (n : ℤ) → outside (pos low) (pos high) n ≡ false → Within low high n
outside-Within low high (pos n) h = ground (arith, h)
outside-Within low high (negsuc n) h = ground (arith, h)

lt-AtLeast : (low : ℕ) (n : ℤ) → lt_ℤ n (pos low) ≡ false → AtLeast low n
lt-AtLeast low (pos n) h = ground (arith, h)
lt-AtLeast low (negsuc n) h = ground (arith, h)

abbrev or_ok : Config → Result Config → Config
or_ok a (ok b) = b
or_ok a (err e) = a

ok_inj : {a b : Config} → ok a ≡ ok b → a ≡ b
ok_inj {a} h = ap (or_ok a) h

natural_at_most : (low high : ℕ) (n : ℤ) → Within low high n → natural n ≤ high
natural_at_most low high (pos n) h = h.1
natural_at_most low high (negsuc n) h = absurd h

module _ (lib : Library) where
  -- What the checks let through.
  pub record InRange (c : Config) : Type 0 where
    pub port : Within 1 65535 c.port
    pub jwt_expired : Within 1 720 c.jwt_expired
    pub jwt_refresh_expired : Within 1 365 c.jwt_refresh_expired
    pub jwt_secret : 32 ≤ lib.len c.jwt_secret
    pub redis_expired : AtLeast 1 c.redis_expired
    pub idle_conns : AtLeast 0 c.db_max_idle_conns
    pub pool : lt_ℤ c.db_max_open_conns c.db_max_idle_conns ≡ false
    pub otp_max_attempts : AtLeast 1 c.otp_max_attempts
    pub bcrypt_cost : Within 10 31 c.bcrypt_cost

  check-InRange : (c : Config) → check lib c ≡ ok tt → InRange c
  unfolding check range_checks AllFalse
  check-InRange c h = elim (Bool-cases (lacks_required c)) [
    | inl e ↦ absurd (ground (arith, e, h))
    | inr e ↦
        let g = first_bad_ok (range_checks lib c) (check_environment lib c) (rw e at h) in
        let (p, (j, (r, (s, (d, (o, (a, (b, last)))))))) = g in
        record {
          port = outside-Within 1 65535 c.port p;
          jwt_expired = outside-Within 1 720 c.jwt_expired j;
          jwt_refresh_expired = outside-Within 1 365 c.jwt_refresh_expired r;
          jwt_secret = ground (arith, s);
          redis_expired = lt-AtLeast 1 c.redis_expired d;
          idle_conns = lt-AtLeast 0 c.db_max_idle_conns (ground (arith, o));
          pool = ground (arith, o);
          otp_max_attempts = lt-AtLeast 1 c.otp_max_attempts a;
          bcrypt_cost = outside-Within 10 31 c.bcrypt_cost b;
        }
  ]

  checked-check :
      (d : Config) (r : Result (Unit {0})) {c : Config}
      → checked lib d r ≡ ok c
      → (r ≡ ok tt) × (d ≡ c)
  checked-check d (ok u) h = (refl, ok_inj h)
  checked-check d (err e) h = ground (arith, h)

  loaded-check :
      (r : Result (Unit {0})) (u : Result Config) {c : Config}
      → loaded lib r u ≡ ok c
      → check lib c ≡ ok tt
  loaded-check (err e) u h = ground (arith, h)
  loaded-check (ok x) (err e) h = ground (arith, h)
  loaded-check (ok x) (ok d) h =
      let (k, e) = checked-check (apply_defaults d) (check lib (apply_defaults d)) h in rw e at k

  -- Settings with which the server starts are in their ranges, and the lifetimes of both kinds of
  -- token, in nanoseconds, are 64-bit numbers.
  pub initialize_app_config-InRange :
      {c : Config}
      → initialize_app_config lib ≡ ok c
      → InRange c
        × (hour * (jwt_service c).expired < 2 ^ 63)
        × (24 * hour * (jwt_service c).refresh_expired < 2 ^ 63)
  unfolding initialize_app_config
  initialize_app_config-InRange {c} h =
      let r = check-InRange c (loaded-check lib.read_in_config lib.unmarshal h) in
      (
        r,
        omega (arith, natural_at_most 1 720 c.jwt_expired r.jwt_expired),
        omega (arith, natural_at_most 1 365 c.jwt_refresh_expired r.jwt_refresh_expired),
      )
