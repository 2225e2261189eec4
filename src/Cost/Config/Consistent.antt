-- ===== src/Cost/Config/Consistent.antt =====
-- What a configuration that `CostTrackingConfig.from_env` of
-- openai_compatible_bridge/core/cost_tracking.py returns can be relied on for.
use openai_compatible_bridge.Prelude.{
  ℕ, zero, suc, ◌<◌, Bool, true, false, not, ◌||◌, Option, none, some, String, List, [], ◌∷◌, ◌≡◌,
  refl, is_empty, is_some, by_branches, by_option, arith,
}
use openai_compatible_bridge.Prelude.Int.{ℤ, pos, negsuc}
use openai_compatible_bridge.Prelude.Result.{
  Result, ok, err, guard, Ensures, ◌>>◌, Ensures-bind, Ensures-then, Ensures-guard,
}
use openai_compatible_bridge.Prelude.Bytes.{codes, same_bytes, lower_bytes, strip}
use openai_compatible_bridge.Prelude.Texts.{IsTrimmed, strip-IsTrimmed}
use openai_compatible_bridge.Providers.Ollama.{is_one_of}
use openai_compatible_bridge.Cost.Config.{
  Decimal, no_decimal, not_finite, decimal, Numbers, Env, setting, require_nonempty, positive,
  parse_decimal, parse_positive_int, parse_budget_limit, Backend, sqlite, postgres, Store, Limits,
  Tracking, CostTrackingConfig, backend_name, store_of, limits_of, tracking_with, priced_limits,
  keyed_tracking, tracking_of, config_from_env, optional_setting, parse_bool,
}

-- A text that is there: what a variable is set to, without the spaces around it, and not empty.
pub Names : Env → String → Option (List ℕ) → Type 0
Names env name none = true ≡ false
Names env name (some text) =
    (value : List ℕ) × (env name ≡ some value) × IsTrimmed value text × (is_empty text ≡ false)

-- The same, if there is a text.
pub MayName : Env → String → Option (List ℕ) → Type 0
MayName env name none = Unit
MayName env name (some text) = Names env name (some text)

-- The one place of the ledger is that of its backend.
pub IsPlace : Env → Backend → Option (List ℕ) → Option (List ℕ) → Type 0
IsPlace env sqlite path dsn = Names env "COST_LEDGER_PATH" path × (dsn ≡ none)
IsPlace env postgres path dsn = (path ≡ none) × Names env "COST_LEDGER_POSTGRES_DSN" dsn

pub IsPositive : Option ℕ → Type 0
IsPositive none = Unit
IsPositive (some n) = 0 < n

pub record AreLimits (limits : Limits) : Type 0 where
  pub window : 0 < limits.short_window_seconds
  pub short : IsPositive limits.short_window_limit_usd
  pub daily : IsPositive limits.daily_limit_usd
  pub days : 0 < limits.request_retention_days
  pub months : 0 < limits.aggregate_retention_months

pub record IsTracking (env : Env) (t : Tracking) : Type 0 where
  pub place : IsPlace env t.store.backend t.store.ledger_path t.store.postgres_dsn
  pub priced : (is_some t.pricing_json || is_some t.pricing_path) ≡ true
  pub json : MayName env "COST_PRICING_JSON" t.pricing_json
  pub path : MayName env "COST_PRICING_PATH" t.pricing_path
  pub limited : AreLimits t.limits
  pub keyed : (not t.admin_enabled || is_some t.admin_api_key) ≡ true
  pub key : MayName env "COST_ADMIN_API_KEY" t.admin_api_key
  pub administered : t.admin_enabled ≡ parse_bool (env "COST_ADMIN_ENABLED")

-- The tracking is there where it is switched on; where it is not, neither is the administration.
pub IsConfig : Env → Option Tracking → Type 0
IsConfig env none =
    (parse_bool (env "COST_TRACKING_ENABLED") ≡ false)
    × (parse_bool (env "COST_ADMIN_ENABLED") ≡ false)
IsConfig env (some t) = (parse_bool (env "COST_TRACKING_ENABLED") ≡ true) × IsTracking env t

-- A fact beside what holds of a value.
with_fact :
    {A : Type 0} {F : Type 0} (P : A → Type 0) (m : Result String A)
    → F
    → Ensures P m
    → Ensures (λ a. F × P a) m
with_fact P (ok a) f h = (f, h)
with_fact P (err e) f h = tt

positive-lt : (message : String) (n : ℤ) → Ensures (λ k. 0 < k) (positive message n)
unfolding positive
positive-lt message (pos zero) = tt
positive-lt message (pos (suc n)) = omega arith
positive-lt message (negsuc n) = tt

parse_decimal-lt : (name : String) (d : Decimal) → Ensures (λ k. 0 < k) (parse_decimal false name d)
unfolding parse_decimal
parse_decimal-lt name no_decimal = tt
parse_decimal-lt name not_finite = tt
parse_decimal-lt name (decimal n) = positive-lt _ n

module _ (numbers : Numbers) where
  parse_positive_int-lt :
      (name : String) (value : List ℕ)
      → Ensures (λ k. 0 < k) (parse_positive_int numbers name value)
  unfolding parse_positive_int
  parse_positive_int-lt name value =
      by_option (Ensures (λ k. 0 < k)) (numbers.int_of_text value) (λ h. tt)
        (λ n h. positive-lt _ n)

  parse_budget_limit-IsPositive :
      (name : String) (value : List ℕ) → Ensures IsPositive (parse_budget_limit numbers name value)
  unfolding parse_budget_limit IsPositive
  parse_budget_limit-IsPositive name value =
      by_branches (Ensures IsPositive) (is_one_of (lower_bytes (strip value)) ("unlimited" ∷ []))
        (λ h. tt)
        (λ h.
          Ensures-bind (λ k. 0 < k) IsPositive _ _
            (parse_decimal-lt name (numbers.decimal_of_text value)) (λ n k. k))

-- A setting that is not empty is what its variable is set to.
setting-Names :
    (env : Env) (name : String)
    → is_empty (setting env name) ≡ false
    → Names env name (some (setting env name))
unfolding Names
setting-Names env name = found (env name) refl
  where
    found :
        (o : Option (List ℕ))
        → env name ≡ o
        → is_empty (elim o [ none ↦ [] | some value ↦ strip value ]) ≡ false
        → (value : List ℕ) × (env name ≡ some value)
          × IsTrimmed value (elim o [ none ↦ [] | some value ↦ strip value ])
          × (is_empty (elim o [ none ↦ [] | some value ↦ strip value ]) ≡ false)
    found none e h = absurd cc
    found (some value) e h = (value, e, strip-IsTrimmed value, h)

optional_setting-MayName :
    (env : Env) (name : String) → MayName env name (optional_setting env name)
unfolding MayName
optional_setting-MayName env name =
    by_branches (MayName env name) (is_empty (setting env name)) (λ h. tt)
      (λ h. setting-Names env name h)

not-false : (b : Bool) → not b ≡ true → b ≡ false
not-false true h = absurd cc
not-false false h = refl

require_nonempty-lem :
    (env : Env) (name : String)
    → Ensures (λ value. Names env name (some value)) (require_nonempty env name)
unfolding require_nonempty
require_nonempty-lem env name = found (setting env name) _ (setting-Names env name)
  where
    found :
        (value : List ℕ) (message : String)
        → (is_empty value ≡ false → Names env name (some value))
        → Ensures (λ v. Names env name (some v)) (guard (not (is_empty value)) message >> ok value)
    found [] message h = tt
    found (c ∷ cs) message h = h refl

module _ (numbers : Numbers) (env : Env) where
  HasPlace : Store → Type 0
  HasPlace s = IsPlace env s.backend s.ledger_path s.postgres_dsn

  store_of-HasPlace : Ensures HasPlace (store_of numbers env)
  unfolding store_of HasPlace IsPlace
  store_of-HasPlace =
      by_branches (Ensures HasPlace) (same_bytes (backend_name numbers env) (codes "postgres"))
        (λ p.
          Ensures-bind (λ v. Names env "COST_LEDGER_POSTGRES_DSN" (some v)) HasPlace _ _
            (require_nonempty-lem env "COST_LEDGER_POSTGRES_DSN") (λ dsn h. (refl, h)))
        (λ p.
          by_branches (Ensures HasPlace) (same_bytes (backend_name numbers env) (codes "sqlite"))
            (λ q.
              Ensures-bind (λ v. Names env "COST_LEDGER_PATH" (some v)) HasPlace _ _
                (Ensures-then (λ v. Names env "COST_LEDGER_PATH" (some v))
                  (guard (is_empty (setting env "COST_LEDGER_POSTGRES_DSN")) _) _
                  (λ u. require_nonempty-lem env "COST_LEDGER_PATH"))
                (λ path h. (h, refl)))
            (λ q. tt))

  limits_of-AreLimits : Ensures AreLimits (limits_of numbers env)
  unfolding limits_of
  limits_of-AreLimits =
      Ensures-then AreLimits (require_nonempty env "COST_SHORT_WINDOW_SECONDS") _ (λ t.
        Ensures-bind (λ k. 0 < k) AreLimits _ _ (parse_positive_int-lt numbers _ t)
          (λ seconds hs.
            Ensures-then AreLimits (require_nonempty env "COST_SHORT_WINDOW_LIMIT_USD") _ (λ u.
              Ensures-bind IsPositive AreLimits _ _ (parse_budget_limit-IsPositive numbers _ u)
                (λ short hshort.
                  Ensures-then AreLimits (require_nonempty env "COST_DAILY_LIMIT_USD") _ (λ v.
                    Ensures-bind IsPositive AreLimits _ _
                      (parse_budget_limit-IsPositive numbers _ v)
                      (λ daily hdaily.
                        Ensures-bind (λ k. 0 < k) AreLimits _ _ (parse_positive_int-lt numbers _ _)
                          (λ days hdays.
                            Ensures-bind (λ k. 0 < k) AreLimits _ _
                              (parse_positive_int-lt numbers _ _)
                              (λ months hmonths. record {
                                window = hs;
                                short = hshort;
                                daily = hdaily;
                                days = hdays;
                                months = hmonths;
                              }))))))))

  HasPrices : Type 0
  HasPrices =
      (is_some (optional_setting env "COST_PRICING_JSON")
        || is_some (optional_setting env "COST_PRICING_PATH"))
      ≡ true

  priced_limits-lem : Ensures (λ limits. HasPrices × AreLimits limits) (priced_limits numbers env)
  unfolding priced_limits HasPrices
  priced_limits-lem =
      let priced =
        is_some (optional_setting env "COST_PRICING_JSON")
        || is_some (optional_setting env "COST_PRICING_PATH") in
      Ensures-bind (λ u. priced ≡ true) (λ limits. (priced ≡ true) × AreLimits limits) _
        (λ u. limits_of numbers env) (Ensures-guard priced _)
        (λ u h. with_fact AreLimits (limits_of numbers env) h limits_of-AreLimits)

  keyed_tracking-IsTracking :
      (admin : Bool) (store : Store) (limits : Limits)
      → HasPlace store
      → HasPrices
      → AreLimits limits
      → (admin ≡ parse_bool (env "COST_ADMIN_ENABLED"))
      → Ensures (IsTracking env) (keyed_tracking numbers env admin store limits)
  unfolding keyed_tracking HasPlace HasPrices
  keyed_tracking-IsTracking admin store limits place priced limited switched =
      let keyed = not admin || is_some (optional_setting env "COST_ADMIN_API_KEY") in
      Ensures-bind (λ u. keyed ≡ true) (IsTracking env) _
        (λ u. ok (tracking_with numbers env admin store limits)) (Ensures-guard keyed _)
        (λ u h. record {
          place = place;
          priced = priced;
          json = optional_setting-MayName env "COST_PRICING_JSON";
          path = optional_setting-MayName env "COST_PRICING_PATH";
          limited = limited;
          keyed = h;
          key = optional_setting-MayName env "COST_ADMIN_API_KEY";
          administered = switched;
        })

  tracking_of-IsTracking :
      (admin : Bool)
      → admin ≡ parse_bool (env "COST_ADMIN_ENABLED")
      → Ensures (IsTracking env) (tracking_of numbers env admin)
  unfolding tracking_of
  tracking_of-IsTracking admin switched =
      Ensures-bind HasPlace (IsTracking env) _ _ store_of-HasPlace (λ store place.
        Ensures-bind (λ limits. HasPrices × AreLimits limits) (IsTracking env) _ _ priced_limits-lem
          (λ limits h. keyed_tracking-IsTracking admin store limits place (h.0) (h.1) switched))

  -- A configuration that is returned is consistent. It has cost tracking exactly where
  -- COST_TRACKING_ENABLED is on, and where it has none, COST_ADMIN_ENABLED is off. Cost tracking has the
  -- one place of its backend and none of the other; prices from at least one source; a window,
  -- retention times and, unless they are unlimited, limits that are positive; the administration where
  -- COST_ADMIN_ENABLED is on, and then an API key. The place, the prices and the key are what their
  -- variables are set to without the spaces around it, and never empty.
  pub config_from_env-IsConfig :
      Ensures (λ (c : CostTrackingConfig). IsConfig env c.tracking) (config_from_env numbers env)
  unfolding config_from_env IsConfig
  config_from_env-IsConfig =
      let Fine = λ (c : CostTrackingConfig). IsConfig env c.tracking in
      let admin = parse_bool (env "COST_ADMIN_ENABLED") in
      by_branches (Ensures Fine) (parse_bool (env "COST_TRACKING_ENABLED"))
        (λ h.
          Ensures-bind (IsTracking env) Fine _ _ (tracking_of-IsTracking admin refl)
            (λ t k. (h, k)))
        (λ h.
          Ensures-bind (λ u. not admin ≡ true) Fine _ _ (Ensures-guard (not admin) _)
            (λ u k. (h, not-false admin k)))
