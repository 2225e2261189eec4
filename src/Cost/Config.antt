-- ===== src/Cost/Config.antt =====
-- `CostTrackingConfig.from_env` of openai_compatible_bridge/core/cost_tracking.py and the parsers it
-- calls. An error is the message of the CostConfigError. Texts are lists of code points; what is
-- compared in lower case is ASCII. `int()` of a text and `Decimal()` are parameters.
mod Consistent
mod Tests
use Prim.Native.String.{◌++◌ as text_append}
use openai_compatible_bridge.Prelude.{
  ℕ, zero, suc, Bool, true, false, not, ◌&&◌, ◌||◌, Option, none, some, String, List, [], ◌∷◌,
  if◌then◌else◌, ◌==◌, is_empty, is_some,
}
use openai_compatible_bridge.Prelude.Int.{ℤ, pos, negsuc}
use openai_compatible_bridge.Prelude.Result.{Result, ok, err, guard, ◌>>=◌, ◌>>◌}
use openai_compatible_bridge.Prelude.Bytes.{codes, same_bytes, lower_bytes, strip}
use openai_compatible_bridge.Providers.Ollama.{is_one_of}

-- What `Decimal(text)` is: nothing, where it raises, a NaN or an infinity, or a number, counted in
-- units of a power of ten.
pub data Decimal : Type 0 where
  no_decimal : Decimal
  not_finite : Decimal
  decimal : ℤ → Decimal

-- `int()` of a text, and `Decimal()` of a text, in units of 1e-12; a number that is finer than these
-- units has no count and is left out.
pub record Numbers : Type 0 where
  pub int_of_text : List ℕ → Option ℤ
  pub decimal_of_text : List ℕ → Decimal

-- The environment.
abbrev pub Env : Type 0
Env = String → Option (List ℕ)

-- `env.get(name, "").strip()`
abbrev pub setting : Env → String → List ℕ
setting env name = elim (env name) [ none ↦ [] | some value ↦ strip value ]

-- `env.get(name, "").strip() or None`
abbrev pub optional_setting : Env → String → Option (List ℕ)
optional_setting env name =
    let value = setting env name in if is_empty value then none else some value

-- `_parse_bool`
unfoldable pub parse_bool : Option (List ℕ) → Bool
parse_bool none = false
parse_bool (some value) = is_one_of (lower_bytes (strip value)) ("1" ∷ "true" ∷ "yes" ∷ "on" ∷ [])

-- `_require_nonempty`
unfoldable pub require_nonempty : Env → String → Result String (List ℕ)
require_nonempty env name =
    let value = setting env name in
    guard (not (is_empty value)) (text_append name " is required when cost tracking is enabled")
    >> ok value

-- A positive number.
unfoldable pub positive : String → ℤ → Result String ℕ
positive message (pos zero) = err message
positive message (pos (suc n)) = ok (suc n)
positive message (negsuc n) = err message

-- `_parse_decimal`, for the number that was read.
unfoldable pub parse_decimal : Bool → String → Decimal → Result String ℕ
parse_decimal allow_zero name no_decimal = err (text_append name " must be a decimal number")
parse_decimal allow_zero name not_finite = err (text_append name " must be finite")
parse_decimal true name (decimal (pos n)) = ok n
parse_decimal true name (decimal (negsuc n)) = err (text_append name " must be >= 0")
parse_decimal false name (decimal n) = positive (text_append name " must be > 0") n

module _ (numbers : Numbers) where
  -- `_parse_positive_int`
  unfoldable pub parse_positive_int : String → List ℕ → Result String ℕ
  parse_positive_int name value = elim (numbers.int_of_text value) [
    | none ↦ err (text_append name " must be an integer")
    | some n ↦ positive (text_append name " must be > 0") n
  ]

  -- `_parse_budget_limit`; None is no limit.
  unfoldable pub parse_budget_limit : String → List ℕ → Result String (Option ℕ)
  parse_budget_limit name value =
      if is_one_of (lower_bytes (strip value)) ("unlimited" ∷ [])
      then ok none
      else (parse_decimal false name (numbers.decimal_of_text value) >>= λ n. ok (some n))

pub data Backend : Type 0 where
  sqlite postgres : Backend

-- Where the ledger is: the path, or the DSN.
pub record Store : Type 0 where
  pub backend : Backend
  pub ledger_path : Option (List ℕ)
  pub postgres_dsn : Option (List ℕ)

pub record Limits : Type 0 where
  pub short_window_seconds : ℕ
  pub short_window_limit_usd : Option ℕ
  pub daily_limit_usd : Option ℕ
  pub request_retention_days : ℕ
  pub aggregate_retention_months : ℕ

-- The settings of an enabled cost tracking.
pub record Tracking : Type 0 where
  pub store : Store
  pub pricing_json : Option (List ℕ)
  pub pricing_path : Option (List ℕ)
  pub limits : Limits
  pub tracked_providers : List (List ℕ)
  pub admin_enabled : Bool
  pub admin_api_key : Option (List ℕ)

-- The tracking is none where it is not enabled.
pub record CostTrackingConfig : Type 0 where
  pub reconciliation_enabled : Bool
  pub tracking : Option Tracking

-- `value.split(",")`: the part up to the first comma, and the parts behind it.
unfoldable pub split_commas : List ℕ → List ℕ × List (List ℕ)
split_commas [] = ([], [])
split_commas (c ∷ cs) =
    let rest = split_commas cs in if c == b',' then ([], rest.0 ∷ rest.1) else (c ∷ rest.0, rest.1)

abbrev pub comma_parts : List ℕ → List (List ℕ)
comma_parts value = let parts = split_commas value in parts.0 ∷ parts.1

-- The parts of COST_TRACKING_PROVIDERS that are not blank.
unfoldable pub provider_names : List (List ℕ) → List (List ℕ)
provider_names [] = []
provider_names (part ∷ parts) =
    let rest = provider_names parts in
    if is_empty (strip part) then rest else lower_bytes (strip part) ∷ rest

module _ (numbers : Numbers) (env : Env) where
  -- `env.get("COST_LEDGER_BACKEND", "sqlite").strip().lower()`
  abbrev pub backend_name : List ℕ
  backend_name = elim (env "COST_LEDGER_BACKEND") [
    | none ↦ codes "sqlite"
    | some value ↦ lower_bytes (strip value)
  ]

  unfoldable pub store_of : Result String Store
  store_of =
      if same_bytes backend_name (codes "postgres")
      then (require_nonempty env "COST_LEDGER_POSTGRES_DSN" >>= λ dsn.
          ok (record { backend = postgres; ledger_path = none; postgres_dsn = some dsn }))
      else if same_bytes backend_name (codes "sqlite")
      then (guard (is_empty (setting env "COST_LEDGER_POSTGRES_DSN"))
            "COST_LEDGER_POSTGRES_DSN requires COST_LEDGER_BACKEND=postgres"
          >> require_nonempty env "COST_LEDGER_PATH"
          >>= λ path.
              ok (record { backend = sqlite; ledger_path = some path; postgres_dsn = none }))
      else err "COST_LEDGER_BACKEND must be sqlite or postgres"

  -- `env.get(name, default)`
  abbrev pub setting_or : String → String → List ℕ
  setting_or name default = elim (env name) [ none ↦ codes default | some value ↦ value ]

  unfoldable pub limits_of : Result String Limits
  limits_of = require_nonempty env "COST_SHORT_WINDOW_SECONDS" >>= λ window_text.
      parse_positive_int numbers "COST_SHORT_WINDOW_SECONDS" window_text >>= λ seconds.
      require_nonempty env "COST_SHORT_WINDOW_LIMIT_USD" >>= λ short_text.
      parse_budget_limit numbers "COST_SHORT_WINDOW_LIMIT_USD" short_text >>= λ short_limit.
      require_nonempty env "COST_DAILY_LIMIT_USD" >>= λ daily_text.
      parse_budget_limit numbers "COST_DAILY_LIMIT_USD" daily_text >>= λ daily_limit.
      parse_positive_int numbers "COST_RETENTION_REQUEST_DAYS"
        (setting_or "COST_RETENTION_REQUEST_DAYS" "90")
      >>= λ days.
          parse_positive_int numbers "COST_RETENTION_AGGREGATE_MONTHS"
            (setting_or "COST_RETENTION_AGGREGATE_MONTHS" "13")
          >>= λ months. ok (record {
            short_window_seconds = seconds;
            short_window_limit_usd = short_limit;
            daily_limit_usd = daily_limit;
            request_retention_days = days;
            aggregate_retention_months = months;
          })

  abbrev pub tracking_with : Bool → Store → Limits → Tracking
  tracking_with admin store limits = record {
    store = store;
    pricing_json = optional_setting env "COST_PRICING_JSON";
    pricing_path = optional_setting env "COST_PRICING_PATH";
    limits = limits;
    tracked_providers = provider_names (comma_parts (setting_or "COST_TRACKING_PROVIDERS" ""));
    admin_enabled = admin;
    admin_api_key = optional_setting env "COST_ADMIN_API_KEY";
  }

  -- The limits, behind the test that there are prices.
  unfoldable pub priced_limits : Result String Limits
  priced_limits =
      guard
        (is_some (optional_setting env "COST_PRICING_JSON")
          || is_some (optional_setting env "COST_PRICING_PATH"))
        "COST_PRICING_JSON or COST_PRICING_PATH is required"
      >> limits_of

  -- The test of the API key, the last one.
  unfoldable pub keyed_tracking : Bool → Store → Limits → Result String Tracking
  keyed_tracking admin store limits =
      guard (not admin || is_some (optional_setting env "COST_ADMIN_API_KEY"))
        "COST_ADMIN_API_KEY is required when COST_ADMIN_ENABLED=true"
      >> ok (tracking_with admin store limits)

  -- `from_env` where cost tracking is enabled.
  unfoldable pub tracking_of : Bool → Result String Tracking
  tracking_of admin =
      store_of >>= λ store. priced_limits >>= λ limits. keyed_tracking admin store limits

  -- `CostTrackingConfig.from_env`
  unfoldable pub config_from_env : Result String CostTrackingConfig
  config_from_env =
      let admin = parse_bool (env "COST_ADMIN_ENABLED") in
      let reconciliation = parse_bool (env "COST_RECONCILIATION_ENABLED") in
      if parse_bool (env "COST_TRACKING_ENABLED")
      then (tracking_of admin >>= λ tracking.
          ok (record { reconciliation_enabled = reconciliation; tracking = some tracking }))
      else (guard (not admin) "COST_ADMIN_ENABLED requires COST_TRACKING_ENABLED=true"
          >> ok (record { reconciliation_enabled = reconciliation; tracking = none }))
