-- ===== src/Cost/Catalog.antt =====
-- `PricingCatalog.from_json` of openai_compatible_bridge/core/cost_tracking.py, and
-- `validate_pricing_payload` of openai_compatible_bridge/core/provider_adapter.py. `str()`,
-- `str.upper()` and `Decimal(str(value))` are parameters; a rate is read in units of 1e-6 USD, and the
-- price of a rerank unit in units of 1e-12 USD, as in `Cost.Pricing`. An error is the message.
mod Known
mod Tests
use openai_compatible_bridge.Prelude.{
  ℕ, Bool, true, false, not, ◌&&◌, ◌||◌, Option, none, some, String, List, [], ◌∷◌, if◌then◌else◌,
  str_eq,
}
use openai_compatible_bridge.Prelude.Int.{ℤ, pos}
use openai_compatible_bridge.Prelude.Result.{Result, ok, err, guard, ◌>>=◌, ◌>>◌}
use openai_compatible_bridge.Json.{
  Value, Fields, null, bool, int, float, str, list, dict, end, field, get, has, truthy,
}
use openai_compatible_bridge.Cost.Config.{Decimal, parse_decimal}
use openai_compatible_bridge.Cost.Pricing.{PricingEntry, PricingCatalog}

-- `ENDPOINT_PRICE_DIMENSIONS.get(endpoint)`
unfoldable pub price_dimensions : String → Option (List String)
price_dimensions endpoint =
    if str_eq endpoint "chat"
    then some ("input_per_million" ∷ "output_per_million" ∷ [])
    else if str_eq endpoint "embeddings"
    then some ("embedding_per_million" ∷ [])
    else if str_eq endpoint "rerank"
    then some ("rerank_per_unit" ∷ [])
    else none

-- `required <= price.keys()`
unfoldable pub has_all : List String → Fields → Bool
has_all [] d = true
has_all (key ∷ keys) d = has key d && has_all keys d

-- Whether the price of an endpoint has its rates.
unfoldable pub has_rates : String → Value → Bool
has_rates endpoint (dict price) = elim (price_dimensions endpoint) [
  | none ↦ false
  | some required ↦ has_all required price
]
has_rates endpoint _ = false

unfoldable pub all_have_rates : Fields → Bool
all_have_rates end = true
all_have_rates (field endpoint price d) = has_rates endpoint price && all_have_rates d

unfoldable pub models_have_rates : Fields → Bool
models_have_rates end = true
models_have_rates (field model (dict endpoints) d) = all_have_rates endpoints && models_have_rates d
models_have_rates (field model v d) = models_have_rates d

unfoldable pub check_models : Value → Result String (Unit {0})
check_models (dict models) = guard (models_have_rates models) "explicit pricing rates are required"
check_models _ = ok tt

-- `validate_pricing_payload`
unfoldable pub validate_pricing_payload : Fields → Result String (Unit {0})
validate_pricing_payload payload = check_models (get "models" payload)

-- `str()` and `upper()`, and the Decimal of a value, in units of 1e-6 or of 1e-12.
pub record Readers : Type 0 where
  pub text_of_value : Value → String
  pub upper : String → String
  pub millionths : Value → Decimal
  pub trillionths : Value → Decimal

-- `price.get(name, 0)`
abbrev pub rate_value : String → Fields → Value
rate_value name price = if has name price then get name price else int (pos 0)

abbrev pub some_entries : PricingCatalog → Result String PricingCatalog
some_entries [] = err "pricing config contains no entries"
some_entries (entry ∷ entries) = ok (entry ∷ entries)

module _ (readers : Readers) where
  -- `str(value or default)`
  abbrev pub text_or_default : Value → String → String
  text_or_default (str t) default = if str_eq t "" then default else t
  text_or_default value default = if truthy value then readers.text_of_value value else default

  -- `_price_decimal`
  unfoldable pub price_decimal : String → Fields → Result String ℕ
  price_decimal name price = parse_decimal true name (readers.millionths (rate_value name price))

  unfoldable pub unit_decimal : String → Fields → Result String ℕ
  unit_decimal name price = parse_decimal true name (readers.trillionths (rate_value name price))

  -- The price of an endpoint, for the currency, the source and the version of the payload.
  unfoldable pub pricing_entry : String → String → String → Fields → Result String PricingEntry
  pricing_entry currency source version price =
      let entry_currency = readers.upper (text_or_default (get "currency" price) currency) in
      guard (str_eq entry_currency "USD") "only USD pricing is supported"
      >> (price_decimal "input_per_million" price >>= λ input.
          price_decimal "output_per_million" price >>= λ output.
          price_decimal "embedding_per_million" price >>= λ embedding.
          unit_decimal "rerank_per_unit" price >>= λ rerank. ok (record {
            input_per_million = input;
            output_per_million = output;
            embedding_per_million = embedding;
            rerank_per_unit = rerank;
            currency = entry_currency;
            source = text_or_default (get "source" price) source;
            version = text_or_default (get "version" price) version;
          }))

  module _ (currency source version : String) where
    -- The entries of a model, before those that follow it.
    unfoldable pub endpoint_entries :
        String → Fields → Result String PricingCatalog → Result String PricingCatalog
    endpoint_entries model end rest = rest
    endpoint_entries model (field endpoint (dict price) d) rest =
        pricing_entry currency source version price >>= λ entry.
        endpoint_entries model d rest >>= λ entries. ok ((model, endpoint, entry) ∷ entries)
    endpoint_entries model (field endpoint v d) rest =
        err "pricing for an endpoint must be an object"

    unfoldable pub model_entries : Fields → Result String PricingCatalog
    model_entries end = ok []
    model_entries (field model (dict endpoints) d) =
        endpoint_entries model endpoints (model_entries d)
    model_entries (field model v d) = err "pricing for a model must be an object"

    unfoldable pub models_catalog : Value → Result String PricingCatalog
    models_catalog (dict (field model v d)) = model_entries (field model v d) >>= some_entries
    models_catalog _ = err "pricing config requires a non-empty models object"

  unfoldable pub catalog_of : Fields → Result String PricingCatalog
  catalog_of payload =
      let currency = readers.upper (text_or_default (get "currency" payload) "USD") in
      let source = text_or_default (get "source" payload) "manual" in
      let version = text_or_default (get "version" payload) "unversioned" in
      guard (str_eq currency "USD") "only USD pricing is supported"
      >> models_catalog currency source version (get "models" payload)

  -- `PricingCatalog.from_json`, from what `json.loads` returns, or None where it raises.
  unfoldable pub catalog_from_json : Option Value → Result String PricingCatalog
  catalog_from_json none = err "COST_PRICING_JSON must be valid JSON"
  catalog_from_json (some (dict payload)) = validate_pricing_payload payload >> catalog_of payload
  catalog_from_json (some v) = err "pricing config must be a JSON object"
