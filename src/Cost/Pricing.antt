-- ===== src/Cost/Pricing.antt =====
-- Prices and estimates of openai_compatible_bridge/core/cost_tracking.py, and the fallback models of
-- openai_compatible_bridge/core/provider_adapter.py.
-- The code computes with non-negative Decimals. An amount of money is counted here in units of
-- 1e-12 USD and a price per million tokens in units of 1e-6 USD, so that tokens times the price over
-- a million is a whole number of units: with prices of at most six decimal places the Decimals hold
-- these numbers exactly.
use openai_compatible_bridge.Prelude.{
  ℕ, ◌+◌, ◌*◌, not, ◌&&◌, Option, none, some, String, List, [], ◌∷◌, str_eq, if◌then◌else◌,
}
use text.Mathlib.Text.{starts_with}
use openai_compatible_bridge.Usage.{NormalizedUsage}

pub record PricingEntry : Type 0 where
  pub input_per_million : ℕ
  pub output_per_million : ℕ
  pub embedding_per_million : ℕ
  pub rerank_per_unit : ℕ
  pub currency : String
  pub source : String
  pub version : String

-- The entries by model and endpoint.
abbrev pub PricingCatalog : Type 0
PricingCatalog = List (String × String × PricingEntry)

-- `self._entries.get((model, endpoint))`
unfoldable pub entry_for : String → String → PricingCatalog → Option PricingEntry
entry_for model endpoint [] = none
entry_for model endpoint ((m, e, entry) ∷ rest) =
    if str_eq m model && str_eq e endpoint then some entry else entry_for model endpoint rest

-- `pricing_fallbacks`
unfoldable pub pricing_fallbacks : String → List String
pricing_fallbacks model =
    if starts_with model "ollama:" && not (str_eq model "ollama:*")
    then "ollama:*" ∷ []
    else if starts_with model "compat:" && not (str_eq model "compat:*")
    then "compat:*" ∷ []
    else []

-- The first entry of the fallback models.
first_entry : List String → String → PricingCatalog → Option PricingEntry
unfolding entry_for
first_entry [] endpoint catalog = none
first_entry (m ∷ ms) endpoint catalog =
    let rest = first_entry ms endpoint catalog in
    elim (entry_for m endpoint catalog) [ none ↦ rest | some entry ↦ some entry ]

-- `PricingCatalog.price_for`; none is the CostConfigError.
unfoldable pub price_for : String → String → PricingCatalog → Option PricingEntry
unfolding entry_for pricing_fallbacks first_entry
price_for model endpoint catalog = elim (entry_for model endpoint catalog) [
  | none ↦ first_entry (pricing_fallbacks model) endpoint catalog
  | some entry ↦ some entry
]

-- `CostEstimator.estimate`, for the price that it has found.
unfoldable pub estimate : PricingEntry → NormalizedUsage → ℕ
estimate price usage =
    usage.prompt_tokens * price.input_per_million
    + usage.completion_tokens * price.output_per_million
    + usage.embedding_tokens * price.embedding_per_million
    + usage.rerank_units * price.rerank_per_unit
