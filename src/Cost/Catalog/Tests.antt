-- ===== src/Cost/Catalog/Tests.antt =====
-- Price lists for `PricingCatalog.from_json` of openai_compatible_bridge/core/cost_tracking.py.
use openai_compatible_bridge.Prelude.{some, [], ◌∷◌, ◌≡◌, refl}
use openai_compatible_bridge.Prelude.Int.{pos}
use openai_compatible_bridge.Prelude.Result.{ok, err, Ensures}
use openai_compatible_bridge.Json.{Value, Fields, int, str, dict, end, field, get, has}
use openai_compatible_bridge.Cost.Config.{Decimal, no_decimal, decimal, parse_decimal}
use openai_compatible_bridge.Cost.Catalog.{
  price_dimensions, has_all, has_rates, all_have_rates, models_have_rates, validate_pricing_payload,
  check_models, models_catalog, Readers, price_decimal, unit_decimal, pricing_entry,
  endpoint_entries, model_entries, catalog_of, catalog_from_json,
}
use openai_compatible_bridge.Cost.Catalog.Known.{IsCatalog, catalog_from_json-IsCatalog}

-- The decimal of a count; texts are left in their case.
abbrev count : Value → Decimal
count (int n) = decimal n
count _ = no_decimal

abbrev readers : Readers
readers = record {
  text_of_value = λ v. "";
  upper = λ t. t;
  millionths = count;
  trillionths = count;
}

abbrev price_list : Fields → Value
price_list price =
    dict (field "models" (dict (field "m" (dict (field "chat" (dict price) end)) end)) end)

abbrev rates : Fields
rates = field "input_per_million" (int (pos 3)) (field "output_per_million" (int (pos 5)) end)

-- The rate of the answers is not given.
partial_test :
    catalog_from_json readers (some (price_list (field "input_per_million" (int (pos 3)) end)))
    ≡ err "explicit pricing rates are required"
unfolding catalog_from_json validate_pricing_payload models_have_rates all_have_rates has_rates
    price_dimensions has_all get has check_models
partial_test = refl

catalog_test :
    catalog_from_json readers (some (price_list rates))
    ≡ ok (
        (
          "m",
          "chat",
          record {
            input_per_million = 3;
            output_per_million = 5;
            embedding_per_million = 0;
            rerank_per_unit = 0;
            currency = "USD";
            source = "manual";
            version = "unversioned";
          },
        )
        ∷ [])
unfolding catalog_from_json validate_pricing_payload models_have_rates all_have_rates has_rates
    price_dimensions has_all get has catalog_of model_entries endpoint_entries pricing_entry
    price_decimal unit_decimal parse_decimal check_models models_catalog
    openai_compatible_bridge.Json.truthy
catalog_test = refl

catalog_from_json-IsCatalog_example :
    Ensures
      (IsCatalog readers (some (price_list rates)))
      (catalog_from_json readers (some (price_list rates)))
catalog_from_json-IsCatalog_example = catalog_from_json-IsCatalog readers (some (price_list rates))
