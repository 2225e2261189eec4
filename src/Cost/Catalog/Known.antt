-- ===== src/Cost/Catalog/Known.antt =====
-- What the prices of a catalog are, that `PricingCatalog.from_json` of
-- openai_compatible_bridge/core/cost_tracking.py returns.
use openai_compatible_bridge.Prelude.{
  ℕ, Bool, true, false, ◌&&◌, Option, none, some, String, List, [], ◌∷◌, ◌≡◌, ◌⊎◌, inl, inr, refl,
  str_eq, eq_iff, is_empty, Bool-cases, arith,
}
use openai_compatible_bridge.Prelude.Int.{pos, negsuc}
use openai_compatible_bridge.Prelude.Result.{
  Result, ok, guard, Ensures, Ensures-bind, Ensures-then, Ensures-guard,
}
use openai_compatible_bridge.Json.{
  Value, Fields, null, bool, int, float, str, list, dict, end, field, get, has, object,
}
use openai_compatible_bridge.Cost.Config.{Decimal, no_decimal, not_finite, decimal, parse_decimal}
use openai_compatible_bridge.Cost.Pricing.{PricingEntry, PricingCatalog}
use openai_compatible_bridge.Cost.Catalog.{
  Readers, price_dimensions, has_all, has_rates, all_have_rates, models_have_rates, check_models,
  validate_pricing_payload, models_catalog, price_decimal, unit_decimal, text_or_default,
  rate_value, pricing_entry, endpoint_entries, model_entries, some_entries, catalog_of,
  catalog_from_json,
}

-- The prices of one model, before those that follow it.
endpoint_prices : String → Fields → List (String × String × Value) → List (String × String × Value)
endpoint_prices model end rest = rest
endpoint_prices model (field endpoint price d) rest =
    (model, endpoint, price) ∷ endpoint_prices model d rest

-- The prices of the models, in their order.
model_prices : Fields → List (String × String × Value)
model_prices end = []
model_prices (field model endpoints d) = endpoint_prices model (object endpoints) (model_prices d)

-- The prices of a payload, by model and endpoint.
pub prices_of : Option Value → List (String × String × Value)
unfolding model_prices
prices_of none = []
prices_of (some payload) = model_prices (object (get "models" (object payload)))

-- A rate that the price names, read as this count.
pub IsRate : (Value → Decimal) → String → Fields → ℕ → Type 0
IsRate read key price n = (has key price ≡ true) × (read (get key price) ≡ decimal (pos n))

module _ (readers : Readers) where
  -- The rates of each endpoint that may be priced.
  pub HasRates : String → Fields → PricingEntry → Type 0
  HasRates endpoint price entry =
      ((endpoint ≡ "chat")
        × IsRate readers.millionths "input_per_million" price entry.input_per_million
        × IsRate readers.millionths "output_per_million" price entry.output_per_million)
      ⊎ (((endpoint ≡ "embeddings")
            × IsRate readers.millionths "embedding_per_million" price entry.embedding_per_million)
          ⊎ ((endpoint ≡ "rerank")
              × IsRate readers.trillionths "rerank_per_unit" price entry.rerank_per_unit))

  -- The entry of a price.
  pub IsEntry : String × String × Value → String × String × PricingEntry → Type 0
  IsEntry (model, endpoint, price) e =
      (e.0 ≡ model)
      × (e.1 ≡ endpoint)
      × (e.2.currency ≡ "USD")
      × ((d : Fields) × (price ≡ dict d) × HasRates endpoint d e.2)

  -- One entry for each price, in their order.
  pub AreEntries : List (String × String × Value) → PricingCatalog → Type 0
  AreEntries [] [] = Unit
  AreEntries (p ∷ ps) (e ∷ es) = IsEntry p e × AreEntries ps es
  AreEntries _ _ = true ≡ false

  -- A catalog of a payload: it is not empty.
  pub IsCatalog : Option Value → PricingCatalog → Type 0
  IsCatalog json catalog = (is_empty catalog ≡ false) × AreEntries (prices_of json) catalog

and-left : (a b : Bool) → (a && b) ≡ true → a ≡ true
and-left true b h = refl
and-left false b h = absurd cc

and-right : (a b : Bool) → (a && b) ≡ true → b ≡ true
and-right true b h = h
and-right false b h = absurd cc

-- The models of a payload that is not refused.
Rated : Value → Type 0
Rated (dict models) = models_have_rates models ≡ true
Rated _ = Unit

check_models-Rated : (v : Value) → Ensures (λ u. Rated v) (check_models v)
unfolding check_models Rated
check_models-Rated (dict models) = Ensures-guard (models_have_rates models) _
check_models-Rated null = tt
check_models-Rated (bool b) = tt
check_models-Rated (int n) = tt
check_models-Rated (float t) = tt
check_models-Rated (str t) = tt
check_models-Rated (list vs) = tt

parse_decimal-count :
    (name : String) (d : Decimal) → Ensures (λ n. d ≡ decimal (pos n)) (parse_decimal true name d)
unfolding parse_decimal
parse_decimal-count name no_decimal = tt
parse_decimal-count name not_finite = tt
parse_decimal-count name (decimal (pos n)) = refl
parse_decimal-count name (decimal (negsuc n)) = tt

-- A rate that is read, if it is named.
rated :
    (read : Value → Decimal) (key : String) (price : Fields) (n : ℕ)
    → has key price ≡ true
    → read (rate_value key price) ≡ decimal (pos n)
    → IsRate read key price n
unfolding IsRate
rated read key price n h e = (h, rw h at e)

module _ (readers : Readers) where
  -- The four rates of an entry are read, the absent ones as zero.
  record IsRead (price : Fields) (entry : PricingEntry) : Type 0 where
    usd : entry.currency ≡ "USD"
    input :
        readers.millionths (rate_value "input_per_million" price)
        ≡ decimal (pos entry.input_per_million)
    output :
        readers.millionths (rate_value "output_per_million" price)
        ≡ decimal (pos entry.output_per_million)
    embedding :
        readers.millionths (rate_value "embedding_per_million" price)
        ≡ decimal (pos entry.embedding_per_million)
    rerank :
        readers.trillionths (rate_value "rerank_per_unit" price)
        ≡ decimal (pos entry.rerank_per_unit)

  pricing_entry-IsRead :
      (currency source version : String) (price : Fields)
      → Ensures (IsRead price) (pricing_entry readers currency source version price)
  unfolding pricing_entry price_decimal unit_decimal
  pricing_entry-IsRead currency source version price =
      let found = readers.upper (text_or_default readers (get "currency" price) currency) in
      let counted = λ (d : Decimal) (n : ℕ). d ≡ decimal (pos n) in
      let input = readers.millionths (rate_value "input_per_million" price) in
      let output = readers.millionths (rate_value "output_per_million" price) in
      let embedding = readers.millionths (rate_value "embedding_per_million" price) in
      let rerank = readers.trillionths (rate_value "rerank_per_unit" price) in
      Ensures-bind (λ u. str_eq found "USD" ≡ true) (IsRead price) _ _
        (Ensures-guard (str_eq found "USD") _)
        (λ u h.
          Ensures-bind (counted input) (IsRead price) _ _ (parse_decimal-count _ input) (λ a ha.
            Ensures-bind (counted output) (IsRead price) _ _ (parse_decimal-count _ output) (λ b hb.
              Ensures-bind (counted embedding) (IsRead price) _ _ (parse_decimal-count _ embedding)
                (λ c hc.
                  Ensures-bind (counted rerank) (IsRead price) _ _ (parse_decimal-count _ rerank)
                    (λ d hd. record {
                      usd = (eq_iff found "USD").0 h;
                      input = ha;
                      output = hb;
                      embedding = hc;
                      rerank = hd;
                    })))))

  -- An entry that is read has the rates of its endpoint, if the price names them.
  has_rates-HasRates :
      (endpoint : String) (price : Fields) (entry : PricingEntry)
      → has_rates endpoint (dict price) ≡ true
      → IsRead price entry
      → HasRates readers endpoint price entry
  unfolding has_rates price_dimensions has_all HasRates
  has_rates-HasRates endpoint price entry h r = elim (Bool-cases (str_eq endpoint "chat")) [
    | inl chat ↦
        let named = rw (has_rates, price_dimensions, chat) at h in
        inl (
          (eq_iff endpoint "chat").0 chat,
          rated readers.millionths _ price _ (and-left _ _ named) r.input,
          rated readers.millionths _ price _ (and-left _ _ (and-right _ _ named)) r.output,
        )
    | inr c ↦ elim (Bool-cases (str_eq endpoint "embeddings")) [
      | inl embeddings ↦
          let named = rw (has_rates, price_dimensions, c, embeddings) at h in
          inr (
            inl (
              (eq_iff endpoint "embeddings").0 embeddings,
              rated readers.millionths _ price _ (and-left _ _ named) r.embedding,
            ))
      | inr m ↦ elim (Bool-cases (str_eq endpoint "rerank")) [
        | inl rerank ↦
            let named = rw (has_rates, price_dimensions, c, m, rerank) at h in
            inr (
              inr (
                (eq_iff endpoint "rerank").0 rerank,
                rated readers.trillionths _ price _ (and-left _ _ named) r.rerank,
              ))
        | inr n ↦ absurd (ground (arith, c, m, n, h))
      ]
    ]
  ]

  module _ (currency source version : String) where
    endpoint_entries-AreEntries :
        (model : String) (d : Fields) (prices : List (String × String × Value))
        (rest : Result String PricingCatalog)
        → all_have_rates d ≡ true
        → Ensures (AreEntries readers prices) rest
        → Ensures
            (AreEntries readers (endpoint_prices model d prices))
            (endpoint_entries readers currency source version model d rest)
    unfolding endpoint_entries all_have_rates endpoint_prices AreEntries IsEntry
    endpoint_entries-AreEntries model end prices rest r h = h
    endpoint_entries-AreEntries model (field endpoint (dict price) d) prices rest r h =
        let All =
          AreEntries readers (endpoint_prices model (field endpoint (dict price) d) prices) in
        Ensures-bind (IsRead price) All (pricing_entry readers currency source version price) _
          (pricing_entry-IsRead currency source version price)
          (λ entry read.
            Ensures-bind (AreEntries readers (endpoint_prices model d prices)) All
              (endpoint_entries readers currency source version model d rest)
              (λ entries. ok ((model, endpoint, entry) ∷ entries))
              (endpoint_entries-AreEntries model d prices rest (and-right _ _ r) h)
              (λ entries k. (
                (
                  refl,
                  refl,
                  read.usd,
                  (price, refl, has_rates-HasRates endpoint price entry (and-left _ _ r) read),
                ),
                k,
              )))
    endpoint_entries-AreEntries model (field endpoint null d) prices rest r h = tt
    endpoint_entries-AreEntries model (field endpoint (bool b) d) prices rest r h = tt
    endpoint_entries-AreEntries model (field endpoint (int n) d) prices rest r h = tt
    endpoint_entries-AreEntries model (field endpoint (float t) d) prices rest r h = tt
    endpoint_entries-AreEntries model (field endpoint (str t) d) prices rest r h = tt
    endpoint_entries-AreEntries model (field endpoint (list vs) d) prices rest r h = tt

    model_entries-AreEntries :
        (d : Fields)
        → models_have_rates d ≡ true
        → Ensures
            (AreEntries readers (model_prices d))
            (model_entries readers currency source version d)
    unfolding model_entries models_have_rates model_prices AreEntries
    model_entries-AreEntries end r = tt
    model_entries-AreEntries (field model (dict endpoints) d) r =
        endpoint_entries-AreEntries model endpoints (model_prices d)
          (model_entries readers currency source version d) (and-left _ _ r)
          (model_entries-AreEntries d (and-right _ _ r))
    model_entries-AreEntries (field model null d) r = tt
    model_entries-AreEntries (field model (bool b) d) r = tt
    model_entries-AreEntries (field model (int n) d) r = tt
    model_entries-AreEntries (field model (float t) d) r = tt
    model_entries-AreEntries (field model (str t) d) r = tt
    model_entries-AreEntries (field model (list vs) d) r = tt

  some_entries-AreEntries :
      (prices : List (String × String × Value)) (entries : PricingCatalog)
      → AreEntries readers prices entries
      → Ensures
          (λ catalog. (is_empty catalog ≡ false) × AreEntries readers prices catalog)
          (some_entries entries)
  some_entries-AreEntries prices [] h = tt
  some_entries-AreEntries prices (e ∷ es) h = (refl, h)

  module _ (currency source version : String) where
    models-AreEntries :
        (v : Value)
        → Rated v
        → Ensures
            (λ catalog.
              (is_empty catalog ≡ false) × AreEntries readers (model_prices (object v)) catalog)
            (models_catalog readers currency source version v)
    unfolding Rated models_catalog
    models-AreEntries (dict (field model w d)) h =
        let prices = model_prices (field model w d) in
        Ensures-bind (AreEntries readers prices)
          (λ catalog. (is_empty catalog ≡ false) × AreEntries readers prices catalog)
          (model_entries readers currency source version (field model w d)) some_entries
          (model_entries-AreEntries currency source version (field model w d) h)
          (some_entries-AreEntries prices)
    models-AreEntries (dict end) h = tt
    models-AreEntries null h = tt
    models-AreEntries (bool b) h = tt
    models-AreEntries (int n) h = tt
    models-AreEntries (float t) h = tt
    models-AreEntries (str t) h = tt
    models-AreEntries (list vs) h = tt

  -- A catalog that is read from a payload is not empty and has one entry for each price of it, in
  -- their order and under the same model and endpoint. Each entry is in USD, and its endpoint is chat,
  -- embeddings or rerank: the price names the rates of that endpoint, the one of the prompt and the one
  -- of the answer for chat and a single one for the others, and the entry has the values read from
  -- them, none of them negative.
  pub catalog_from_json-IsCatalog :
      (json : Option Value) → Ensures (IsCatalog readers json) (catalog_from_json readers json)
  unfolding catalog_from_json catalog_of validate_pricing_payload IsCatalog prices_of
  catalog_from_json-IsCatalog none = tt
  catalog_from_json-IsCatalog (some (dict payload)) =
      let currency = readers.upper (text_or_default readers (get "currency" payload) "USD") in
      let source = text_or_default readers (get "source" payload) "manual" in
      let version = text_or_default readers (get "version" payload) "unversioned" in
      let Fine = IsCatalog readers (some (dict payload)) in
      Ensures-bind (λ u. Rated (get "models" payload)) Fine (validate_pricing_payload payload) _
        (check_models-Rated (get "models" payload))
        (λ u rated.
          Ensures-then Fine (guard (str_eq currency "USD") _) _
            (λ w. models-AreEntries currency source version (get "models" payload) rated))
  catalog_from_json-IsCatalog (some null) = tt
  catalog_from_json-IsCatalog (some (bool b)) = tt
  catalog_from_json-IsCatalog (some (int n)) = tt
  catalog_from_json-IsCatalog (some (float t)) = tt
  catalog_from_json-IsCatalog (some (str t)) = tt
  catalog_from_json-IsCatalog (some (list vs)) = tt
