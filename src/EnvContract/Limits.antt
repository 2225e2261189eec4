-- ===== src/EnvContract/Limits.antt =====
-- What a setting that `validate_contract` of openai_compatible_bridge/core/env_contract.py lets pass is
-- as a limit of openai_compatible_bridge/core/env_limits.py.
use openai_compatible_bridge.Prelude.{
  Bool, true, false, not, ◌&&◌, ◌||◌, some, String, ◌≡◌, refl, sym, ap, ◌∙◌, str_eq, eq_iff,
  Bool-cases, inl, inr, if-eq-some,
}
use openai_compatible_bridge.Prelude.Bytes.{codes}
use openai_compatible_bridge.Json.{
  Value, Fields, null, bool, int, float, str, list, dict, end, field, get, has, is_text,
}
use openai_compatible_bridge.EnvContract.{
  Checks, key_among, setting_types, is_setting_name, is_int, is_number, is_bound, are_ordered,
  is_numeric_spec, is_spec_of, is_typed_spec, is_spec, are_specs, runtime_limit,
}

pub both : (a b : Bool) → (a && b) ≡ true → (a ≡ true) × (b ≡ true)
both true b h = (refl, h)
both false b h = absurd cc

pub is_text-eq : (t : String) (v : Value) → is_text t v ≡ true → v ≡ str t
is_text-eq t (str s) h = ap str ((eq_iff s t).0 h)
is_text-eq t null h = absurd cc
is_text-eq t (bool b) h = absurd cc
is_text-eq t (int n) h = absurd cc
is_text-eq t (float f) h = absurd cc
is_text-eq t (list vs) h = absurd cc
is_text-eq t (dict d) h = absurd cc

-- An alternative that is left when the first fails.
second : (a b : Bool) → a ≡ true → (not a || b) ≡ true → b ≡ true
second true b e h = h
second false b e h = absurd cc

unfoldable pub IsNumeric : String → Type 0
IsNumeric kind = (str_eq kind "integer" || str_eq kind "number") ≡ true

module _ (checks : Checks) where
  -- A bound of a kind: a finite number, and an int for an integer.
  pub IsBound : String → Value → Type 0
  IsBound kind v =
      (is_number v ≡ true)
      × ((checks.is_finite v ≡ true) × ((not (str_eq kind "integer") || is_int v) ≡ true))

  pub record IsLimit (kind : String) (spec : Fields) : Type 0 where
    pub typed : get "type" spec ≡ str kind
    pub lower : IsBound kind (get "min" spec)
    pub upper : IsBound kind (get "max" spec)
    pub ordered : checks.at_most (get "min" spec) (get "max" spec) ≡ true

  bound_of :
      (kind key : String) (spec : Fields)
      → has key spec ≡ true
      → is_bound checks kind key spec ≡ true
      → IsBound kind (get key spec)
  unfolding is_bound IsBound
  bound_of kind key spec h b =
      let v = get key spec in
      let rest = not (str_eq kind "integer") || is_int v in
      let tests = second (has key spec) (is_number v && checks.is_finite v && rest) h b in
      let outer = both (is_number v && checks.is_finite v) rest tests in
      let inner = both (is_number v) (checks.is_finite v) outer.0 in (inner.0, (inner.1, outer.1))

  order_of :
      (spec : Fields)
      → has "min" spec ≡ true
      → has "max" spec ≡ true
      → are_ordered checks spec ≡ true
      → checks.at_most (get "min" spec) (get "max" spec) ≡ true
  unfolding are_ordered
  order_of spec l u o =
      second (has "min" spec && has "max" spec) (checks.at_most (get "min" spec) (get "max" spec))
        (rw l u) o

  -- The limit of a setting that was validated.
  numeric-IsLimit :
      (settings : Fields) (name kind : String) (spec : Fields)
      → IsNumeric kind
      → get "type" spec ≡ str kind
      → has "min" spec ≡ true
      → has "max" spec ≡ true
      → is_spec_of checks settings name kind spec ≡ true
      → IsLimit kind spec
  unfolding is_spec_of is_numeric_spec IsNumeric
  numeric-IsLimit settings name kind spec n t l u h =
      let numeric = both (is_numeric_spec checks settings name kind spec) _ (rw n at h) in
      let lower = both (is_bound checks kind "min" spec) _ numeric.0 in
      let upper = both (is_bound checks kind "max" spec) _ lower.1 in
      let ordered = both (are_ordered checks spec) _ upper.1 in
      record {
        typed = t;
        lower = bound_of kind "min" spec l lower.0;
        upper = bound_of kind "max" spec u upper.0;
        ordered = order_of spec l u ordered.0;
      }

  -- A setting that is found was validated.
  found_spec :
      (settings d : Fields) (name : String) (spec : Fields)
      → are_specs checks settings d ≡ true
      → get name d ≡ dict spec
      → is_spec checks settings name (dict spec) ≡ true
  unfolding are_specs get
  found_spec settings end name spec h e = absurd cc
  found_spec settings (field j v d) name spec h e = elim (Bool-cases (str_eq j name)) [
    | inl m ↦
        sym (ap (λ k. is_spec checks settings k (dict spec)) ((eq_iff j name).0 m))
        ∙ sym (ap (is_spec checks settings j) (rw m at e))
        ∙ (both (is_spec checks settings j v) (are_specs checks settings d) h).0
    | inr m ↦
        found_spec settings d name spec
          (both (is_spec checks settings j v) (are_specs checks settings d) h).1 (rw m at e)
  ]

  -- A limit that is read is that of a setting with the kind and both bounds.
  pub runtime_limit-lem :
      (kind : String) (v : Value) (spec : Fields)
      → runtime_limit kind v ≡ some spec
      → (v ≡ dict spec)
        × ((get "type" spec ≡ str kind) × ((has "min" spec ≡ true) × (has "max" spec ≡ true)))
  runtime_limit-lem kind (dict d) spec e =
      let bounds = has "min" d && has "max" d in
      let found = if-eq-some (is_text kind (get "type" d) && bounds) e in
      let tests = both (is_text kind (get "type" d)) bounds found.0 in
      let present = both (has "min" d) (has "max" d) tests.1 in
      let facts : (get "type" d ≡ str kind) × ((has "min" d ≡ true) × (has "max" d ≡ true)) =
        (is_text-eq kind (get "type" d) tests.0, present) in
      (ap dict found.1, rw found.1 at facts)
  runtime_limit-lem kind null spec e = absurd cc
  runtime_limit-lem kind (bool b) spec e = absurd cc
  runtime_limit-lem kind (int n) spec e = absurd cc
  runtime_limit-lem kind (float t) spec e = absurd cc
  runtime_limit-lem kind (str t) spec e = absurd cc
  runtime_limit-lem kind (list vs) spec e = absurd cc

  pub read-IsLimit :
      (settings : Fields) (name kind : String) (spec : Fields)
      → IsNumeric kind
      → are_specs checks settings settings ≡ true
      → runtime_limit kind (get name settings) ≡ some spec
      → IsLimit kind spec
  unfolding IsNumeric
  read-IsLimit settings name kind spec n h e =
      let read = runtime_limit-lem kind (get name settings) spec e in
      let valid = found_spec settings settings name spec h read.0 in
      let named =
        both (is_setting_name (codes name))
          (is_typed_spec checks settings name (get "type" spec) spec) valid in
      let typed = ap (λ t. is_typed_spec checks settings name t spec) (sym read.1.0) ∙ named.1 in
      let spec_of =
        both (key_among kind setting_types) (is_spec_of checks settings name kind spec) typed in
      numeric-IsLimit settings name kind spec n read.1.0 read.1.1.0 read.1.1.1 spec_of.1
