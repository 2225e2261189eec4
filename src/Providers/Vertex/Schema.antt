-- ===== src/Providers/Vertex/Schema.antt =====
-- The schema of a response format for Vertex AI: `_sanitize_schema`, `_sanitize_schema_node` and
-- `_apply_response_format` of openai_compatible_bridge/providers/vertex.py. The recursion through
-- `$ref` runs on fuel.
mod Depth
mod Done
mod Tests
use Prim.Native.Char.{code}
use openai_compatible_bridge.Prelude.{
  ℕ, zero, suc, ◌+◌, ◌*◌, Bool, true, false, ◌||◌, Option, none, some, String, List, [], ◌∷◌, max,
  if◌then◌else◌, ◌==◌, str_eq,
}
use openai_compatible_bridge.Prelude.Result.{Result, ok, err, ◌>>=◌}
use openai_compatible_bridge.Json.{
  Value, Values, Fields, null, bool, int, float, str, list, dict, nil, cons, end, field, get,
  object, is_text,
}

-- `d[key] = value`
unfoldable pub set : String → Value → Fields → Fields
set key value end = field key value end
set key value (field j v d) =
    let rest = set key value d in if str_eq j key then field j value d else field j v rest

-- `{**target, **siblings}`; also `target.update(siblings)`.
unfoldable pub merge : Fields → Fields → Fields
merge target end = target
merge target (field key value d) = merge (set key value target) d

-- `{k: v for k, v in node.items() if k != key}`
unfoldable pub without : String → Fields → Fields
without key end = end
without key (field j v d) =
    let rest = without key d in if str_eq j key then rest else field j v rest

unfoldable pub is_among : String → List String → Bool
is_among name [] = false
is_among name (x ∷ xs) = str_eq x name || is_among name xs

-- `_RESPONSE_FORMAT_SANITIZE_KEYS`
abbrev pub sanitize_keys : List String
sanitize_keys = "$schema" ∷ "$id" ∷ "$ref" ∷ "definitions" ∷ "$defs" ∷ []

-- What stands behind the last `/` of a text, if it has one.
unfoldable pub after_slash : String → Option String
after_slash String.[] = none
after_slash (String.◌∷◌ c s) = elim (after_slash s) [
  | none ↦ if code c == b'/' then some s else none
  | some t ↦ some t
]

-- `ref.rsplit("/", 1)[-1]`
unfoldable pub target_name : String → String
target_name ref = elim (after_slash ref) [ none ↦ ref | some name ↦ name ]

-- Why there is no result: the fuel was too little, or `{**target, **siblings}` met a target that is
-- no dict.
pub data Failure : Type 0 where
  out_of_fuel : Failure
  no_mapping : Failure

-- What to do with a node that is a dict.
pub data Plan : Type 0 where
  keep : Plan
  inlined : String → Fields → Plan
  broken : Plan

abbrev pub resolved : String → Value → Plan
resolved name null = keep
resolved name (dict target) = inlined name target
resolved name _ = broken

-- Whether the `$ref` of a node is inlined.
unfoldable pub plan : Fields → List String → Value → Plan
plan defs seen (str ref) =
    let name = target_name ref in if is_among name seen then keep else resolved name (get name defs)
plan defs seen _ = keep

-- `[f(item) for item in node]`
unfoldable pub each_value : (Value → Result Failure Value) → Values → Result Failure Values
each_value f nil = ok nil
each_value f (cons v vs) = f v >>= λ w. each_value f vs >>= λ ws. ok (cons w ws)

-- `{k: f(v) for k, v in node.items() if k not in _RESPONSE_FORMAT_SANITIZE_KEYS}`
unfoldable pub each_field : (Value → Result Failure Value) → Fields → Result Failure Fields
each_field f end = ok end
each_field f (field key v d) =
    let rest = each_field f d in
    if is_among key sanitize_keys then rest else (f v >>= λ w. rest >>= λ e. ok (field key w e))

-- `_sanitize_schema_node`
unfoldable pub sanitize_schema_node : ℕ → Fields → List String → Value → Result Failure Value
sanitize_schema_node zero defs seen node = err out_of_fuel
sanitize_schema_node (suc fuel) defs seen (dict d) = elim (plan defs seen (get "$ref" d)) [
  | keep ↦ each_field (sanitize_schema_node fuel defs seen) d >>= λ e. ok (dict e)
  | inlined name target ↦
      sanitize_schema_node fuel defs (name ∷ seen) (dict (merge target (without "$ref" d)))
  | broken ↦ err no_mapping
]
sanitize_schema_node (suc fuel) defs seen (list vs) =
    each_value (sanitize_schema_node fuel defs seen) vs >>= λ ws. ok (list ws)
sanitize_schema_node (suc fuel) defs seen node = ok node

-- How deep a value is nested.
unfoldable mutual
  pub depth : Value → ℕ
  depth (list vs) = suc (depth_values vs)
  depth (dict d) = suc (depth_fields d)
  depth _ = 0

  pub depth_values : Values → ℕ
  depth_values nil = 0
  depth_values (cons v vs) = max (depth v) (depth_values vs)

  pub depth_fields : Fields → ℕ
  depth_fields end = 0
  depth_fields (field key v d) = max (depth v) (depth_fields d)

-- How many fields of `defs` are not in `seen`.
unfoldable pub unseen : Fields → List String → ℕ
unseen end seen = 0
unseen (field key v d) seen =
    let rest = unseen d seen in if is_among key seen then rest else suc rest

-- The definitions of a schema: those of `$defs`, then those of `definitions`.
unfoldable pub definitions_of : Value → Fields
definitions_of (dict d) = merge (merge end (object (get "$defs" d))) (object (get "definitions" d))
definitions_of _ = end

-- `_sanitize_schema`. A node is inlined at most once for each definition, and between two of these
-- the recursion goes down at most the depth of the schema.
unfoldable pub sanitize_schema : Value → Result Failure Value
sanitize_schema schema =
    let defs = definitions_of schema in
    sanitize_schema_node (suc (unseen defs [] * suc (suc (depth schema)) + depth schema)) defs []
      schema

-- The schema of a json_schema format; an empty one and a missing one are left out.
abbrev pub raw_schema : Value → Option Value
raw_schema null = none
raw_schema (dict end) = none
raw_schema schema = some schema

abbrev pub schema_entry : Value → Value
schema_entry (dict d) = get "schema" d
schema_entry _ = null

abbrev pub json_output : Fields → Fields
json_output gen_cfg = set "responseMimeType" (str "application/json") gen_cfg

-- `_apply_response_format`: the generation config after it.
unfoldable pub apply_response_format : Fields → Option Fields → Result Failure Fields
apply_response_format gen_cfg none = ok gen_cfg
apply_response_format gen_cfg (some response_format) =
    let fmt_type = get "type" response_format in
    if is_text "json_object" fmt_type
    then ok (json_output gen_cfg)
    else if is_text "json_schema" fmt_type
    then elim (raw_schema (schema_entry (get "json_schema" response_format))) [
      | none ↦ ok (json_output gen_cfg)
      | some schema ↦ sanitize_schema schema >>= λ sanitized.
          ok (set "responseJsonSchema" sanitized (json_output gen_cfg))
    ]
    else ok gen_cfg
