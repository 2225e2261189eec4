-- ===== src/Providers/Vertex/Schema/Done.antt =====
-- `_sanitize_schema` ends, and what it returns holds none of the keys that it removes.
use openai_compatible_bridge.Prelude.{
  ℕ, zero, suc, ◌+◌, ◌*◌, ◌≤◌, ◌<◌, true, false, String, List, [], ◌∷◌, ◌≡◌, refl, arith,
  by_branches,
}
use openai_compatible_bridge.Prelude.Result.{Result, ok, err, ◌>>=◌}
use openai_compatible_bridge.Json.{
  Value, Values, Fields, null, bool, int, float, str, list, dict, nil, cons, end, field, get,
}
use openai_compatible_bridge.Providers.Vertex.Schema.{
  merge, without, is_among, sanitize_keys, Failure, out_of_fuel, no_mapping, Plan, keep, inlined,
  broken, resolved, plan, target_name, each_value, each_field, sanitize_schema_node, depth,
  depth_values, depth_fields, unseen, definitions_of, sanitize_schema,
}
use openai_compatible_bridge.Providers.Vertex.Schema.Depth.{
  get-depth, merge-depth, without-depth, definitions_of-depth, unseen-less,
}

-- None of the keys that are removed stands anywhere in a value.
mutual
  pub IsClean : Value → Type 0
  IsClean (list vs) = AreClean vs
  IsClean (dict d) = IsCleanDict d
  IsClean _ = Unit {0}

  pub AreClean : Values → Type 0
  AreClean nil = Unit {0}
  AreClean (cons v vs) = IsClean v × AreClean vs

  pub IsCleanDict : Fields → Type 0
  IsCleanDict end = Unit {0}
  IsCleanDict (field key v d) = (is_among key sanitize_keys ≡ false) × (IsClean v × IsCleanDict d)

-- The fuel was enough, and what holds of the result.
pub Done {ℓ} : {A : Type ℓ} → (A → Type 0) → Result Failure A → Type 0
Done P (ok a) = P a
Done P (err out_of_fuel) = true ≡ false
Done P (err no_mapping) = Unit

Done-bind {ℓ κ} :
    {A : Type ℓ} {B : Type κ} (P : A → Type 0) (Q : B → Type 0) (m : Result Failure A)
    (f : A → Result Failure B)
    → Done P m
    → ((a : A) → P a → Done Q (f a))
    → Done Q (m >>= f)
unfolding Done
Done-bind P Q (ok a) f h k = k a h
Done-bind P Q (err out_of_fuel) f h k = h
Done-bind P Q (err no_mapping) f h k = tt

module _ (f : Value → Result Failure Value) (n : ℕ)
    (f-Done : (v : Value) → depth v ≤ n → Done IsClean (f v)) where
  each_value-Done : (vs : Values) → depth_values vs ≤ n → Done AreClean (each_value f vs)
  unfolding Done each_value depth IsClean
  each_value-Done nil b = tt
  each_value-Done (cons v vs) b =
      Done-bind IsClean AreClean (f v) (λ w. each_value f vs >>= λ ws. ok (cons w ws))
        (f-Done v (omega (arith, b)))
        (λ w c.
          Done-bind AreClean AreClean (each_value f vs) (λ ws. ok (cons w ws))
            (each_value-Done vs (omega (arith, b))) (λ ws cs. (c, cs)))

  each_field-Done : (d : Fields) → depth_fields d ≤ n → Done IsCleanDict (each_field f d)
  unfolding Done each_field depth IsClean
  each_field-Done end b = tt
  each_field-Done (field key v d) b =
      by_branches (Done IsCleanDict) (is_among key sanitize_keys)
        (λ h. each_field-Done d (omega (arith, b)))
        (λ h.
          Done-bind IsClean IsCleanDict (f v) (λ w. each_field f d >>= λ e. ok (field key w e))
            (f-Done v (omega (arith, b)))
            (λ w c.
              Done-bind IsCleanDict IsCleanDict (each_field f d) (λ e. ok (field key w e))
                (each_field-Done d (omega (arith, b))) (λ e ce. (h, (c, ce)))))

by_plan {ℓ κ} :
    {A : Type ℓ} (P : A → Type κ) (p : Plan) {x y : A} {g : String → Fields → A}
    → (p ≡ keep → P x)
    → ((name : String) (target : Fields) → p ≡ inlined name target → P (g name target))
    → (p ≡ broken → P y)
    → P (elim p [ keep ↦ x | inlined name target ↦ g name target | broken ↦ y ])
by_plan P keep h k l = h refl
by_plan P (inlined name target) h k l = k name target refl
by_plan P broken h k l = l refl

module _ (defs : Fields) (seen : List String) where
  -- What is inlined is a definition that was not inlined on the way.
  Fresh : Plan → Type 0
  Fresh keep = Unit
  Fresh (inlined name target) = (get name defs ≡ dict target) × (is_among name seen ≡ false)
  Fresh broken = Unit

  resolved-Fresh :
      (name : String) (v : Value)
      → get name defs ≡ v
      → is_among name seen ≡ false
      → Fresh (resolved name v)
  unfolding Fresh
  resolved-Fresh name (dict target) h n = (h, n)
  resolved-Fresh name null h n = tt
  resolved-Fresh name (bool b) h n = tt
  resolved-Fresh name (int i) h n = tt
  resolved-Fresh name (float t) h n = tt
  resolved-Fresh name (str t) h n = tt
  resolved-Fresh name (list vs) h n = tt

  plan-Fresh : (ref : Value) → Fresh (plan defs seen ref)
  unfolding Fresh plan
  plan-Fresh (str ref) =
      by_branches Fresh (is_among (target_name ref) seen) (λ h. tt)
        (λ h. resolved-Fresh (target_name ref) (get (target_name ref) defs) refl h)
  plan-Fresh null = tt
  plan-Fresh (bool b) = tt
  plan-Fresh (int i) = tt
  plan-Fresh (float t) = tt
  plan-Fresh (list vs) = tt
  plan-Fresh (dict d) = tt

  inlined-found :
      (ref : Value) {name : String} {target : Fields}
      → plan defs seen ref ≡ inlined name target
      → (get name defs ≡ dict target) × (is_among name seen ≡ false)
  unfolding Fresh
  inlined-found ref e = rw e at (plan-Fresh ref)

-- The fuel that is left after an inlining is enough for the definition.
inlined-fuel :
    (k k' n d d' fuel : ℕ)
    → k' < k
    → d' ≤ n
    → k * suc (suc n) + d < suc fuel
    → k' * suc (suc n) + d' < fuel
inlined-fuel k k' n d d' fuel l b h = grind (arith, l, b, h)

module _ (n : ℕ) (defs : Fields) (defs-depth : depth_fields defs ≤ n) where
  node-Done :
      (fuel : ℕ) (seen : List String) (node : Value)
      → depth node ≤ n
      → unseen defs seen * suc (suc n) + depth node < fuel
      → Done IsClean (sanitize_schema_node fuel defs seen node)
  unfolding Done sanitize_schema_node depth IsClean
  node-Done zero seen node b h = absurd (omega (arith, h))
  node-Done (suc fuel) seen (list vs) b h =
      Done-bind AreClean IsClean (each_value (sanitize_schema_node fuel defs seen) vs)
        (λ ws. ok (list ws))
        (each_value-Done (sanitize_schema_node fuel defs seen) (depth_values vs)
          (λ v l. node-Done fuel seen v (omega (arith, l, b)) (omega (arith, l, h))) vs
          (omega arith))
        (λ ws c. c)
  node-Done (suc fuel) seen (dict d) b h =
      by_plan (Done IsClean) (plan defs seen (get "$ref" d))
        (λ e.
          Done-bind IsCleanDict IsClean (each_field (sanitize_schema_node fuel defs seen) d)
            (λ x. ok (dict x))
            (each_field-Done (sanitize_schema_node fuel defs seen) (depth_fields d)
              (λ v l. node-Done fuel seen v (omega (arith, l, b)) (omega (arith, l, h))) d
              (omega arith))
            (λ x c. c))
        (λ name target e.
          let found = inlined-found defs seen (get "$ref" d) e in
          let merged = merge target (without "$ref" d) in
          let merged-depth = merged-le name target d found.0 b in
          node-Done fuel (name ∷ seen) (dict merged) merged-depth (
            inlined-fuel (unseen defs seen) (unseen defs (name ∷ seen)) n (suc (depth_fields d))
              (suc (depth_fields merged)) fuel (unseen-less defs name seen target found.0 found.1)
              merged-depth h))
        (λ e. tt)
    where
      merged-le :
          (name : String) (target d : Fields)
          → get name defs ≡ dict target
          → suc (depth_fields d) ≤ n
          → suc (depth_fields (merge target (without "$ref" d))) ≤ n
      merged-le name target d found b =
          let deep = rw found at (get-depth name defs) in
          omega (
            arith,
            merge-depth target (without "$ref" d),
            without-depth "$ref" d,
            deep,
            defs-depth,
            b,
          )
  node-Done (suc fuel) seen null b h = tt
  node-Done (suc fuel) seen (bool x) b h = tt
  node-Done (suc fuel) seen (int x) b h = tt
  node-Done (suc fuel) seen (float x) b h = tt
  node-Done (suc fuel) seen (str x) b h = tt

-- For every schema, also for one whose definitions refer to one another in a circle, the recursion
-- ends within its fuel, and unless `{**target, **siblings}` meets a target that is no dict, what
-- comes out holds none of `$schema`, `$id`, `$ref`, `definitions` and `$defs`, at any depth.
pub sanitize_schema-Done : (schema : Value) → Done IsClean (sanitize_schema schema)
unfolding sanitize_schema
sanitize_schema-Done schema =
    node-Done (depth schema) (definitions_of schema) (definitions_of-depth schema) _ [] schema
      (omega arith) (omega arith)
