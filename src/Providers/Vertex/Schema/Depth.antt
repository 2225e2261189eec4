-- ===== src/Providers/Vertex/Schema/Depth.antt =====
-- How deep the dicts are that `_sanitize_schema_node` builds, and how many definitions are left.
use openai_compatible_bridge.Prelude.{
  suc, ◌≤◌, ◌<◌, true, false, String, List, ◌∷◌, max, ◌≡◌, refl, Bool-cases, by_branches, inl, inr,
  str_eq, eq_iff, sym, ap, ◌∙◌, arith,
}
use openai_compatible_bridge.Json.{
  Value, Fields, null, bool, int, float, str, list, dict, end, field, get, object,
}
use openai_compatible_bridge.Providers.Vertex.Schema.{
  set, merge, without, is_among, depth, depth_fields, unseen, definitions_of,
}

pub get-depth : (key : String) (d : Fields) → depth (get key d) ≤ depth_fields d
unfolding get depth
get-depth key end = omega arith
get-depth key (field j v d) = elim (Bool-cases (str_eq j key)) [
  | inl e ↦ rw e (omega arith)
  | inr e ↦ rw e (omega (arith, get-depth key d))
]

pub object-depth : (v : Value) → depth_fields (object v) ≤ depth v
unfolding depth
object-depth (dict d) = omega arith
object-depth null = omega arith
object-depth (bool b) = omega arith
object-depth (int n) = omega arith
object-depth (float t) = omega arith
object-depth (str t) = omega arith
object-depth (list vs) = omega arith

pub set-depth :
    (key : String) (v : Value) (d : Fields)
    → depth_fields (set key v d) ≤ max (depth v) (depth_fields d)
unfolding set depth
set-depth key v end = omega arith
set-depth key v (field j w d) = elim (Bool-cases (str_eq j key)) [
  | inl e ↦ rw e (omega arith)
  | inr e ↦ rw e (omega (arith, set-depth key v d))
]

pub merge-depth :
    (target d : Fields) → depth_fields (merge target d) ≤ max (depth_fields target) (depth_fields d)
unfolding merge depth
merge-depth target end = omega arith
merge-depth target (field key v d) =
    omega (arith, merge-depth (set key v target) d, set-depth key v target)

pub without-depth : (key : String) (d : Fields) → depth_fields (without key d) ≤ depth_fields d
unfolding without depth
without-depth key end = omega arith
without-depth key (field j v d) = elim (Bool-cases (str_eq j key)) [
  | inl e ↦ rw e (omega (arith, without-depth key d))
  | inr e ↦ rw e (omega (arith, without-depth key d))
]

-- The definitions of a schema are no deeper than the schema.
pub definitions_of-depth : (schema : Value) → depth_fields (definitions_of schema) ≤ depth schema
unfolding definitions_of depth
definitions_of-depth (dict d) =
    let a = object (get "$defs" d) in
    let b = object (get "definitions" d) in
    omega (
      arith,
      merge-depth (merge end a) b,
      merge-depth end a,
      object-depth (get "$defs" d),
      object-depth (get "definitions" d),
      get-depth "$defs" d,
      get-depth "definitions" d,
    )
definitions_of-depth null = omega arith
definitions_of-depth (bool b) = omega arith
definitions_of-depth (int n) = omega arith
definitions_of-depth (float t) = omega arith
definitions_of-depth (str t) = omega arith
definitions_of-depth (list vs) = omega arith

module _ (key name : String) (seen : List String) where
  more-among : is_among key seen ≡ true → is_among key (name ∷ seen) ≡ true
  unfolding is_among
  more-among h = ground (arith, h)

-- A further name leaves no more.
unseen-le :
    (d : Fields) (name : String) (seen : List String) → unseen d (name ∷ seen) ≤ unseen d seen
unfolding unseen
unseen-le end name seen = omega arith
unseen-le (field key v d) name seen = elim (Bool-cases (is_among key seen)) [
  | inl e ↦ rw e (rw (more-among key name seen e) (unseen-le d name seen))
  | inr e ↦ rw e (
      by_branches (λ n. n ≤ suc (unseen d seen)) (is_among key (name ∷ seen))
        (λ h. omega (arith, unseen-le d name seen)) (λ h. omega (arith, unseen-le d name seen)))
]

here-among :
    (key name : String) (seen : List String)
    → str_eq name key ≡ true
    → is_among key (name ∷ seen) ≡ true
unfolding is_among
here-among key name seen e = rw e refl

elsewhere-among :
    (key name : String) (seen : List String)
    → str_eq name key ≡ false
    → is_among key (name ∷ seen) ≡ is_among key seen
unfolding is_among
elsewhere-among key name seen e = rw e refl

-- A definition that is found, and was not seen before, is one less to inline.
pub unseen-less :
    (d : Fields) (name : String) (seen : List String) (target : Fields)
    → get name d ≡ dict target
    → is_among name seen ≡ false
    → unseen d (name ∷ seen) < unseen d seen
unfolding unseen get
unseen-less end name seen target h n = cc
unseen-less (field key v d) name seen target h n = elim (Bool-cases (str_eq name key)) [
  | inl e ↦ rw (here-among key name seen e) (
      rw (ap (λ k. is_among k seen) (sym ((eq_iff name key).0 e)) ∙ n)
        (omega (arith, unseen-le d name seen)))
  | inr e ↦
      let found = rw (different e) at h in
      rw (elsewhere-among key name seen e) (elim (Bool-cases (is_among key seen)) [
        | inl m ↦ rw m (unseen-less d name seen target found n)
        | inr m ↦ rw m (omega (arith, unseen-less d name seen target found n))
      ])
]
  where
    different : str_eq name key ≡ false → str_eq key name ≡ false
    different e = elim (Bool-cases (str_eq key name)) [
      | inl m ↦ absurd (ground (arith, e, (eq_iff name key).1 (sym ((eq_iff key name).0 m))))
      | inr m ↦ m
    ]
