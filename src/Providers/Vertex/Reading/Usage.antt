-- ===== src/Providers/Vertex/Reading/Usage.antt =====
-- `_coerce_openai_usage` of openai_compatible_bridge/providers/vertex.py, applied to what it returns.
use openai_compatible_bridge.Prelude.{
  ℕ, ◌+◌, true, false, Option, none, some, String, ◌≡◌, refl, if◌then◌else◌, ◌==◌, arith, ap, ◌∙◌,
  str_eq, eq_iff,
}
use openai_compatible_bridge.Prelude.Int.{pos, negsuc}
use openai_compatible_bridge.Prelude.Result.{Result, ok, Ensures, ◌>>=◌, Ensures-bind, Ensures-then}
use openai_compatible_bridge.Json.{
  Value, Fields, null, bool, int, float, str, list, dict, end, field, get, has, object,
}
use openai_compatible_bridge.Providers.Ollama.{Error}
use openai_compatible_bridge.Providers.Vertex.Reading.{
  Builtins, int_of, parse_int, int_value, detail_of, detail_counts, cache_count, with_detail,
  with_count, usage_dict, coerce_openai_usage,
}

-- Every value is a count.
pub AreCounts : Fields → Type 0
AreCounts end = Unit
AreCounts (field key (int (pos n)) d) = AreCounts d
AreCounts (field key v d) = true ≡ false

module _ (key other : String) (differs : str_eq other key ≡ false) (rest : Fields) where
  get-with_detail : (d : Fields) → get key (with_detail other d rest) ≡ get key rest
  unfolding get
  get-with_detail end = refl
  get-with_detail (field j v d) = rw differs refl

  get-with_count : (n : Option ℕ) → get key (with_count other n rest) ≡ get key rest
  unfolding get
  get-with_count none = refl
  get-with_count (some n) = rw differs refl

  has-with_count : (n : Option ℕ) → has key (with_count other n rest) ≡ has key rest
  unfolding has
  has-with_count none = refl
  has-with_count (some n) = rw differs refl

same-text : (key : String) → str_eq key key ≡ true
same-text key = (eq_iff key key).1 refl

bind-ok {ℓ κ} :
    {A : Type ℓ} {B : Type κ} {m : Result Error A} {a : A} (f : A → Result Error B)
    → m ≡ ok a
    → (m >>= f) ≡ f a
bind-ok f e = rw e refl

module _ (builtins : Builtins) where
  detail_of-AreCounts : (d : Fields) → Ensures AreCounts (detail_of builtins d)
  unfolding AreCounts detail_of
  detail_of-AreCounts end = tt
  detail_of-AreCounts (field key v d) =
      Ensures-then AreCounts (parse_int builtins v)
        (λ n. detail_of builtins d >>= λ rest.
          ok (elim n [ none ↦ rest | some k ↦ field key (int (pos k)) rest ]))
        (λ n.
          Ensures-bind AreCounts AreCounts (detail_of builtins d)
            (λ rest. ok (elim n [ none ↦ rest | some k ↦ field key (int (pos k)) rest ]))
            (detail_of-AreCounts d) (counts n))
    where
      counts :
          (n : Option ℕ) (rest : Fields)
          → AreCounts rest
          → AreCounts (elim n [ none ↦ rest | some k ↦ field key (int (pos k)) rest ])
      counts none rest h = h
      counts (some k) rest h = h

  detail_counts-AreCounts : (v : Value) → Ensures AreCounts (detail_counts builtins v)
  unfolding detail_counts AreCounts
  detail_counts-AreCounts (dict d) = detail_of-AreCounts d
  detail_counts-AreCounts null = tt
  detail_counts-AreCounts (bool b) = tt
  detail_counts-AreCounts (int n) = tt
  detail_counts-AreCounts (float t) = tt
  detail_counts-AreCounts (str t) = tt
  detail_counts-AreCounts (list vs) = tt

  -- Counts are read back as they are.
  detail_of-same : (d : Fields) → AreCounts d → detail_of builtins d ≡ ok d
  unfolding AreCounts detail_of parse_int int_of
  detail_of-same end h = refl
  detail_of-same (field key (int (pos n)) d) h = rw (detail_of-same d h) refl
  detail_of-same (field key (int (negsuc n)) d) h = absurd cc
  detail_of-same (field key null d) h = absurd cc
  detail_of-same (field key (bool b) d) h = absurd cc
  detail_of-same (field key (float t) d) h = absurd cc
  detail_of-same (field key (str t) d) h = absurd cc
  detail_of-same (field key (list vs) d) h = absurd cc
  detail_of-same (field key (dict e) d) h = absurd cc

  -- The total is kept: it is zero only where the two counts are.
  total-same :
      (prompt completion given : ℕ)
      → let total = if given == 0 then prompt + completion else given in
        (if total == 0 then prompt + completion else total) ≡ total
  total-same prompt completion given = ground arith

  -- A detail that is not written is not found behind its place either.
  detail-same :
      (key : String) (d rest : Fields)
      → AreCounts d
      → get key rest ≡ null
      → detail_counts builtins (get key (with_detail key d rest)) ≡ ok d
  unfolding detail_counts get
  detail-same key end rest h e = rw e refl
  detail-same key (field j v d) rest h e = rw (same-text key) (detail_of-same (field j v d) h)

  count-same :
      (key : String) (n : Option ℕ) (rest : Fields)
      → has key rest ≡ false
      → cache_count builtins key (with_count key n rest) ≡ ok n
  unfolding cache_count get has parse_int int_of
  count-same key none rest e = rw e refl
  count-same key (some n) rest e = rw (same-text key) refl

  module _ (key other : String) (differs : str_eq other key ≡ false) (rest : Fields) where
    cache_count-with_detail :
        (d : Fields)
        → cache_count builtins key (with_detail other d rest) ≡ cache_count builtins key rest
    unfolding cache_count get has
    cache_count-with_detail end = refl
    cache_count-with_detail (field j v d) = rw differs refl

    cache_count-with_count :
        (n : Option ℕ)
        → cache_count builtins key (with_count other n rest) ≡ cache_count builtins key rest
    unfolding cache_count get has
    cache_count-with_count none = refl
    cache_count-with_count (some n) = rw differs refl

  module _ (p c : Fields) (r w : Option ℕ) (hp : AreCounts p) (hc : AreCounts c) where
    usage_dict-same :
        (prompt completion total : ℕ)
        → (if total == 0 then prompt + completion else total) ≡ total
        → coerce_openai_usage builtins (dict (usage_dict prompt completion total p c r w))
          ≡ ok (usage_dict prompt completion total p c r w)
    unfolding coerce_openai_usage usage_dict int_value get has parse_int int_of cache_count
    usage_dict-same prompt completion total ht =
        let last = with_count "cache_creation_input_tokens" w end in
        let counts = with_count "cache_read_input_tokens" r last in
        let details = with_detail "completion_tokens_details" c counts in
        let no_prompt =
          get-with_detail "prompt_tokens_details" "completion_tokens_details" refl counts c
          ∙ get-with_count "prompt_tokens_details" "cache_read_input_tokens" refl last r
          ∙ get-with_count "prompt_tokens_details" "cache_creation_input_tokens" refl end w in
        let no_completion =
          get-with_count "completion_tokens_details" "cache_read_input_tokens" refl last r
          ∙ get-with_count "completion_tokens_details" "cache_creation_input_tokens" refl end w in
        let no_read =
          has-with_count "cache_read_input_tokens" "cache_creation_input_tokens" refl end w in
        let read =
          cache_count-with_detail "cache_read_input_tokens" "prompt_tokens_details" refl details p
          ∙ cache_count-with_detail "cache_read_input_tokens" "completion_tokens_details" refl
              counts c
          ∙ count-same "cache_read_input_tokens" r last no_read in
        let creation =
          cache_count-with_detail "cache_creation_input_tokens" "prompt_tokens_details" refl details
            p
          ∙ cache_count-with_detail "cache_creation_input_tokens" "completion_tokens_details" refl
              counts c
          ∙ cache_count-with_count "cache_creation_input_tokens" "cache_read_input_tokens" refl last
              r
          ∙ count-same "cache_creation_input_tokens" w end refl in
        bind-ok _ (detail-same "prompt_tokens_details" p details hp no_prompt)
        ∙ bind-ok _ (
            get_detail p details
            ∙ detail-same "completion_tokens_details" c counts hc no_completion)
        ∙ bind-ok _ read
        ∙ bind-ok _ creation
        ∙ ap (λ t. ok (usage_dict prompt completion t p c r w)) ht
      where
        get_detail :
            (d rest : Fields)
            → detail_counts builtins
                (get "completion_tokens_details" (with_detail "prompt_tokens_details" d rest))
              ≡ detail_counts builtins (get "completion_tokens_details" rest)
        get_detail d rest =
            ap (detail_counts builtins)
              (get-with_detail "completion_tokens_details" "prompt_tokens_details" refl rest d)

  -- What `_coerce_openai_usage` returns is normal: applied to it again, it returns the same, with the
  -- details and the counts of the cache that it has kept.
  pub coerce_openai_usage-again :
      (value : Value)
      → Ensures
          (λ normalized. coerce_openai_usage builtins (dict normalized) ≡ ok normalized)
          (coerce_openai_usage builtins value)
  unfolding coerce_openai_usage
  coerce_openai_usage-again value =
      let usage = object value in
      Ensures-then Same (int_value builtins "prompt_tokens" usage) _ (λ prompt.
        Ensures-then Same (int_value builtins "completion_tokens" usage) _ (λ completion.
          Ensures-then Same (int_value builtins "total_tokens" usage) _ (λ given.
            Ensures-bind AreCounts Same _ _ (detail_counts-AreCounts _) (λ p hp.
              Ensures-bind AreCounts Same _ _ (detail_counts-AreCounts _) (λ c hc.
                Ensures-then Same (cache_count builtins "cache_read_input_tokens" usage) _ (λ r.
                  Ensures-then Same (cache_count builtins "cache_creation_input_tokens" usage) _
                    (λ w.
                      usage_dict-same p c r w hp hc prompt completion
                        (if given == 0 then prompt + completion else given)
                        (total-same prompt completion given))))))))
    where
      Same : Fields → Type 0
      Same normalized = coerce_openai_usage builtins (dict normalized) ≡ ok normalized
