-- ===== src/Embedding/Retry/Settings.antt =====
-- What EmbeddingRetryPolicy.from_env (openai_compatible_bridge/core/embedding_resilience.py)
-- accepts.
use openai_compatible_bridge.Prelude.{
  ◌≡◌, true, false, not, ◌&&◌, Option, none, some, String, arith, Bool-cases, inl, inr,
}
use openai_compatible_bridge.Prelude.Int.{ℤ, leb_ℤ}
use openai_compatible_bridge.Prelude.Result.{
  Result, ok, err, ◌>>=◌, ◌>>◌, guard, Ensures, Ensures-bind, Ensures-guard, Ensures-eq,
}
use openai_compatible_bridge.Embedding.Retry.{
  Floats, RetryPolicy, RetryLimits, SettingError, not_an_integer, not_a_number, out_of_range,
  max_below_initial, parsed, text_or, seconds, from_env,
}

module _ (F : Floats) where
  open F use {Seconds, less, at_most, is_finite, parse_float, parse_int}

  -- A finite number in a closed range.
  abbrev pub InRange : Seconds → Seconds → Seconds → Type 0
  InRange least most v = (is_finite v ≡ true) × (at_most least v ≡ true) × (at_most v most ≡ true)

  checked-InRange :
      (least most v : Seconds)
      → Ensures
          (InRange least most)
          ((do guard (is_finite v && (at_most least v && at_most v most)) out_of_range; ok v))
  checked-InRange least most v =
      elim (Bool-cases (is_finite v && (at_most least v && at_most v most))) [
        | inl e ↦ rw e (ground (arith, e), ground (arith, e), ground (arith, e))
        | inr e ↦ rw e tt
      ]

  seconds-InRange :
      (env : String → Option String) (name default : String) (least most : Seconds)
      → Ensures (InRange least most) (seconds F env name default least most)
  unfolding seconds
  seconds-InRange env name default least most = go (parse_float (text_or default (env name)))
    where
      go :
          (o : Option Seconds)
          → Ensures (InRange least most) (
              parsed (not_a_number) o >>= λ v.
              guard (is_finite v && (at_most least v && at_most v most)) out_of_range >> ok v)
      go none = tt
      go (some v) = checked-InRange least most v

  -- What `from_env` promises of a policy.
  pub record IsWithin (limits : RetryLimits F) (p : RetryPolicy F) : Type 0 where
    pub at_least : leb_ℤ limits.least_attempts p.max_attempts ≡ true
    pub at_most : leb_ℤ p.max_attempts limits.most_attempts ≡ true
    pub initial : InRange limits.initial_least limits.initial_most p.initial_delay
    pub maximum : InRange limits.max_least limits.max_most p.max_delay
    pub timeout : InRange limits.timeout_least limits.timeout_most p.timeout
    pub covered : less p.max_delay p.initial_delay ≡ false

  from_env-Ensures :
      (limits : RetryLimits F) (env : String → Option String)
      → Ensures (IsWithin limits) (from_env F limits env)
  unfolding from_env
  from_env-Ensures limits env =
      Ensures-bind (λ _. Unit) (IsWithin limits) _ _
        (unit
          (parsed not_an_integer (parse_int (text_or "4" (env "EMBEDDINGS_RETRY_MAX_ATTEMPTS")))))
        λ a _.
          Ensures-bind (λ _. (leb_ℤ limits.least_attempts a && leb_ℤ a limits.most_attempts) ≡ true)
            (IsWithin limits) _ _
            (Ensures-guard (leb_ℤ limits.least_attempts a && leb_ℤ a limits.most_attempts)
              out_of_range)
            λ _ b.
              Ensures-bind (InRange limits.initial_least limits.initial_most) (IsWithin limits) _ _
                (seconds-InRange env "EMBEDDINGS_RETRY_INITIAL_DELAY_SECONDS" "1"
                  limits.initial_least limits.initial_most)
                λ i hi.
                  Ensures-bind (InRange limits.max_least limits.max_most) (IsWithin limits) _ _
                    (seconds-InRange env "EMBEDDINGS_RETRY_MAX_DELAY_SECONDS" "8" limits.max_least
                      limits.max_most)
                    λ m hm.
                      Ensures-bind (λ _. not (less m i) ≡ true) (IsWithin limits) _ _
                        (Ensures-guard (not (less m i)) max_below_initial)
                        λ _ c.
                          Ensures-bind (InRange limits.timeout_least limits.timeout_most)
                            (IsWithin limits) _ _
                            (seconds-InRange env "EMBEDDINGS_RETRY_TIMEOUT_SECONDS" "30"
                              limits.timeout_least limits.timeout_most)
                            λ t ht. record {
                              at_least = ground (arith, b);
                              at_most = ground (arith, b);
                              initial = hi;
                              maximum = hm;
                              timeout = ht;
                              covered = ground (arith, c);
                            }
    where
      unit : (m : Result (SettingError) ℤ) → Ensures (λ _. Unit {0}) m
      unit (ok a) = tt
      unit (err e) = tt

  -- A policy that `from_env` returns has every setting within its limits, each duration finite, and
  -- a greatest delay that is not below the first one.
  from_env-IsWithin :
      (limits : RetryLimits F) (env : String → Option String) (p : RetryPolicy F)
      → from_env F limits env ≡ ok p
      → IsWithin limits p
  from_env-IsWithin limits env p h = Ensures-eq (IsWithin limits) h (from_env-Ensures limits env)
