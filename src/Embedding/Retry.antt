-- ===== src/Embedding/Retry.antt =====
-- EmbeddingRetryPolicy and its helpers (openai_compatible_bridge/core/embedding_resilience.py).
-- Durations are Python floats: their type and operations are a parameter. What the clock, the
-- random jitter, the semaphore and the HTTP client do in a round is an input. A run returns its
-- outcome and the effects that it made, in order.
pub mod Bounds
pub mod Settings
mod Tests
use openai_compatible_bridge.Prelude.{
  ℕ, zero, suc, ◌+◌, ◌-◌, Bool, true, false, not, ◌&&◌, ◌||◌, Option, none, some, String, List, [],
  ◌∷◌, ◌++◌, ◌==◌, if◌then◌else◌, ltb, leb,
}
use openai_compatible_bridge.Prelude.Int.{ℤ, pos, pos_part, ◌-ℤ◌, leb_ℤ}
use openai_compatible_bridge.Prelude.Result.{Result, ok, err, ◌>>=◌, ◌>>◌, guard}
use openai_compatible_bridge.Json.{Value, object, get, one_of}

-- Python's floats, and the parsers that read durations.
pub record Floats : Type 1 where
  pub Seconds : Type 0
  pub nought : Seconds
  pub less : Seconds → Seconds → Bool
  pub at_most : Seconds → Seconds → Bool
  pub is_finite : Seconds → Bool
  pub plus : Seconds → Seconds → Seconds
  pub minus : Seconds → Seconds → Seconds
  pub times : Seconds → Seconds → Seconds
  pub power_of_two : ℕ → Seconds
  -- `float(text)`, none for a ValueError
  pub parse_float : String → Option Seconds
  -- `parsedate_to_datetime(text)`, none for an error; inside, none for a date with no time zone
  pub parse_date : String → Option (Option Seconds)
  -- `int(text)`
  pub parse_int : String → Option ℤ

-- An HTTP response, as far as it is read: `response.json()` may raise ValueError.
pub record Response : Type 0 where
  pub status_code : ℕ
  pub json : Option Value
  pub retry_after_header : Option String

abbrev non_retryable_codes : List String
non_retryable_codes = "budget_exceeded" ∷ "cost_config_error" ∷ "cost_tracking_unavailable" ∷ []

retryable_payload : Option Value → Bool
unfolding get one_of
retryable_payload none = true
retryable_payload (some payload) =
    not (one_of (get "code" (object (get "error" (object payload)))) non_retryable_codes)

-- `_retryable`
pub retryable : Response → Bool
unfolding retryable_payload
retryable r = (r.status_code == 429 || r.status_code == 503) && retryable_payload r.json

pub data SettingError : Type 0 where
  not_an_integer not_a_number out_of_range max_below_initial : SettingError

parsed {ℓ} : {A : Type ℓ} → SettingError → Option A → Result SettingError A
parsed e none = err e
parsed e (some v) = ok v

text_or : String → Option String → String
text_or d none = d
text_or d (some t) = t

module _ (F : Floats) where
  open F use {
    Seconds, nought, less, at_most, is_finite, plus, minus, times, power_of_two, parse_float,
    parse_date, parse_int,
  }

  -- `min(a, b)` and `max(a, b)` as Python computes them.
  smaller : Seconds → Seconds → Seconds
  smaller a b = if less b a then b else a

  larger : Seconds → Seconds → Seconds
  larger a b = if less a b then b else a

  finite_or_nought : Seconds → Seconds
  unfolding larger
  finite_or_nought v = if is_finite v then larger nought v else nought

  dated : Seconds → Option (Option Seconds) → Seconds
  unfolding finite_or_nought
  dated now none = nought
  dated now (some none) = nought
  dated now (some (some at)) = finite_or_nought (minus at now)

  parsed_or_dated : Seconds → String → Option Seconds → Seconds
  unfolding dated
  parsed_or_dated now raw (some v) = finite_or_nought v
  parsed_or_dated now raw none = dated now (parse_date raw)

  header_delay : Seconds → Option String → Seconds
  unfolding parsed_or_dated
  header_delay now none = nought
  header_delay now (some raw) = parsed_or_dated now raw (parse_float raw)

  -- `_retry_after`, at the wall clock's time `now`.
  pub retry_after : Seconds → Response → Seconds
  unfolding header_delay
  retry_after now r = header_delay now r.retry_after_header

  pub record RetryPolicy : Type 0 where
    pub max_attempts : ℤ
    pub initial_delay : Seconds
    pub max_delay : Seconds
    pub timeout : Seconds

  -- How one call of `http.post` ends: the budget of the round expires, another exception, a reply.
  pub data Send : Type 0 where
    expired failed : Send
    answered : Response → Send

  -- How the sleep and the wait for the semaphore end: as above, or with the slot at a given time.
  pub data Wait : Type 0 where
    expired failed : Wait
    slot : Seconds → Send → Wait

  -- What a round meets: the jitter, the wall clock, the monotonic clock, and the budgeted block.
  pub record Round : Type 0 where
    pub jitter : Seconds
    pub wall : Seconds
    pub now : Seconds
    pub wait : Wait

  pub data Effect : Type 0 where
    acquire release send close : Effect
    sleep : Seconds → Effect

  pub data Outcome : Type 0 where
    returned : Response → Outcome
    raised : Outcome

  -- The delay before the retry with this number.
  pub backoff : RetryPolicy → ℕ → Round → Response → Seconds
  unfolding smaller larger
  backoff p retry e r =
      larger
        (smaller p.max_delay
          (times (smaller p.max_delay (times p.initial_delay (power_of_two retry))) e.jitter))
        (retry_after e.wall r)

  -- The body of `async with semaphore` in a retry: `next` goes on with the new response.
  after_send : Send → Response → (Response → Outcome × List Effect) → Outcome × List Effect
  after_send Send.expired r next = (returned r, send ∷ release ∷ [])
  after_send Send.failed r next = (raised, send ∷ release ∷ [])
  after_send (answered r') r next = let (o, effects) = next r' in (o, send ∷ release ∷ effects)

  after_wait :
      Seconds → Wait → Response → (Response → Outcome × List Effect) → Outcome × List Effect
  unfolding after_send
  after_wait deadline Wait.expired r next = (returned r, [])
  after_wait deadline Wait.failed r next = (raised, [])
  after_wait deadline (slot now s) r next =
      if at_most deadline now
      then (returned r, acquire ∷ release ∷ [])
      else let (o, effects) = after_send s r next in (o, acquire ∷ effects)

  -- The loop of `post`, with the rounds left, the number of the next retry, and the last response.
  pub retry_loop : RetryPolicy → Seconds → (ℕ → Round) → ℕ → ℕ → Response → Outcome × List Effect
  unfolding after_wait
  retry_loop p deadline rounds zero retry r = (returned r, [])
  retry_loop p deadline rounds (suc left) retry r =
      let e = rounds retry in
      let delay = backoff p retry e r in
      let next = λ (r' : Response). retry_loop p deadline rounds left (suc retry) r' in
      let (o, effects) = after_wait deadline e.wait r next in
      if not (retryable r) || at_most (minus deadline e.now) delay
      then (returned r, [])
      else (o, close ∷ sleep delay ∷ effects)

  -- What follows the first send. The rounds are those of `range(max_attempts - 1)`.
  after_first : RetryPolicy → Seconds → (ℕ → Round) → Send → Outcome × List Effect
  after_first p start rounds (answered r) =
      retry_loop p (plus start p.timeout) rounds (pos_part (p.max_attempts -ℤ pos 1)) zero r
  after_first p start rounds _ = (raised, [])

  -- The first send, or none where the wait for its slot is cancelled.
  first_send : RetryPolicy → Seconds → (ℕ → Round) → Option Send → Outcome × List Effect
  unfolding after_first
  first_send p start rounds none = (raised, [])
  first_send p start rounds (some first) =
      let (o, effects) = after_first p start rounds first in (o, acquire ∷ send ∷ release ∷ effects)

  -- `EmbeddingRetryPolicy.post`: the first send has no budget; `start` is the time after it.
  pub post : RetryPolicy → Seconds → (ℕ → Round) → Option Send → Outcome × List Effect
  unfolding first_send
  post p start rounds first = first_send p start rounds first

  -- The bounds that env_limits.LIMITS holds for the retry settings.
  pub record RetryLimits : Type 0 where
    pub least_attempts : ℤ
    pub most_attempts : ℤ
    pub initial_least : Seconds
    pub initial_most : Seconds
    pub max_least : Seconds
    pub max_most : Seconds
    pub timeout_least : Seconds
    pub timeout_most : Seconds

  -- `_seconds`
  seconds :
      (String → Option String) → String → String → Seconds → Seconds → Result SettingError Seconds
  unfolding parsed text_or
  seconds env name default least most = do
    value ← parsed not_a_number (parse_float (text_or default (env name)))
    guard (is_finite value && (at_most least value && at_most value most)) out_of_range
    ok value

  -- `EmbeddingRetryPolicy.from_env`
  pub from_env : RetryLimits → (String → Option String) → Result SettingError RetryPolicy
  unfolding seconds
  from_env limits env = do
    attempts ← parsed not_an_integer (parse_int (text_or "4" (env "EMBEDDINGS_RETRY_MAX_ATTEMPTS")))
    guard (leb_ℤ limits.least_attempts attempts && leb_ℤ attempts limits.most_attempts) out_of_range
    initial ←
        seconds env "EMBEDDINGS_RETRY_INITIAL_DELAY_SECONDS" "1" limits.initial_least
          limits.initial_most
    maximum ← seconds env "EMBEDDINGS_RETRY_MAX_DELAY_SECONDS" "8" limits.max_least limits.max_most
    guard (not (less maximum initial)) max_below_initial
    timeout ←
        seconds env "EMBEDDINGS_RETRY_TIMEOUT_SECONDS" "30" limits.timeout_least limits.timeout_most
    ok (record {
      max_attempts = attempts;
      initial_delay = initial;
      max_delay = maximum;
      timeout = timeout;
    })
