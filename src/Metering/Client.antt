-- ===== src/Metering/Client.antt =====
-- _MeteredResponse and MeteredHTTPClient of openai_compatible_bridge/core/metered_http.py: which
-- usage a paid attempt records. The client below, the accounting and the consumer of a stream are
-- inputs; `E` is what they may raise.
pub mod Records
mod Tests
use openai_compatible_bridge.Prelude.{
  ℕ, Bool, true, false, not, ◌&&◌, ◌||◌, Option, none, some, String, List, [], ◌∷◌, if◌then◌else◌,
  ltb, leb, str_eq,
}
use openai_compatible_bridge.Prelude.Result.{Result, ok, err}
use openai_compatible_bridge.Json.{Value}
use openai_compatible_bridge.Usage.{
  NormalizedUsage, Endpoint, chat, embeddings, rerank, elsewhere, Provider,
}
use openai_compatible_bridge.Usage.Parsers.{observe_usage}
use openai_compatible_bridge.Cost.Gate.{Reservation}
use openai_compatible_bridge.Metering.Stream.{
  Texts, StreamUsage, new_stream, usage, finish, feed_lines,
}

-- The endpoint of a reservation.
abbrev pub endpoint_of : Reservation → Endpoint
endpoint_of r =
    if str_eq r.endpoint "chat"
    then chat
    else if str_eq r.endpoint "embeddings"
    then embeddings
    else if str_eq r.endpoint "rerank"
    then rerank
    else elsewhere

-- How the iteration over the lines went: the consumer has stopped in front of the end and still
-- holds the iterator, the lines ended, the iterator was closed, or something was raised.
pub data Reading : Type 0 where
  held exhausted closed raised : Reading

pub record MeteredResponse : Type 0 where
  pub observer : StreamUsage
  pub is_exhausted : Bool
  pub failed : Bool

abbrev pub new_response : Endpoint → Provider → MeteredResponse
new_response e p = record { observer = new_stream e p; is_exhausted = false; failed = false }

module _ (T : Texts) where
  -- The end of `aiter_lines`.
  pub end_reading : Reading → MeteredResponse → MeteredResponse
  end_reading held m = m
  end_reading exhausted m = record m { observer = finish T m.observer; is_exhausted = true }
  end_reading closed m = if m.observer.done then m else record m { failed = true }
  end_reading raised m = record m { failed = true }

  -- `aiter_lines`, for the lines that the consumer got.
  pub aiter_lines : List String → Reading → MeteredResponse → MeteredResponse
  aiter_lines lines reading m =
      end_reading reading (record m { observer = feed_lines T lines m.observer })

-- `collected_usage`
pub collected_usage : ℕ → MeteredResponse → Option NormalizedUsage
collected_usage status_code m =
    if m.failed || leb 400 status_code
    then none
    else if not (m.is_exhausted || m.observer.done)
    then none
    else usage m.observer

-- A response as the client reads it: `json()` may raise.
pub record Response : Type 0 where
  pub status_code : ℕ
  pub json : Option Value

-- A call of `record_attempt`, whose exceptions are suppressed.
abbrev pub Record : Type 0
Record = Reservation × Option NormalizedUsage

-- `_record`
pub record_usage : Option Reservation → Option NormalizedUsage → List Record
record_usage none u = []
record_usage (some r) u = (r, u) ∷ []

-- The usage that `post` reads from a response.
pub posted_usage : Provider → Option Reservation → Response → Option NormalizedUsage
posted_usage p none response = none
posted_usage p (some r) response =
    if ltb response.status_code 400
    then elim (response.json) [ none ↦ none | some v ↦ observe_usage p v (endpoint_of r) ]
    else none

-- `post`: its result and the records that it makes, for what `before_attempt` and the client below
-- return.
pub post :
    {E : Type 0}
    → Provider
    → Result E (Option Reservation)
    → Result E Response
    → Result E Response × List Record
post p (err e) sent = (err e, [])
post p (ok r) (err e) = (err e, record_usage r none)
post p (ok r) (ok response) = (ok response, record_usage r (posted_usage p r response))

-- What the body of a `stream` block does: the lines that it reads, how it stops, whether the block
-- or the exit of the stream below it raises, and whether its task was cancelled meanwhile.
pub record Body : Type 0 where
  pub lines : List String
  pub reading : Reading
  pub raises : Bool
  pub cancelled : Bool

module _ (T : Texts) where
  -- The proxy behind the body.
  pub consumed : Provider → Reservation → Body → MeteredResponse
  consumed p r b = aiter_lines T b.lines b.reading (new_response (endpoint_of r) p)

  -- The usage that `stream` collects.
  pub streamed_usage : Provider → Option Reservation → ℕ → Body → Option NormalizedUsage
  streamed_usage p none status b = none
  streamed_usage p (some r) status b =
      if b.raises || b.cancelled then none else collected_usage status (consumed p r b)

  -- The records of `stream`: none when it is not admitted, and the stream below may fail to open.
  pub stream :
      {E : Type 0} → Provider → Result E (Option Reservation) → Result E ℕ → Body → List Record
  stream p (err e) opened b = []
  stream p (ok r) (err e) b = record_usage r none
  stream p (ok r) (ok status) b = record_usage r (streamed_usage p r status b)
