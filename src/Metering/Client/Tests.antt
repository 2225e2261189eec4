-- ===== src/Metering/Client/Tests.antt =====
-- Attempts of the metered client (openai_compatible_bridge/core/metered_http.py), and the instances
-- of the theorems about its streams.
use openai_compatible_bridge.Prelude.{
  ℕ, ◌*◌, ◌≤◌, ◌≡◌, false, Option, some, String, List, [], ◌∷◌, map, str_eq, if◌then◌else◌,
}
use openai_compatible_bridge.Prelude.Int.{pos}
use openai_compatible_bridge.Prelude.Result.{Result, ok, err}
use openai_compatible_bridge.Json.{int, dict, end, field}
use openai_compatible_bridge.Usage.{NormalizedUsage, no_usage, rerank, vertex}
use openai_compatible_bridge.Cost.Gate.{Reservation}
use openai_compatible_bridge.Metering.Stream.{Texts, new_stream, feed_lines}
use openai_compatible_bridge.Metering.Stream.Buffer.{size_of, feed_lines_bounded}
use openai_compatible_bridge.Metering.Client.{exhausted, post, Body, stream}
use openai_compatible_bridge.Metering.Client.Records.{admitted, recorded_once}

-- The text operations on the lines of the tests.
abbrev texts : Texts
texts = record {
  len = λ line. 9;
  encoded_size = λ line. some (if str_eq line "long" then 70000 else 9);
  strip = λ line. line;
  lstrip = λ line. line;
  without_first = λ n line. if str_eq line "data:{}" then "{}" else "[DONE]";
  join_lines = λ lines. "{}";
  loads = λ text. some (dict (field "usage" (dict (field "rerank_units" (int (pos 7)) end)) end));
}

abbrev answer_lines : List String
answer_lines = "data:{}" ∷ "" ∷ "data: [DONE]" ∷ []

abbrev body : Body
body = record { lines = answer_lines; reading = exhausted; raises = false; cancelled = false }

abbrev reservation : Reservation
reservation = record {
  reservation_id = 1;
  internal_request_id = 1;
  provider = some "vertex";
  endpoint = "rerank";
  model = "m";
  forecast_cost_usd = 80;
  currency = "USD";
  pricing_source = "list";
  pricing_version = "1";
  window_started_at = 0;
  created_at = 0;
}

abbrev counted : NormalizedUsage
counted = record no_usage { rerank_units = 7 }

abbrev admission : Result String (Option Reservation)
admission = ok (some reservation)

abbrev opening : Result String ℕ
opening = ok 200

recorded_once_example :
    (map (λ x. x.0) (post vertex admission (err "broken")).1 ≡ admitted admission)
    × (map (λ x. x.0) (stream texts vertex admission opening body) ≡ admitted admission)
recorded_once_example = recorded_once texts vertex admission (err "broken") opening body

feed_lines_bounded_example :
    ((feed_lines texts answer_lines (new_stream rerank vertex)).buffered_bytes
      ≡ size_of texts (feed_lines texts answer_lines (new_stream rerank vertex)).data_lines)
    × ((feed_lines texts answer_lines (new_stream rerank vertex)).buffered_bytes ≤ 64 * 1024)
feed_lines_bounded_example = feed_lines_bounded texts rerank vertex answer_lines
