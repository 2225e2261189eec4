-- ===== src/Embedding/Retry/Tests.antt =====
-- Runs of the retry policy over whole numbers of milliseconds, and the instances of its theorems.
use openai_compatible_bridge.Prelude.{
  ℕ, ◌+◌, ◌-◌, ◌*◌, ◌/◌, ◌^◌, ◌≤◌, ◌≡◌, refl, true, false, none, some, [], ◌∷◌, arith,
  if◌then◌else◌, ltb, leb, max,
}
use openai_compatible_bridge.Prelude.Int.{pos}
use openai_compatible_bridge.Embedding.Retry.{
  Floats, Response, RetryPolicy, RetryLimits, answered, Round, slot, acquire, release, send, close,
  sleep, returned, post, retryable, backoff, retry_loop, retry_after, after_send,
}
use openai_compatible_bridge.Embedding.Retry.Bounds.{
  sends, disciplined, post-sends, post-disciplined,
}

-- Milliseconds for durations; the jitter counts in thousandths, and every text reads as one second.
abbrev millis : Floats
millis = record {
  Seconds = ℕ;
  nought = 0;
  less = ltb;
  at_most = leb;
  is_finite = λ _. true;
  plus = λ a b. a + b;
  minus = λ a b. a - b;
  times = λ a b. a * b / 1000;
  power_of_two = λ n. 1000 * 2 ^ n;
  parse_float = λ _. some 1000;
  parse_date = λ _. none;
  parse_int = λ _. some (pos 4);
}

abbrev busy : Response
busy = record { status_code = 503; json = none; retry_after_header = some "1" }

abbrev fine : Response
fine = record { status_code = 200; json = none; retry_after_header = none }

abbrev policy : RetryPolicy millis
policy = record { max_attempts = pos 4; initial_delay = 1000; max_delay = 8000; timeout = 30000 }

-- The first retry is refused again, the second one succeeds.
abbrev rounds : ℕ → Round millis
rounds n = record {
  jitter = 1100;
  wall = 0;
  now = 100 + n * 5000;
  wait = slot (200 + n * 5000) (answered (if ltb n 1 then busy else fine));
}

recovers : post millis policy 0 rounds (some (answered busy)) ≡ (
  returned fine,
  acquire
      ∷ send
      ∷ release
      ∷ close
      ∷ sleep 1100
      ∷ acquire
      ∷ send
      ∷ release
      ∷ close
      ∷ sleep 2200
      ∷ acquire
      ∷ send
      ∷ release
      ∷ [],
)
unfolding post retry_loop backoff retryable retry_after after_send
recovers = refl

post-sends_example :
    (sends millis (post millis policy 0 rounds none).1 ≡ 0)
    × (1 ≤ sends millis (post millis policy 0 rounds (some (answered busy))).1)
    × (sends millis (post millis policy 0 rounds (some (answered busy))).1 ≤ max 1 4)
post-sends_example = post-sends millis policy 0 rounds (answered busy)

post-disciplined_example :
    disciplined millis false (post millis policy 0 rounds (some (answered busy))).1 ≡ true
post-disciplined_example = post-disciplined millis policy 0 rounds (some (answered busy))

ltb_irreflexive : (a : ℕ) → ltb a a ≡ false
ltb_irreflexive a = ground arith

abbrev limits : RetryLimits millis
limits = record {
  least_attempts = pos 1;
  most_attempts = pos 8;
  initial_least = 10;
  initial_most = 30000;
  max_least = 10;
  max_most = 60000;
  timeout_least = 100;
  timeout_most = 300000;
}

abbrev default_policy : RetryPolicy millis
default_policy = record {
  max_attempts = pos 4;
  initial_delay = 1000;
  max_delay = 1000;
  timeout = 1000;
}
