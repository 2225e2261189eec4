-- ===== src/Embedding/Retry/Bounds.antt =====
-- How often EmbeddingRetryPolicy.post (openai_compatible_bridge/core/embedding_resilience.py)
-- sends, when it sleeps and for how long, and when it holds the semaphore.
use openai_compatible_bridge.Prelude.{
  ℕ, zero, suc, ◌≤◌, ◌≡◌, refl, inl, inr, Bool, true, false, not, ◌&&◌, ◌||◌, Option, none, some,
  List, [], ◌∷◌, arith, Bool-cases, max,
}
use openai_compatible_bridge.Prelude.Int.{pos, pos_part, ◌-ℤ◌}
use openai_compatible_bridge.Embedding.Retry.{
  Floats, Response, retryable, retry_after, larger, RetryPolicy, Send, answered, Wait, slot, Round,
  Effect, acquire, release, send, close, sleep, Outcome, backoff, after_send, after_wait,
  retry_loop, after_first, first_send, post,
}

module _ (F : Floats) where
  open F use {Seconds, less, at_most, minus, plus}

  -- The number of sends.
  pub sends : List (Effect F) → ℕ
  sends [] = 0
  sends (send ∷ es) = suc (sends es)
  sends (_ ∷ es) = sends es

  -- The semaphore is acquired before each send and given back behind it, nothing sleeps while
  -- holding it, and it is free at the end.
  pub disciplined : Bool → List (Effect F) → Bool
  disciplined held [] = not held
  disciplined held (acquire ∷ es) = not held && disciplined true es
  disciplined held (release ∷ es) = held && disciplined false es
  disciplined held (send ∷ es) = held && disciplined held es
  disciplined held (close ∷ es) = disciplined held es
  disciplined held (sleep d ∷ es) = not held && disciplined held es

  module _ (p : RetryPolicy F) (deadline : Seconds) (rounds : ℕ → Round F) where
    after_wait-disciplined :
        (w : Wait F) (r : Response) (next : Response → Outcome F × List (Effect F))
        → ((r' : Response) → disciplined false (next r').1 ≡ true)
        → disciplined false (after_wait F deadline w r next).1 ≡ true
    unfolding after_wait after_send disciplined
    after_wait-disciplined Wait.expired r next h = refl
    after_wait-disciplined Wait.failed r next h = refl
    after_wait-disciplined (slot now Send.expired) r next h = ground arith
    after_wait-disciplined (slot now Send.failed) r next h = ground arith
    after_wait-disciplined (slot now (answered r')) r next h = ground (arith, h r')

    retry_loop-disciplined :
        (left retry : ℕ) (r : Response)
        → disciplined false (retry_loop F p deadline rounds left retry r).1 ≡ true
    unfolding retry_loop disciplined
    retry_loop-disciplined zero retry r = refl
    retry_loop-disciplined (suc left) retry r = ground (
      arith,
      after_wait-disciplined (rounds retry).wait r
          (λ (r' : Response). retry_loop F p deadline rounds left (suc retry) r')
          (λ r'. retry_loop-disciplined left (suc retry) r'),
    )

    after_wait-sends :
        (w : Wait F) (r : Response) (next : Response → Outcome F × List (Effect F)) (left : ℕ)
        → ((r' : Response) → sends (next r').1 ≤ left)
        → sends (after_wait F deadline w r next).1 ≤ suc left
    unfolding after_wait after_send sends
    after_wait-sends Wait.expired r next left h = omega arith
    after_wait-sends Wait.failed r next left h = omega arith
    after_wait-sends (slot now Send.expired) r next left h = ground arith
    after_wait-sends (slot now Send.failed) r next left h = ground arith
    after_wait-sends (slot now (answered r')) r next left h = ground (arith, h r')

    retry_loop-sends :
        (left retry : ℕ) (r : Response)
        → sends (retry_loop F p deadline rounds left retry r).1 ≤ left
    unfolding retry_loop sends
    retry_loop-sends zero retry r = omega arith
    retry_loop-sends (suc left) retry r = ground (
      arith,
      after_wait-sends (rounds retry).wait r
          (λ (r' : Response). retry_loop F p deadline rounds left (suc retry) r') left
          (λ r'. retry_loop-sends left (suc retry) r'),
    )

    -- Why a sleep of this length takes place.
    pub record Justified (d : Seconds) : Type 0 where
      pub number : ℕ
      pub response : Response
      pub was_retryable : retryable response ≡ true
      pub in_budget : at_most (minus deadline (rounds number).now) d ≡ false
      pub not_early : less d (retry_after F (rounds number).wall response) ≡ false

    -- Each sleep has its reason.
    pub Sleeps : List (Effect F) → Type 0
    Sleeps [] = Unit
    Sleeps (sleep d ∷ es) = Justified d × Sleeps es
    Sleeps (_ ∷ es) = Sleeps es

    after_wait-Sleeps :
        (w : Wait F) (r : Response) (next : Response → Outcome F × List (Effect F))
        → ((r' : Response) → Sleeps (next r').1)
        → Sleeps (after_wait F deadline w r next).1
    unfolding after_wait after_send Sleeps
    after_wait-Sleeps Wait.expired r next h = tt
    after_wait-Sleeps Wait.failed r next h = tt
    after_wait-Sleeps (slot now s) r next h = elim (Bool-cases (at_most deadline now)) [
      | inl e ↦ rw e tt
      | inr e ↦ rw e (replied s)
    ]
      where
        replied : (s : Send F) → Sleeps (after_send F s r next).1
        replied Send.expired = tt
        replied Send.failed = tt
        replied (answered r') = h r'

    module _ (irreflexive : (a : Seconds) → less a a ≡ false) where
      larger-not_less : (a b : Seconds) → less (larger F a b) b ≡ false
      unfolding larger
      larger-not_less a b = elim (Bool-cases (less a b)) [
        | inl e ↦ rw e (irreflexive b)
        | inr e ↦ rw e e
      ]

      backoff-not_early :
          (k : ℕ) (e : Round F) (r : Response)
          → less (backoff F p k e r) (retry_after F e.wall r) ≡ false
      unfolding backoff
      backoff-not_early k e r = larger-not_less _ (retry_after F e.wall r)

      retry_loop-Sleeps :
          (left retry : ℕ) (r : Response) → Sleeps (retry_loop F p deadline rounds left retry r).1
      unfolding retry_loop Sleeps
      retry_loop-Sleeps zero retry r = tt
      retry_loop-Sleeps (suc left) retry r =
          elim (Bool-cases (
            not (retryable r)
            || at_most (minus deadline (rounds retry).now) (backoff F p retry (rounds retry) r))) [
              | inl e ↦ rw e tt
              | inr e ↦ rw e (
                record {
                  number = retry;
                  response = r;
                  was_retryable = ground (arith, e);
                  in_budget = ground (arith, e);
                  not_early = backoff-not_early retry (rounds retry) r;
                },
                after_wait-Sleeps (rounds retry).wait r
                    (λ (r' : Response). retry_loop F p deadline rounds left (suc retry) r')
                    (λ r'. retry_loop-Sleeps left (suc retry) r'),
              )
            ]

  -- Where the wait for the first slot is cancelled, `post` does not send. Where the slot is had, `post`
  -- sends at least once and at most `max_attempts` times (once, where that is less than one), whatever
  -- the first send, the responses, the clocks and the failures are.
  pub post-sends :
      (p : RetryPolicy F) (start : Seconds) (rounds : ℕ → Round F) (first : Send F)
      → (sends (post F p start rounds none).1 ≡ 0)
        × (1 ≤ sends (post F p start rounds (some first)).1)
        × (sends (post F p start rounds (some first)).1 ≤ max 1 (pos_part p.max_attempts))
  unfolding post first_send after_first sends
  post-sends p start rounds Send.expired = (refl, omega arith, omega arith)
  post-sends p start rounds Send.failed = (refl, omega arith, omega arith)
  post-sends p start rounds (answered r) = (
    refl,
    omega arith,
    ground (
      arith,
      retry_loop-sends p (plus start p.timeout) rounds (pos_part (p.max_attempts -ℤ pos 1)) zero r,
    ),
  )

  -- `post` holds the semaphore for each of its sends and for no sleep, and gives it back in the
  -- end, whatever the waits, the responses, the clocks and the failures are.
  pub post-disciplined :
      (p : RetryPolicy F) (start : Seconds) (rounds : ℕ → Round F) (first : Option (Send F))
      → disciplined false (post F p start rounds first).1 ≡ true
  unfolding post first_send after_first disciplined
  post-disciplined p start rounds none = refl
  post-disciplined p start rounds (some Send.expired) = refl
  post-disciplined p start rounds (some Send.failed) = refl
  post-disciplined p start rounds (some (answered r)) =
      retry_loop-disciplined p (plus start p.timeout) rounds (pos_part (p.max_attempts -ℤ pos 1))
        zero r

  -- Where no float is less than itself, every sleep of `post` follows a retryable response, is not
  -- shorter than that response's Retry-After, and is shorter than what is left of the timeout.
  post-Sleeps :
      ((a : Seconds) → less a a ≡ false)
      → (p : RetryPolicy F) (start : Seconds) (rounds : ℕ → Round F) (r : Response)
      → Sleeps p (plus start p.timeout) rounds (post F p start rounds (some (answered r))).1
  unfolding post first_send after_first Sleeps
  post-Sleeps irreflexive p start rounds r =
      retry_loop-Sleeps p (plus start p.timeout) rounds irreflexive
        (pos_part (p.max_attempts -ℤ pos 1)) zero r
