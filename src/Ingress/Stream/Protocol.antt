-- ===== src/Ingress/Stream/Protocol.antt =====
-- The order that the Anthropic format asks of a stream's events, as an automaton, and which streams
-- keep it.
use openai_compatible_bridge.Prelude.{
  ℕ, suc, Bool, true, false, ◌||◌, Option, none, some, String, List, [], ◌∷◌, ◌++◌, if◌then◌else◌,
  ◌≡◌, refl, sym, ap, ◌∙◌, arith, ◌==◌, some_inj,
}
use openai_compatible_bridge.Prelude.Maybe.{◌>>=◌}
use openai_compatible_bridge.Prelude.Int.{ℤ}
use mathlib.Core.List.{append_assoc}
use openai_compatible_bridge.Ingress.Stream.{
  Block, text_block, tool_use, StopReason, Sse, message_start, content_block_start, text_delta,
  input_json_delta, content_block_stop, message_delta, message_stop, Buffers, ProviderEvent,
  StreamState, new_stream_state, ensure_start, Builtins, is_text_delta, feed, tool_block,
  tool_blocks, stop_reason_of, token_counts, finish, feed_all, stream,
}

-- Where a message stands: before its start, between two blocks with the number of the next, inside
-- of a block of either kind, behind its last block, at its end.
pub data Phase : Type 0 where
  ahead : Phase
  between : ℕ → Phase
  in_text : ℕ → Phase
  in_tool : ℕ → Phase
  ending : Phase
  over : Phase

abbrev opened : ℕ → Block → Phase
opened n text_block = in_text n
opened n (tool_use id name) = in_tool n

-- The phase after an event, or None where the event may not stand.
unfoldable pub advance : Phase → Sse → Option Phase
advance ahead message_start = some (between 0)
advance (between n) (content_block_start m block) = if n == m then some (opened n block) else none
advance (between n) (message_delta reason input output) = some ending
advance (in_text n) (text_delta m text) = if n == m then some (in_text n) else none
advance (in_text n) (content_block_stop m) = if n == m then some (between (suc n)) else none
advance (in_tool n) (input_json_delta m json) = if n == m then some (in_tool n) else none
advance (in_tool n) (content_block_stop m) = if n == m then some (between (suc n)) else none
advance ending message_stop = some over
advance phase event = none

unfoldable pub advance_all : Phase → List Sse → Option Phase
advance_all phase [] = some phase
advance_all phase (event ∷ events) = advance phase event >>= λ next. advance_all next events

abbrev is_over : Option Phase → Bool
is_over (some over) = true
is_over _ = false

-- The stream is a whole message.
unfoldable pub is_message : List Sse → Bool
is_message events = is_over (advance_all ahead events)

-- Some event brings text.
unfoldable pub any_text : List ProviderEvent → Bool
any_text [] = false
any_text (event ∷ events) = is_text_delta event || any_text events

advance_all-append :
    (phase : Phase) (xs ys : List Sse)
    → advance_all phase (xs ++ ys) ≡ (advance_all phase xs >>= λ next. advance_all next ys)
unfolding advance_all
advance_all-append phase [] ys = refl
advance_all-append phase (x ∷ xs) ys =
    then_all (advance phase x) (λ next. advance_all next (xs ++ ys)) _
      (λ next. advance_all-append next xs ys)
  where
    then_all :
        (first : Option Phase) (f g : Phase → Option Phase)
        → ((next : Phase) → f next ≡ (g next >>= λ next. advance_all next ys))
        → (first >>= f) ≡ ((first >>= g) >>= λ next. advance_all next ys)
    then_all none f g h = refl
    then_all (some next) f g h = h next

or_if : (b any open_ : Bool) → (any || (if b then true else open_)) ≡ ((b || any) || open_)
or_if true true open_ = refl
or_if true false open_ = refl
or_if false true open_ = refl
or_if false false open_ = refl

or_nothing : (b : Bool) → (b || false) ≡ b
or_nothing true = refl
or_nothing false = refl

eq_self : (n : ℕ) → (n == n) ≡ true
eq_self n = ground arith

-- Where a state stands between two calls.
abbrev stands : StreamState → Phase
stands s = if s.started then in_text 0 else ahead

ensure_start-advance_all :
    (started : Bool) (rest : List Sse)
    → advance_all (if started then in_text 0 else ahead) (ensure_start started ++ rest)
      ≡ advance_all (in_text 0) rest
unfolding advance_all advance ensure_start
ensure_start-advance_all true rest = refl
ensure_start-advance_all false rest = refl

ends : StopReason → ℤ → ℤ → List Sse
ends reason input output = message_delta reason input output ∷ message_stop ∷ []

module _ (builtins : Builtins) (toolu_stream : ℤ → String) where
  tool_blocks-over :
      (n : ℕ) (buffers : Buffers) (reason : StopReason) (input output : ℤ)
      → advance_all
          (between n)
          (tool_blocks builtins toolu_stream n buffers ++ ends reason input output)
        ≡ some over
  unfolding tool_blocks tool_block advance_all advance ends
  tool_blocks-over n [] reason input output = refl
  tool_blocks-over n (b ∷ bs) reason input output =
      rw (eq_self n)
        (rw (eq_self n) (rw (eq_self n) (tool_blocks-over (suc n) bs reason input output)))

  tool_blocks-unclosed :
      (n m : ℕ) (buffers : Buffers) (reason : StopReason) (input output : ℤ)
      → advance_all
          (in_text m)
          (tool_blocks builtins toolu_stream n buffers ++ ends reason input output)
        ≡ none
  unfolding tool_blocks tool_block advance_all advance ends
  tool_blocks-unclosed n m [] reason input output = refl
  tool_blocks-unclosed n m (b ∷ bs) reason input output = refl

  -- The end of a message is one exactly if the text block is closed first.
  tail-advance_all :
      (open_ : Bool) (buffers : Buffers) (reason : StopReason) (input output : ℤ)
      → is_over (
          advance_all (in_text 0) (
            (if open_ then content_block_stop 0 ∷ [] else [])
            ++ (tool_blocks builtins toolu_stream 1 buffers ++ ends reason input output)))
        ≡ open_
  unfolding advance_all advance
  tail-advance_all true buffers reason input output =
      ap is_over (tool_blocks-over 1 buffers reason input output)
  tail-advance_all false buffers reason input output =
      ap is_over (tool_blocks-unclosed 1 0 buffers reason input output)

  feed-advance_all :
      (s : StreamState) (event : ProviderEvent)
      → advance_all (stands s) (feed builtins s event).0 ≡ some (in_text 0)
  unfolding feed advance_all advance
  feed-advance_all s event = ensure_start-advance_all s.started _ ∙ delta (is_text_delta event)
    where
      delta :
          (b : Bool)
          → advance_all (in_text 0) (if b then text_delta 0 event.delta_text ∷ [] else [])
            ≡ some (in_text 0)
      delta true = refl
      delta false = refl

  feed_all-advance_all :
      (s : StreamState) (events : List ProviderEvent)
      → advance_all (stands s) (feed_all builtins s events).0
        ≡ some (stands (feed_all builtins s events).1)
  unfolding feed_all feed advance_all
  feed_all-advance_all s [] = refl
  feed_all-advance_all s (event ∷ events) =
      advance_all-append (stands s) (feed builtins s event).0
        (feed_all builtins (feed builtins s event).1 events).0
      ∙ rw (feed-advance_all s event) (feed_all-advance_all (feed builtins s event).1 events)

  -- The text block is open as soon as some event brought text.
  feed_all-text_open :
      (s : StreamState) (events : List ProviderEvent)
      → (feed_all builtins s events).1.text_open ≡ (any_text events || s.text_open)
  unfolding feed_all any_text feed
  feed_all-text_open s [] = refl
  feed_all-text_open s (event ∷ events) =
      feed_all-text_open (feed builtins s event).1 events
      ∙ or_if (is_text_delta event) (any_text events) s.text_open

  ended :
      (s : StreamState) (reason : StopReason) (input output : ℤ)
      → is_over (
          advance_all (stands s) (
            ensure_start s.started
            ++ (if s.text_open then content_block_stop 0 ∷ [] else [])
            ++ tool_blocks builtins toolu_stream 1 s.tool_buffers
            ++ ends reason input output))
        ≡ s.text_open
  ended s reason input output =
      ap (λ events. is_over (advance_all (stands s) events))
        (append_assoc (ensure_start s.started ++ _) _ _ ∙ append_assoc (ensure_start s.started) _ _)
      ∙ ap is_over (ensure_start-advance_all s.started _)
      ∙ tail-advance_all s.text_open s.tool_buffers reason input output

  finish-advance_all :
      (s : StreamState) (prompt_tokens : ℕ) (completion_text : String) (events : List Sse)
      → finish builtins toolu_stream s prompt_tokens completion_text ≡ some events
      → is_over (advance_all (stands s) events) ≡ s.text_open
  unfolding finish ends
  finish-advance_all s prompt_tokens completion_text events h =
      counted (token_counts builtins s.usage prompt_tokens completion_text) h
    where
      counted :
          (counts : Option (ℤ × ℤ))
          → (counts >>= λ counts. some (
              ensure_start s.started
              ++ (if s.text_open then content_block_stop 0 ∷ [] else [])
              ++ tool_blocks builtins toolu_stream 1 s.tool_buffers
              ++ ends (stop_reason_of builtins s.finish_reason) counts.0 counts.1))
            ≡ some events
          → is_over (advance_all (stands s) events) ≡ s.text_open
      counted none e = cc
      counted (some counts) e =
          ap (λ events. is_over (advance_all (stands s) events)) (sym (some_inj e))
          ∙ ended s (stop_reason_of builtins s.finish_reason) counts.0 counts.1

  -- A stream is a whole message, in the order that the format asks for, exactly if some event of the
  -- provider brings text. Without text the first block, which is opened at once, is never closed,
  -- whatever tools are called.
  pub stream-is_message :
      (events : List ProviderEvent) (prompt_tokens : ℕ) (completion_text : String) (out : List Sse)
      → stream builtins toolu_stream events prompt_tokens completion_text ≡ some out
      → is_message out ≡ any_text events
  unfolding stream is_message
  stream-is_message events prompt_tokens completion_text out h =
      yielded (finish builtins toolu_stream fed.1 prompt_tokens completion_text) refl h
    where
      fed : List Sse × StreamState
      fed = feed_all builtins new_stream_state events

      yielded :
          (tail : Option (List Sse))
          → finish builtins toolu_stream fed.1 prompt_tokens completion_text ≡ tail
          → (tail >>= λ tail. some (fed.0 ++ tail)) ≡ some out
          → is_over (advance_all ahead out) ≡ any_text events
      yielded none f e = cc
      yielded (some tail) f e =
          ap (λ events. is_over (advance_all ahead events)) (sym (some_inj e))
          ∙ ap is_over (advance_all-append ahead fed.0 tail)
          ∙ ap (λ (next : Option Phase). is_over (next >>= λ next. advance_all next tail))
              (feed_all-advance_all new_stream_state events)
          ∙ finish-advance_all fed.1 prompt_tokens completion_text tail f
          ∙ feed_all-text_open new_stream_state events
          ∙ or_nothing (any_text events)
