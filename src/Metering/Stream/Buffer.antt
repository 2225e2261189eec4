-- ===== src/Metering/Stream/Buffer.antt =====
-- The buffer of _StreamUsage (openai_compatible_bridge/core/metered_http.py) is bounded.
use openai_compatible_bridge.Prelude.{
  ℕ, ◌+◌, ◌*◌, ◌≤◌, ◌≡◌, refl, sym, ap, ◌∙◌, Option, none, some, String, List, [], ◌∷◌, ◌++◌, arith,
  ltb, by_branches, by_option, is_empty, not, ◌||◌, str_eq,
}
use openai_compatible_bridge.Json.{
  Value, null, bool, int, float, str, list, dict, Fields, get, is_null, is_text, object,
}
use text.Mathlib.Text.{starts_with}
use openai_compatible_bridge.Usage.{Endpoint, Provider, is_error}
use openai_compatible_bridge.Metering.Stream.{
  Texts, max_bytes, StreamUsage, new_stream, discard, observed, or_discard, observe_incomplete,
  observe_event, observe, observe_text, finish, append_data, feed_data, feed_short, feed_sized,
  feed_line, feed_lines, is_ignored,
}

-- The bytes of the buffered lines, each with its line feed; a line that cannot be encoded is never
-- buffered.
module _ (T : Texts) where
  pub size_of : List String → ℕ
  size_of [] = 0
  size_of (x ∷ xs) = elim (T.encoded_size x) [ none ↦ 0 | some n ↦ n + 1 ] + size_of xs

  size_of-snoc :
      (xs : List String) (x : String) (n : ℕ)
      → T.encoded_size x ≡ some n
      → size_of (xs ++ x ∷ []) ≡ size_of xs + (n + 1)
  unfolding size_of
  size_of-snoc [] x n h = ground (arith, h)
  size_of-snoc (y ∷ ys) x n h = ground (arith, size_of-snoc ys x n h)

  -- The count is that of the buffer, and within the limit.
  pub record IsBounded (s : StreamUsage) : Type 0 where
    pub counted : s.buffered_bytes ≡ size_of s.data_lines
    pub bounded : s.buffered_bytes ≤ max_bytes

  same-IsBounded :
      (s s' : StreamUsage)
      → s'.data_lines ≡ s.data_lines
      → s'.buffered_bytes ≡ s.buffered_bytes
      → IsBounded s
      → IsBounded s'
  same-IsBounded s s' l n b = record {
    counted = n ∙ b.counted ∙ ap size_of (sym l);
    bounded = rw n b.bounded;
  }

  discard-IsBounded : (s : StreamUsage) → IsBounded (discard s)
  unfolding discard size_of
  discard-IsBounded s = record { counted = refl; bounded = omega arith }

  or_discard-IsBounded : (s : StreamUsage) → IsBounded s → IsBounded (or_discard s)
  unfolding or_discard
  or_discard-IsBounded s b = by_option IsBounded s.last_usage (λ n. discard-IsBounded s) (λ u e. b)

  observed-IsBounded : (v : Value) (s : StreamUsage) → IsBounded s → IsBounded (observed v s)
  unfolding observed
  observed-IsBounded v s b = same-IsBounded s (observed v s) refl refl b

  observe_event-IsBounded :
      (d : Fields) (s : StreamUsage) → IsBounded s → IsBounded (observe_event d s)
  unfolding observe_event observed
  observe_event-IsBounded d s b =
      same-IsBounded s (observe_event d s) (ground arith) (ground arith) b

  observe_incomplete-IsBounded :
      (d : Fields) (s : StreamUsage) → IsBounded s → IsBounded (observe_incomplete d s)
  unfolding observe_incomplete
  observe_incomplete-IsBounded d s b =
      let response = object (get "response" d) in
      by_branches IsBounded
        (not (is_null (get "error" d))
          || (not (is_null (get "error" response))
              || not (is_text "incomplete" (get "status" response))))
        (λ e. discard-IsBounded s) (λ e. or_discard-IsBounded _ (observed-IsBounded _ s b))

  observe-IsBounded : (v : Value) (s : StreamUsage) → IsBounded s → IsBounded (observe v s)
  unfolding observe
  observe-IsBounded (dict d) s b =
      by_branches IsBounded (is_text "response.incomplete" (get "type" d))
        (λ e. observe_incomplete-IsBounded d s b)
        (λ e.
          by_branches IsBounded (is_error d) (λ e. discard-IsBounded s)
            (λ e. observe_event-IsBounded d s b))
  observe-IsBounded null s b = discard-IsBounded s
  observe-IsBounded (bool x) s b = discard-IsBounded s
  observe-IsBounded (int x) s b = discard-IsBounded s
  observe-IsBounded (float x) s b = discard-IsBounded s
  observe-IsBounded (str x) s b = discard-IsBounded s
  observe-IsBounded (list x) s b = discard-IsBounded s

  observe_text-IsBounded :
      (text : String) (s : StreamUsage) → IsBounded s → IsBounded (observe_text T text s)
  unfolding observe_text
  observe_text-IsBounded text s b =
      by_option IsBounded (T.loads text) (λ e. discard-IsBounded s) (λ v e. observe-IsBounded v s b)

  finish-IsBounded : (s : StreamUsage) → IsBounded s → IsBounded (finish T s)
  unfolding finish size_of
  finish-IsBounded s b =
      by_branches IsBounded (is_empty s.data_lines) (λ e. b)
        (λ e. observe_text-IsBounded _ _ (record { counted = refl; bounded = omega arith }))

  append_data-IsBounded :
      (content : String) (size : Option ℕ) (s : StreamUsage)
      → T.encoded_size content ≡ size
      → IsBounded s
      → IsBounded (append_data T content size s)
  unfolding append_data
  append_data-IsBounded content none s h b = discard-IsBounded s
  append_data-IsBounded content (some n) s h b =
      by_branches IsBounded (ltb max_bytes (s.buffered_bytes + (n + 1))) (λ e. discard-IsBounded s)
        (λ e. record {
          counted = ap (λ k. k + (n + 1)) b.counted ∙ sym (size_of-snoc s.data_lines content n h);
          bounded = ground (arith, e);
        })

  feed_data-IsBounded :
      (content : String) (s : StreamUsage) → IsBounded s → IsBounded (feed_data T content s)
  unfolding feed_data
  feed_data-IsBounded content s b =
      by_branches IsBounded (str_eq (T.strip content) "[DONE]")
        (λ e. same-IsBounded (finish T s) _ refl refl (finish-IsBounded s b))
        (λ e. append_data-IsBounded content (T.encoded_size content) s refl b)

  feed_short-IsBounded :
      (line : String) (s : StreamUsage) → IsBounded s → IsBounded (feed_short T line s)
  unfolding feed_short
  feed_short-IsBounded line s b =
      by_branches IsBounded (str_eq line "") (λ e. finish-IsBounded s b)
        (λ e.
          by_branches IsBounded (starts_with line "data:") (λ e. feed_data-IsBounded _ s b)
            (λ e.
              by_branches IsBounded (is_ignored T line) (λ e. b)
                (λ e.
                  by_branches IsBounded
                    (starts_with (T.lstrip line) "{" || starts_with (T.lstrip line) "[")
                    (λ e. observe_text-IsBounded line _ (finish-IsBounded s b))
                    (λ e. discard-IsBounded s))))

  feed_sized-IsBounded :
      (line : String) (size : Option ℕ) (s : StreamUsage)
      → IsBounded s
      → IsBounded (feed_sized T line size s)
  unfolding feed_sized
  feed_sized-IsBounded line none s b = discard-IsBounded s
  feed_sized-IsBounded line (some n) s b =
      by_branches IsBounded (ltb max_bytes n) (λ e. discard-IsBounded s)
        (λ e. feed_short-IsBounded line s b)

  feed_line-IsBounded :
      (line : String) (s : StreamUsage) → IsBounded s → IsBounded (feed_line T line s)
  unfolding feed_line
  feed_line-IsBounded line s b =
      by_branches IsBounded s.invalid (λ e. b)
        (λ e.
          by_branches IsBounded (ltb max_bytes (T.len line)) (λ e. discard-IsBounded s)
            (λ e. feed_sized-IsBounded line (T.encoded_size line) s b))

  feed_lines-IsBounded :
      (lines : List String) (s : StreamUsage) → IsBounded s → IsBounded (feed_lines T lines s)
  unfolding feed_lines
  feed_lines-IsBounded [] s b = b
  feed_lines-IsBounded (line ∷ lines) s b =
      feed_lines-IsBounded lines (feed_line T line s) (feed_line-IsBounded line s b)

  -- After any lines, the buffer's byte count is that of the lines it holds, each with its line feed,
  -- and it is at most 64 KiB.
  pub feed_lines_bounded :
      (e : Endpoint) (p : Provider) (lines : List String)
      → ((feed_lines T lines (new_stream e p)).buffered_bytes
          ≡ size_of (feed_lines T lines (new_stream e p)).data_lines)
        × ((feed_lines T lines (new_stream e p)).buffered_bytes ≤ 64 * 1024)
  unfolding size_of
  feed_lines_bounded e p lines =
      let b =
        feed_lines-IsBounded lines (new_stream e p)
          (record { counted = refl; bounded = omega arith }) in
      (b.counted, b.bounded)
