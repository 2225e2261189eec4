-- ===== src/Metering/Stream/Discard.antt =====
-- A _StreamUsage that has discarded its observation (openai_compatible_bridge/core/metered_http.py)
-- reports no usage any more.
use openai_compatible_bridge.Prelude.{
  ℕ, ◌*◌, ◌≡◌, ◌<◌, refl, ap, ◌∙◌, true, none, some, String, List, [], ◌∷◌, ◌++◌, arith,
  by_branches, by_option, is_empty,
}
use openai_compatible_bridge.Json.{
  Value, null, bool, int, float, str, list, dict, Fields, get, object,
}
use openai_compatible_bridge.Metering.Stream.{
  Texts, max_bytes, with_usage, StreamUsage, usage, discard, observed, or_discard,
  observe_incomplete, observe_event, observe, observe_text, finish, feed_sized, feed_line,
  feed_lines,
}

abbrev Gone : StreamUsage → Type 0
Gone s = s.invalid ≡ true

or_discard-invalid : (s : StreamUsage) → s.invalid ≡ true → (or_discard s).invalid ≡ true
unfolding or_discard discard
or_discard-invalid s h = ground (arith, h)

observe_incomplete-invalid :
    (d : Fields) (s : StreamUsage) → s.invalid ≡ true → (observe_incomplete d s).invalid ≡ true
unfolding observe_incomplete discard observed
observe_incomplete-invalid d s h = ground (
  arith,
  h,
  or_discard-invalid (observed (with_usage (get "usage" (object (get "response" d)))) s) h,
)

observe_event-invalid : (d : Fields) (s : StreamUsage) → (observe_event d s).invalid ≡ s.invalid
unfolding observe_event observed
observe_event-invalid d s = ground arith

observe-invalid : (v : Value) (s : StreamUsage) → s.invalid ≡ true → (observe v s).invalid ≡ true
unfolding observe discard
observe-invalid (dict d) s h =
    ground (arith, h, observe_incomplete-invalid d s h, observe_event-invalid d s)
observe-invalid null s h = refl
observe-invalid (bool x) s h = refl
observe-invalid (int x) s h = refl
observe-invalid (float x) s h = refl
observe-invalid (str x) s h = refl
observe-invalid (list x) s h = refl

module _ (T : Texts) where
  observe_text-invalid :
      (text : String) (s : StreamUsage) → s.invalid ≡ true → (observe_text T text s).invalid ≡ true
  unfolding observe_text discard
  observe_text-invalid text s h =
      by_option Gone (T.loads text) (λ e. refl) (λ v e. observe-invalid v s h)

  pub finish-invalid : (s : StreamUsage) → s.invalid ≡ true → (finish T s).invalid ≡ true
  unfolding finish
  finish-invalid s h =
      by_branches Gone (is_empty s.data_lines) (λ e. h) (λ e. observe_text-invalid _ _ h)

  feed_lines-invalid :
      (lines : List String) (s : StreamUsage) → s.invalid ≡ true → feed_lines T lines s ≡ s
  unfolding feed_lines feed_line
  feed_lines-invalid [] s h = refl
  feed_lines-invalid (line ∷ lines) s h =
      ap (feed_lines T lines) (by_branches (λ x. x ≡ s) s.invalid (λ e. refl) (λ e. cc))
      ∙ feed_lines-invalid lines s h

  feed_lines-append :
      (before after : List String) (s : StreamUsage)
      → feed_lines T (before ++ after) s ≡ feed_lines T after (feed_lines T before s)
  unfolding feed_lines
  feed_lines-append [] after s = refl
  feed_lines-append (line ∷ before) after s = feed_lines-append before after (feed_line T line s)

  feed_line-too_long :
      (line : String) (n : ℕ) (s : StreamUsage)
      → T.encoded_size line ≡ some n
      → max_bytes < n
      → (feed_line T line s).invalid ≡ true
  unfolding feed_line feed_sized discard
  feed_line-too_long line n s h k = ground (arith, h, k)

  -- A line of more than 64 KiB takes the usage away, whatever lines came before it and come after
  -- it, and also once the buffered event is finished.
  too_long_discards :
      (before after : List String) (line : String) (n : ℕ) (s : StreamUsage)
      → T.encoded_size line ≡ some n
      → 64 * 1024 < n
      → usage (finish T (feed_lines T (before ++ line ∷ after) s)) ≡ none
  unfolding usage feed_lines
  too_long_discards before after line n s h k =
      let long = feed_line-too_long line n (feed_lines T before s) h k in
      let same = feed_lines-append before (line ∷ after) s ∙ feed_lines-invalid after _ long in
      let gone : Gone (finish T (feed_lines T (before ++ line ∷ after) s)) =
        finish-invalid _ (ap (λ x. x.invalid) same ∙ long) in
      by_branches (λ u. u ≡ none) (finish T (feed_lines T (before ++ line ∷ after) s)).invalid
        (λ e. refl) (λ e. cc)
