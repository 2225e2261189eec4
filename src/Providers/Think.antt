-- ===== src/Providers/Think.antt =====
-- The filter that takes the `<think>…</think>` blocks out of a text that arrives in pieces:
-- `_ThinkBlockStripper` and its helpers in openai_compatible_bridge/providers/ollama.py. A text is
-- the list of its code points.
mod Find
mod Pending
mod Scan
pub mod Feed
mod Tests
use openai_compatible_bridge.Prelude.{
  ℕ, zero, suc, ◌+◌, ◌-◌, Bool, true, false, ◌&&◌, Option, none, some, List, [], ◌∷◌, ◌++◌,
  if◌then◌else◌, ◌==◌, length, is_empty, take, drop, last, min, ◌≡◌, refl,
}
use openai_compatible_bridge.Prelude.Bytes.{codes, same_bytes}
use openai_compatible_bridge.Prelude.Maybe.{◌>>=◌}

-- `text[-size:] == token[:size]` for the greatest size up to `n`; the `for` loop counts down.
unfoldable pub matching_len_from : ℕ → List ℕ → List ℕ → ℕ
matching_len_from zero text token = 0
matching_len_from (suc n) text token =
    let rest = matching_len_from n text token in
    if same_bytes (last (suc n) text) (take (suc n) token) then suc n else rest

-- `_matching_suffix_prefix_len`
unfoldable pub matching_len : List ℕ → List ℕ → ℕ
matching_len text token = matching_len_from (min (length text) (length token - 1)) text token

abbrev pub begins_with : List ℕ → List ℕ → Bool
begins_with [] text = true
begins_with (t ∷ token) [] = false
begins_with (t ∷ token) (c ∷ text) = t == c && begins_with token text

abbrev pub before_too : ℕ → Option (List ℕ × List ℕ) → Option (List ℕ × List ℕ)
before_too c none = none
before_too c (some parts) = some (c ∷ parts.0, parts.1)

-- `data.find(token, cursor)`, as what stands between the cursor and the token and what stands
-- behind it.
unfoldable pub find : List ℕ → List ℕ → Option (List ℕ × List ℕ)
find token [] = none
find token (c ∷ text) =
    let rest = find token text in
    if begins_with token (c ∷ text)
    then some ([], drop (length token) (c ∷ text))
    else before_too c rest

abbrev pub start_tag : List ℕ
start_tag = codes "<think>"

abbrev pub end_tag : List ℕ
end_tag = codes "</think>"

pub record Stripper : Type 0 where
  pub inside_think : Bool
  pub pending : List ℕ

-- `__init__`
abbrev pub new : Stripper
new = record { inside_think = false; pending = [] }

abbrev pub Step : Type 0
Step = List ℕ × Stripper

abbrev pub shown_too : List ℕ → Option Step → Option Step
shown_too shown none = none
shown_too shown (some out) = some (shown ++ out.0, out.1)

-- The `while cursor < len(data)` loop, on `data[cursor:]`.
unfoldable pub scan : ℕ → Bool → List ℕ → Option Step
scan zero inside rest = none
scan (suc fuel) inside [] = some ([], record { inside_think = inside; pending = [] })
scan (suc fuel) true (c ∷ text) = elim (find end_tag (c ∷ text)) [
  | none ↦
      let size = matching_len (c ∷ text) end_tag in
      some ([], record { inside_think = true; pending = last size (c ∷ text) })
  | some parts ↦ scan fuel false parts.1
]
scan (suc fuel) false (c ∷ text) = elim (find start_tag (c ∷ text)) [
  | none ↦
      let size = matching_len (c ∷ text) start_tag in
      let emit_end = length (c ∷ text) - size in
      some
        (take emit_end (c ∷ text), record { inside_think = false; pending = last size (c ∷ text) })
  | some parts ↦ shown_too parts.0 (scan fuel true parts.1)
]

-- `feed`: the visible text, and the filter afterwards.
unfoldable pub feed : Stripper → List ℕ → Option Step
feed stripper [] = some ([], stripper)
feed stripper (c ∷ text) =
    let data_ = stripper.pending ++ c ∷ text in
    scan (suc (length data_)) stripper.inside_think data_

-- `finish`
unfoldable pub finish : Stripper → Step
finish stripper =
    if stripper.inside_think
    then ([], record stripper { pending = [] })
    else (stripper.pending, record stripper { pending = [] })

-- The pieces of a stream, one `feed` each.
unfoldable pub feed_all : Stripper → List (List ℕ) → Option Step
feed_all stripper [] = some ([], stripper)
feed_all stripper (piece ∷ pieces) =
    feed stripper piece >>= λ out. shown_too out.0 (feed_all out.1 pieces)

-- All that a stream shows: every `feed`, and `finish` at its end.
unfoldable pub shown : List (List ℕ) → Option (List ℕ)
shown pieces = feed_all new pieces >>= λ out. some (out.0 ++ (finish out.1).0)

-- `_strip_think_blocks`
unfoldable pub strip_think_blocks : List ℕ → Option (List ℕ)
strip_think_blocks text = feed new text >>= λ out. some (out.0 ++ (finish out.1).0)

-- An independent description: one pass over the whole text, in which `skip` counts the characters of
-- a tag that are still to be passed over.
unfoldable pub visible : ℕ → Bool → List ℕ → List ℕ
visible skip inside [] = []
visible (suc skip) inside (c ∷ text) = visible skip inside text
visible zero true (c ∷ text) =
    let out = visible (length end_tag - 1) false text in
    let in_ = visible zero true text in if begins_with end_tag (c ∷ text) then out else in_
visible zero false (c ∷ text) =
    let in_ = visible (length start_tag - 1) true text in
    let out = visible zero false text in if begins_with start_tag (c ∷ text) then in_ else c ∷ out
