-- ===== src/Transforms/Tests.antt =====
-- The identifier of a call, with suffixes that are strokes.
use Prim.Native.String.{◌++◌ as text_append}
use text.Mathlib.TextLemmas.{append_cancel_left}
use openai_compatible_bridge.Prelude.{
  ℕ, zero, suc, false, none, some, String, List, [], ◌∷◌, length, ◌≡◌, refl, sym, ap, ◌∙◌,
}
use openai_compatible_bridge.Prelude.Bytes.{codes}
use openai_compatible_bridge.Transforms.{Outside, is_used, next_id, fresh_id}
use openai_compatible_bridge.Transforms.Fresh.{IsInjective, fresh_id-unused}

strokes : ℕ → String
strokes zero = ""
strokes (suc n) = String.◌∷◌ "|" (strokes n)

length-strokes : (n : ℕ) → length (codes (strokes n)) ≡ n
unfolding strokes
length-strokes zero = refl
length-strokes (suc n) = ap (λ k. suc k) (length-strokes n)

abbrev outside : Outside
outside = record {
  int_of = λ v. none;
  str_of = λ v. "?";
  loads = λ s. none;
  suffixed = λ base n. text_append base (strokes n);
  call_of = λ name index. name;
}

suffixes-IsInjective : IsInjective outside "call_f_0"
suffixes-IsInjective m n same =
    sym (length-strokes m)
    ∙ ap (λ s. length (codes s)) (append_cancel_left "call_f_0" (strokes m) (strokes n) same)
    ∙ length-strokes n

abbrev used_ids : List String
used_ids = "call_f_0" ∷ "call_f_0|" ∷ []

fresh_id-unused_example :
    (id : String) × (fresh_id outside "call_f_0" used_ids ≡ some id) × (is_used id used_ids ≡ false)
fresh_id-unused_example = fresh_id-unused outside "call_f_0" used_ids suffixes-IsInjective

second_suffix : fresh_id outside "call_f_0" used_ids ≡ some "call_f_0||"
unfolding fresh_id next_id is_used strokes
second_suffix = refl
