-- ===== src/Providers/Foundry/Responses/Efforts.antt =====
-- The efforts of the requests to Responses, of openai_compatible_bridge/core/transforms.py, and how the
-- two protocols of openai_compatible_bridge/providers/foundry.py are related.
use openai_compatible_bridge.Prelude.{
  ℕ, Bool, true, false, ◌||◌, Option, none, some, String, List, [], ◌∷◌, ◌≡◌, refl, by_branches,
  str_eq, eq_iff,
}
use openai_compatible_bridge.Prelude.Bytes.{codes, same_bytes}
use openai_compatible_bridge.Json.{Value, null, bool, int, float, str, list, dict}
use openai_compatible_bridge.Providers.Vertex.Schema.{is_among}
use openai_compatible_bridge.Providers.Vertex.Reading.{Builtins}
use openai_compatible_bridge.Providers.Foundry.Anthropic.{Codec}
use openai_compatible_bridge.Providers.Foundry.Responses.{
  word_of, supported_efforts, clamped, clamp_xai_reasoning_effort, ResponsesArguments, Sampling,
  text_format, build_xai_request_body, build_openai_responses_request_body,
}

-- A word of the list, or none.
IsWord : List String → Option String → Type 0
IsWord words none = Unit
IsWord words (some word) = is_among word words ≡ true

word_of-IsWord : (text : List ℕ) (words : List String) → IsWord words (word_of text words)
unfolding word_of IsWord is_among
word_of-IsWord text [] = tt
word_of-IsWord text (word ∷ words) =
    by_branches (IsWord (word ∷ words)) (same_bytes text (codes word)) (λ h. here word words)
      (λ h. behind (word_of text words) (word_of-IsWord text words))
  where
    here : (word : String) (words : List String) → (str_eq word word || is_among word words) ≡ true
    here word words = rw ((eq_iff word word).1 refl) refl

    behind : (o : Option String) → IsWord words o → IsWord (word ∷ words) o
    behind none h = tt
    behind (some w) h = either (str_eq word w) (is_among w words) h
      where
        either : (a b : Bool) → b ≡ true → (a || b) ≡ true
        either true b h = refl
        either false b h = h

clamped-IsWord : (text : List ℕ) → IsWord supported_efforts (clamped text)
unfolding clamped IsWord is_among
clamped-IsWord text = found (word_of text supported_efforts) (word_of-IsWord text supported_efforts)
  where
    found :
        (o : Option String)
        → IsWord supported_efforts o
        → IsWord supported_efforts (elim o [
          | some word ↦ some word
          | none ↦ elim (word_of text ("max" ∷ "ultra" ∷ [])) [
            | some word ↦ some "xhigh"
            | none ↦ none
          ]
        ])
    found (some word) h = h
    found none h = over (word_of text ("max" ∷ "ultra" ∷ []))
      where
        over :
            (o : Option String)
            → IsWord supported_efforts (elim o [ some word ↦ some "xhigh" | none ↦ none ])
        over (some word) = refl
        over none = tt

module _ (builtins : Builtins) (codec : Codec) where
  -- An effort that is sent is one that the protocol of xAI takes.
  clamp_xai_reasoning_effort-IsWord :
      (effort : Value) → IsWord supported_efforts (clamp_xai_reasoning_effort builtins codec effort)
  unfolding clamp_xai_reasoning_effort IsWord
  clamp_xai_reasoning_effort-IsWord null = tt
  clamp_xai_reasoning_effort-IsWord (str text) = clamped-IsWord _
  clamp_xai_reasoning_effort-IsWord (bool b) = clamped-IsWord _
  clamp_xai_reasoning_effort-IsWord (int n) = clamped-IsWord _
  clamp_xai_reasoning_effort-IsWord (float t) = clamped-IsWord _
  clamp_xai_reasoning_effort-IsWord (list vs) = clamped-IsWord _
  clamp_xai_reasoning_effort-IsWord (dict d) = clamped-IsWord _

  abbrev no_sampling : Sampling
  no_sampling = record {
    sampling_temperature = null;
    sampling_top_p = null;
    sampling_stop = null;
    sampling_format = null;
    sampling_effort = null;
  }

  -- The request of the one protocol is that of the other without the fields of sampling.
  responses-xai :
      (a : ResponsesArguments)
      → build_openai_responses_request_body builtins codec a
        ≡ build_xai_request_body builtins codec a no_sampling
  unfolding build_openai_responses_request_body build_xai_request_body text_format
      clamp_xai_reasoning_effort
  responses-xai a = refl
