-- ===== src/Providers/Think/Pending.antt =====
-- What `matching_len` measures: how the answer for a text follows from the one for its tail.
use openai_compatible_bridge.Prelude.{
  ℕ, zero, suc, ◌-◌, ◌≤◌, ◌<◌, true, false, List, [], ◌∷◌, if◌then◌else◌, length, take, drop, last,
  min, ◌≡◌, refl, ap, ◌∙◌, arith, by_branches, Bool-cases, ◌⊎◌, inl, inr, leb,
}
use openai_compatible_bridge.Prelude.Bytes.{same_bytes}
use openai_compatible_bridge.Providers.Think.{matching_len_from, matching_len}

-- The end of a text that is shorter than the text is the end of its tail.
pub last-tail : (n c : ℕ) (text : List ℕ) → n ≤ length text → last n (c ∷ text) ≡ last n text
last-tail n c text h =
    ap (λ k. drop k (c ∷ text)) {x = suc (length text) - n} {y = suc (length text - n)}
      (omega (arith, h))

pub take-tail :
    (n c : ℕ) (text : List ℕ)
    → n ≤ length text
    → take (length (c ∷ text) - n) (c ∷ text) ≡ c ∷ take (length text - n) text
take-tail n c text h =
    ap (λ k. take k (c ∷ text)) {x = suc (length text) - n} {y = suc (length text - n)}
      (omega (arith, h))

pub last-all : (text : List ℕ) → last (length text) text ≡ text
last-all text = ap (λ k. drop k text) {x = length text - length text} {y = 0} (omega arith)

pub take-none : (text : List ℕ) → take (length text - length text) text ≡ []
take-none text = ap (λ k. take k text) {x = length text - length text} {y = 0} (omega arith)

drop-nil : (n : ℕ) → drop {A = ℕ} n [] ≡ []
drop-nil zero = refl
drop-nil (suc n) = refl

pub last-nil : (n : ℕ) → last {A = ℕ} n [] ≡ []
last-nil n = drop-nil (0 - n)

pub take-nil : (n : ℕ) → take {A = ℕ} n [] ≡ []
take-nil zero = refl
take-nil (suc n) = refl

matching_len_from-le : (n : ℕ) (text token : List ℕ) → matching_len_from n text token ≤ n
unfolding matching_len_from
matching_len_from-le zero text token = omega arith
matching_len_from-le (suc n) text token = ground (arith, matching_len_from-le n text token)

matching_len_from-tail :
    (n c : ℕ) (text token : List ℕ)
    → n ≤ length text
    → matching_len_from n (c ∷ text) token ≡ matching_len_from n text token
unfolding matching_len_from
matching_len_from-tail zero c text token h = refl
matching_len_from-tail (suc n) c text token h =
    let tail = matching_len_from-tail n c text token (omega (arith, h)) in
    rw (last-tail (suc n) c text h) (rw tail refl)

pub matching_len-le : (text token : List ℕ) → matching_len text token ≤ length text
unfolding matching_len
matching_len-le text token =
    omega (arith, matching_len_from-le (min (length text) (length token - 1)) text token)

module _ (c : ℕ) (text token : List ℕ) where
  matching_len-long :
      leb (length token) (length (c ∷ text)) ≡ true
      → matching_len (c ∷ text) token ≡ matching_len text token
  unfolding matching_len
  matching_len-long long =
      ap (λ n. matching_len_from n (c ∷ text) token)
        {x = min (suc (length text)) (length token - 1)} {y = length token - 1} (ground arith)
      ∙ matching_len_from-tail (length token - 1) c text token (ground arith)
      ∙ ap (λ n. matching_len_from n text token) {x = length token - 1}
          {y = min (length text) (length token - 1)} (ground arith)

  -- A text shorter than the tag is kept whole if it begins the tag.
  matching_len-short :
      leb (length token) (length (c ∷ text)) ≡ false
      → matching_len (c ∷ text) token ≡ (
          if same_bytes (c ∷ text) (take (length (c ∷ text)) token)
          then length (c ∷ text)
          else matching_len text token)
  unfolding matching_len matching_len_from
  matching_len-short short =
      let whole : matching_len (c ∷ text) token
          ≡ matching_len_from (suc (length text)) (c ∷ text) token =
        ap (λ n. matching_len_from n (c ∷ text) token)
          {x = min (suc (length text)) (length token - 1)} {y = suc (length text)} (ground arith) in
      let tail = matching_len_from-tail (length text) c text token (omega arith) in
      let all : matching_len text token ≡ matching_len_from (length text) text token =
        ap (λ n. matching_len_from n text token) {x = min (length text) (length token - 1)}
          {y = length text} (ground arith) in
      whole ∙ rw (last-all (c ∷ text)) (rw tail (rw all refl))

  abbrev Cases : ℕ → Type 0
  Cases size =
      (size ≡ length (c ∷ text))
      ⊎ (size ≡ matching_len text token)
        × (length (c ∷ text) < length token
            → same_bytes (c ∷ text) (take (length (c ∷ text)) token) ≡ false)

-- The whole text is kept, since it begins the tag; or it does not, and the tail decides.
pub matching_len-cases :
    (c : ℕ) (text token : List ℕ)
    → (matching_len (c ∷ text) token ≡ length (c ∷ text))
      ⊎ (matching_len (c ∷ text) token ≡ matching_len text token)
        × (length (c ∷ text) < length token
            → same_bytes (c ∷ text) (take (length (c ∷ text)) token) ≡ false)
unfolding matching_len matching_len_from
matching_len-cases c text token = elim (Bool-cases (leb (length token) (length (c ∷ text)))) [
  | inl long ↦ inr (matching_len-long c text token long, λ s. absurd (ground arith))
  | inr short ↦ rw (matching_len-short c text token short) (
      by_branches (Cases c text token) (same_bytes (c ∷ text) (take (length (c ∷ text)) token))
        (λ b. inl refl) (λ b. inr (refl, λ s. b)))
]
