-- ===== src/Transforms/Fresh.antt =====
-- The search for an unused identifier ends: more different texts than there are used ones are tried.
use openai_compatible_bridge.Prelude.{
  ℕ, zero, suc, ◌+◌, ◌≤◌, ◌<◌, true, false, none, some, String, List, [], ◌∷◌, if◌then◌else◌,
  length, str_eq, eq_iff, ◌≡◌, ◌≢◌, sym, ◌∙◌, arith, Bool-cases, Option-cases, inl, inr, some_inj,
}
use openai_compatible_bridge.Transforms.{Outside, is_used, next_id, fresh_id}

-- The first occurrence is taken out.
without : String → List String → List String
without id [] = []
without id (u ∷ used) = let rest = without id used in if str_eq id u then used else u ∷ rest

length-without :
    (id : String) (used : List String)
    → is_used id used ≡ true
    → length used ≡ suc (length (without id used))
unfolding is_used without
length-without id [] h = cc
length-without id (u ∷ used) h = ground (arith, h, length-without id used)

is_used-without :
    (other id : String) (used : List String)
    → other ≢ id
    → is_used other used ≡ true
    → is_used other (without id used) ≡ true
unfolding is_used without
is_used-without other id [] ne h = h
is_used-without other id (u ∷ used) ne h = elim (Bool-cases (str_eq id u)) [
  | inl e ↦ rw e (ground (arith, h, different ((eq_iff id u).0 e)))
  | inr e ↦ rw e (ground (arith, h, is_used-without other id used ne))
]
  where
    different : id ≡ u → str_eq other u ≡ false
    different same = elim (Bool-cases (str_eq other u)) [
      | inl e ↦ absurd (ne ((eq_iff other u).0 e ∙ sym same))
      | inr e ↦ e
    ]

module _ (outside : Outside) (base : String) where
  -- The texts that are tried are different.
  abbrev pub IsInjective : Type 0
  IsInjective = (m n : ℕ) → outside.suffixed base m ≡ outside.suffixed base n → m ≡ n

  used_at :
      (used : List String) {m n : ℕ}
      → m ≡ n
      → is_used (outside.suffixed base m) used ≡ true
      → is_used (outside.suffixed base n) used ≡ true
  used_at used e h = rw e at h

  tried-le :
      (n s : ℕ) (used : List String)
      → IsInjective
      → ((k : ℕ) → k < n → is_used (outside.suffixed base (s + k)) used ≡ true)
      → n ≤ length used
  tried-le zero s used i h = omega arith
  tried-le (suc n) s used i h =
      let id = outside.suffixed base s in
      let head : is_used id used ≡ true = used_at used (omega arith) (h 0 (omega arith)) in
      let rest = tried-le n (suc s) (without id used) i (λ k l.
        is_used-without (outside.suffixed base (suc s + k)) id used
          (λ same. absurd (omega (arith, i (suc s + k) s same)))
          (used_at used {m = s + suc k} (omega arith) (h (suc k) (omega (arith, l))))) in
      omega (arith, rest, length-without id used head)

  next_id-none_first :
      (n s : ℕ) (id : String) (used : List String)
      → next_id outside (suc n) base s id used ≡ none
      → is_used id used ≡ true
  unfolding next_id
  next_id-none_first n s id used e = elim (Bool-cases (is_used id used)) [
    | inl u ↦ u
    | inr u ↦ let same : some id ≡ none = rw u at e in cc
  ]

  next_id-none_rest :
      (n s : ℕ) (id : String) (used : List String)
      → next_id outside (suc n) base s id used ≡ none
      → next_id outside n base (suc s) (outside.suffixed base s) used ≡ none
  unfolding next_id
  next_id-none_rest n s id used e = rw (next_id-none_first n s id used e) at e

  next_id-none :
      (n s : ℕ) (id : String) (used : List String)
      → next_id outside (suc n) base s id used ≡ none
      → (k : ℕ) → k < n
      → is_used (outside.suffixed base (s + k)) used ≡ true
  next_id-none zero s id used e k h = absurd (omega (arith, h))
  next_id-none (suc n) s id used e zero h = used_at used (omega arith) (
      next_id-none_first n (suc s) (outside.suffixed base s) used
        (next_id-none_rest (suc n) s id used e))
  next_id-none (suc n) s id used e (suc k) h = used_at used {m = suc s + k} (omega arith) (
      next_id-none n (suc s) (outside.suffixed base s) used (next_id-none_rest (suc n) s id used e)
        k (omega (arith, h)))

  next_id-unused :
      (fuel s : ℕ) (id found : String) (used : List String)
      → next_id outside fuel base s id used ≡ some found
      → is_used found used ≡ false
  unfolding next_id
  next_id-unused zero s id found used e = cc
  next_id-unused (suc fuel) s id found used e = elim (Bool-cases (is_used id used)) [
    | inl u ↦ next_id-unused fuel (suc s) (outside.suffixed base s) found used (rw u at e)
    | inr u ↦ let same : some id ≡ some found = rw u at e in rw (← some_inj same) u
  ]

  -- The loop that looks for an identifier of a call ends, whatever identifiers are used, and the one
  -- it finds is not among them; the texts with different suffixes are different.
  pub fresh_id-unused :
      (used : List String)
      → IsInjective
      → (id : String) × (fresh_id outside base used ≡ some id) × (is_used id used ≡ false)
  unfolding fresh_id
  fresh_id-unused used i =
      elim (Option-cases (next_id outside (suc (suc (length used))) base 1 base used)) [
        | inl e ↦ absurd (
            omega (
              arith,
              tried-le (suc (length used)) 1 used i
                  (next_id-none (suc (length used)) 1 base used e),
            ))
        | inr found ↦
            (found.0, found.1, next_id-unused (suc (suc (length used))) 1 base found.0 used found.1)
      ]
