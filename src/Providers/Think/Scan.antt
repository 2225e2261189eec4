-- ===== src/Providers/Think/Scan.antt =====
-- How one pass of the loop, on a text of which more is to come, relates to the description of the
-- whole text.
use openai_compatible_bridge.Prelude.{
  ℕ, zero, suc, ◌-◌, ◌≤◌, ◌<◌, Bool, true, false, Option, none, some, List, [], ◌∷◌, ◌++◌, length,
  length-append, take, drop, last, ◌≡◌, refl, ap, ◌∙◌, arith, by_branches, Bool-cases, inl, inr,
}
use openai_compatible_bridge.Prelude.Bytes.{same_bytes}
use openai_compatible_bridge.Providers.Think.{
  begins_with, find, before_too, matching_len, start_tag, end_tag, visible,
}
use openai_compatible_bridge.Providers.Think.Find.{
  begins_with-append, begins_with-length, begins_with-append_long, begins_with-append_short,
  drop-append, find-none, Long, find-Long,
}
use openai_compatible_bridge.Providers.Think.Pending.{
  last-tail, take-tail, last-nil, take-nil, last-all, take-none, matching_len-le,
  matching_len-cases,
}

-- A text that neither is the beginning of the tag nor begins with it does not come to begin with it.
begins_with-never :
    (token : List ℕ) (c : ℕ) (text more : List ℕ)
    → begins_with token (c ∷ text) ≡ false
    → (length (c ∷ text) < length token
        → same_bytes (c ∷ text) (take (length (c ∷ text)) token) ≡ false)
    → begins_with token (c ∷ text ++ more) ≡ false
begins_with-never token c text more b s = elim (Bool-cases (begins_with token (c ∷ text ++ more))) [
  | inr never ↦ never
  | inl met ↦ ground (
    arith,
    b,
    s,
    met,
    begins_with-append_long token (c ∷ text) more,
    λ (short : length (c ∷ text) < length token).
        begins_with-append_short token (c ∷ text) more (omega (arith, short)) met,
  )
]

visible-inside :
    (c : ℕ) (text : List ℕ)
    → begins_with end_tag (c ∷ text) ≡ false
    → visible 0 true (c ∷ text) ≡ visible 0 true text
unfolding visible
visible-inside c text b = rw b refl

visible-outside :
    (c : ℕ) (text : List ℕ)
    → begins_with start_tag (c ∷ text) ≡ false
    → visible 0 false (c ∷ text) ≡ c ∷ visible 0 false text
unfolding visible
visible-outside c text b = rw b refl

pub kept-inside :
    (text more : List ℕ)
    → find end_tag text ≡ none
    → visible 0 true (text ++ more) ≡ visible 0 true (last (matching_len text end_tag) text ++ more)
kept-inside [] more f = rw (last-nil (matching_len [] end_tag)) refl
kept-inside (c ∷ text) more f = elim (matching_len-cases c text end_tag) [
  | inl all ↦ rw all (rw (last-all (c ∷ text)) refl)
  | inr tail ↦
      let none_ = find-none end_tag c text f in
      rw (visible-inside c (text ++ more) (begins_with-never end_tag c text more none_.0 tail.1)) (
        rw tail.0 (
          rw (last-tail (matching_len text end_tag) c text (matching_len-le text end_tag))
            (kept-inside text more none_.1)))
]

pub kept-outside :
    (text more : List ℕ)
    → find start_tag text ≡ none
    → visible 0 false (text ++ more)
      ≡ take (length text - matching_len text start_tag) text
        ++ visible 0 false (last (matching_len text start_tag) text ++ more)
kept-outside [] more f =
    rw (last-nil (matching_len [] start_tag)) (rw (take-nil (0 - matching_len [] start_tag)) refl)
kept-outside (c ∷ text) more f = elim (matching_len-cases c text start_tag) [
  | inl all ↦ rw all (rw (last-all (c ∷ text)) (rw (take-none (c ∷ text)) refl))
  | inr tail ↦
      let none_ = find-none start_tag c text f in
      let le = matching_len-le text start_tag in
      rw (visible-outside c (text ++ more) (begins_with-never start_tag c text more none_.0 tail.1))
        (rw tail.0 (
          rw (last-tail (matching_len text start_tag) c text le) (
            rw (take-tail (matching_len text start_tag) c text le)
              (ap (λ shown. c ∷ shown) (kept-outside text more none_.1)))))
]

pub kept-none :
    (token text : List ℕ)
    → find token text ≡ none
    → find token (last (matching_len text token) text) ≡ none
kept-none token [] f = rw (last-nil (matching_len [] token)) f
kept-none token (c ∷ text) f = elim (matching_len-cases c text token) [
  | inl all ↦ rw all (rw (last-all (c ∷ text)) f)
  | inr tail ↦ rw tail.0 (
      rw (last-tail (matching_len text token) c text (matching_len-le text token))
        (kept-none token text (find-none token c text f).1))
]

-- What is left of a text without the closing tag is hidden, without the opening tag it is shown.
pub none-inside : (text : List ℕ) → find end_tag text ≡ none → visible 0 true text ≡ []
unfolding visible
none-inside [] f = refl
none-inside (c ∷ text) f =
    let none_ = find-none end_tag c text f in
    visible-inside c text none_.0 ∙ none-inside text none_.1

pub none-outside : (text : List ℕ) → find start_tag text ≡ none → visible 0 false text ≡ text
unfolding visible
none-outside [] f = refl
none-outside (c ∷ text) f =
    let none_ = find-none start_tag c text f in
    visible-outside c text none_.0 ∙ ap (λ shown. c ∷ shown) (none-outside text none_.1)

visible-skip :
    (n : ℕ) (inside : Bool) (text : List ℕ)
    → n ≤ length text
    → visible n inside text ≡ visible 0 inside (drop n text)
unfolding visible
visible-skip zero inside text h = refl
visible-skip (suc n) inside [] h = absurd (omega (arith, h))
visible-skip (suc n) inside (c ∷ text) h = visible-skip n inside text (omega (arith, h))

-- The tag is passed over.
visible-drop :
    (n : ℕ) (inside : Bool) (text more : List ℕ)
    → n ≤ length text
    → visible n inside (text ++ more) ≡ visible 0 inside (drop n text ++ more)
visible-drop n inside text more h =
    visible-skip n inside (text ++ more) (omega (arith, h, length-append text more))
    ∙ ap (visible 0 inside) (drop-append n text more h)

abbrev pub Closed : List ℕ → List ℕ → Option (List ℕ × List ℕ) → Type 0
Closed text more none = Unit
Closed text more (some parts) = visible 0 true (text ++ more) ≡ visible 0 false (parts.1 ++ more)

abbrev pub Opened : List ℕ → List ℕ → Option (List ℕ × List ℕ) → Type 0
Opened text more none = Unit
Opened text more (some parts) =
    visible 0 false (text ++ more) ≡ parts.0 ++ visible 0 true (parts.1 ++ more)

Closed-before_too :
    (c : ℕ) (text more : List ℕ) (found : Option (List ℕ × List ℕ))
    → begins_with end_tag (c ∷ text) ≡ false
    → Long (length end_tag) (length text) found
    → Closed text more found
    → Closed (c ∷ text) more (before_too c found)
Closed-before_too c text more none b l h = tt
Closed-before_too c text more (some parts) b l h =
    visible-inside c (text ++ more)
      (begins_with-append_long end_tag (c ∷ text) more (omega (arith, l)) ∙ b)
    ∙ h

Opened-before_too :
    (c : ℕ) (text more : List ℕ) (found : Option (List ℕ × List ℕ))
    → begins_with start_tag (c ∷ text) ≡ false
    → Long (length start_tag) (length text) found
    → Opened text more found
    → Opened (c ∷ text) more (before_too c found)
Opened-before_too c text more none b l h = tt
Opened-before_too c text more (some parts) b l h =
    visible-outside c (text ++ more)
      (begins_with-append_long start_tag (c ∷ text) more (omega (arith, l)) ∙ b)
    ∙ ap (λ shown. c ∷ shown) h

visible-closes :
    (c : ℕ) (text : List ℕ)
    → begins_with end_tag (c ∷ text) ≡ true
    → visible 0 true (c ∷ text) ≡ visible 7 false text
unfolding visible
visible-closes c text b = rw b refl

visible-opens :
    (c : ℕ) (text : List ℕ)
    → begins_with start_tag (c ∷ text) ≡ true
    → visible 0 false (c ∷ text) ≡ visible 6 true text
unfolding visible
visible-opens c text b = rw b refl

pub find-Closed : (text more : List ℕ) → Closed text more (find end_tag text)
unfolding find
find-Closed [] more = tt
find-Closed (c ∷ text) more =
    by_branches (Closed (c ∷ text) more) (begins_with end_tag (c ∷ text))
      (λ b.
        visible-closes c (text ++ more) (begins_with-append end_tag (c ∷ text) more b)
        ∙ visible-drop 7 false text more (omega (arith, begins_with-length end_tag (c ∷ text) b)))
      (λ b.
        Closed-before_too c text more (find end_tag text) b (find-Long end_tag text)
          (find-Closed text more))

pub find-Opened : (text more : List ℕ) → Opened text more (find start_tag text)
unfolding find
find-Opened [] more = tt
find-Opened (c ∷ text) more =
    by_branches (Opened (c ∷ text) more) (begins_with start_tag (c ∷ text))
      (λ b.
        visible-opens c (text ++ more) (begins_with-append start_tag (c ∷ text) more b)
        ∙ visible-drop 6 true text more (omega (arith, begins_with-length start_tag (c ∷ text) b)))
      (λ b.
        Opened-before_too c text more (find start_tag text) b (find-Long start_tag text)
          (find-Opened text more))
