-- ===== src/Providers/Think/Find.antt =====
-- What `find` finds of a tag in a text to which more is appended.
use openai_compatible_bridge.Prelude.{
  ℕ, zero, suc, ◌-◌, ◌≤◌, ◌<◌, true, false, ◌&&◌, Option, none, some, List, [], ◌∷◌, ◌++◌, ◌==◌,
  length, take, drop, ◌≡◌, refl, arith, ap, by_branches,
}
use openai_compatible_bridge.Prelude.Bytes.{same_bytes}
use openai_compatible_bridge.Providers.Think.{begins_with, find, before_too}

pub begins_with-append :
    (token text more : List ℕ)
    → begins_with token text ≡ true
    → begins_with token (text ++ more) ≡ true
begins_with-append [] text more h = refl
begins_with-append (t ∷ token) [] more h = cc
begins_with-append (t ∷ token) (c ∷ text) more h =
    ground (arith, h, begins_with-append token text more)

pub begins_with-length :
    (token text : List ℕ) → begins_with token text ≡ true → length token ≤ length text
begins_with-length [] text h = omega arith
begins_with-length (t ∷ token) [] h = cc
begins_with-length (t ∷ token) (c ∷ text) h = ground (arith, h, begins_with-length token text)

-- A text that is long enough shows by itself whether it begins with the tag.
pub begins_with-append_long :
    (token text more : List ℕ)
    → length token ≤ length text
    → begins_with token (text ++ more) ≡ begins_with token text
begins_with-append_long [] text more h = refl
begins_with-append_long (t ∷ token) [] more h = absurd (omega (arith, h))
begins_with-append_long (t ∷ token) (c ∷ text) more h =
    ap (λ b. (t == c) && b) (begins_with-append_long token text more (omega (arith, h)))

-- A shorter one that is continued to the tag is the tag's own beginning.
pub begins_with-append_short :
    (token text more : List ℕ)
    → length text ≤ length token
    → begins_with token (text ++ more) ≡ true
    → same_bytes text (take (length text) token) ≡ true
begins_with-append_short token [] more h b = refl
begins_with-append_short [] (c ∷ text) more h b = absurd (omega (arith, h))
begins_with-append_short (t ∷ token) (c ∷ text) more h b =
    ground (arith, b, begins_with-append_short token text more (omega (arith, h)))

pub drop-append :
    (n : ℕ) (text more : List ℕ) → n ≤ length text → drop n (text ++ more) ≡ drop n text ++ more
drop-append zero text more h = refl
drop-append (suc n) [] more h = absurd (omega (arith, h))
drop-append (suc n) (c ∷ text) more h = drop-append n text more (omega (arith, h))

pub length-drop : (n : ℕ) (text : List ℕ) → length (drop n text) ≡ length text - n
length-drop zero text = omega arith
length-drop (suc n) [] = omega arith
length-drop (suc n) (c ∷ text) = omega (arith, length-drop n text)

-- What stands behind the tag is shorter than the text.
abbrev pub Shorter : ℕ → Option (List ℕ × List ℕ) → Type 0
Shorter n none = Unit
Shorter n (some parts) = length parts.1 < n

Shorter-before_too :
    (n c : ℕ) (found : Option (List ℕ × List ℕ))
    → Shorter n found
    → Shorter (suc n) (before_too c found)
Shorter-before_too n c none h = tt
Shorter-before_too n c (some parts) h = omega (arith, h)

pub find-Shorter :
    (token text : List ℕ) → 0 < length token → Shorter (length text) (find token text)
unfolding find
find-Shorter token [] t = tt
find-Shorter token (c ∷ text) t =
    by_branches (Shorter (suc (length text))) (begins_with token (c ∷ text))
      (λ b. omega (arith, length-drop (length token) (c ∷ text), t))
      (λ b. Shorter-before_too (length text) c (find token text) (find-Shorter token text t))

-- Without the tag in a text, there is none in what is left of its end.
none-before_too :
    (c : ℕ) (found : Option (List ℕ × List ℕ)) → before_too c found ≡ none → found ≡ none
none-before_too c none h = refl
none-before_too c (some parts) h = cc

pub find-none :
    (token : List ℕ) (c : ℕ) (text : List ℕ)
    → find token (c ∷ text) ≡ none
    → (begins_with token (c ∷ text) ≡ false) × (find token text ≡ none)
unfolding find
find-none token c text =
    by_branches
      (λ found. found ≡ none → (begins_with token (c ∷ text) ≡ false) × (find token text ≡ none))
      (begins_with token (c ∷ text)) (λ b h. cc) (λ b h. (b, none-before_too c (find token text) h))

-- A text in which the tag is found is as long as the tag, or longer.
abbrev pub Long : ℕ → ℕ → Option (List ℕ × List ℕ) → Type 0
Long t n none = Unit
Long t n (some parts) = t ≤ n

Long-before_too :
    (t n c : ℕ) (found : Option (List ℕ × List ℕ))
    → Long t n found
    → Long t (suc n) (before_too c found)
Long-before_too t n c none h = tt
Long-before_too t n c (some parts) h = omega (arith, h)

pub find-Long : (token text : List ℕ) → Long (length token) (length text) (find token text)
unfolding find
find-Long token [] = tt
find-Long token (c ∷ text) =
    by_branches (Long (length token) (suc (length text))) (begins_with token (c ∷ text))
      (λ b. begins_with-length token (c ∷ text) b)
      (λ b. Long-before_too (length token) (length text) c (find token text) (find-Long token text))
