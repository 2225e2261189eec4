-- ===== src/Prelude/Texts.antt =====
-- What the operations on texts of Prelude/Bytes.antt do: comparing, cutting and stripping.
use openai_compatible_bridge.Prelude.{
  ℕ, zero, suc, true, false, ◌&&◌, List, [], ◌∷◌, ◌++◌, ◌≡◌, refl, ap, ◌∙◌, inl, inr, arith,
  Bool-cases, ◌==◌, ==_iff, All, take, drop, is_empty, if◌then◌else◌,
}
use openai_compatible_bridge.Prelude.Bytes.{
  same_bytes, rstrip, is_space, lstrip_space, rstrip_space, strip,
}

pub same-equal : (xs ys : List ℕ) → same_bytes xs ys ≡ true → xs ≡ ys
same-equal [] [] h = refl
same-equal [] (y ∷ ys) h = absurd cc
same-equal (x ∷ xs) [] h = absurd cc
same-equal (x ∷ xs) (y ∷ ys) h = elim (Bool-cases (x == y)) [
  | inl e ↦ ap (λ z. z ∷ xs) ((==_iff x y).0 e) ∙ ap (λ zs. y ∷ zs) (same-equal xs ys (rw e at h))
  | inr e ↦ absurd (ground (arith, e, h))
]

pub take-drop : (n : ℕ) (xs : List ℕ) → xs ≡ take n xs ++ drop n xs
take-drop zero xs = refl
take-drop (suc n) [] = refl
take-drop (suc n) (x ∷ xs) = ap (λ zs. x ∷ zs) (take-drop n xs)

-- This many times the same.
unfoldable pub repeated : ℕ → ℕ → List ℕ
repeated zero c = []
repeated (suc n) c = c ∷ repeated n c

pub rstrip-repeated : (c n : ℕ) → rstrip c (repeated n c) ≡ []
unfolding rstrip repeated
rstrip-repeated c zero = refl
rstrip-repeated c (suc n) = rw (rstrip-repeated c n) (rw ((==_iff c c).1 refl) refl)

-- What `rstrip` takes away.
pub rstrip-append : (c : ℕ) (xs : List ℕ) → (n : ℕ) × (xs ≡ rstrip c xs ++ repeated n c)
unfolding rstrip repeated
rstrip-append c [] = (zero, refl)
rstrip-append c (x ∷ xs) = cut (rstrip c xs) (rstrip-append c xs)
  where
    cut :
        (rest : List ℕ)
        → ((n : ℕ) × (xs ≡ rest ++ repeated n c))
        → (n : ℕ) × (x ∷ xs ≡ (if is_empty rest && x == c then [] else x ∷ rest) ++ repeated n c)
    cut [] (n, e) = elim (Bool-cases (x == c)) [
      | inl s ↦ (suc n, rw s (ap (λ z. z ∷ xs) ((==_iff x c).0 s) ∙ ap (λ zs. c ∷ zs) e))
      | inr s ↦ (n, rw s (ap (λ zs. x ∷ zs) e))
    ]
    cut (y ∷ ys) (n, e) = (n, ap (λ zs. x ∷ zs) e)

pub AreSpaces : List ℕ → Type 0
AreSpaces = All (λ c. is_space c ≡ true)

-- Without a space at its start.
pub IsFlush : List ℕ → Type 0
IsFlush [] = Unit
IsFlush (c ∷ cs) = is_space c ≡ false

-- Without a space at its end.
pub IsClosed : List ℕ → Type 0
IsClosed [] = Unit
IsClosed (c ∷ []) = is_space c ≡ false
IsClosed (c ∷ d ∷ cs) = IsClosed (d ∷ cs)

-- A text between the spaces around it.
pub record IsTrimmed (value text : List ℕ) : Type 0 where
  pub before : List ℕ
  pub after : List ℕ
  pub whole : value ≡ before ++ (text ++ after)
  pub spaces_before : AreSpaces before
  pub spaces_after : AreSpaces after
  pub flush : IsFlush text
  pub closed : IsClosed text

lstrip_space-append :
    (cs : List ℕ)
    → (before : List ℕ) × (cs ≡ before ++ lstrip_space cs)
      × AreSpaces before
      × IsFlush (lstrip_space cs)
unfolding lstrip_space AreSpaces IsFlush
lstrip_space-append [] = ([], refl, tt, tt)
lstrip_space-append (c ∷ cs) = elim (Bool-cases (is_space c)) [
  | inl s ↦
      let (before, whole, spaces, flush) = lstrip_space-append cs in
      rw s (c ∷ before, ap (λ zs. c ∷ zs) whole, (s, spaces), flush)
  | inr s ↦ rw s ([], refl, tt, s)
]

rstrip_space-append :
    (cs : List ℕ)
    → (after : List ℕ) × (cs ≡ rstrip_space cs ++ after)
      × AreSpaces after
      × IsClosed (rstrip_space cs)
unfolding rstrip_space AreSpaces IsClosed
rstrip_space-append [] = ([], refl, tt, tt)
rstrip_space-append (c ∷ cs) = cut (rstrip_space cs) (rstrip_space-append cs)
  where
    cut :
        (rest : List ℕ)
        → ((after : List ℕ) × (cs ≡ rest ++ after) × AreSpaces after × IsClosed rest)
        → (after : List ℕ) × (c ∷ cs
            ≡ (if is_empty rest && is_space c then [] else c ∷ rest) ++ after)
          × AreSpaces after
          × IsClosed (if is_empty rest && is_space c then [] else c ∷ rest)
    cut [] (after, whole, spaces, closed) = elim (Bool-cases (is_space c)) [
      | inl s ↦ rw s (c ∷ after, ap (λ zs. c ∷ zs) whole, (s, spaces), tt)
      | inr s ↦ rw s (after, ap (λ zs. c ∷ zs) whole, spaces, s)
    ]
    cut (y ∷ ys) (after, whole, spaces, closed) = (after, ap (λ zs. c ∷ zs) whole, spaces, closed)

rstrip_space-IsFlush : (cs : List ℕ) → IsFlush cs → IsFlush (rstrip_space cs)
unfolding rstrip_space IsFlush
rstrip_space-IsFlush [] h = tt
rstrip_space-IsFlush (c ∷ cs) h = cut (rstrip_space cs)
  where
    cut : (rest : List ℕ) → IsFlush (if is_empty rest && is_space c then [] else c ∷ rest)
    cut [] = rw h h
    cut (y ∷ ys) = h

pub strip-IsTrimmed : (cs : List ℕ) → IsTrimmed cs (strip cs)
unfolding strip
strip-IsTrimmed cs =
    let (before, left, spaces, flush) = lstrip_space-append cs in
    let (after, right, behind, closed) = rstrip_space-append (lstrip_space cs) in
    record {
      before = before;
      after = after;
      whole = left ∙ ap (λ zs. before ++ zs) right;
      spaces_before = spaces;
      spaces_after = behind;
      flush = rstrip_space-IsFlush (lstrip_space cs) flush;
      closed = closed;
    }
