-- ===== src/Prelude/Lists.antt =====
-- Lists measured by native numbers, and lists of numbers without repetition.
use Prim.Native.Nat.{ℕ, zero, suc, ◌+◌, ◌-◌, ◌≤◌, ◌<◌}
use mathlib.Core.Path.{◌≡◌, refl}
use mathlib.Core.Logic.{◌≢◌, inl, inr}
use mathlib.Core.Bool.{Bool, true, false, ◌||◌}
use mathlib.Core.List.{List, [], ◌∷◌, ◌++◌}
use native.Mathlib.Omega.{arith}
use openai_compatible_bridge.Prelude.Tests.{◌==◌, if◌then◌else◌, Bool-cases}

module _ {ℓ} {A : Type ℓ} where
  abbrev pub length : List A → ℕ
  length [] = 0
  length (x ∷ xs) = suc (length xs)

  pub length-append : (xs ys : List A) → length (xs ++ ys) ≡ length xs + length ys
  length-append [] ys = omega arith
  length-append (x ∷ xs) ys = omega (arith, length-append xs ys)

  -- The empty list is the falsy one.
  abbrev pub is_empty : List A → Bool
  is_empty [] = true
  is_empty (x ∷ xs) = false

  -- How many elements pass a test.
  abbrev pub count : (A → Bool) → List A → ℕ
  count p [] = 0
  count p (x ∷ xs) = let rest = count p xs in if p x then suc rest else rest

  pub count-append : (p : A → Bool) (xs ys : List A) → count p (xs ++ ys) ≡ count p xs + count p ys
  count-append p [] ys = omega arith
  count-append p (x ∷ xs) ys = ground (arith, count-append p xs ys)

  abbrev pub take : ℕ → List A → List A
  take zero xs = []
  take (suc n) [] = []
  take (suc n) (x ∷ xs) = x ∷ take n xs

  -- `xs[n:]`
  abbrev pub drop : ℕ → List A → List A
  drop zero xs = xs
  drop (suc n) [] = []
  drop (suc n) (x ∷ xs) = drop n xs

  -- `xs[-n:]`, for an `n` that is not 0.
  abbrev pub last : ℕ → List A → List A
  last n xs = drop (length xs - n) xs

  -- `"".join(xss)`
  abbrev pub concat : List (List A) → List A
  concat [] = []
  concat (xs ∷ xss) = xs ++ concat xss

  -- Every element has the property.
  abbrev pub All {κ} : (A → Type κ) → List A → Type κ
  All P [] = Unit
  All P (x ∷ xs) = P x × All P xs

-- `x in xs`, for numbers.
abbrev pub elem : ℕ → List ℕ → Bool
elem x [] = false
elem x (y ∷ ys) = x == y || elem x ys

-- `xs.remove(x)`: the first occurrence goes; without one nothing changes.
abbrev pub remove : ℕ → List ℕ → List ℕ
remove x [] = []
remove x (y ∷ ys) = if x == y then ys else y ∷ remove x ys

abbrev pub Distinct : List ℕ → Type 0
Distinct [] = Unit
Distinct (x ∷ xs) = (elem x xs ≡ false) × Distinct xs

pub elem-append : (x : ℕ) (xs ys : List ℕ) → elem x (xs ++ ys) ≡ (elem x xs || elem x ys)
elem-append x [] ys = refl
elem-append x (y ∷ xs) ys = ground (arith, elem-append x xs ys)

pub elem-remove_ne : (x y : ℕ) (xs : List ℕ) → x ≢ y → elem x (remove y xs) ≡ elem x xs
elem-remove_ne x y [] h = refl
elem-remove_ne x y (z ∷ xs) h = ground (arith, elem-remove_ne x y xs h)

pub elem-remove_self : (x : ℕ) (xs : List ℕ) → Distinct xs → elem x (remove x xs) ≡ false
elem-remove_self x [] h = refl
elem-remove_self x (z ∷ xs) h = ground (arith, elem-remove_self x xs h.1)

pub elem-remove_sub : (x y : ℕ) (xs : List ℕ) → elem x (remove y xs) ≡ true → elem x xs ≡ true
elem-remove_sub x y [] h = h
elem-remove_sub x y (z ∷ xs) h = ground (arith, elem-remove_sub x y xs)

pub remove-Distinct : (x : ℕ) (xs : List ℕ) → Distinct xs → Distinct (remove x xs)
remove-Distinct x [] h = tt
remove-Distinct x (z ∷ xs) h = ground (arith, remove-Distinct x xs h.1, elem-remove_ne z x xs)

pub snoc-Distinct :
    (x : ℕ) (xs : List ℕ) → Distinct xs → elem x xs ≡ false → Distinct (xs ++ x ∷ [])
snoc-Distinct x [] h e = (refl, tt)
snoc-Distinct x (z ∷ xs) h e = ground (arith, snoc-Distinct x xs h.1, elem-append z xs (x ∷ []))

-- Taking an element out of a list lowers a count by what that element counts for.
pub count-remove :
    (p : ℕ → Bool) (x : ℕ) (xs : List ℕ)
    → elem x xs ≡ true
    → count p xs ≡ (if p x then 1 else 0) + count p (remove x xs)
count-remove p x [] h = cc
count-remove p x (y ∷ xs) h = ground (arith, count-remove p x xs)

pub length-remove :
    (x : ℕ) (xs : List ℕ) → elem x xs ≡ true → length xs ≡ suc (length (remove x xs))
length-remove x [] h = cc
length-remove x (y ∷ xs) h = ground (arith, length-remove x xs)

pub count-le-length : (p : ℕ → Bool) (xs : List ℕ) → count p xs ≤ length xs
count-le-length p [] = omega arith
count-le-length p (x ∷ xs) = ground (arith, count-le-length p xs)

-- Two tests that agree on a list count alike.
pub count-same :
    (p q : ℕ → Bool) (xs : List ℕ)
    → ((i : ℕ) → elem i xs ≡ true → q i ≡ p i)
    → count q xs ≡ count p xs
count-same p q [] h = refl
count-same p q (x ∷ xs) h = ground (arith, h x, count-same p q xs (λ i m. h i (ground (arith, m))))

-- A test that is switched on at one element of the list counts one more.
pub count-switch :
    (p q : ℕ → Bool) (w : ℕ) (xs : List ℕ)
    → Distinct xs
    → elem w xs ≡ true
    → p w ≡ false
    → q w ≡ true
    → ((i : ℕ) → i ≢ w → q i ≡ p i)
    → count q xs ≡ suc (count p xs)
count-switch p q w [] d m pw qw h = cc
count-switch p q w (x ∷ xs) d m pw qw h = elim (Bool-cases (w == x)) [
  | inl e ↦
      ground (arith, count-same p q xs (λ i k. h i (λ (z : i ≡ w). ground (arith, k, d.0, e))))
  | inr n ↦ ground (arith, h x, count-switch p q w xs d.1 (ground arith) pw qw h)
]

-- Strictly increasing.
abbrev pub Increasing : List ℕ → Type 0
Increasing [] = Unit
Increasing (x ∷ xs) = ((i : ℕ) → elem i xs ≡ true → x < i) × Increasing xs

pub snoc-Increasing :
    (n : ℕ) (xs : List ℕ)
    → Increasing xs
    → ((i : ℕ) → elem i xs ≡ true → i < n)
    → Increasing (xs ++ n ∷ [])
snoc-Increasing n [] h b = (λ i m. cc, tt)
snoc-Increasing n (x ∷ xs) h b = (
  λ i m. ground (arith, m, elem-append i xs (n ∷ []), h.0 i, b x),
  snoc-Increasing n xs h.1 (λ i m. b i (ground (arith, m))),
)

pub remove-Increasing : (x : ℕ) (xs : List ℕ) → Increasing xs → Increasing (remove x xs)
remove-Increasing x [] h = tt
remove-Increasing x (y ∷ xs) h = elim (Bool-cases (x == y)) [
  | inl e ↦ rw e h.1
  | inr e ↦ rw e (λ i m. h.0 i (elem-remove_sub i x xs m), remove-Increasing x xs h.1)
]

pub Increasing-behind :
    (before : List ℕ) (c : ℕ) (behind : List ℕ)
    → Increasing (before ++ c ∷ behind)
    → Increasing (c ∷ behind)
Increasing-behind [] c behind h = h
Increasing-behind (x ∷ before) c behind h = Increasing-behind before c behind h.1

pub elem-nonempty : (x : ℕ) (xs : List ℕ) → elem x xs ≡ true → is_empty xs ≡ false
elem-nonempty x [] h = cc
elem-nonempty x (y ∷ xs) h = refl

pub Increasing-remove_self : (x : ℕ) (xs : List ℕ) → Increasing xs → elem x (remove x xs) ≡ false
Increasing-remove_self x [] h = refl
Increasing-remove_self x (y ∷ xs) h = elim (Bool-cases (x == y)) [
  | inl e ↦ rw e (absent (elem x xs) refl e)
  | inr e ↦ rw e (ground (arith, e, Increasing-remove_self x xs h.1))
]
  where
    absent : (b : Bool) → elem x xs ≡ b → (x == y) ≡ true → elem x xs ≡ false
    absent true m e = absurd (ground (arith, h.0 x m, e))
    absent false m e = m

pub remove-nonempty : (x : ℕ) (xs : List ℕ) → is_empty (remove x xs) ≡ false → is_empty xs ≡ false
remove-nonempty x [] h = h
remove-nonempty x (y ∷ xs) h = refl
