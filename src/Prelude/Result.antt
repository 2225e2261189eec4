-- ===== src/Prelude/Result.antt =====
-- A computation that returns a value or raises an exception of type `E`.
use mathlib.Core.Path.{◌≡◌, refl}
use mathlib.Core.Bool.{Bool, true, false}

pub data Result {ℓ κ} (E : Type κ) (A : Type ℓ) : Type (ℓ ⊔ κ) where
  ok : A → Result E A
  err : E → Result E A

-- `if not test: raise x`
abbrev pub guard {κ} : {E : Type κ} → Bool → E → Result E (Unit {0})
guard false x = err x
guard true x = ok tt

infixl 5 ◌>>=◌ ◌>>◌
abbrev pub ◌>>=◌ {ℓ κ ℓ'} :
    {E : Type κ} {A : Type ℓ} {B : Type ℓ'} → Result E A → (A → Result E B) → Result E B
err x >>= next = err x
ok a >>= next = next a

abbrev pub ◌>>◌ {ℓ κ} : {E : Type κ} {B : Type ℓ} → Result E (Unit {0}) → Result E B → Result E B
first >> next = first >>= λ done. next

-- What holds of the value when none is raised.
abbrev pub Ensures {ℓ κ μ} : {E : Type κ} {A : Type ℓ} → (A → Type μ) → Result E A → Type μ
Ensures P (ok a) = P a
Ensures P (err e) = Unit

pub Ensures-bind {ℓ κ ℓ' μ μ'} :
    {E : Type κ} {A : Type ℓ} {B : Type ℓ'} (P : A → Type μ) (Q : B → Type μ') (m : Result E A)
    (f : A → Result E B)
    → Ensures P m
    → ((a : A) → P a → Ensures Q (f a))
    → Ensures Q (m >>= f)
Ensures-bind P Q (ok a) f h k = k a h
Ensures-bind P Q (err e) f h k = tt

pub Ensures-guard {κ} : {E : Type κ} (b : Bool) (e : E) → Ensures (λ _. b ≡ true) (guard b e)
Ensures-guard true e = refl
Ensures-guard false e = tt

pub Ensures-eq {ℓ κ μ} :
    {E : Type κ} {A : Type ℓ} (P : A → Type μ) {m : Result E A} {a : A}
    → m ≡ ok a
    → Ensures P m
    → P a
Ensures-eq P e h = rw e at h

-- Whatever holds of every value needs nothing of the computation before it.
pub Ensures-then {ℓ κ ℓ' μ} :
    {E : Type κ} {A : Type ℓ} {B : Type ℓ'} (Q : B → Type μ) (m : Result E A) (f : A → Result E B)
    → ((a : A) → Ensures Q (f a))
    → Ensures Q (m >>= f)
Ensures-then Q (ok a) f k = k a
Ensures-then Q (err e) f k = tt
