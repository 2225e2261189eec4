-- ===== src/Embedding/Request/Declared.antt =====
-- Which requests `__call__` of EmbeddingRequestLimits (openai_compatible_bridge/embedding_limits.py)
-- serves with a declared length, by their method, their path and their headers.
use openai_compatible_bridge.Prelude.{
  ℕ, ◌≤◌, ◌<◌, Bool, true, false, ◌&&◌, Option, none, some, String, List, [], ◌∷◌, ◌++◌, ◌≡◌, ◌↔◌,
  refl, ap, ◌∙◌, inl, inr, arith, Bool-cases, All, str_eq, eq_iff, length, some_inj,
}
use openai_compatible_bridge.Prelude.Bytes.{
  codes, same_bytes, lower_bytes, all_digits, digits_value, rstrip,
}
use openai_compatible_bridge.Prelude.Texts.{same-equal, repeated, rstrip-append, rstrip-repeated}
use openai_compatible_bridge.Embedding.Request.{
  RequestScope, text_is, is_embedding_request, content_lengths, is_readable, check_declared, served,
  admit,
}

abbrev NamedValue : Type 0
NamedValue = List ℕ × List ℕ

-- A POST to the route of the embeddings, which slashes may follow.
pub record IsEmbeddingPost (r : RequestScope) : Type 0 where
  pub over : r.kind ≡ "http"
  pub posted : r.method ≡ some "POST"
  pub routed : (n : ℕ) × (r.path ≡ codes "/v1/embeddings" ++ repeated n b'/')

-- A header of this name, in any case.
pub IsLength : NamedValue → Type 0
IsLength h = lower_bytes h.0 ≡ codes "content-length"

pub record HasSoleLength (headers : List NamedValue) (value : List ℕ) : Type 0 where
  pub before : List NamedValue
  pub name : List ℕ
  pub behind : List NamedValue
  pub whole : headers ≡ before ++ ((name, value) ∷ behind)
  pub named : IsLength (name, value)
  pub none_before : All (λ h. IsLength h → ⊥) before
  pub none_behind : All (λ h. IsLength h → ⊥) behind

-- A decimal number of at most 4300 digits, with this value.
pub record IsDecimal (text : List ℕ) (n : ℕ) : Type 0 where
  pub some_digit : 0 < length text
  pub digits : All (λ c. (b'0' ≤ c) × (c ≤ b'9')) text
  pub readable : length text ≤ 4300
  pub value : digits_value 0 text ≡ n

text_is-eq : (o : Option String) (t : String) → (text_is o t ≡ true) ↔ (o ≡ some t)
unfolding text_is
text_is-eq none t = (λ h. absurd cc, λ h. absurd cc)
text_is-eq (some s) t = (λ h. ap some ((eq_iff s t).0 h), λ h. (eq_iff s t).1 (some_inj h))

-- The route, which `rstrip` leaves as it is.
routed-rstrip :
    (n : ℕ) → rstrip b'/' (codes "/v1/embeddings" ++ repeated n b'/') ≡ codes "/v1/embeddings"
unfolding rstrip
routed-rstrip n = rw (rstrip-repeated b'/' n) refl

both_hold : (a b c : Bool) → (a && b && c) ≡ true → (a ≡ true) × (b ≡ true) × (c ≡ true)
both_hold true true true h = (refl, refl, refl)
both_hold true true false h = absurd cc
both_hold true false c h = absurd cc
both_hold false b c h = absurd cc

is_embedding_request-IsEmbeddingPost :
    (r : RequestScope) → (is_embedding_request r ≡ true) ↔ IsEmbeddingPost r
unfolding is_embedding_request
is_embedding_request-IsEmbeddingPost r = (
  λ h.
      let tests = both_hold (str_eq r.kind "http") (text_is r.method "POST") _ h in
      let (n, whole) = rstrip-append b'/' r.path in
      record {
        over = (eq_iff r.kind "http").0 tests.0;
        posted = (text_is-eq r.method "POST").0 tests.1;
        routed = (
          n,
          whole ∙ ap (λ x. x ++ repeated n b'/') (same-equal _ (codes "/v1/embeddings") tests.2),
        );
      },
  λ p.
      let (n, whole) = p.routed in
      rw (p.over) (rw (p.posted) (rw whole (rw (routed-rstrip n) (refl)))),
)

not_both : {b : Bool} → b ≡ true → b ≡ false → ⊥
not_both t f = cc

first_eq : {x y : List ℕ} {xs ys : List (List ℕ)} → x ∷ xs ≡ y ∷ ys → x ≡ y
first_eq e = cc

rest_eq : {x y : List ℕ} {xs ys : List (List ℕ)} → x ∷ xs ≡ y ∷ ys → xs ≡ ys
rest_eq e = cc

content_lengths-none :
    (hs : List NamedValue) → content_lengths hs ≡ [] → All (λ h. IsLength h → ⊥) hs
unfolding content_lengths IsLength
content_lengths-none [] e = tt
content_lengths-none (h ∷ hs) e =
    elim (Bool-cases (same_bytes (lower_bytes h.0) (codes "content-length"))) [
      | inl m ↦ absurd (ground (arith, m, e))
      | inr m ↦ (
        λ w. not_both (ap (λ x. same_bytes x (codes "content-length")) w) m,
        content_lengths-none hs (rw m at e),
      )
    ]

none-content_lengths :
    (hs : List NamedValue) → All (λ h. IsLength h → ⊥) hs → content_lengths hs ≡ []
unfolding content_lengths IsLength
none-content_lengths [] h = refl
none-content_lengths (x ∷ xs) h =
    elim (Bool-cases (same_bytes (lower_bytes x.0) (codes "content-length"))) [
      | inl m ↦ absurd (h.0 (same-equal _ (codes "content-length") m))
      | inr m ↦ rw m (none-content_lengths xs h.1)
    ]

content_lengths-HasSoleLength :
    (hs : List NamedValue) (value : List ℕ)
    → content_lengths hs ≡ value ∷ []
    → HasSoleLength hs value
unfolding content_lengths IsLength
content_lengths-HasSoleLength [] value e = absurd cc
content_lengths-HasSoleLength (h ∷ hs) value e =
    elim (Bool-cases (same_bytes (lower_bytes h.0) (codes "content-length"))) [
      | inl m ↦
          let first : h.1 ∷ content_lengths hs ≡ value ∷ [] = rw m at e in
          record {
            before = [];
            name = h.0;
            behind = hs;
            whole = ap (λ v. (h.0, v) ∷ hs) (first_eq first);
            named = same-equal _ (codes "content-length") m;
            none_before = tt;
            none_behind = content_lengths-none hs (rest_eq first);
          }
      | inr m ↦
          let sole = content_lengths-HasSoleLength hs value (rw m at e) in
          record {
            before = h ∷ sole.before;
            name = sole.name;
            behind = sole.behind;
            whole = ap (λ xs. h ∷ xs) sole.whole;
            named = sole.named;
            none_before = (
              λ w. not_both (ap (λ x. same_bytes x (codes "content-length")) w) m,
              sole.none_before,
            );
            none_behind = sole.none_behind;
          }
    ]

among-content_lengths :
    (before behind : List NamedValue) (name value : List ℕ)
    → IsLength (name, value)
    → All (λ h. IsLength h → ⊥) before
    → All (λ h. IsLength h → ⊥) behind
    → content_lengths (before ++ ((name, value) ∷ behind)) ≡ value ∷ []
unfolding content_lengths IsLength
among-content_lengths [] behind name value n h k = rw n (rw (none-content_lengths behind k) refl)
among-content_lengths (x ∷ xs) behind name value n h k =
    elim (Bool-cases (same_bytes (lower_bytes x.0) (codes "content-length"))) [
      | inl m ↦ absurd (h.0 (same-equal _ (codes "content-length") m))
      | inr m ↦ rw m (among-content_lengths xs behind name value n h.1 k)
    ]

HasSoleLength-content_lengths :
    (hs : List NamedValue) (value : List ℕ)
    → HasSoleLength hs value
    → content_lengths hs ≡ value ∷ []
HasSoleLength-content_lengths hs value sole =
    ap content_lengths sole.whole
    ∙ among-content_lengths sole.before sole.behind sole.name value sole.named sole.none_before
        sole.none_behind

digits_of : (cs : List ℕ) → (all_digits cs ≡ true) ↔ All (λ c. (b'0' ≤ c) × (c ≤ b'9')) cs
digits_of [] = (λ h. tt, λ h. refl)
digits_of (c ∷ cs) = (
  λ h. ((ground (arith, h), ground (arith, h)), (digits_of cs).0 (ground (arith, h))),
  λ h. ground (arith, h.0.0, h.0.1, (digits_of cs).1 h.1),
)

readable-IsDecimal :
    (text : List ℕ) → (is_readable text ≡ true) ↔ IsDecimal text (digits_value 0 text)
readable-IsDecimal [] = (λ h. absurd cc, λ d. absurd (omega (arith, d.some_digit)))
readable-IsDecimal (c ∷ cs) = (
  λ h. record {
    some_digit = omega arith;
    digits = (digits_of (c ∷ cs)).0 (ground (arith, h));
    readable = ground (arith, h);
    value = refl;
  },
  λ d. ground (arith, (digits_of (c ∷ cs)).1 d.digits, d.readable),
)

check_declared-fits :
    (m : ℕ) (value : List ℕ) (n : ℕ)
    → IsDecimal value n
    → n ≤ m
    → check_declared m (value ∷ []) ≡ served (some n)
unfolding check_declared
check_declared-fits m value n d fits =
    let readable = (readable-IsDecimal value).1 (rw (← d.value) at d) in
    rw readable (ground (arith, d.value, fits))

-- The check of the values that were declared lets one through.
check_declared-exact :
    (m : ℕ) (values : List (List ℕ)) (n : ℕ)
    → (check_declared m values ≡ served (some n))
      ↔ ((value : List ℕ) × (values ≡ value ∷ []) × IsDecimal value n × (n ≤ m))
unfolding check_declared
check_declared-exact m [] n = (λ h. absurd cc, λ h. absurd (ground (arith, h.1)))
check_declared-exact m (v ∷ []) n = (
  λ h.
      let e : digits_value 0 v ≡ n = ground (arith, h) in
      (v, refl, rw e at ((readable-IsDecimal v).0 (ground (arith, h))), ground (arith, h)),
  λ h.
      let (value, e, d, fits) = h in ap (check_declared m) e ∙ check_declared-fits m value n d fits,
)
check_declared-exact m (v ∷ w ∷ values) n = (λ h. absurd cc, λ h. absurd (ground (arith, h.1)))

-- A request is served with a declared length exactly when it is an HTTP POST to /v1/embeddings, which
-- any number of slashes may follow, and one header of it has the name content-length, in any case,
-- and a value of 1 to 4300 decimal digits, whose number is that length and within the limit.
pub admit_exact :
    (max_bytes : ℕ) (r : RequestScope) (n : ℕ)
    → (admit max_bytes r ≡ served (some n)) ↔ (
        IsEmbeddingPost r
        × ((value : List ℕ) × HasSoleLength r.headers value × IsDecimal value n)
        × (n ≤ max_bytes))
unfolding admit
admit_exact m r n = (
  λ h. elim (Bool-cases (is_embedding_request r)) [
    | inl e ↦
        let (value, values, decimal, fits) =
          (check_declared-exact m (content_lengths r.headers) n).0 (ground (arith, h, e)) in
        (
          (is_embedding_request-IsEmbeddingPost r).0 e,
          (value, content_lengths-HasSoleLength r.headers value values, decimal),
          fits,
        )
    | inr e ↦ absurd (ground (arith, h, e))
  ],
  λ h.
      let (value, sole, decimal) = h.1 in
      rw ((is_embedding_request-IsEmbeddingPost r).1 h.0) (
        (check_declared-exact m (content_lengths r.headers) n).1
          (value, HasSoleLength-content_lengths r.headers value sole, decimal, h.2)),
)
