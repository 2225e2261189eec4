-- ===== src/Embedding/Request/Body.antt =====
-- `_receive_body` of openai_compatible_bridge/embedding_limits.py against the body that the client
-- sends.
use mathlib.Core.List.{append_assoc}
use openai_compatible_bridge.Prelude.{
  ℕ, ◌+◌, ◌≤◌, ◌≡◌, ◌↔◌, refl, sym, ap, ◌∙◌, inl, inr, true, false, Option, none, some, List, [],
  ◌∷◌, ◌++◌, arith, Bool-cases, Option-cases, ltb, some_inj, length, length-append,
}
use openai_compatible_bridge.Embedding.Request.{
  Received, disconnect, chunk, unknown, ready, check_length, receive_body,
}

-- The whole body that a client sends: its parts up to the last one, other events aside. None when
-- the connection ends or the events run out before that.
pub sent_body : List Received → Option (List ℕ)
sent_body [] = none
sent_body (disconnect ∷ events) = none
sent_body (unknown ∷ events) = sent_body events
sent_body (chunk piece false ∷ events) = some piece
sent_body (chunk piece true ∷ events) = elim (sent_body events) [
  | none ↦ none
  | some rest ↦ some (piece ++ rest)
]

-- A length is as declared, or none was declared.
abbrev pub Declares : Option ℕ → ℕ → Type 0
Declares none n = Unit
Declares (some m) n = m ≡ n

check_length-ready :
    (d : Option ℕ) (body b : List ℕ)
    → check_length d body ≡ ready b
    → (b ≡ body) × Declares d (length b)
unfolding check_length
check_length-ready none body b h = (ground (arith, h), tt)
check_length-ready (some n) body b h = (ground (arith, h), ground (arith, h))

receive_body_sound :
    (max_bytes : ℕ) (d : Option ℕ) (body : List ℕ) (events : List Received) (b : List ℕ)
    → receive_body max_bytes d body events ≡ ready b
    → (rest : List ℕ) × (sent_body events ≡ some rest)
      × (b ≡ body ++ rest)
      × (length b ≤ max_bytes)
      × Declares d (length b)
unfolding receive_body sent_body
receive_body_sound m d body [] b h = cc
receive_body_sound m d body (disconnect ∷ events) b h = cc
receive_body_sound m d body (unknown ∷ events) b h = receive_body_sound m d body events b h
receive_body_sound m d body (chunk piece false ∷ events) b h =
    elim (Bool-cases (ltb m (length body + length piece))) [
      | inl e ↦ absurd (ground (arith, h, e))
      | inr e ↦
          let q = check_length-ready d (body ++ piece) b (ground (arith, h, e)) in
          (piece, refl, q.0, ground (arith, q.0, e, length-append body piece), q.1)
    ]
receive_body_sound m d body (chunk piece true ∷ events) b h =
    elim (Bool-cases (ltb m (length body + length piece))) [
      | inl e ↦ absurd (ground (arith, h, e))
      | inr e ↦
          let (rest, sent, whole, fits, declared) =
            receive_body_sound m d (body ++ piece) events b (ground (arith, h, e)) in
          (piece ++ rest, rw sent, whole ∙ append_assoc body piece rest, fits, declared)
    ]

check_length-Declares :
    (d : Option ℕ) (b : List ℕ) → Declares d (length b) → check_length d b ≡ ready b
unfolding check_length
check_length-Declares none b h = refl
check_length-Declares (some n) b h = ground (arith, h)

receive_body_complete :
    (max_bytes : ℕ) (d : Option ℕ) (body : List ℕ) (events : List Received) (rest : List ℕ)
    → sent_body events ≡ some rest
    → length (body ++ rest) ≤ max_bytes
    → Declares d (length (body ++ rest))
    → receive_body max_bytes d body events ≡ ready (body ++ rest)
unfolding receive_body sent_body
receive_body_complete m d body [] rest h fits declared = cc
receive_body_complete m d body (disconnect ∷ events) rest h fits declared = cc
receive_body_complete m d body (unknown ∷ events) rest h fits declared =
    receive_body_complete m d body events rest h fits declared
receive_body_complete m d body (chunk piece false ∷ events) rest h fits declared =
    let e : piece ≡ rest = some_inj h in
    rw (← e) (
      ground (
        arith,
        fits,
        length-append body rest,
        e,
        check_length-Declares d (body ++ piece) (rw e declared),
      ))
receive_body_complete m d body (chunk piece true ∷ events) rest h fits declared =
    elim (Option-cases (sent_body events)) [
      | inl e ↦ absurd (ground (arith, h, e))
      | inr (r, e) ↦
          let whole : (body ++ piece) ++ r ≡ body ++ rest =
            append_assoc body piece r ∙ ap (λ l. body ++ l) (ground (arith, h, e)) in
          ground (
            arith,
            fits,
            whole,
            length-append (body ++ piece) r,
            length-append body piece,
            receive_body_complete m d (body ++ piece) events r e (rw whole fits)
                (rw whole declared),
          )
    ]

-- `_receive_body` delivers a body exactly when the client sends that body whole, it fits the
-- limit, and its length is the declared one where a length was declared.
pub receive_body_exact :
    (max_bytes : ℕ) (declared : Option ℕ) (events : List Received) (body : List ℕ)
    → (receive_body max_bytes declared [] events ≡ ready body) ↔ (
        (sent_body events ≡ some body)
        × (length body ≤ max_bytes)
        × Declares declared (length body))
receive_body_exact m d events body = (
  λ h.
      let (rest, sent, whole, fits, declared) = receive_body_sound m d [] events body h in
      (sent ∙ ap some (sym whole), fits, declared),
  λ h. receive_body_complete m d [] events body h.0 h.1 h.2,
)
