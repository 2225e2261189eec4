-- ===== src/Cost/Admission/Slots.antt =====
-- No slot is lost.
use openai_compatible_bridge.Prelude.{
  ℕ, suc, ◌+◌, Bool, true, ◌&&◌, none, some, List, [], ◌∷◌, ltb, if◌then◌else◌, elem, remove,
  length, length-append, length-remove, ◌≡◌, refl, ap, ◌∙◌, arith, by_branches, if-eq-some,
  some_inj,
}
use openai_compatible_bridge.Prelude.Int.{pos, -ℤ_one, +ℤ_one}
use openai_compatible_bridge.Cost.Admission.{
  Admissions, locked, release_slot, take_slot, Meets, with_slot, stop_waiting, arrive, Event,
  begins, gets_slot, waits_too_long, wait_cancelled, thread_done, gives_up, closes, step, Reach,
  start, next, all_done,
}

-- Every slot is free or held by a future, and the counter counts those that wait.
abbrev pub IsBalanced : ℕ → Admissions → Type 0
IsBalanced workers a =
    (a.free + length a.admissions ≡ workers) × (a.admission_waiters ≡ pos (length a.waiting))

-- One slot is held by a call that has no future yet.
abbrev Holds : ℕ → Admissions → Type 0
Holds workers a =
    (a.free + 1 + length a.admissions ≡ workers) × (a.admission_waiters ≡ pos (length a.waiting))

with_slot-IsBalanced :
    (workers call : ℕ) (meets : Meets) (a : Admissions)
    → Holds workers a
    → IsBalanced workers (with_slot call meets a)
unfolding with_slot
with_slot-IsBalanced workers call meets a h =
    by_branches (IsBalanced workers) a.closed (λ c. (omega (arith, h.0), h.1))
      (λ c.
        by_branches (IsBalanced workers) meets.late (λ l. (omega (arith, h.0), h.1))
          (λ l.
            by_branches (IsBalanced workers) meets.submits
              (λ s. (omega (arith, h.0, length-append a.admissions (call ∷ [])), h.1))
              (λ s. (omega (arith, h.0), h.1))))

stop_waiting-IsBalanced :
    (workers call : ℕ) (a : Admissions)
    → elem call a.waiting ≡ true
    → IsBalanced workers a
    → IsBalanced workers (stop_waiting call a)
unfolding stop_waiting
stop_waiting-IsBalanced workers call a m h =
    (h.0, rw h.1 (rw (length-remove call a.waiting m) (-ℤ_one (length (remove call a.waiting)))))

arrive-IsBalanced :
    (workers call : ℕ) (meets : Meets) (a : Admissions)
    → IsBalanced workers a
    → IsBalanced workers (arrive call meets a)
unfolding arrive
arrive-IsBalanced workers call meets a h =
    by_branches (IsBalanced workers) a.closed (λ c. h)
      (λ c.
        by_branches (IsBalanced workers) (locked a)
          (λ l. (
            h.0,
            rw h.1 (
                +ℤ_one (length a.waiting)
                ∙ ap pos {x = suc (length a.waiting)}
                    (omega (arith, length-append a.waiting (call ∷ [])))),
          ))
          (λ l.
            with_slot-IsBalanced workers call meets (take_slot a) (ground (arith, h.0, l), h.1)))

-- An event happens under a condition.
guarded-IsBalanced :
    (workers : ℕ) (b : Bool) (made : Admissions) {a' : Admissions}
    → (b ≡ true → IsBalanced workers made)
    → (if b then some made else none) ≡ some a'
    → IsBalanced workers a'
guarded-IsBalanced workers b made h e = let parts = if-eq-some b e in rw (← parts.1) (h parts.0)

step-IsBalanced :
    (workers : ℕ) (e : Event) (a a' : Admissions)
    → IsBalanced workers a
    → step e a ≡ some a'
    → IsBalanced workers a'
unfolding step
step-IsBalanced workers (begins call meets) a a' h e =
    rw (← some_inj e) (arrive-IsBalanced workers call meets a h)
step-IsBalanced workers (gets_slot call meets) a a' h e =
    guarded-IsBalanced workers (elem call a.waiting && ltb 0 a.free) _
      (λ b.
        let waited = stop_waiting-IsBalanced workers call a (ground (arith, b)) h in
        with_slot-IsBalanced workers call meets (take_slot (stop_waiting call a))
          (unfold stop_waiting in ground (arith, b, h.0), waited.1))
      e
step-IsBalanced workers (waits_too_long call) a a' h e =
    guarded-IsBalanced workers (elem call a.waiting) _
      (λ b. stop_waiting-IsBalanced workers call a b h) e
step-IsBalanced workers (wait_cancelled call) a a' h e =
    guarded-IsBalanced workers (elem call a.waiting) _
      (λ b. stop_waiting-IsBalanced workers call a b h) e
step-IsBalanced workers (thread_done call) a a' h e =
    guarded-IsBalanced workers (elem call a.admissions) _
      (λ b. (omega (arith, h.0, length-remove call a.admissions b), h.1)) e
step-IsBalanced workers (gives_up call) a a' h e =
    guarded-IsBalanced workers (elem call a.admissions) _ (λ b. h) e
step-IsBalanced workers closes a a' h e = rw (← some_inj e) h

-- At every point of every run, each admission slot is free or held by a thread that is still at
-- work, so that at most as many threads are at work as there are slots; and the counter of the
-- waiting calls is their number.
Reach-IsBalanced : (workers : ℕ) (a : Admissions) → Reach workers a → IsBalanced workers a
Reach-IsBalanced workers a start = (omega arith, refl)
Reach-IsBalanced workers a (next {a = before} r e s) =
    step-IsBalanced workers e before a (Reach-IsBalanced workers before r) s

elem_head : (x : ℕ) (xs : List ℕ) → elem x (x ∷ xs) ≡ true
elem_head x xs = ground arith

remove_head : (x : ℕ) (xs : List ℕ) → remove x (x ∷ xs) ≡ xs
remove_head x xs = ground arith

all_done-free :
    (workers : ℕ) (calls : List ℕ) (a : Admissions)
    → a.admissions ≡ calls
    → a.free + length calls ≡ workers
    → (a' : Admissions) × (all_done calls a ≡ some a') × (a'.free ≡ workers)
unfolding all_done step
all_done-free workers [] a same h = (a, refl, omega (arith, h))
all_done-free workers (call ∷ calls) a same h =
    let found : elem call a.admissions ≡ true = ap (elem call) same ∙ elem_head call calls in
    let left : remove call a.admissions ≡ calls = ap (remove call) same ∙ remove_head call calls in
    rw found (
      all_done-free workers calls
        (release_slot (record a { admissions = remove call a.admissions })) left (omega (arith, h)))

-- From every point of every run, when the threads that are at work have ended, all slots are free:
-- no call that was refused, timed out or gave up keeps one.
pub Reach-all_free :
    (workers : ℕ) (a : Admissions)
    → Reach workers a
    → (a' : Admissions) × (all_done a.admissions a ≡ some a') × (a'.free ≡ workers)
Reach-all_free workers a r =
    all_done-free workers a.admissions a refl (Reach-IsBalanced workers a r).0
