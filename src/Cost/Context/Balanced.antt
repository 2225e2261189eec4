-- ===== src/Cost/Context/Balanced.antt =====
-- Each method of BudgetReservationContext (openai_compatible_bridge/core/cost_tracking.py) keeps the
-- balance of the reservations that it is given and those that it settles.
use mathlib.Core.List.{append-nil, append_assoc}
use openai_compatible_bridge.Prelude.{
  ◌≡◌, refl, sym, ap, ◌∙◌, inl, inr, Bool, true, false, Option, none, some, String, List, [], ◌∷◌,
  ◌++◌, arith, if◌then◌else◌, Option-cases, by_branches, by_option,
}
use openai_compatible_bridge.Prelude.Result.{Result, ok, err}
use openai_compatible_bridge.Usage.{NormalizedUsage}
use openai_compatible_bridge.Cost.Gate.{CostError, Reservation, Attempt}
use openai_compatible_bridge.Cost.Context.{
  Ending, released, Call, preflight, settlement, Context, Done, quiet, settle_as, admit, reopened,
  preflight_now, unless_finalized, aexit, finalize_interrupted_stream, complete_attempt,
  release_attempt, replace, renew_with, and_then, renew, Event, stream, saw_event, complete,
  estimate_for, enter_again, attempt_completed, attempt_released, interrupted, renewed, leave, step,
}

abbrev pub listed_reservation : Option Reservation → List Reservation
listed_reservation none = []
listed_reservation (some r) = r ∷ []

-- The reservations that the calls were given, and those that they settled.
unfoldable pub granted : List Call → List Reservation
granted [] = []
granted (preflight a (ok r) ∷ cs) = listed_reservation r ++ granted cs
granted (preflight a (err e) ∷ cs) = granted cs
granted (settlement r ending raised ∷ cs) = granted cs

unfoldable pub closed : List Call → List Reservation
closed [] = []
closed (preflight a answer ∷ cs) = closed cs
closed (settlement r ending true ∷ cs) = closed cs
closed (settlement r ending false ∷ cs) = listed_reservation r ++ closed cs

-- The reservation that a context still has to settle.
abbrev pub held : Context → List Reservation
held c = if c.finalized then [] else listed_reservation c.current_reservation

granted-append : (cs ds : List Call) → granted (cs ++ ds) ≡ granted cs ++ granted ds
unfolding granted
granted-append [] ds = refl
granted-append (preflight a (ok none) ∷ cs) ds = granted-append cs ds
granted-append (preflight a (ok (some r)) ∷ cs) ds = ap (λ rs. r ∷ rs) (granted-append cs ds)
granted-append (preflight a (err e) ∷ cs) ds = granted-append cs ds
granted-append (settlement r ending raised ∷ cs) ds = granted-append cs ds

closed-append : (cs ds : List Call) → closed (cs ++ ds) ≡ closed cs ++ closed ds
unfolding closed
closed-append [] ds = refl
closed-append (preflight a answer ∷ cs) ds = closed-append cs ds
closed-append (settlement r ending true ∷ cs) ds = closed-append cs ds
closed-append (settlement none ending false ∷ cs) ds = closed-append cs ds
closed-append (settlement (some r) ending false ∷ cs) ds = ap (λ rs. r ∷ rs) (closed-append cs ds)

-- A method keeps the balance: what was held and what it is given is what it settles and what is
-- held behind it. And it does not undo the first admission.
pub record IsBalanced (c : Context) (d : Done) : Type 0 where
  pub balance : held c ++ granted d.calls ≡ closed d.calls ++ held d.context
  pub prepared_still : c.preflight_done ≡ true → d.context.preflight_done ≡ true

settle_as-IsBalanced :
    (raises : Bool) (ending : Ending) (c : Context)
    → c.finalized ≡ false
    → IsBalanced c (settle_as raises ending c)
unfolding settle_as granted closed
settle_as-IsBalanced true ending c unsettled = record {
  balance = elim (Option-cases c.current_reservation) [
    | inl n ↦ rw (n, unsettled) refl
    | inr (r, s) ↦ rw (s, unsettled) refl
  ];
  prepared_still = λ p. p;
}
settle_as-IsBalanced false ending c unsettled = record {
  balance = elim (Option-cases c.current_reservation) [
    | inl n ↦ rw (n, unsettled) refl
    | inr (r, s) ↦ rw (s, unsettled) refl
  ];
  prepared_still = λ p. p;
}

quiet-IsBalanced :
    (c c' : Context)
    → held c ≡ held c'
    → c'.preflight_done ≡ c.preflight_done
    → IsBalanced c (quiet c')
unfolding quiet granted closed
quiet-IsBalanced c c' h p = record {
  balance = append-nil (held c) ∙ h;
  prepared_still = λ q. p ∙ q;
}

unless_finalized-IsBalanced :
    (raises : Bool) (ending : Ending) (c : Context)
    → IsBalanced c (unless_finalized raises ending c)
unfolding unless_finalized
unless_finalized-IsBalanced raises ending c =
    by_branches (IsBalanced c) c.finalized (λ f. quiet-IsBalanced c c refl refl)
      (settle_as-IsBalanced raises ending c)

-- An admission into a context that holds nothing.
admit-IsBalanced :
    (a : Attempt) (answer : Result CostError (Option Reservation)) (then_set : Context → Context)
    (c c' : Context)
    → held c ≡ []
    → held c' ≡ []
    → ((r : Option Reservation)
        → held (then_set (record c' { current_reservation = r })) ≡ listed_reservation r)
    → ((r : Option Reservation)
        → c.preflight_done ≡ true
        → (then_set (record c' { current_reservation = r })).preflight_done ≡ true)
    → c'.preflight_done ≡ c.preflight_done
    → IsBalanced c (admit a answer then_set c')
unfolding admit granted closed
admit-IsBalanced a (err e) then_set c c' n n' h p q = record {
  balance = append-nil (held c) ∙ n ∙ sym n';
  prepared_still = λ t. q ∙ t;
}
admit-IsBalanced a (ok r) then_set c c' n n' h p q = record {
  balance =
      ap (λ l. l ++ (listed_reservation r ++ [])) n ∙ append-nil (listed_reservation r) ∙ sym (h r);
  prepared_still = p r;
}

renew_with-IsBalanced :
    (answer : Result CostError (Option Reservation)) (model : String) (usage : NormalizedUsage)
    (provider : Option String) (c : Context)
    → held c ≡ []
    → IsBalanced c (renew_with answer model usage provider c)
unfolding renew_with
renew_with-IsBalanced answer model usage provider c n =
    by_branches (IsBalanced c) c.enabled
      (λ e. admit-IsBalanced _ answer reopened c _ n n (λ r. refl) (λ r t. t) refl)
      (λ e. quiet-IsBalanced c _ n refl)

replace-IsBalanced : (raises : Bool) (c : Context) → IsBalanced c (replace raises c)
unfolding replace
replace-IsBalanced raises c =
    by_option (IsBalanced c) c.current_reservation (λ n. quiet-IsBalanced c c refl refl)
      (λ r s.
        by_branches (IsBalanced c) c.finalized (λ f. quiet-IsBalanced c c refl refl)
          (settle_as-IsBalanced raises (released "replaced") c))

-- Nothing is held behind what does not raise.
abbrev pub ReleasesAll : Done → Type 0
ReleasesAll d = d.raised ≡ false → held d.context ≡ []

-- Behind the first statement of `renew` nothing is held.
replace-held : (raises : Bool) (c : Context) → ReleasesAll (replace raises c)
unfolding replace quiet settle_as
replace-held raises c =
    by_option ReleasesAll c.current_reservation (λ n _. ground (arith, n))
      (λ r s. by_branches ReleasesAll c.finalized (λ f _. ground (arith, f)) (λ f. settled raises))
  where
    settled : (raises : Bool) → ReleasesAll (settle_as raises (released "replaced") c)
    settled true h = cc
    settled false h = refl

chain :
    (h gd cd m ge ce e : List Reservation)
    → h ++ gd ≡ cd ++ m
    → m ++ ge ≡ ce ++ e
    → h ++ (gd ++ ge) ≡ (cd ++ ce) ++ e
chain h gd cd m ge ce e p q =
    sym (append_assoc h gd ge)
    ∙ ap (λ l. l ++ ge) p
    ∙ append_assoc cd m ge
    ∙ ap (λ l. cd ++ l) q
    ∙ sym (append_assoc cd ce e)

-- The calls of a second part come behind those of the first.
pub then-balance :
    (h m e : List Reservation) (cs ds : List Call)
    → h ++ granted cs ≡ closed cs ++ m
    → m ++ granted ds ≡ closed ds ++ e
    → h ++ granted (cs ++ ds) ≡ closed (cs ++ ds) ++ e
then-balance h m e cs ds p q =
    ap (λ l. h ++ l) (granted-append cs ds)
    ∙ chain h (granted cs) (closed cs) m (granted ds) (closed ds) e p q
    ∙ ap (λ l. l ++ e) (sym (closed-append cs ds))

and_then-IsBalanced :
    (c : Context) (d : Done) (f : Context → Done)
    → IsBalanced c d
    → (d.raised ≡ false → IsBalanced d.context (f d.context))
    → IsBalanced c (and_then d f)
unfolding and_then
and_then-IsBalanced c d f b h =
    by_branches (IsBalanced c) d.raised (λ r. b)
      (λ r.
        let k = h r in
        record {
          balance =
              then-balance (held c) (held d.context) (held (f d.context).context) d.calls
                (f d.context).calls b.balance k.balance;
          prepared_still = λ t. k.prepared_still (b.prepared_still t);
        })

pub step-IsBalanced : (e : Event) (c : Context) → c.preflight_done ≡ true → IsBalanced c (step e c)
unfolding step complete_attempt release_attempt finalize_interrupted_stream aexit renew
    preflight_now
step-IsBalanced stream c p = quiet-IsBalanced c _ refl refl
step-IsBalanced saw_event c p = quiet-IsBalanced c _ refl refl
step-IsBalanced (complete u) c p = quiet-IsBalanced c _ refl refl
step-IsBalanced (estimate_for reason) c p = quiet-IsBalanced c _ refl refl
step-IsBalanced (enter_again answer) c p =
    by_branches (IsBalanced c) c.preflight_done (λ d. quiet-IsBalanced c c refl refl) (λ d. cc)
step-IsBalanced (attempt_completed raises u reason) c p = unless_finalized-IsBalanced raises _ c
step-IsBalanced (attempt_released raises reason) c p = unless_finalized-IsBalanced raises _ c
step-IsBalanced (interrupted raises reason) c p = unless_finalized-IsBalanced raises _ c
step-IsBalanced (leave raises failed) c p = unless_finalized-IsBalanced raises _ c
step-IsBalanced (renewed raises answer model u provider) c p =
    and_then-IsBalanced c (replace raises c) (renew_with answer model u provider)
      (replace-IsBalanced raises c)
      (λ r. renew_with-IsBalanced answer model u provider _ (replace-held raises c r))
