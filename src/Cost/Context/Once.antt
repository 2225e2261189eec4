-- ===== src/Cost/Context/Once.antt =====
-- Each reservation of a BudgetReservationContext (openai_compatible_bridge/core/cost_tracking.py) is
-- settled once.
use mathlib.Core.List.{append-nil}
use openai_compatible_bridge.Prelude.{
  ◌≡◌, refl, sym, ap, ◌∙◌, Bool, true, false, Option, List, [], ◌++◌, arith, by_branches,
}
use openai_compatible_bridge.Prelude.Result.{Result, ok, err}
use openai_compatible_bridge.Cost.Gate.{CostError, Reservation, Attempt}
use openai_compatible_bridge.Cost.Context.{
  Ending, new_context, Call, Context, quiet, settle_as, admit, preflight_now, unless_finalized,
  aexit, Event, leave, step,
}
use openai_compatible_bridge.Cost.Context.Balanced.{
  listed_reservation, granted, closed, held, ReleasesAll, then-balance, step-IsBalanced,
}

-- The contexts and the calls of all runs: a context is made and entered, which does not raise, and
-- then used in any way.
pub data Run : Context → List Call → Type 0 where
  entered :
      (enabled : Bool) (a : Attempt) (answer : Result CostError (Option Reservation))
      → (preflight_now answer (new_context enabled a)).raised ≡ false
      → Run
          (preflight_now answer (new_context enabled a)).context
          (preflight_now answer (new_context enabled a)).calls
  used :
      {c : Context} {calls : List Call} (e : Event)
      → Run c calls
      → Run (step e c).context (calls ++ (step e c).calls)

record IsKept (c : Context) (calls : List Call) : Type 0 where
  balance : granted calls ≡ closed calls ++ held c
  is_prepared : c.preflight_done ≡ true

entered-IsKept :
    (enabled : Bool) (a : Attempt) (answer : Result CostError (Option Reservation))
    → (preflight_now answer (new_context enabled a)).raised ≡ false
    → IsKept
        (preflight_now answer (new_context enabled a)).context
        (preflight_now answer (new_context enabled a)).calls
unfolding preflight_now quiet admit granted closed
entered-IsKept false a answer h = record { balance = refl; is_prepared = refl }
entered-IsKept true a (ok r) h = record {
  balance = append-nil (listed_reservation r);
  is_prepared = refl;
}
entered-IsKept true a (err e) h = cc

Run-IsKept : {c : Context} {calls : List Call} → Run c calls → IsKept c calls
Run-IsKept (entered enabled a answer h) = entered-IsKept enabled a answer h
Run-IsKept (used {c} {calls} e r) =
    let k = Run-IsKept r in
    let b = step-IsBalanced e c k.is_prepared in
    record {
      balance =
          then-balance [] (held c) (held (step e c).context) calls (step e c).calls k.balance
            b.balance;
      is_prepared = b.prepared_still k.is_prepared;
    }

-- At every point of a run, the reservations that the context was given are, in this order, those
-- that it has settled and the one that it still holds.
Run-settled_or_held :
    (c : Context) (calls : List Call) → Run c calls → granted calls ≡ closed calls ++ held c
Run-settled_or_held c calls r = (Run-IsKept r).balance

leave-held :
    (raises failed : Bool) (c : Context)
    → (step (leave raises failed) c).raised ≡ false
    → held (step (leave raises failed) c).context ≡ []
unfolding step aexit unless_finalized quiet settle_as
leave-held raises failed c =
    by_branches ReleasesAll c.finalized (λ f _. ground (arith, f)) (λ f. settled raises _)
  where
    settled : (raises : Bool) (ending : Ending) → ReleasesAll (settle_as raises ending c)
    settled true ending h = cc
    settled false ending h = refl

-- When a run leaves its context, with an exception or without, and the settlement does not raise,
-- every reservation that the run was given has been settled exactly once, in the order in which they
-- were given.
pub Run-settles_once :
    (c : Context) (calls : List Call) (raises failed : Bool)
    → Run c calls
    → (step (leave raises failed) c).raised ≡ false
    → closed (calls ++ (step (leave raises failed) c).calls)
      ≡ granted (calls ++ (step (leave raises failed) c).calls)
Run-settles_once c calls raises failed r h =
    let k = Run-IsKept (used (leave raises failed) r) in
    sym (
      k.balance
      ∙ ap (λ l. closed (calls ++ (step (leave raises failed) c).calls) ++ l)
          (leave-held raises failed c h)
      ∙ append-nil (closed (calls ++ (step (leave raises failed) c).calls)))
