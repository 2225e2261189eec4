-- ===== src/Cost/Reconciliation.antt =====
-- ReconciliationJob of openai_compatible_bridge/core/cost_tracking.py, with
-- `record_reconciliation_result` of its SQLite repository. The billing export is an adapter outside
-- of the repository: its answer is an input. A day is its number since 1970.
pub mod Stored
mod Tests
use Prim.Native.String.{◌++◌ as text_append}
use openai_compatible_bridge.Prelude.{
  ℕ, ◌*◌, Bool, true, false, Option, none, some, String, List, [], ◌∷◌, ◌==◌, if◌then◌else◌, leb,
}
use openai_compatible_bridge.Prelude.Int.{ℤ, sub_ℕ, abs}
use openai_compatible_bridge.Prelude.Result.{Result, ok, err}
use openai_compatible_bridge.Cost.Ledger.{Instant, iso, CostEvents, daily_estimated_spend}

pub data ReconciliationStatus : Type 0 where
  unavailable error pending matched mismatch : ReconciliationStatus

pub record ReconciliationResult : Type 0 where
  pub day : ℕ
  pub wrapper_estimated_cost_usd : Option ℕ
  pub billing_export_cost : Option ℕ
  pub delta_usd : Option ℤ
  pub status : ReconciliationStatus
  pub checked_at : ℕ
  pub error_message : Option String

-- What `daily_cost` does: it raises one of two kinds of errors, has no cost yet, or returns a cost,
-- which is none where `_parse_decimal` raises.
pub data BillingAnswer : Type 0 where
  permission_denied failed : String → BillingAnswer
  not_yet : BillingAnswer
  cost : Option ℕ → BillingAnswer

-- `record_reconciliation_result`: a row for the day is replaced.
pub record_result : ReconciliationResult → List ReconciliationResult → List ReconciliationResult
record_result r [] = r ∷ []
record_result r (x ∷ xs) =
    let rest = record_result r xs in if x.day == r.day then r ∷ xs else x ∷ rest

abbrev pub midnight : ℕ → Instant
midnight day = record { second = day * 86400; micro = 0 }

-- The comparison of the two costs.
pub compared : ℕ → ℕ → ℕ → ℕ → ℕ → ReconciliationResult
compared tolerance checked_at day wrapper billed = record {
  day = day;
  wrapper_estimated_cost_usd = some wrapper;
  billing_export_cost = some billed;
  delta_usd = some (sub_ℕ wrapper billed);
  status = if leb (abs (sub_ℕ wrapper billed)) tolerance then matched else mismatch;
  checked_at = checked_at;
  error_message = none;
}

-- A result without a billed cost.
pub uncompared : ReconciliationStatus → Option String → ℕ → ℕ → Option ℕ → ReconciliationResult
uncompared status message checked_at day wrapper = record {
  day = day;
  wrapper_estimated_cost_usd = wrapper;
  billing_export_cost = none;
  delta_usd = none;
  status = status;
  checked_at = checked_at;
  error_message = message;
}

-- The result that `reconcile_day` stores; none when `_parse_decimal` raises, which it does not catch.
-- The first argument is none without an adapter.
pub reconciled : Option BillingAnswer → ℕ → ℕ → ℕ → ℕ → Option ReconciliationResult
reconciled none tolerance checked_at day wrapper =
    some
      (uncompared unavailable (some "billing export adapter is not configured") checked_at day none)
reconciled (some (permission_denied text)) tolerance checked_at day wrapper =
    some (
      uncompared error (some (text_append "permission denied: " text)) checked_at day
        (some wrapper))
reconciled (some (failed text)) tolerance checked_at day wrapper =
    some (uncompared error (some text) checked_at day (some wrapper))
reconciled (some not_yet) tolerance checked_at day wrapper =
    some (uncompared pending none checked_at day (some wrapper))
reconciled (some (cost none)) tolerance checked_at day wrapper = none
reconciled (some (cost (some billed))) tolerance checked_at day wrapper =
    some (compared tolerance checked_at day wrapper billed)

-- `reconcile_day`: the result, and the stored results behind it.
pub reconcile_day :
    Option BillingAnswer
    → ℕ
    → Instant
    → ℕ
    → CostEvents
    → List ReconciliationResult
    → Option ReconciliationResult × List ReconciliationResult
reconcile_day answer tolerance now day es results =
    let r =
      reconciled answer tolerance (iso now) day (daily_estimated_spend (midnight day) none es) in
    (r, elim r [ none ↦ results | some x ↦ record_result x results ])
