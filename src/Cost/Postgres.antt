-- ===== src/Cost/Postgres.antt =====
-- PostgresCostRepository of openai_compatible_bridge/core/postgres_cost_repository.py: what its
-- statements do to the table `cost_events`. The rows are those of the SQLite ledger, but times are
-- TIMESTAMPTZ values, here a number of microseconds, and are compared as such. Connections,
-- transactions, the schema and the column reconciliation_status, which nothing sets, are left out; a value that does not fit its column is refused before.
mod Agreement
mod Again
mod Tests
use openai_compatible_bridge.Prelude.{
  ℕ, zero, suc, ◌+◌, ◌*◌, Bool, true, false, not, ◌&&◌, ◌||◌, Option, none, some, String, List, [],
  ◌∷◌, ◌++◌, ◌==◌, str_eq, leb, ltb, if◌then◌else◌, take, is_some, count,
}
use openai_compatible_bridge.Prelude.Result.{Result, ok, err, guard, ◌>>◌}
use openai_compatible_bridge.Usage.{NormalizedUsage}
use openai_compatible_bridge.Cost.Ledger.{
  Instant, Status, reserved, blocked, finalized, estimated_only, released, same_status, LimitType,
  short_window, daily, CostEvent, CostEvents, status_in, names_reserved, selected, cost_of,
  spend_statuses, on_day, sum_where, Settlement, total_or_sum, update_rows, prune_events, days,
  later,
}
use openai_compatible_bridge.Cost.Ledger.Sums.{find_reservation}

-- A TIMESTAMPTZ value.
unfoldable pub stamp : Instant → ℕ
stamp t = t.second * 1000000 + t.micro

-- CostLedgerValidationError, by its cause.
pub data LedgerError : Type 0 where
  invalid_reservation event_conflict reservation_in_use unknown_reservation : LedgerError
  unsupported_status settlement_conflict : LedgerError

abbrev pub is_reserved : CostEvent → Bool
is_reserved e = status_in e.status (reserved ∷ [])

abbrev pub same_option {ℓ} : {A : Type ℓ} → (A → A → Bool) → Option A → Option A → Bool
same_option eq none none = true
same_option eq (some a) (some b) = eq a b
same_option eq _ _ = false

abbrev pub same_number : ℕ → ℕ → Bool
same_number a b = a == b

abbrev pub same_bool : Bool → Bool → Bool
same_bool true b = b
same_bool false b = not b

abbrev pub same_limit : LimitType → LimitType → Bool
same_limit short_window short_window = true
same_limit daily daily = true
same_limit _ _ = false

unfoldable pub same_usage : NormalizedUsage → NormalizedUsage → Bool
same_usage u v =
    u.prompt_tokens == v.prompt_tokens
    && u.completion_tokens == v.completion_tokens
    && u.total_tokens == v.total_tokens
    && u.embedding_tokens == v.embedding_tokens
    && u.rerank_units == v.rerank_units

-- `_same_fields`, on the fields of a row.
unfoldable pub same_event : CostEvent → CostEvent → Bool
same_event e f =
    e.event_id == f.event_id
    && same_option same_number e.reservation_id f.reservation_id
    && same_option same_number e.internal_request_id f.internal_request_id
    && same_option str_eq e.provider f.provider
    && same_option str_eq e.endpoint f.endpoint
    && same_option str_eq e.model f.model
    && same_option same_status e.status f.status
    && same_bool e.billing_eligible f.billing_eligible
    && same_option same_limit e.limit_type f.limit_type
    && same_usage e.usage f.usage
    && same_option same_number e.forecast_cost_usd f.forecast_cost_usd
    && same_option same_number e.estimated_cost_usd f.estimated_cost_usd
    && same_option str_eq e.currency f.currency
    && same_option str_eq e.pricing_source f.pricing_source
    && same_option str_eq e.pricing_version f.pricing_version
    && same_option same_number e.window_started_at f.window_started_at
    && e.created_at == f.created_at
    && same_option same_number e.finalized_at f.finalized_at

-- The test of `prepare_event` on a reservation.
unfoldable pub is_prepared : CostEvent → Bool
is_prepared e =
    not (is_reserved e)
    || is_some e.reservation_id
      && e.billing_eligible
      && is_some e.forecast_cost_usd
      && same_option same_number e.forecast_cost_usd e.estimated_cost_usd

unfoldable pub find_event : ℕ → CostEvents → Option CostEvent
find_event k [] = none
find_event k (e ∷ es) = let rest = find_event k es in if k == e.event_id then some e else rest

-- The reservation's identifier, if the row has one, is that of a row.
unfoldable pub is_in_use : Option ℕ → CostEvents → Bool
is_in_use none es = false
is_in_use (some r) es = is_some (find_reservation r es)

abbrev pub with_time_of : Bool → CostEvent → CostEvent → CostEvent
with_time_of true stored e = e
with_time_of false stored e = record e { created_at = stored.created_at }

-- `insert_event`: the row that is stored, and the table. `timed` tells whether the caller gave
-- `created_at`.
unfoldable pub insert_event :
    Bool → CostEvent → CostEvents → Result LedgerError (CostEvent × CostEvents)
insert_event timed e es =
    guard (is_prepared e) invalid_reservation >> (elim (find_event e.event_id es) [
      | some stored ↦
          if same_event (with_time_of timed stored e) stored
          then ok (stored, es)
          else err event_conflict
      | none ↦
          if is_in_use e.reservation_id es then err reservation_in_use else ok (e, es ++ e ∷ [])
    ])

-- What a selected row counts for: the forecast of a reservation, where the query names reservations.
unfoldable pub counted_cost : Option (List Status) → CostEvent → ℕ
counted_cost none e = cost_of e
counted_cost (some ss) e =
    if names_reserved ss && is_reserved e
    then elim (e.forecast_cost_usd) [ none ↦ 0 | some c ↦ c ]
    else cost_of e

-- `COALESCE(SUM(cost), 0)` over the rows that pass a test.
unfoldable pub sum_by : (CostEvent → ℕ) → (CostEvent → Bool) → CostEvents → ℕ
sum_by cost p [] = 0
sum_by cost p (e ∷ es) = let rest = sum_by cost p es in if p e then cost e + rest else rest

-- `sum_estimated_since`; the WHERE clause is that of the SQLite ledger.
unfoldable pub sum_estimated_since :
    ℕ → Option (List Status) → Option (List String) → CostEvents → ℕ
sum_estimated_since cutoff statuses providers es =
    sum_by (counted_cost statuses) (selected cutoff statuses providers) es

-- `daily_estimated_spend`, for a day given by its midnight.
unfoldable pub daily_estimated_spend : Instant → Option (List String) → CostEvents → ℕ
daily_estimated_spend start providers es =
    sum_where (on_day (stamp start) (stamp (later (days 1) start)) providers) es

-- The statuses that settle a reservation.
abbrev pub settles : Status → Bool
settles reserved = false
settles blocked = false
settles finalized = true
settles estimated_only = true
settles (released reason) = true

-- `_same_fields` of the changes and a row; `finalized_at` is not among the changes.
unfoldable pub same_changes : Settlement → CostEvent → Bool
same_changes s e =
    same_option same_status (some s.status) e.status
    && same_bool s.billing_eligible e.billing_eligible
    && same_usage (record s.usage { total_tokens = total_or_sum s.usage }) e.usage
    && same_option same_number (some s.estimated_cost_usd) e.estimated_cost_usd

unfoldable pub settle_row :
    ℕ → Settlement → Option CostEvent → CostEvents → Result LedgerError CostEvents
settle_row r s none es = err unknown_reservation
settle_row r s (some e) es =
    if is_reserved e
    then ok (update_rows r s es)
    else if same_changes s e
    then ok es
    else err settlement_conflict

-- `update_reservation`
unfoldable pub update_reservation : ℕ → Settlement → CostEvents → Result LedgerError CostEvents
update_reservation r s es =
    if settles s.status then settle_row r s (find_reservation r es) es else err unsupported_status

-- `prune` on `cost_events`: the rows older than the cutoff go, but for reservations.
unfoldable pub prune : ℕ → CostEvents → CostEvents
prune cutoff es = prune_events cutoff es

-- `ORDER BY created_at ASC, event_id ASC`
abbrev pub goes_before : CostEvent → CostEvent → Bool
goes_before e f =
    ltb e.created_at f.created_at || e.created_at == f.created_at && leb e.event_id f.event_id

unfoldable pub insert_in_order : CostEvent → CostEvents → CostEvents
insert_in_order e [] = e ∷ []
insert_in_order e (f ∷ fs) =
    let rest = insert_in_order e fs in if goes_before e f then e ∷ f ∷ fs else f ∷ rest

unfoldable pub in_order : CostEvents → CostEvents
in_order [] = []
in_order (e ∷ es) = insert_in_order e (in_order es)

unfoldable pub fetch_events : ℕ → CostEvents → CostEvents
fetch_events limit es = take limit (in_order es)
