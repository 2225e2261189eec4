-- ===== src/Cost/Ledger.antt =====
-- The cost ledger: SQLiteCostRepository of openai_compatible_bridge/core/cost_tracking.py, with what
-- its SQL statements do to the table `cost_events`. A statement that fails is an input of the
-- callers; `none` is a statement that the table itself refuses.
-- An instant is a number of seconds since 1970 and of microseconds. The ledger stores the text that
-- `_iso` makes of it and compares texts: the number here is the place of the text in that order.
-- `isoformat` leaves out a fraction that is zero, and "." sorts before "Z", so the text of a whole
-- second stands behind those of all its fractions. Years have four digits.
pub mod Sums
pub mod Windows
mod Tests
use openai_compatible_bridge.Prelude.{
  ℕ, zero, suc, ◌+◌, ◌-◌, ◌*◌, ◌%◌, Bool, true, false, not, ◌&&◌, ◌||◌, Option, none, some, String,
  List, [], ◌∷◌, ◌++◌, ◌==◌, str_eq, leb, ltb, if◌then◌else◌, is_empty, count, take,
}
use openai_compatible_bridge.Usage.{NormalizedUsage}

pub record Instant : Type 0 where
  pub second : ℕ
  pub micro : ℕ

-- `_iso`
unfoldable pub iso : Instant → ℕ
iso t = t.second * 1000001 + (if t.micro == 0 then 1000000 else t.micro)

-- `timedelta(seconds=n)`, `timedelta(days=n)`
abbrev pub days : ℕ → ℕ
days n = n * 86400

-- `t - timedelta(seconds=n)` and `t + timedelta(seconds=n)`.
abbrev pub before : ℕ → Instant → Instant
before n t = record t { second = t.second - n }

abbrev pub later : ℕ → Instant → Instant
later n t = record t { second = t.second + n }

-- Midnight of the day, in UTC.
abbrev pub day_start : Instant → Instant
day_start t = record { second = t.second - t.second % 86400; micro = 0 }

-- The text in the status column.
pub data Status : Type 0 where
  reserved blocked finalized estimated_only : Status
  released : String → Status

-- Equality of the statuses that queries name.
abbrev pub same_status : Status → Status → Bool
same_status reserved reserved = true
same_status blocked blocked = true
same_status finalized finalized = true
same_status estimated_only estimated_only = true
same_status (released a) (released b) = str_eq a b
same_status _ _ = false

pub data LimitType : Type 0 where
  short_window daily : LimitType

-- A row of `cost_events`. Identifiers are numbers, `none` is NULL, money and times are as above.
pub record CostEvent : Type 0 where
  pub event_id : ℕ
  pub reservation_id : Option ℕ
  pub internal_request_id : Option ℕ
  pub provider : Option String
  pub endpoint : Option String
  pub model : Option String
  pub status : Option Status
  pub billing_eligible : Bool
  pub limit_type : Option LimitType
  pub usage : NormalizedUsage
  pub forecast_cost_usd : Option ℕ
  pub estimated_cost_usd : Option ℕ
  pub currency : Option String
  pub pricing_source : Option String
  pub pricing_version : Option String
  pub window_started_at : Option ℕ
  pub created_at : ℕ
  pub finalized_at : Option ℕ

-- The rows in the order of their insertion.
abbrev pub CostEvents : Type 0
CostEvents = List CostEvent

abbrev pub has_event : ℕ → CostEvents → Bool
has_event k [] = false
has_event k (e ∷ es) = k == e.event_id || has_event k es

-- `insert_event`, for a row that `prepare_event` has filled in: `event_id` is the primary key.
unfoldable pub insert_event : CostEvent → CostEvents → Option CostEvents
insert_event e es = if has_event e.event_id es then none else some (es ++ e ∷ [])

-- `status IN (…)`; NULL is in no list.
abbrev pub status_in : Option Status → List Status → Bool
status_in none ss = false
status_in (some s) [] = false
status_in (some s) (x ∷ ss) = same_status s x || status_in (some s) ss

-- `provider IN (…)`
abbrev pub provider_in : Option String → List String → Bool
provider_in none ps = false
provider_in (some p) [] = false
provider_in (some p) (x ∷ ps) = str_eq p x || provider_in (some p) ps

-- `_provider_filter_sql`: no list and the empty list filter nothing.
unfoldable pub provider_passes : Option (List String) → Option String → Bool
provider_passes none p = true
provider_passes (some []) p = true
provider_passes (some (x ∷ ps)) p = provider_in p (x ∷ ps)

-- The statuses that a spend counts.
abbrev pub spend_statuses : List Status
spend_statuses = reserved ∷ finalized ∷ estimated_only ∷ []

abbrev pub names_reserved : List Status → Bool
names_reserved [] = false
names_reserved (s ∷ ss) = same_status s reserved || names_reserved ss

-- The rows that `sum_estimated_since` selects.
unfoldable pub selected : ℕ → Option (List Status) → Option (List String) → CostEvent → Bool
unfolding provider_passes
selected cutoff none providers e =
    leb cutoff e.created_at && (e.billing_eligible && provider_passes providers e.provider)
selected cutoff (some ss) providers e =
    (leb cutoff e.created_at || names_reserved ss && status_in e.status (reserved ∷ []))
    && (e.billing_eligible && (status_in e.status ss && provider_passes providers e.provider))

abbrev pub cost_of : CostEvent → ℕ
cost_of e = elim (e.estimated_cost_usd) [ none ↦ 0 | some c ↦ c ]

-- The sum of the costs of the rows that pass a test.
unfoldable pub sum_where : (CostEvent → Bool) → CostEvents → ℕ
sum_where p [] = 0
sum_where p (e ∷ es) = let rest = sum_where p es in if p e then cost_of e + rest else rest

-- `sum_estimated_since`
unfoldable pub sum_estimated_since :
    ℕ → Option (List Status) → Option (List String) → CostEvents → ℕ
sum_estimated_since cutoff statuses providers es = sum_where (selected cutoff statuses providers) es

-- The rows of `daily_estimated_spend`, which counts a reservation only on its own day.
unfoldable pub on_day : ℕ → ℕ → Option (List String) → CostEvent → Bool
unfolding provider_passes
on_day start finish providers e =
    leb start e.created_at
    && (ltb e.created_at finish
        && (e.billing_eligible
            && (status_in e.status spend_statuses && provider_passes providers e.provider)))

-- `daily_estimated_spend`, for a day given by its midnight.
unfoldable pub daily_estimated_spend : Instant → Option (List String) → CostEvents → ℕ
daily_estimated_spend start providers es =
    sum_where (on_day (iso start) (iso (later (days 1) start)) providers) es

-- What `update_reservation` writes.
pub record Settlement : Type 0 where
  pub status : Status
  pub billing_eligible : Bool
  pub usage : NormalizedUsage
  pub estimated_cost_usd : ℕ
  pub finalized_at : ℕ

-- `usage.total_tokens or prompt + completion + embedding`
unfoldable pub total_or_sum : NormalizedUsage → ℕ
total_or_sum u =
    if u.total_tokens == 0
    then u.prompt_tokens + u.completion_tokens + u.embedding_tokens
    else u.total_tokens

-- The row after the UPDATE.
unfoldable pub settled : Settlement → CostEvent → CostEvent
unfolding total_or_sum
settled s e = record e {
  status = some s.status;
  billing_eligible = s.billing_eligible;
  usage = record s.usage { total_tokens = total_or_sum s.usage };
  estimated_cost_usd = some s.estimated_cost_usd;
  finalized_at = some s.finalized_at;
}

abbrev pub is_reservation : ℕ → CostEvent → Bool
is_reservation r e = elim (e.reservation_id) [ none ↦ false | some k ↦ r == k ]

unfoldable pub update_rows : ℕ → Settlement → CostEvents → CostEvents
update_rows r s [] = []
update_rows r s (e ∷ es) =
    let rest = update_rows r s es in if is_reservation r e then settled s e ∷ rest else e ∷ rest

-- `update_reservation`; none is its error when the UPDATE has not changed exactly one row.
unfoldable pub update_reservation : ℕ → Settlement → CostEvents → Option CostEvents
unfolding update_rows
update_reservation r s es =
    if count (is_reservation r) es == 1 then some (update_rows r s es) else none

-- The rows that `prune` keeps: those that are not too old, and reservations.
unfoldable pub retained : ℕ → CostEvent → Bool
retained cutoff e = leb cutoff e.created_at || status_in e.status (reserved ∷ [])

-- `prune` on `cost_events`, with its request cutoff.
unfoldable pub prune_events : ℕ → CostEvents → CostEvents
unfolding retained
prune_events cutoff [] = []
prune_events cutoff (e ∷ es) =
    let rest = prune_events cutoff es in if retained cutoff e then e ∷ rest else rest

-- `ORDER BY created_at ASC`
insert_by_age : CostEvent → CostEvents → CostEvents
insert_by_age e [] = e ∷ []
insert_by_age e (f ∷ fs) =
    let rest = insert_by_age e fs in if leb e.created_at f.created_at then e ∷ f ∷ fs else f ∷ rest

sort_by_age : CostEvents → CostEvents
unfolding insert_by_age
sort_by_age [] = []
sort_by_age (e ∷ es) = insert_by_age e (sort_by_age es)

-- `fetch_events`
unfoldable pub fetch_events : ℕ → CostEvents → CostEvents
unfolding sort_by_age
fetch_events limit es = take limit (sort_by_age es)
