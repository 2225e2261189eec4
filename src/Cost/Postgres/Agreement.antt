-- ===== src/Cost/Postgres/Agreement.antt =====
-- When the PostgreSQL ledger and the SQLite ledger of openai_compatible_bridge/core count the same
-- spend. Both are read as ways to store the same rows, each with its instant.
use openai_compatible_bridge.Prelude.{
  ℕ, ◌<◌, true, ◌&&◌, Option, none, some, String, List, [], ◌∷◌, map, All, ◌==◌, leb, ◌≡◌, ◌≢◌, ◌⊎◌,
  inl, inr, refl, sym, ap, arith, by_branches,
}
use openai_compatible_bridge.Cost.Ledger.{
  Instant, iso, Status, CostEvent, names_reserved, selected, cost_of, sum_where,
  sum_estimated_since as sqlite_sum,
}
use openai_compatible_bridge.Cost.Postgres.{
  stamp, is_reserved, counted_cost, sum_by, sum_estimated_since as postgres_sum,
}

abbrev pub Rows : Type 0
Rows = List (Instant × CostEvent)

-- A row as each of the two stores it.
abbrev pub sqlite_row : Instant × CostEvent → CostEvent
sqlite_row row = record row.1 { created_at = iso row.0 }

abbrev pub postgres_row : Instant × CostEvent → CostEvent
postgres_row row = record row.1 { created_at = stamp row.0 }

-- The instant is not on a whole second of which the cutoff is another part, or the other way round;
-- and a reservation has its forecast as its cost.
abbrev pub IsComparable : Instant → Instant × CostEvent → Type 0
IsComparable cutoff row =
    (row.0.micro < 1000000)
    × ((row.0.second ≢ cutoff.second) ⊎ ((row.0.micro == 0) ≡ (cutoff.micro == 0)))
    × (is_reserved row.1 ≡ true → row.1.forecast_cost_usd ≡ row.1.estimated_cost_usd)

same_order :
    (cutoff t : Instant)
    → cutoff.micro < 1000000
    → t.micro < 1000000
    → (t.second ≢ cutoff.second) ⊎ ((t.micro == 0) ≡ (cutoff.micro == 0))
    → leb (iso cutoff) (iso t) ≡ leb (stamp cutoff) (stamp t)
unfolding iso stamp
same_order cutoff t c m (inl ne) = ground (arith, ne)
same_order cutoff t c m (inr same) = ground (arith, same)

module _ (cutoff : Instant) (statuses : Option (List Status)) (providers : Option (List String))
    (c : cutoff.micro < 1000000) where
  selected-same :
      (row : Instant × CostEvent)
      → IsComparable cutoff row
      → selected (iso cutoff) statuses providers (sqlite_row row)
        ≡ selected (stamp cutoff) statuses providers (postgres_row row)
  selected-same row h = by_order statuses (same_order cutoff row.0 c h.0 h.1)
    where
      by_order :
          (ss : Option (List Status))
          → leb (iso cutoff) (iso row.0) ≡ leb (stamp cutoff) (stamp row.0)
          → selected (iso cutoff) ss providers (sqlite_row row)
            ≡ selected (stamp cutoff) ss providers (postgres_row row)
      by_order none o = unfold selected in rw o refl
      by_order (some ss) o = unfold selected in rw o refl

  cost-same :
      (row : Instant × CostEvent)
      → IsComparable cutoff row
      → cost_of (sqlite_row row) ≡ counted_cost statuses (postgres_row row)
  cost-same row h = by_status statuses
    where
      by_status : (ss : Option (List Status)) → cost_of row.1 ≡ counted_cost ss (postgres_row row)
      by_status none = unfold counted_cost in refl
      by_status (some ss) =
          unfold counted_cost in
          by_branches (λ (cost : ℕ). cost_of row.1 ≡ cost) (names_reserved ss && is_reserved row.1)
            (λ b.
              ap (λ (o : Option ℕ). elim o [ none ↦ 0 | some n ↦ n ])
                (sym (h.2 (ground (arith, b)))))
            (λ b. refl)

  sums_agree :
      (rows : Rows)
      → All (IsComparable cutoff) rows
      → sum_by
          (counted_cost statuses)
          (selected (stamp cutoff) statuses providers)
          (map postgres_row rows)
        ≡ sum_where (selected (iso cutoff) statuses providers) (map sqlite_row rows)
  unfolding sum_by sum_where
  sums_agree [] h = refl
  sums_agree (row ∷ rows) h =
      rw (selected-same row h.0) (rw (cost-same row h.0) (rw (sums_agree rows h.1) refl))

  -- The SQLite ledger and the PostgreSQL ledger, with the same rows, count the same spend since a
  -- cutoff, if no row's instant and the cutoff lie in the same second with just one of them on the
  -- whole second, and if every reservation has its forecast as its cost.
  pub sum_estimated_since_agrees :
      (rows : Rows)
      → All (IsComparable cutoff) rows
      → postgres_sum (stamp cutoff) statuses providers (map postgres_row rows)
        ≡ sqlite_sum (iso cutoff) statuses providers (map sqlite_row rows)
  unfolding postgres_sum sqlite_sum
  sum_estimated_since_agrees rows h = sums_agree rows h
