-- ===== src/Billing/Budget.antt =====
-- billing.service.ts: the budget status counts every request of the period that was not blocked.
use Prim.Native.String.{String}
use proxy_ai.Base.{
  ℕ, ◌+◌, ◌-◌, ◌≤◌, ◌<◌, ◌≡◌, ◌↔◌, refl, sym, ap, ◌∙◌, ◌⊎◌, inl, inr, true, some, List, [], ◌∷◌,
  ◌++◌, Result, ok, err, ◌==◌, Bool-cases, Option-cases, Result-cases, arith,
}
use proxy_ai.Billing.{
  UsageGroup, PeriodUsageAggregate, UsageAggregationRow, RequestUsageRecord, aggregate_rows,
  aggregate_period_usage, empty_aggregate, add_row, reduce_rows, BudgetError, accounting,
  other_error, BudgetStatus, create_budget_status, group_reservation,
  calculate_unresolved_usage_reservation, BillingRepository, budget_of_aggregate, try_budget_status,
  read_authoritative_budget_status, as_accounting,
}
use proxy_ai.Billing.Grouping.{
  row_group, rows_used, rows_requests, rows_reserved, tokens_of, counted_requests, counted_tokens,
  counted_reserve, aggregate_rows-sums,
}

module _ (groq_model : String) where
  sum_groups : List UsageGroup → ℕ
  sum_groups [] = 0
  sum_groups (g ∷ groups) = tokens_of groq_model g + sum_groups groups

  sum_groups-snoc :
      (groups : List UsageGroup) (g : UsageGroup)
      → sum_groups (groups ++ g ∷ []) ≡ sum_groups groups + tokens_of groq_model g
  unfolding sum_groups
  sum_groups-snoc [] g = omega arith
  sum_groups-snoc (h ∷ groups) g = omega (arith, sum_groups-snoc groups g)

  reduce_rows-totals :
      (a : PeriodUsageAggregate) (rows : List UsageAggregationRow)
      → ((reduce_rows a rows).used_tokens ≡ a.used_tokens + rows_used rows)
        × ((reduce_rows a rows).source_request_count ≡ a.source_request_count + rows_requests rows)
        × (sum_groups (reduce_rows a rows).unresolved_usage_groups
            ≡ sum_groups a.unresolved_usage_groups + rows_reserved groq_model rows)
  unfolding reduce_rows
  reduce_rows-totals a [] = omega arith
  reduce_rows-totals a (row ∷ rows) =
      let (used, count, groups) = reduce_rows-totals (add_row a row) rows in
      (
        omega arith,
        omega arith,
        ground (arith, groups, sum_groups-snoc a.unresolved_usage_groups (row_group row)),
      )

  reservation-sum :
      (total : ℕ) (groups : List UsageGroup) (r : ℕ)
      → calculate_unresolved_usage_reservation groq_model total groups ≡ ok r
      → r ≡ total + sum_groups groups
  unfolding calculate_unresolved_usage_reservation sum_groups
  reservation-sum total [] r h = ground arith
  reservation-sum total (g ∷ groups) r h = elim (Option-cases (group_reservation groq_model g)) [
    | inl e ↦ absurd (ground arith)
    | inr (x, e) ↦ let next = reservation-sum (total + x) groups r in ground (arith, next)
  ]

module _ {S : Type 0} (repository : BillingRepository S) (groq_model : String)
    (org period_start period_end : ℕ) where
  budget_of_aggregate-ok :
      (monthly : ℕ) (a : PeriodUsageAggregate) (s : S) (b : BudgetStatus)
      → (budget_of_aggregate repository groq_model org period_start period_end monthly a s).0 ≡ ok b
      → let r = sum_groups groq_model a.unresolved_usage_groups in
        let s' =
          (budget_of_aggregate repository groq_model org period_start period_end monthly a s).1 in
        (b.used_tokens ≡ a.used_tokens)
        × (b.remaining_tokens ≡ monthly - (a.used_tokens + r))
        × ((b.exceeded ≡ true) ↔ (monthly ≤ a.used_tokens + r))
        × (((r ≡ 0) × (repository.upsert_rollup a.used_tokens a.source_request_count s ≡ ok s'))
            ⊎ ((0 < r) × (s' ≡ s)))
  unfolding budget_of_aggregate create_budget_status
  budget_of_aggregate-ok monthly a s b h =
      elim (Result-cases
        (calculate_unresolved_usage_reservation groq_model 0 a.unresolved_usage_groups)) [
          | inr (e, bad) ↦ absurd (ground arith)
          | inl (r, good) ↦
              let sum = reservation-sum groq_model 0 a.unresolved_usage_groups r good in
              elim (Bool-cases (r == 0)) [
                | inl z ↦
                    elim (Result-cases
                      (repository.upsert_rollup a.used_tokens a.source_request_count s)) [
                        | inr (e, bad) ↦ absurd (ground arith)
                        | inl (s', saved) ↦ (
                          ground arith,
                          ground arith,
                          (λ k. ground arith, λ k. ground arith),
                          inl (ground arith, ground arith),
                        )
                      ]
                | inr nz ↦ (
                  ground arith,
                  ground arith,
                  (λ k. ground arith, λ k. ground arith),
                  inr (ground arith, ground arith),
                )
              ]
        ]

  try_budget_status-found :
      (monthly : ℕ) (logs : List RequestUsageRecord) (s : S)
      → repository.find_organisation_budget s ≡ ok (some monthly)
      → repository.request_log s ≡ ok logs
      → try_budget_status repository groq_model org period_start period_end s
        ≡ budget_of_aggregate repository groq_model org period_start period_end monthly
            (aggregate_period_usage org period_start period_end logs)
            s
  unfolding try_budget_status
  try_budget_status-found monthly logs s found listed =
      rw (found, try_budget_status) (rw listed refl)

  as_accounting-ok :
      (r : Result BudgetError BudgetStatus) (b : BudgetStatus)
      → as_accounting repository groq_model org period_start period_end r ≡ ok b
      → r ≡ ok b
  as_accounting-ok (ok b') b h = ground arith
  as_accounting-ok (err (accounting e)) b h = absurd (ground arith)
  as_accounting-ok (err other_error) b h = absurd (ground arith)

  -- A status that is read tells the tokens that the organisation's requests of the period are known to
  -- have used, of all that were logged but the blocked ones; each of them whose usage is not known
  -- counts the most that its model allows. The budget is exceeded exactly when both together reach it.
  -- The rollup is saved only where that leaves nothing to reserve.
  pub budget_status_counts_all :
      (monthly : ℕ) (logs : List RequestUsageRecord) (s : S) (b : BudgetStatus)
      → repository.find_organisation_budget s ≡ ok (some monthly)
      → repository.request_log s ≡ ok logs
      → (read_authoritative_budget_status repository groq_model org period_start period_end s).0
        ≡ ok b
      → let used = counted_tokens org period_start period_end logs in
        let requests = counted_requests org period_start period_end logs in
        let reserved = counted_reserve org period_start period_end groq_model logs in
        let s' =
          (read_authoritative_budget_status repository groq_model org period_start period_end
            s).1 in
        (b.used_tokens ≡ used)
        × (b.remaining_tokens ≡ monthly - (used + reserved))
        × ((b.exceeded ≡ true) ↔ (monthly ≤ used + reserved))
        × (((reserved ≡ 0) × (repository.upsert_rollup used requests s ≡ ok s'))
            ⊎ ((0 < reserved) × (s' ≡ s)))
  unfolding read_authoritative_budget_status sum_groups aggregate_period_usage
  budget_status_counts_all monthly logs s b found listed h =
      let rows = aggregate_rows org period_start period_end logs in
      let a = aggregate_period_usage org period_start period_end logs in
      let same = try_budget_status-found monthly logs s found listed in
      let good =
        as_accounting-ok (try_budget_status repository groq_model org period_start period_end s).0 b
          h in
      let (used, remaining, exceeded, saved) =
        budget_of_aggregate-ok monthly a s b (ap (λ r. r.0) (sym same) ∙ good) in
      let (total, requests, reserved) = reduce_rows-totals groq_model empty_aggregate rows in
      let (tokens, count, reserve) =
        aggregate_rows-sums groq_model org period_start period_end logs in
      (
        omega arith,
        omega arith,
        (λ k. ground (arith, exceeded.0 k), λ k. exceeded.1 (omega arith)),
        ground arith,
      )
