-- ===== src/Billing/Tests.antt =====
-- billing.service.ts: the theorem on the budget status, on a database that is written out.

use proxy_ai.Base.{
  ℕ, ◌+◌, ◌-◌, ◌≤◌, ◌<◌, ◌≡◌, ◌↔◌, ◌⊎◌, refl, true, false, none, some, List, [], ◌∷◌, ok,
}
use proxy_ai.Providers.Types.{groq}
use proxy_ai.Billing.{
  RequestUsageRecord, completed_outcome, interrupted_outcome, blocked_outcome, BudgetStatus,
  BillingRepository, read_authoritative_budget_status, get_provider_model_capability,
}
use proxy_ai.Billing.Budget.{budget_status_counts_all}
use proxy_ai.Billing.Grouping.{counted_requests, counted_tokens, counted_reserve}

abbrev logged : RequestUsageRecord
logged = record {
  org_id = 1;
  status = completed_outcome;
  provider_id = some groq;
  model = some "k";
  input_tokens = some 400;
  output_tokens = some 500;
  total_tokens = some 900;
  created_at = 150;
}

-- Of the period from 100 to 200: known usage, usage that is not known, a blocked request, one of
-- another organisation, and one of the next period.
abbrev logs : List RequestUsageRecord
logs =
    logged
    ∷ record logged {
      status = interrupted_outcome;
      model = some "m";
      output_tokens = none;
      total_tokens = none;
    }
    ∷ record logged { status = blocked_outcome }
    ∷ record logged { org_id = 2 }
    ∷ record logged { created_at = 200 }
    ∷ []

-- The state is the saved rollup.
abbrev database : BillingRepository (ℕ × ℕ)
database = record {
  find_organisation_budget = λ s. ok (some 100000);
  request_log = λ s. ok logs;
  upsert_rollup = λ tokens requests s. ok (tokens, requests);
}

abbrev expected : BudgetStatus
expected = record {
  monthly_budget_tokens = 100000;
  used_tokens = 900;
  reserved_tokens = some 24096;
  budgeted_tokens = some 24996;
  remaining_tokens = 75004;
  remaining_percent = (7500400, 100000);
  exceeded = false;
}

status_read : (read_authoritative_budget_status database "m" 1 100 200 (0, 0)).0 ≡ ok expected
unfolding read_authoritative_budget_status get_provider_model_capability
status_read = refl

budget_status_counts_all_example :
    let used = counted_tokens 1 100 200 logs in
    let requests = counted_requests 1 100 200 logs in
    let reserved = counted_reserve 1 100 200 "m" logs in
    let s' = (read_authoritative_budget_status database "m" 1 100 200 (0, 0)).1 in
    (expected.used_tokens ≡ used)
    × (expected.remaining_tokens ≡ 100000 - (used + reserved))
    × ((expected.exceeded ≡ true) ↔ (100000 ≤ used + reserved))
    × (((reserved ≡ 0) × (database.upsert_rollup used requests (0, 0) ≡ ok s'))
        ⊎ ((0 < reserved) × (s' ≡ (0, 0))))
budget_status_counts_all_example =
    budget_status_counts_all database "m" 1 100 200 100000 logs (0, 0) expected refl refl
      status_read
