-- ===== src/Billing.antt =====
-- billing.service.ts, aggregatePeriodUsage of billing.repository.ts, and the model limits of
-- provider-capability.registry.ts: the token budget of an organisation. The database is an argument:
-- each operation returns a value or throws, and a write changes the state `S`.
pub mod Grouping
pub mod Budget
mod Tests
use Prim.Native.String.{String}
use text.Mathlib.Text.{◌==◌ as str_eq}
use proxy_ai.Base.{
  ℕ, zero, suc, ◌+◌, ◌-◌, ◌*◌, max, Bool, true, false, ◌&&◌, not, Option, none, some, List, [], ◌∷◌,
  ◌++◌, Result, ok, err, leb, ltb, ◌==◌, if◌then◌else◌, ite,
}
use proxy_ai.Providers.Types.{ProviderId, ProviderId-discrete, groq, gemini, third}
use proxy_ai.Providers.Retry.{is_safe_integer}

pub record ProviderModelCapability : Type 0 where
  pub model : String
  pub max_input_tokens : ℕ
  pub max_output_tokens : ℕ

-- The models of `createProviderCapabilityRegistry`, by provider; `none` is a missing entry.
pub registry_models : String → ProviderId → Option (List ProviderModelCapability)
registry_models groq_model groq =
    some (record { model = groq_model; max_input_tokens = 20000; max_output_tokens = 4096 } ∷ [])
registry_models groq_model gemini = none
registry_models groq_model third =
    some (record { model = "fake-model"; max_input_tokens = 20000; max_output_tokens = 4096 } ∷ [])

pub find_model : String → List ProviderModelCapability → Option ProviderModelCapability
find_model model [] = none
find_model model (m ∷ ms) = if str_eq m.model model then some m else find_model model ms

-- `none` is the `ProviderRegistryError` for an unknown provider or model.
pub get_provider_model_capability : String → ProviderId → String → Option ProviderModelCapability
unfolding registry_models find_model
get_provider_model_capability groq_model id model = elim (registry_models groq_model id) [
  | none ↦ none
  | some models ↦ find_model model models
]

pub record UsageGroup : Type 0 where
  pub provider_id : Option ProviderId
  pub model : Option String
  pub request_count : ℕ

pub record PeriodUsageAggregate : Type 0 where
  pub used_tokens : ℕ
  pub source_request_count : ℕ
  pub known_usage_count : ℕ
  pub unresolved_usage_groups : List UsageGroup

pub data RequestOutcomeStatus : Type 0 where
  completed_outcome failed_outcome interrupted_outcome blocked_outcome : RequestOutcomeStatus

-- A document of the request log, as far as the aggregation reads it. Times are milliseconds.
pub record RequestUsageRecord : Type 0 where
  pub org_id : ℕ
  pub status : RequestOutcomeStatus
  pub provider_id : Option ProviderId
  pub model : Option String
  pub input_tokens : Option ℕ
  pub output_tokens : Option ℕ
  pub total_tokens : Option ℕ
  pub created_at : ℕ

-- A row of the aggregation.
pub record UsageAggregationRow : Type 0 where
  pub provider_id : Option ProviderId
  pub model : Option String
  pub usage_known : Bool
  pub used_tokens : ℕ
  pub source_request_count : ℕ
  pub known_usage_count : ℕ

abbrev pub is_number : Option ℕ → Bool
is_number none = false
is_number (some n) = true

abbrev pub usage_known : RequestUsageRecord → Bool
usage_known l = is_number l.input_tokens && is_number l.output_tokens && is_number l.total_tokens

abbrev is_blocked : RequestOutcomeStatus → Bool
is_blocked blocked_outcome = true
is_blocked _ = false

-- The `$match`, for a period from a start up to, and without, its end.
abbrev pub is_in_period : ℕ → ℕ → ℕ → RequestUsageRecord → Bool
is_in_period org start end_ l =
    l.org_id == org && not (is_blocked l.status) && leb start l.created_at && ltb l.created_at end_

abbrev pub same_model : Option String → Option String → Bool
same_model none none = true
same_model (some m) (some n) = str_eq m n
same_model _ _ = false

abbrev pub same_provider : Option ProviderId → Option ProviderId → Bool
same_provider none none = true
same_provider (some i) (some j) = ite (ProviderId-discrete i j) true false
same_provider _ _ = false

abbrev same_bool : Bool → Bool → Bool
same_bool true b = b
same_bool false b = not b

-- The same `_id` of the `$group`.
abbrev pub is_group_of : RequestUsageRecord → UsageAggregationRow → Bool
is_group_of l row =
    same_model row.model l.model
    && same_provider row.provider_id l.provider_id
    && same_bool row.usage_known (usage_known l)

abbrev pub or_zero : Option ℕ → ℕ
or_zero none = 0
or_zero (some n) = n

abbrev pub one_if : Bool → ℕ
one_if true = 1
one_if false = 0

-- The `$group`: a document is added to the row of its group, or begins one.
pub add_to_group : RequestUsageRecord → List UsageAggregationRow → List UsageAggregationRow
add_to_group l [] =
    record {
      provider_id = l.provider_id;
      model = l.model;
      usage_known = usage_known l;
      used_tokens = or_zero l.total_tokens;
      source_request_count = 1;
      known_usage_count = one_if (usage_known l);
    }
    ∷ []
add_to_group l (row ∷ rows) =
    let rest = add_to_group l rows in
    if is_group_of l row
    then record row {
      used_tokens = row.used_tokens + or_zero l.total_tokens;
      source_request_count = row.source_request_count + 1;
      known_usage_count = row.known_usage_count + one_if (usage_known l);
    }
      ∷ rows
    else row ∷ rest

-- The pipeline, on the documents of the log. The order of the rows, which the database leaves open,
-- changes no sum of them.
pub aggregate_rows : ℕ → ℕ → ℕ → List RequestUsageRecord → List UsageAggregationRow
unfolding add_to_group
aggregate_rows org start end_ [] = []
aggregate_rows org start end_ (l ∷ logs) =
    let rows = aggregate_rows org start end_ logs in
    if is_in_period org start end_ l then add_to_group l rows else rows

abbrev add_row : PeriodUsageAggregate → UsageAggregationRow → PeriodUsageAggregate
add_row a row = record {
  used_tokens = a.used_tokens + row.used_tokens;
  source_request_count = a.source_request_count + row.source_request_count;
  known_usage_count = a.known_usage_count + row.known_usage_count;
  unresolved_usage_groups =
      if row.usage_known
      then a.unresolved_usage_groups
      else a.unresolved_usage_groups
        ++ record {
          provider_id = row.provider_id;
          model = row.model;
          request_count = row.source_request_count;
        }
          ∷ [];
}

-- The `reduce` of `aggregatePeriodUsage`.
pub reduce_rows : PeriodUsageAggregate → List UsageAggregationRow → PeriodUsageAggregate
reduce_rows a [] = a
reduce_rows a (row ∷ rows) = reduce_rows (add_row a row) rows

abbrev pub empty_aggregate : PeriodUsageAggregate
empty_aggregate = record {
  used_tokens = 0;
  source_request_count = 0;
  known_usage_count = 0;
  unresolved_usage_groups = [];
}

pub aggregate_period_usage : ℕ → ℕ → ℕ → List RequestUsageRecord → PeriodUsageAggregate
unfolding aggregate_rows reduce_rows
aggregate_period_usage org start end_ logs =
    reduce_rows empty_aggregate (aggregate_rows org start end_ logs)

-- Each is an `AppError` 503 `BUDGET_ACCOUNTING_UNAVAILABLE`, with its message.
pub data AccountingUnavailable : Type 0 where
  configuration_unavailable : AccountingUnavailable
  accounting_unavailable : AccountingUnavailable

-- What is thrown inside the `try` block: such an error, or any other.
pub data BudgetError : Type 0 where
  accounting : AccountingUnavailable → BudgetError
  other_error : BudgetError

-- The remaining share is a fraction of 100, not rounded.
pub record BudgetStatus : Type 0 where
  pub monthly_budget_tokens : ℕ
  pub used_tokens : ℕ
  pub reserved_tokens : Option ℕ
  pub budgeted_tokens : Option ℕ
  pub remaining_tokens : ℕ
  pub remaining_percent : ℕ × ℕ
  pub exceeded : Bool

pub create_budget_status : ℕ → ℕ → ℕ → Result BudgetError BudgetStatus
create_budget_status monthly used reserved =
    let budgeted = used + reserved in
    if not (is_safe_integer budgeted)
    then err (accounting accounting_unavailable)
    else ok (record {
      monthly_budget_tokens = monthly;
      used_tokens = used;
      reserved_tokens = if reserved == 0 then none else some reserved;
      budgeted_tokens = if reserved == 0 then none else some budgeted;
      remaining_tokens = monthly - budgeted;
      remaining_percent = if monthly == 0 then (0, 1) else ((monthly - budgeted) * 100, monthly);
      exceeded = leb monthly budgeted;
    })

module _ (groq_model : String) where
  -- The most tokens of a request to a model; `none` where the provider or the model is unknown.
  pub largest_usage : Option ProviderId → Option String → Option ℕ
  largest_usage none model = none
  largest_usage (some id) none = none
  largest_usage (some id) (some model) = elim (get_provider_model_capability groq_model id model) [
    | none ↦ none
    | some c ↦ some (c.max_input_tokens + c.max_output_tokens)
  ]

  -- The reservation for one group.
  pub group_reservation : UsageGroup → Option ℕ
  unfolding largest_usage
  group_reservation g = elim (largest_usage g.provider_id g.model) [
    | none ↦ none
    | some n ↦ some (n * g.request_count)
  ]

  pub calculate_unresolved_usage_reservation : ℕ → List UsageGroup → Result BudgetError ℕ
  unfolding group_reservation
  calculate_unresolved_usage_reservation total [] = ok total
  calculate_unresolved_usage_reservation total (g ∷ groups) = elim (group_reservation g) [
    | none ↦ err other_error
    | some r ↦
        let rest = calculate_unresolved_usage_reservation (total + r) groups in
        if is_safe_integer (total + r) then rest else err (accounting accounting_unavailable)
  ]

-- The database; each operation may throw. The request log is what the aggregation runs on. A rollup is the organisation's used tokens and requests.
pub record BillingRepository (S : Type 0) : Type 0 where
  pub find_organisation_budget : S → Result BudgetError (Option ℕ)
  pub request_log : S → Result BudgetError (List RequestUsageRecord)
  pub upsert_rollup : ℕ → ℕ → S → Result BudgetError S

-- The bounds are those of `getUtcBillingPeriodBounds`, the start of the month and of the next one.
module _ {S : Type 0} (repository : BillingRepository S) (groq_model : String)
    (org period_start period_end : ℕ) where
  -- The part of the `try` block behind the aggregation.
  pub budget_of_aggregate : ℕ → PeriodUsageAggregate → S → Result BudgetError BudgetStatus × S
  unfolding calculate_unresolved_usage_reservation create_budget_status
  budget_of_aggregate monthly a s =
      elim (calculate_unresolved_usage_reservation groq_model 0 a.unresolved_usage_groups) [
        | err e ↦ (err e, s)
        | ok reserved ↦
            elim (if reserved == 0
              then repository.upsert_rollup a.used_tokens a.source_request_count s
              else ok s) [
                | err e ↦ (err e, s)
                | ok s' ↦ (create_budget_status monthly a.used_tokens reserved, s')
              ]
      ]

  pub try_budget_status : S → Result BudgetError BudgetStatus × S
  unfolding budget_of_aggregate aggregate_period_usage
  try_budget_status s = elim (repository.find_organisation_budget s) [
    | err e ↦ (err e, s)
    | ok found ↦ elim found [
      | none ↦ (err (accounting configuration_unavailable), s)
      | some monthly ↦ elim (repository.request_log s) [
        | err e ↦ (err e, s)
        | ok logs ↦
            budget_of_aggregate monthly (aggregate_period_usage org period_start period_end logs) s
      ]
    ]
  ]

  -- The `catch` block.
  abbrev pub as_accounting :
      Result BudgetError BudgetStatus → Result AccountingUnavailable BudgetStatus
  as_accounting (ok b) = ok b
  as_accounting (err (accounting e)) = err e
  as_accounting (err other_error) = err accounting_unavailable

  pub read_authoritative_budget_status : S → Result AccountingUnavailable BudgetStatus × S
  unfolding try_budget_status
  read_authoritative_budget_status s = let (r, s') = try_budget_status s in (as_accounting r, s')
