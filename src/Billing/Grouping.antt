-- ===== src/Billing/Grouping.antt =====
-- billing.repository.ts: what the rows of `aggregatePeriodUsage` add up to over the request log.
use Prim.Native.String.{String}
use text.Mathlib.TextEquality.{eq_iff}
use proxy_ai.Base.{
  Bool, leb, ltb, ◌==◌, false, ℕ, ◌+◌, ◌*◌, ◌≡◌, refl, ap, true, ◌&&◌, not, Option, none, some,
  List, [], ◌∷◌, if◌then◌else◌, Bool-cases, Option-cases, inl, inr, arith,
}
use proxy_ai.Providers.Types.{ProviderId, ProviderId-discrete}
use proxy_ai.Billing.{
  RequestOutcomeStatus, completed_outcome, failed_outcome, interrupted_outcome, blocked_outcome,
  UsageGroup, RequestUsageRecord, UsageAggregationRow, usage_known, is_in_period, same_model,
  same_provider, is_group_of, or_zero, add_to_group, aggregate_rows, largest_usage, one_if,
  group_reservation,
}

abbrev pub row_group : UsageAggregationRow → UsageGroup
row_group row = record {
  provider_id = row.provider_id;
  model = row.model;
  request_count = row.source_request_count;
}

abbrev pub rows_used : List UsageAggregationRow → ℕ
rows_used [] = 0
rows_used (row ∷ rows) = row.used_tokens + rows_used rows

abbrev pub rows_requests : List UsageAggregationRow → ℕ
rows_requests [] = 0
rows_requests (row ∷ rows) = row.source_request_count + rows_requests rows

module _ (groq_model : String) where
  abbrev pub tokens_of : UsageGroup → ℕ
  tokens_of g = or_zero (group_reservation groq_model g)

  abbrev pub rows_reserved : List UsageAggregationRow → ℕ
  rows_reserved [] = 0
  rows_reserved (row ∷ rows) =
      (if row.usage_known then 0 else tokens_of (row_group row)) + rows_reserved rows

-- A provider has run for the request.
abbrev is_billed : RequestOutcomeStatus → Bool
is_billed completed_outcome = true
is_billed failed_outcome = true
is_billed interrupted_outcome = true
is_billed blocked_outcome = false

abbrev pub is_counted : ℕ → ℕ → ℕ → RequestUsageRecord → Bool
is_counted org start end_ l =
    is_billed l.status && l.org_id == org && leb start l.created_at && ltb l.created_at end_

abbrev pub lacks_usage : RequestUsageRecord → Bool
lacks_usage l = elim l.input_tokens [
  | none ↦ true
  | some i ↦ elim l.output_tokens [
    | none ↦ true
    | some o ↦ elim l.total_tokens [ none ↦ true | some t ↦ false ]
  ]
]

-- The requests of an organisation that are not blocked and were logged in the period, and the tokens
-- that they are known to have used.
module _ (org start end_ : ℕ) where
  abbrev pub counted_requests : List RequestUsageRecord → ℕ
  counted_requests [] = 0
  counted_requests (l ∷ logs) =
      (if is_counted org start end_ l then 1 else 0) + counted_requests logs

  abbrev pub counted_tokens : List RequestUsageRecord → ℕ
  counted_tokens [] = 0
  counted_tokens (l ∷ logs) =
      (if is_counted org start end_ l then or_zero l.total_tokens else 0) + counted_tokens logs

  -- For each of them whose usage is not known, the most tokens that its model allows.
  abbrev pub counted_reserve : String → List RequestUsageRecord → ℕ
  counted_reserve groq_model [] = 0
  counted_reserve groq_model (l ∷ logs) =
      (if is_counted org start end_ l && lacks_usage l
        then or_zero (largest_usage groq_model l.provider_id l.model)
        else 0)
      + counted_reserve groq_model logs

same_model-≡ : (x y : Option String) → same_model x y ≡ true → x ≡ y
same_model-≡ none none h = refl
same_model-≡ none (some n) h = absurd (ground arith)
same_model-≡ (some m) none h = absurd (ground arith)
same_model-≡ (some m) (some n) h = ap some ((eq_iff m n).0 h)

same_provider-≡ : (x y : Option ProviderId) → same_provider x y ≡ true → x ≡ y
same_provider-≡ none none h = refl
same_provider-≡ none (some n) h = absurd (ground arith)
same_provider-≡ (some m) none h = absurd (ground arith)
same_provider-≡ (some i) (some j) h = elim (ProviderId-discrete i j) [
  | yes e ↦ ap some e
  | no ne ↦ absurd (ground arith)
]

module _ (groq_model : String) where
  -- What a row reserves is the share of each of its requests.
  tokens_of-row :
      (row : UsageAggregationRow)
      → tokens_of groq_model (row_group row)
        ≡ or_zero (largest_usage groq_model row.provider_id row.model) * row.source_request_count
  unfolding group_reservation
  tokens_of-row row = elim (Option-cases (largest_usage groq_model row.provider_id row.model)) [
    | inl e ↦ ground arith
    | inr (n, e) ↦ ground arith
  ]

  abbrev largest : Option ProviderId → Option String → ℕ
  largest id model = or_zero (largest_usage groq_model id model)

  tokens_of_more :
      (row : UsageAggregationRow) (used known : ℕ)
      → tokens_of groq_model (
          row_group (record row {
            used_tokens = used;
            source_request_count = row.source_request_count + 1;
            known_usage_count = known;
          }))
        ≡ largest row.provider_id row.model + tokens_of groq_model (row_group row)
  tokens_of_more row used known =
      let before = tokens_of-row row in
      let after = tokens_of-row (record row {
        used_tokens = used;
        source_request_count = row.source_request_count + 1;
        known_usage_count = known;
      }) in
      rw (before, after) (product (largest row.provider_id row.model) row.source_request_count)
    where
      product : (n c : ℕ) → n * (c + 1) ≡ n + n * c
      product n c = grind arith

  tokens_of_one :
      (l : RequestUsageRecord)
      → tokens_of groq_model
          (record { provider_id = l.provider_id; model = l.model; request_count = 1 })
        ≡ largest l.provider_id l.model
  unfolding group_reservation
  tokens_of_one l = elim (Option-cases (largest_usage groq_model l.provider_id l.model)) [
    | inl e ↦ ground arith
    | inr (n, e) ↦ ground arith
  ]

  add_to_group-sums :
      (l : RequestUsageRecord) (rows : List UsageAggregationRow)
      → let rows' = add_to_group l rows in
        (rows_used rows' ≡ or_zero l.total_tokens + rows_used rows)
        × (rows_requests rows' ≡ 1 + rows_requests rows)
        × (rows_reserved groq_model rows'
            ≡ (if usage_known l
                then 0
                else or_zero (largest_usage groq_model l.provider_id l.model))
              + rows_reserved groq_model rows)
  unfolding add_to_group
  add_to_group-sums l [] = (refl, refl, ground (arith, tokens_of_one l))
  add_to_group-sums l (row ∷ rows) =
      let (used, requests, reserved) = add_to_group-sums l rows in
      elim (Bool-cases (is_group_of l row)) [
        | inr other ↦ (ground arith, ground arith, ground arith)
        | inl same ↦
            let model = same_model-≡ row.model l.model (ground arith) in
            let provider = same_provider-≡ row.provider_id l.provider_id (ground arith) in
            let more =
              tokens_of_more row (row.used_tokens + or_zero l.total_tokens)
                (row.known_usage_count + one_if (usage_known l)) in
            let share : largest row.provider_id row.model ≡ largest l.provider_id l.model =
              rw (model, provider) refl in
            (ground arith, ground arith, ground arith)
      ]

  in_period-counted :
      (org start end_ : ℕ) (l : RequestUsageRecord)
      → is_in_period org start end_ l ≡ is_counted org start end_ l
  in_period-counted org start end_ l = ground arith

  known-lacks : (l : RequestUsageRecord) → usage_known l ≡ not (lacks_usage l)
  known-lacks l = ground arith

  pub aggregate_rows-sums :
      (org start end_ : ℕ) (logs : List RequestUsageRecord)
      → let rows = aggregate_rows org start end_ logs in
        (rows_used rows ≡ counted_tokens org start end_ logs)
        × (rows_requests rows ≡ counted_requests org start end_ logs)
        × (rows_reserved groq_model rows ≡ counted_reserve org start end_ groq_model logs)
  unfolding aggregate_rows
  aggregate_rows-sums org start end_ [] = (refl, refl, refl)
  aggregate_rows-sums org start end_ (l ∷ logs) =
      let (used, requests, reserved) = aggregate_rows-sums org start end_ logs in
      let (u, q, r) = add_to_group-sums l (aggregate_rows org start end_ logs) in
      let same = in_period-counted org start end_ l in
      let known = known-lacks l in
      elim (Bool-cases (is_in_period org start end_ l)) [
        | inl e ↦ (ground arith, ground arith, ground arith)
        | inr e ↦ (ground arith, ground arith, ground arith)
      ]
