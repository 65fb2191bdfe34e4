-- ===== src/Pii/Risk.antt =====
-- pii-risk-scorer.ts: a score from the number of distinct spans of each category.
use proxy_ai.Base.{
  ℕ, ◌+◌, ◌*◌, ◌<◌, ◌≡◌, ◌↔◌, refl, min, Bool, true, List, [], ◌∷◌, if◌then◌else◌, ltb, ◌==◌, arith,
}
use proxy_ai.Pii.Spans.{
  PiiCategory, contact_info, financial, government_id, credential, internal_secret,
  business_confidential, pii_categories, category_eq, PiiSpan,
}
use proxy_ai.Pii.Dedupe.{remove_exact_duplicates}

-- `PII_CATEGORY_WEIGHTS`.
abbrev pub weight_of : PiiCategory → ℕ
weight_of contact_info = 10
weight_of financial = 25
weight_of government_id = 30
weight_of credential = 40
weight_of internal_secret = 40
weight_of business_confidential = 20

pub record PiiRiskContribution : Type 0 where
  pub category : PiiCategory
  pub weight : ℕ
  pub span_count : ℕ
  pub subtotal : ℕ

pub record PiiRiskAssessment : Type 0 where
  pub score : ℕ
  pub uncapped_score : ℕ
  pub capped : Bool
  pub contributions : List PiiRiskContribution

-- The map of counts, where a missing category counts 0.
pub count_spans_by_category : (PiiCategory → ℕ) → List PiiSpan → PiiCategory → ℕ
count_spans_by_category counts [] = counts
count_spans_by_category counts (s ∷ spans) =
    count_spans_by_category (λ c. if category_eq c s.category then counts c + 1 else counts c) spans

pub contributions_from : (PiiCategory → ℕ) → List PiiCategory → List PiiRiskContribution
contributions_from counts [] = []
contributions_from counts (c ∷ cs) =
    let rest = contributions_from counts cs in
    if counts c == 0
    then rest
    else record {
      category = c;
      weight = weight_of c;
      span_count = counts c;
      subtotal = weight_of c * counts c;
    }
      ∷ rest

-- The `reduce`.
pub sum_subtotals : ℕ → List PiiRiskContribution → ℕ
sum_subtotals total [] = total
sum_subtotals total (c ∷ cs) = sum_subtotals (total + c.subtotal) cs

pub calculate_pii_risk : List PiiSpan → PiiRiskAssessment
unfolding count_spans_by_category contributions_from sum_subtotals
calculate_pii_risk spans =
    let counts = count_spans_by_category (λ c. 0) (remove_exact_duplicates spans) in
    let contributions = contributions_from counts pii_categories in
    let uncapped = sum_subtotals 0 contributions in
    record {
      score = min 100 uncapped;
      uncapped_score = uncapped;
      capped = ltb 100 uncapped;
      contributions = contributions;
    }

-- The weights of all spans, one by one.
abbrev pub total_weight : List PiiSpan → ℕ
total_weight [] = 0
total_weight (s ∷ spans) = weight_of s.category + total_weight spans

sum_subtotals-acc :
    (t : ℕ) (cs : List PiiRiskContribution) → sum_subtotals t cs ≡ t + sum_subtotals 0 cs
unfolding sum_subtotals
sum_subtotals-acc t [] = omega arith
sum_subtotals-acc t (c ∷ cs) =
    omega (arith, sum_subtotals-acc (t + c.subtotal) cs, sum_subtotals-acc (0 + c.subtotal) cs)

weigh : (PiiCategory → ℕ) → List PiiCategory → ℕ
weigh counts [] = 0
weigh counts (c ∷ cs) = weight_of c * counts c + weigh counts cs

sum_contributions :
    (counts : PiiCategory → ℕ) (cs : List PiiCategory)
    → sum_subtotals 0 (contributions_from counts cs) ≡ weigh counts cs
unfolding sum_subtotals contributions_from weigh
sum_contributions counts [] = refl
sum_contributions counts (c ∷ cs) = ground (
  arith,
  sum_contributions counts cs,
  sum_subtotals-acc (0 + weight_of c * counts c) (contributions_from counts cs),
)

weigh-increment :
    (counts : PiiCategory → ℕ) (d : PiiCategory)
    → weigh (λ c. if category_eq c d then counts c + 1 else counts c) pii_categories
      ≡ weigh counts pii_categories + weight_of d
unfolding weigh
weigh-increment counts contact_info = omega arith
weigh-increment counts _ = omega arith

weigh-count :
    (counts : PiiCategory → ℕ) (spans : List PiiSpan)
    → weigh (count_spans_by_category counts spans) pii_categories
      ≡ weigh counts pii_categories + total_weight spans
unfolding count_spans_by_category
weigh-count counts [] = omega arith
weigh-count counts (s ∷ spans) = omega (
  arith,
  weigh-count (λ c. if category_eq c s.category then counts c + 1 else counts c) spans,
  weigh-increment counts s.category,
)

-- The uncapped score is the sum of the weights of the spans, each distinct one counted once; the
-- score is that sum up to 100, and it is marked as capped exactly when the sum is larger.
pub calculate_pii_risk_sums :
    (spans : List PiiSpan)
    → let r = calculate_pii_risk spans in
      (r.uncapped_score ≡ total_weight (remove_exact_duplicates spans))
      × (r.score ≡ min r.uncapped_score 100)
      × ((r.capped ≡ true) ↔ (100 < r.uncapped_score))
unfolding calculate_pii_risk
calculate_pii_risk_sums spans =
    let distinct = remove_exact_duplicates spans in
    let counts = count_spans_by_category (λ c. 0) distinct in
    let total = sum_subtotals 0 (contributions_from counts pii_categories) in
    (
      omega (
        arith,
        sum_contributions counts pii_categories,
        weigh-count (λ c. 0) distinct,
        zero_weight,
      ),
      omega arith,
      (λ h. ground arith, λ h. ground arith),
    )
  where
    zero_weight : weigh (λ c. 0) pii_categories ≡ 0
    zero_weight = unfold weigh in refl
