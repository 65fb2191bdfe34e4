-- ===== src/Policy/Decision.antt =====
-- policy-evaluator.ts: the three evaluators divide the inputs among them.
use proxy_ai.Base.{
  ◌≤◌, ◌<◌, ◌≡◌, ◌↔◌, ◌≢◌, Bool-cases, dec_lt, true, false, none, some, ok, err, length, arith, ◌⊎◌,
  inl, inr, subst,
}
use proxy_ai.Policy.{
  PolicyEvaluationInput, PolicyDecision, ReasonCode, allow, allow_with_mask, block,
  risk_below_mask_threshold, mask_threshold_reached, budget_exceeded_reason, high_risk_pii,
  invalid_policy_evaluation_input, assert_valid_evaluation_input, evaluate_allow,
  evaluate_allow_with_mask, evaluate_block, evaluate_policy,
}

-- The decision that an input calls for.
pub record Decides (i : PolicyEvaluationInput) (d : PolicyDecision) : Type 0 where
  pub blocks : (d.action ≡ block) ↔ ((i.budget_exceeded ≡ true) ⊎ (i.block_threshold ≤ i.score))
  pub masks :
      (d.action ≡ allow_with_mask)
      ↔ ((i.budget_exceeded ≡ false) × (i.mask_threshold ≤ i.score) × (i.score < i.block_threshold))
  pub allows : (d.action ≡ allow) ↔ ((i.budget_exceeded ≡ false) × (i.score < i.mask_threshold))
  pub reason_of_budget : (d.reason_code ≡ budget_exceeded_reason) ↔ (i.budget_exceeded ≡ true)
  pub prompt :
      (d.action ≡ allow_with_mask) × (d.provider_prompt ≡ some i.sanitized_prompt)
      ⊎ ((d.action ≢ allow_with_mask) × (d.provider_prompt ≡ none))
  pub same_score : d.risk_score ≡ i.score
  pub counted : d.detector_count ≡ length i.spans

module _ (i : PolicyEvaluationInput) (valid : assert_valid_evaluation_input i ≡ true) where
  blocked : (r : ReasonCode) → PolicyDecision
  blocked r = record {
    action = block;
    reason_code = r;
    provider_prompt = none;
    risk_score = i.score;
    categories = i.categories;
    detector_count = length i.spans;
  }

  blocks_budget :
      i.budget_exceeded ≡ true
      → (evaluate_policy i ≡ ok (blocked budget_exceeded_reason))
        × Decides i (blocked budget_exceeded_reason)
  unfolding evaluate_policy blocked
  blocks_budget e = (ground arith, ground arith)

  blocks_risk :
      i.budget_exceeded ≡ false
      → i.block_threshold ≤ i.score
      → (evaluate_policy i ≡ ok (blocked high_risk_pii)) × Decides i (blocked high_risk_pii)
  unfolding evaluate_policy blocked assert_valid_evaluation_input
  blocks_risk e h = (ground arith, ground arith)

  masked : PolicyDecision
  unfolding blocked
  masked = record (blocked high_risk_pii) {
    action = allow_with_mask;
    reason_code = mask_threshold_reached;
    provider_prompt = some i.sanitized_prompt;
  }

  masks_risk :
      i.budget_exceeded ≡ false
      → i.score < i.block_threshold
      → i.mask_threshold ≤ i.score
      → (evaluate_policy i ≡ ok masked) × Decides i masked
  unfolding evaluate_policy masked assert_valid_evaluation_input
  masks_risk e h k = (ground arith, ground arith)

  allowed : PolicyDecision
  unfolding blocked
  allowed = record (blocked high_risk_pii) {
    action = allow;
    reason_code = risk_below_mask_threshold;
  }

  allows_risk :
      i.budget_exceeded ≡ false
      → i.score < i.mask_threshold
      → (evaluate_policy i ≡ ok allowed) × Decides i allowed
  unfolding evaluate_policy allowed assert_valid_evaluation_input
  allows_risk e h = (ground arith, ground arith)

-- For every valid input there is a decision: a block where the budget is exceeded or the score
-- reaches the block threshold, else a mask where it reaches the mask threshold, and that decision
-- alone carries the sanitized prompt; else the prompt is allowed.
pub evaluate_policy-Decides :
    (i : PolicyEvaluationInput)
    → assert_valid_evaluation_input i ≡ true
    → (d : PolicyDecision) × (evaluate_policy i ≡ ok d) × Decides i d
evaluate_policy-Decides i valid = elim (Bool-cases i.budget_exceeded) [
  | inl e ↦ let (eq, d) = blocks_budget i valid e in (blocked i valid budget_exceeded_reason, eq, d)
  | inr e ↦ elim (dec_lt i.score i.block_threshold) [
    | no h ↦
        let (eq, d) = blocks_risk i valid e (omega arith) in (blocked i valid high_risk_pii, eq, d)
    | yes h ↦ elim (dec_lt i.score i.mask_threshold) [
      | yes k ↦ let (eq, d) = allows_risk i valid e k in (allowed i valid, eq, d)
      | no k ↦ let (eq, d) = masks_risk i valid e h (omega arith) in (masked i valid, eq, d)
    ]
  ]
]

-- Where a threshold or the score is out of range the evaluation throws, and so does each of the
-- three evaluators.
pub evaluate_policy_throws :
    (i : PolicyEvaluationInput)
    → (100 < i.block_threshold) ⊎ (i.block_threshold ≤ i.mask_threshold) ⊎ (100 < i.score)
    → (evaluate_policy i ≡ err invalid_policy_evaluation_input)
      × (evaluate_block i ≡ err invalid_policy_evaluation_input)
      × (evaluate_allow_with_mask i ≡ err invalid_policy_evaluation_input)
      × (evaluate_allow i ≡ err invalid_policy_evaluation_input)
unfolding evaluate_policy
evaluate_policy_throws i h = (ground arith, ground arith, ground arith, ground arith)

pub evaluate_policy-Decided :
    (i : PolicyEvaluationInput) (d : PolicyDecision) → evaluate_policy i ≡ ok d → Decides i d
unfolding evaluate_policy assert_valid_evaluation_input
evaluate_policy-Decided i d e =
    let valid : assert_valid_evaluation_input i ≡ true = ground arith in
    let (d', same, decided) = evaluate_policy-Decides i valid in
    let equal : d' ≡ d = cc in subst (λ x. Decides i x) equal decided
