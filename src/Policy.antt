-- ===== src/Policy.antt =====
-- policy-evaluator.ts and `evaluatePolicy` of chat.service.ts: what happens to a prompt, by its risk
-- score, the thresholds of the organisation and its token budget. Scores and thresholds are natural
-- numbers, so the tests for an integer and for a negative one have no part here.
pub mod Decision
mod Tests
use proxy_ai.Base.{
  ℕ, Bool, true, false, ◌&&◌, ◌||◌, not, Option, none, some, List, [], ◌∷◌, Result, ok, err, leb,
  ltb, if◌then◌else◌, length,
}
use proxy_ai.Pii.Spans.{PiiCategory, PiiSpan}

pub record Thresholds : Type 0 where
  pub mask_threshold : ℕ
  pub block_threshold : ℕ

-- The parts of the prompt's processing, the risk and the budget that the evaluator reads.
pub record PolicyEvaluationInput : Type 0 where
  pub sanitized_prompt : List ℕ
  pub categories : List PiiCategory
  pub spans : List PiiSpan
  pub score : ℕ
  pub budget_exceeded : Bool
  pub thresholds : Thresholds
  pub open thresholds use *

pub data PolicyAction : Type 0 where
  allow allow_with_mask block : PolicyAction

pub data ReasonCode : Type 0 where
  risk_below_mask_threshold mask_threshold_reached budget_exceeded_reason high_risk_pii : ReasonCode

-- The three decision types in one; only a masked one has a prompt for the provider.
pub record PolicyDecision : Type 0 where
  pub action : PolicyAction
  pub reason_code : ReasonCode
  pub provider_prompt : Option (List ℕ)
  pub risk_score : ℕ
  pub categories : List PiiCategory
  pub detector_count : ℕ

pub data PolicyError : Type 0 where
  invalid_policy_evaluation_input : PolicyError
  no_decision : PolicyError

pub assert_valid_evaluation_input : PolicyEvaluationInput → Bool
assert_valid_evaluation_input i =
    not (ltb 100 i.block_threshold || leb i.block_threshold i.mask_threshold || ltb 100 i.score)

abbrev decision :
    PolicyEvaluationInput → PolicyAction → ReasonCode → Option (List ℕ) → Option PolicyDecision
decision i action reason prompt = some (record {
  action = action;
  reason_code = reason;
  provider_prompt = prompt;
  risk_score = i.score;
  categories = i.categories;
  detector_count = length i.spans;
})

-- `none` is the source's `null`.
pub evaluate_allow : PolicyEvaluationInput → Result PolicyError (Option PolicyDecision)
unfolding assert_valid_evaluation_input
evaluate_allow i =
    if not (assert_valid_evaluation_input i)
    then err invalid_policy_evaluation_input
    else if i.budget_exceeded || leb i.mask_threshold i.score
    then ok none
    else ok (decision i allow risk_below_mask_threshold none)

pub evaluate_allow_with_mask : PolicyEvaluationInput → Result PolicyError (Option PolicyDecision)
unfolding assert_valid_evaluation_input
evaluate_allow_with_mask i =
    if not (assert_valid_evaluation_input i)
    then err invalid_policy_evaluation_input
    else if i.budget_exceeded || ltb i.score i.mask_threshold || leb i.block_threshold i.score
    then ok none
    else ok (decision i allow_with_mask mask_threshold_reached (some i.sanitized_prompt))

pub evaluate_block : PolicyEvaluationInput → Result PolicyError (Option PolicyDecision)
unfolding assert_valid_evaluation_input
evaluate_block i =
    if not (assert_valid_evaluation_input i)
    then err invalid_policy_evaluation_input
    else if not i.budget_exceeded && ltb i.score i.block_threshold
    then ok none
    else ok (
        decision i block (if i.budget_exceeded then budget_exceeded_reason else high_risk_pii) none)

-- `a ?? b`, where either may throw.
infixr 20 ◌or_else◌
abbrev ◌or_else◌ :
    Result PolicyError (Option PolicyDecision)
    → Result PolicyError (Option PolicyDecision)
    → Result PolicyError (Option PolicyDecision)
err e or_else r = err e
ok (some d) or_else r = ok (some d)
ok none or_else r = r

abbrev some_decision :
    Result PolicyError (Option PolicyDecision) → Result PolicyError PolicyDecision
some_decision (err e) = err e
some_decision (ok none) = err no_decision
some_decision (ok (some d)) = ok d

pub evaluate_policy : PolicyEvaluationInput → Result PolicyError PolicyDecision
unfolding evaluate_block evaluate_allow_with_mask evaluate_allow
evaluate_policy i =
    some_decision (evaluate_block i or_else evaluate_allow_with_mask i or_else evaluate_allow i)
