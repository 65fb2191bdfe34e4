-- ===== src/Policy/Tests.antt =====
-- policy-evaluator.ts: the theorems on decisions, at inputs on which their conditions hold.
use proxy_ai.Base.{◌≡◌, refl, true, false, [], ◌∷◌, ok}
use proxy_ai.Pii.Spans.{financial}
use proxy_ai.Policy.{
  PolicyEvaluationInput, PolicyDecision, assert_valid_evaluation_input, evaluate_policy,
}
use proxy_ai.Policy.Decision.{Decides, evaluate_policy-Decides}

abbrev risky : PolicyEvaluationInput
risky = record {
  sanitized_prompt = b'x' ∷ [];
  categories = financial ∷ [];
  spans = [];
  score = 35;
  budget_exceeded = false;
  thresholds = record { mask_threshold = 30; block_threshold = 70 };
}

abbrev swapped : PolicyEvaluationInput
swapped = record risky { thresholds = record { mask_threshold = 70; block_threshold = 30 } }

risky_valid : assert_valid_evaluation_input risky ≡ true
unfolding assert_valid_evaluation_input
risky_valid = refl

evaluate_policy-Decides_example :
    (d : PolicyDecision) × (evaluate_policy risky ≡ ok d) × Decides risky d
evaluate_policy-Decides_example = evaluate_policy-Decides risky risky_valid
