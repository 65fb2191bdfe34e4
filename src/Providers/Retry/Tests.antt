-- ===== src/Providers/Retry/Tests.antt =====
-- provider-retry.policy.ts: the theorems on retries, at inputs on which their conditions hold.

use proxy_ai.Base.{
  ℕ, ◌+◌, ◌≤◌, ◌<◌, ◌≡◌, ◌↔◌, ◌⊎◌, refl, true, false, none, some, Result, ok, err, ltb,
  if◌then◌else◌, arith,
}
use proxy_ai.Providers.Types.{groq, timeout, invalid_request, ProviderError, Thrown, provider}
use proxy_ai.Providers.Retry.{
  default_provider_retry_policy, floor_of, should_retry_provider_error, calculate_retry_delay_ms,
  RetryEffects, is_retried, retry_provider_operation, assert_valid_retry_policy,
}
use proxy_ai.Providers.Retry.Delay.{IsTransient, should_retry_iff, calculate_retry_delay_bounds}
use proxy_ai.Providers.Retry.Loop.{calls-retry_le, IsLastError, retry_error_is_last, retry_recovers}

abbrev slow : ProviderError
slow = record { category = timeout; provider_id = groq; retryable = true; status_code = none }

abbrev refused : ProviderError
refused = record {
  category = invalid_request;
  provider_id = groq;
  retryable = false;
  status_code = some 400;
}

default_policy_valid : assert_valid_retry_policy default_provider_retry_policy ≡ true
unfolding assert_valid_retry_policy
default_policy_valid = refl

should_retry_iff_example :
    (should_retry_provider_error slow ≡ true) ↔ ((true ≡ true) × IsTransient slow)
should_retry_iff_example = should_retry_iff slow

calculate_retry_delay_bounds_example :
    ((◌≡◌ {A = ℕ} 500 0)
      × (1024 < 4)
      × (calculate_retry_delay_ms 4 default_provider_retry_policy (floor_of 400) ≡ none))
    ⊎ ((d : ℕ) × (calculate_retry_delay_ms 4 default_provider_retry_policy (floor_of 400) ≡ some d)
        × (500 ≤ d)
        × (d ≤ 4250))
calculate_retry_delay_bounds_example =
    calculate_retry_delay_bounds 4 default_provider_retry_policy (floor_of 400) (omega arith)
      default_policy_valid

-- The state counts the calls of the operation.
abbrev counting : RetryEffects ℕ
counting = record {
  aborted = λ s. false;
  sleep = λ d s. (true, s);
  calculate_jitter_ms = λ m s. (floor_of 100, s);
  record_retry = λ i c o s. s;
}

-- It fails twice, and then succeeds.
abbrev flaky : ℕ → ℕ → Result Thrown ℕ × ℕ
flaky k s = (if ltb k 3 then err (provider slow) else ok 7, s + 1)

abbrev hopeless : ℕ → ℕ → Result Thrown ℕ × ℕ
hopeless k s = (err (provider slow), s + 1)

calls-retry_le_example :
    (retry_provider_operation counting groq default_provider_retry_policy hopeless 0).1 ≤ 0 + 3
calls-retry_le_example =
    calls-retry_le counting groq (λ s. s) (λ d s. refl) (λ m s. refl) (λ i c o s. refl)
      default_provider_retry_policy hopeless (λ k s. refl) 0

hopeless_fails :
    (retry_provider_operation counting groq default_provider_retry_policy hopeless 0).0
    ≡ err (provider slow)
unfolding retry_provider_operation assert_valid_retry_policy should_retry_provider_error
hopeless_fails = refl

retry_error_is_last_example :
    IsLastError counting groq
      (λ s. refl)
      (λ d s. refl)
      default_provider_retry_policy
      hopeless
      (provider slow)
retry_error_is_last_example =
    retry_error_is_last counting groq (λ s. refl) (λ d s. refl) default_provider_retry_policy
      hopeless 0 (provider slow) default_policy_valid hopeless_fails

flaky_fails :
    (j : ℕ) (t : ℕ) → j < 3 → (e : Thrown) × ((flaky j t).0 ≡ err e) × (is_retried e ≡ true)
unfolding should_retry_provider_error
flaky_fails j t lt = (provider slow, ground arith, refl)

retry_recovers_example :
    (retry_provider_operation counting groq default_provider_retry_policy flaky 0).0 ≡ ok 7
retry_recovers_example =
    retry_recovers counting groq (λ s. refl) (λ d s. refl) default_provider_retry_policy flaky 7 3 0
      default_policy_valid (omega arith) (omega arith) flaky_fails (λ t. refl)
