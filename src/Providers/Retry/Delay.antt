-- ===== src/Providers/Retry/Delay.antt =====
-- provider-retry.policy.ts: the choice of the errors to retry, and the bounds of the wait.
use native.Mathlib.Nat.{pow-suc}
use proxy_ai.Base.{
  ℕ, zero, suc, ◌+◌, ◌-◌, ◌*◌, ◌^◌, ◌≤◌, ◌≡◌, ◌↔◌, ◌⊎◌, ◌<◌, min, true, some, none, arith, inl, inr,
  Bool-cases, ltb, ◌==◌, ◌&&◌,
}
use proxy_ai.Providers.Types.{timeout, rate_limit, unavailable, provider_error, ProviderError}
use proxy_ai.Providers.Retry.{
  clamp_jitter_ms, ProviderRetryPolicy, Jitter, should_retry_provider_error,
  assert_valid_retry_policy, calculate_retry_delay_ms,
}

-- A failure that may pass by itself: the provider is slow, busy or down, by the category of the
-- error or, for a plain provider error, by its HTTP status.
abbrev pub IsTransient : ProviderError → Type 0
IsTransient e =
    (e.category ≡ timeout)
    ⊎ (e.category ≡ rate_limit)
    ⊎ (e.category ≡ unavailable)
    ⊎ ((e.category ≡ provider_error)
        × ((e.status_code ≡ some 429)
            ⊎ (e.status_code ≡ some 500)
            ⊎ (e.status_code ≡ some 502)
            ⊎ (e.status_code ≡ some 503)
            ⊎ (e.status_code ≡ some 504)))

-- An error is retried exactly when it is marked retryable and it is transient.
pub should_retry_iff :
    (e : ProviderError)
    → (should_retry_provider_error e ≡ true) ↔ ((e.retryable ≡ true) × IsTransient e)
unfolding should_retry_provider_error
should_retry_iff e = (λ h. ground arith, λ h. ground arith)

pow_pos : (n : ℕ) → 1 ≤ 2 ^ n
pow_pos zero = omega arith
pow_pos (suc n) = omega (arith, pow_pos n, pow-suc 2 n)

base_le : (b n : ℕ) → b ≤ b * 2 ^ n
base_le b n = let h = pow_pos n in grind arith

-- Under a valid policy and from attempt 1 on: where the base delay is 0 and the attempt is above 1024
-- the wait is not a number; else it is at least the base delay, and at most the largest delay plus
-- the largest jitter, whatever the jitter function returns.
pub calculate_retry_delay_bounds :
    (k : ℕ) (p : ProviderRetryPolicy) (j : Jitter)
    → 1 ≤ k
    → assert_valid_retry_policy p ≡ true
    → ((p.base_delay_ms ≡ 0) × (1024 < k) × (calculate_retry_delay_ms k p j ≡ none))
      ⊎ ((d : ℕ) × (calculate_retry_delay_ms k p j ≡ some d)
          × (p.base_delay_ms ≤ d)
          × (d ≤ p.max_delay_ms + p.max_jitter_ms))
unfolding calculate_retry_delay_ms clamp_jitter_ms assert_valid_retry_policy
calculate_retry_delay_bounds k p j from_one h =
    let least = base_le p.base_delay_ms (k - 1) in
    elim (Bool-cases (p.base_delay_ms == 0 && ltb 1024 k)) [
      | inl e ↦ inl (ground arith, ground arith, ground arith)
      | inr e ↦ inr (
        min (p.base_delay_ms * 2 ^ (k - 1)) p.max_delay_ms + clamp_jitter_ms j p.max_jitter_ms,
        ground arith,
        ground arith,
        ground arith,
      )
    ]
