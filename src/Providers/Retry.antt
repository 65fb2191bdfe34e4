-- ===== src/Providers/Retry.antt =====
-- provider-retry.policy.ts: which errors are retried, how long to wait, and the retry loop.
-- The operation, the abort signal, the timer, the jitter and the metrics act on a state of any
-- type `S`. Policy fields are natural numbers; the check for a safe integer keeps its bound.
pub mod Delay
pub mod Loop
mod Tests
use proxy_ai.Base.{
  ℕ, zero, suc, ◌+◌, ◌-◌, ◌*◌, ◌^◌, min, max, Bool, true, false, ◌&&◌, ◌||◌, not, Option, none,
  some, Result, ok, err, leb, ltb, ◌==◌, if◌then◌else◌,
}
use proxy_ai.Providers.Types.{
  ProviderId, ProviderErrorCategory, timeout, rate_limit, authentication, invalid_request,
  unavailable, provider_error, ProviderError, Thrown, provider, other,
}

pub record ProviderRetryPolicy : Type 0 where
  pub max_attempts : ℕ
  pub base_delay_ms : ℕ
  pub max_delay_ms : ℕ
  pub max_jitter_ms : ℕ

abbrev pub default_provider_retry_policy : ProviderRetryPolicy
default_provider_retry_policy = record {
  max_attempts = 3;
  base_delay_ms = 500;
  max_delay_ms = 4000;
  max_jitter_ms = 250;
}

abbrev pub transient_provider_status_code : ℕ → Bool
transient_provider_status_code n = n == 500 || n == 502 || n == 503 || n == 504

-- `Number.MAX_SAFE_INTEGER`.
abbrev pub is_safe_integer : ℕ → Bool
is_safe_integer n = leb n 9007199254740991

pub provider_retry_aborted_error : ProviderId → Thrown
provider_retry_aborted_error id =
    provider
      (record { category = timeout; provider_id = id; retryable = false; status_code = none })

-- A plain `Error`, which `isProviderError` refuses.
abbrev pub invalid_retry_policy : Thrown
invalid_retry_policy = other 0

abbrev pub is_never_retried : ProviderErrorCategory → Bool
is_never_retried authentication = true
is_never_retried invalid_request = true
is_never_retried _ = false

abbrev pub is_always_retried : ProviderErrorCategory → Bool
is_always_retried timeout = true
is_always_retried rate_limit = true
is_always_retried unavailable = true
is_always_retried _ = false

abbrev pub is_provider_error_category : ProviderErrorCategory → Bool
is_provider_error_category provider_error = true
is_provider_error_category _ = false

abbrev pub status_code_is : Option ℕ → (ℕ → Bool) → Bool
status_code_is none p = false
status_code_is (some n) p = p n

unfoldable pub should_retry_provider_error : ProviderError → Bool
should_retry_provider_error error =
    if not error.retryable
    then false
    else if is_never_retried error.category
    then false
    else if is_always_retried error.category || status_code_is error.status_code (λ n. n == 429)
    then true
    else is_provider_error_category error.category
      && status_code_is error.status_code transient_provider_status_code

-- `isProviderError(error) && shouldRetryProviderError(error)`.
abbrev pub is_retried : Thrown → Bool
is_retried (provider e) = should_retry_provider_error e
is_retried (other n) = false

pub assert_valid_retry_policy : ProviderRetryPolicy → Bool
assert_valid_retry_policy p = not (
    not (is_safe_integer p.max_attempts)
    || ltb p.max_attempts 1
    || not (is_safe_integer p.base_delay_ms)
    || not (is_safe_integer p.max_delay_ms)
    || ltb p.max_delay_ms p.base_delay_ms
    || not (is_safe_integer p.max_jitter_ms))

-- A jitter as `Math.floor` and `Number.isFinite` see it.
pub data Jitter : Type 0 where
  not_finite : Jitter
  negative : Jitter
  floor_of : ℕ → Jitter

pub clamp_jitter_ms : Jitter → ℕ → ℕ
clamp_jitter_ms not_finite max_jitter_ms = 0
clamp_jitter_ms negative max_jitter_ms = 0
clamp_jitter_ms (floor_of n) max_jitter_ms = min n max_jitter_ms

-- What `calculateRetryDelayMs` returns under a valid policy, for an attempt from 1 on. The power is a
-- double, infinite from attempt 1025 on: then a base delay of 0 gives NaN, `none`, and any other the
-- largest delay, as a large power does. A finite product by a power of 2 is exact.
pub calculate_retry_delay_ms : ℕ → ProviderRetryPolicy → Jitter → Option ℕ
unfolding clamp_jitter_ms
calculate_retry_delay_ms failed_attempt p jitter =
    if p.base_delay_ms == 0 && ltb 1024 failed_attempt
    then none
    else some (
        min (p.base_delay_ms * 2 ^ (failed_attempt - 1)) p.max_delay_ms
        + clamp_jitter_ms jitter p.max_jitter_ms)

pub data RetryOutcome : Type 0 where
  scheduled exhausted : RetryOutcome

-- What the loop calls: the signal, the timer (`false` where it rejects), the jitter, the metrics.
pub record RetryEffects (S : Type 0) : Type 0 where
  pub aborted : S → Bool
  pub sleep : Option ℕ → S → Bool × S
  pub calculate_jitter_ms : ℕ → S → Jitter × S
  pub record_retry : ProviderId → ProviderErrorCategory → RetryOutcome → S → S

module _ {S : Type 0} (fx : RetryEffects S) (id : ProviderId) where
  pub wait_for_retry_delay : Option ℕ → S → Option Thrown × S
  wait_for_retry_delay delay_ms s =
      if fx.aborted s
      then (some (provider_retry_aborted_error id), s)
      else (let (woke, s') = fx.sleep delay_ms s in
          if not woke || fx.aborted s'
          then (some (provider_retry_aborted_error id), s')
          else (none, s'))

  -- The part of the `catch` behind the test for a retry, up to the next round; `none` goes on.
  pub after_failure :
      ProviderRetryPolicy → ℕ → ProviderErrorCategory → Thrown → S → Option Thrown × S
  unfolding wait_for_retry_delay
  after_failure p attempt category error s =
      if leb p.max_attempts attempt
      then (some error, if ltb 1 attempt then fx.record_retry id category exhausted s else s)
      else (let s₁ = fx.record_retry id category scheduled s in
          let (jitter, s₂) = fx.calculate_jitter_ms p.max_jitter_ms s₁ in
          wait_for_retry_delay (calculate_retry_delay_ms attempt p jitter) s₂)

  -- The `catch` block.
  pub handle_failure : ProviderRetryPolicy → ℕ → Thrown → S → Option Thrown × S
  unfolding after_failure
  handle_failure p attempt (other n) s = (some (other n), s)
  handle_failure p attempt (provider e) s =
      if should_retry_provider_error e
      then after_failure p attempt e.category (provider e) s
      else (some (provider e), s)

module _ {S A : Type 0} (fx : RetryEffects S) (id : ProviderId) where
  -- The rounds that are left, and the number of the attempt.
  pub retry_loop :
      ProviderRetryPolicy → (ℕ → S → Result Thrown A × S) → ℕ → ℕ → S → Result Thrown A × S
  unfolding handle_failure
  retry_loop p operation zero attempt s = (err (provider_retry_aborted_error id), s)
  retry_loop p operation (suc rounds) attempt s = elim (fx.aborted s) [
    | true ↦ (err (provider_retry_aborted_error id), s)
    | false ↦
        let (r, s₁) = operation attempt s in
        elim r [
          | ok a ↦ (ok a, s₁)
          | err e ↦
              let (thrown, s₂) = handle_failure fx id p attempt e s₁ in
              elim thrown [
                | some e' ↦ (err e', s₂)
                | none ↦ retry_loop p operation rounds (attempt + 1) s₂
              ]
        ]
  ]

  pub retry_provider_operation :
      ProviderRetryPolicy → (ℕ → S → Result Thrown A × S) → S → Result Thrown A × S
  unfolding retry_loop
  retry_provider_operation p operation s =
      if assert_valid_retry_policy p
      then retry_loop p operation p.max_attempts 1 s
      else (err invalid_retry_policy, s)
