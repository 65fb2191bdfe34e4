-- ===== src/Providers/Retry/Loop.antt =====
-- provider-retry.policy.ts: what the retry loop returns, and how often it calls the operation.
use proxy_ai.Base.{
  ℕ, zero, suc, ◌+◌, ◌≤◌, ◌<◌, ◌≡◌, refl, ◌⊎◌, inl, inr, true, false, Option, none, some, Result,
  ok, err, Result-cases, Bool-cases, Option-cases, arith, dec_lt,
}
use proxy_ai.Providers.Types.{
  ProviderId, ProviderErrorCategory, ProviderError, Thrown, provider, other,
}
use proxy_ai.Providers.Retry.{
  ProviderRetryPolicy, Jitter, RetryOutcome, scheduled, exhausted, calculate_retry_delay_ms,
  RetryEffects, is_retried, assert_valid_retry_policy, handle_failure, retry_loop,
  retry_provider_operation,
}

module _ {S : Type 0} (fx : RetryEffects S) (id : ProviderId) (calls : S → ℕ)
    (sleep_quiet : (d : Option ℕ) (s : S) → calls (fx.sleep d s).1 ≡ calls s)
    (jitter_quiet : (m : ℕ) (s : S) → calls (fx.calculate_jitter_ms m s).1 ≡ calls s)
    (record_quiet : (i : ProviderId) (c : ProviderErrorCategory) (o : RetryOutcome) (s : S)
      → calls (fx.record_retry i c o s) ≡ calls s) where
  calls-handle_failure :
      (p : ProviderRetryPolicy) (k : ℕ) (e : Thrown) (s : S)
      → calls (handle_failure fx id p k e s).1 ≡ calls s
  unfolding handle_failure
  calls-handle_failure p k (other n) s = refl
  calls-handle_failure p k (provider e) s = ground (
    arith,
    record_quiet id e.category exhausted s,
    record_quiet id e.category scheduled s,
    jitter_quiet p.max_jitter_ms (fx.record_retry id e.category scheduled s),
    sleep_quiet (wait p k e s) (jittered p e s).1,
  )
    where
      jittered : ProviderRetryPolicy → ProviderError → S → Jitter × S
      jittered p e s =
          fx.calculate_jitter_ms p.max_jitter_ms (fx.record_retry id e.category scheduled s)

      wait : ProviderRetryPolicy → ℕ → ProviderError → S → Option ℕ
      wait p k e s = calculate_retry_delay_ms k p (jittered p e s).0

  module _ {A : Type 0} (p : ProviderRetryPolicy) (operation : ℕ → S → Result Thrown A × S)
      (counted : (k : ℕ) (s : S) → calls (operation k s).1 ≡ calls s + 1) where
    calls-retry_loop :
        (n k : ℕ) (s : S) → calls (retry_loop fx id p operation n k s).1 ≤ calls s + n
    unfolding retry_loop
    calls-retry_loop zero k s = omega arith
    calls-retry_loop (suc n) k s =
        grind (arith, counted, calls-handle_failure, calls-retry_loop n (k + 1))

    -- However the operation fails, it is called at most `maxAttempts` times, if the timer, the jitter
    -- and the metrics do not call it.
    pub calls-retry_le :
        (s : S) → calls (retry_provider_operation fx id p operation s).1 ≤ calls s + p.max_attempts
    unfolding retry_provider_operation
    calls-retry_le s = ground (arith, calls-retry_loop p.max_attempts 1 s)

-- The loop where nobody aborts the request and the timer always wakes up.
module _ {S : Type 0} (fx : RetryEffects S) (id : ProviderId)
    (runs : (s : S) → fx.aborted s ≡ false)
    (wakes : (d : Option ℕ) (s : S) → (fx.sleep d s).0 ≡ true) where
  handle_failure_goes_on :
      (p : ProviderRetryPolicy) (k : ℕ) (e : Thrown) (s : S)
      → is_retried e ≡ true
      → k < p.max_attempts
      → (handle_failure fx id p k e s).0 ≡ none
  unfolding handle_failure
  handle_failure_goes_on p k (other n) s h lt = cc
  handle_failure_goes_on p k (provider e) s h lt = grind (arith, runs, wakes)

  handle_failure_final :
      (p : ProviderRetryPolicy) (k : ℕ) (e : Thrown) (s : S)
      → (is_retried e ≡ false) ⊎ (p.max_attempts ≤ k)
      → (handle_failure fx id p k e s).0 ≡ some e
  unfolding handle_failure
  handle_failure_final p k (other n) s h = refl
  handle_failure_final p k (provider e) s h = ground arith

  -- `none` tells that another round is due, and what is thrown is the error that was caught.
  handle_failure_cases :
      (p : ProviderRetryPolicy) (k : ℕ) (e : Thrown) (s : S)
      → ((handle_failure fx id p k e s).0 ≡ none) × (k < p.max_attempts)
        ⊎ (((handle_failure fx id p k e s).0 ≡ some e)
            × ((is_retried e ≡ false) ⊎ (p.max_attempts ≤ k)))
  handle_failure_cases p k e s = elim (Bool-cases (is_retried e)) [
    | inl yes_ ↦ elim (dec_lt k p.max_attempts) [
      | yes lt ↦ inl (handle_failure_goes_on p k e s yes_ lt, lt)
      | no ge ↦
          let final : (is_retried e ≡ false) ⊎ (p.max_attempts ≤ k) = inr (omega arith) in
          inr (handle_failure_final p k e s final, final)
    ]
    | inr no_ ↦ inr (handle_failure_final p k e s (inl no_), inl no_)
  ]

  module _ {A : Type 0} (p : ProviderRetryPolicy) (operation : ℕ → S → Result Thrown A × S) where
    -- The last error: some call of the operation threw it, and it was not to be retried or it was
    -- the last attempt.
    abbrev pub IsLastError : Thrown → Type 0
    IsLastError e =
        (k : ℕ) × (t : S) × ((operation k t).0 ≡ err e)
        × (k ≤ p.max_attempts)
        × ((is_retried e ≡ false) ⊎ (k ≡ p.max_attempts))

    retry_loop_error :
        (n k : ℕ) (s : S) (e : Thrown)
        → k + n ≡ p.max_attempts + 1
        → k ≤ p.max_attempts
        → (retry_loop fx id p operation n k s).0 ≡ err e
        → IsLastError e
    unfolding retry_loop
    retry_loop_error zero k s e sum le h = absurd (omega arith)
    retry_loop_error (suc n) k s e sum le h = elim (Result-cases (operation k s).0) [
      | inl (a, good) ↦ absurd (ground (arith, runs s))
      | inr (e', bad) ↦ elim (handle_failure_cases p k e' (operation k s).1) [
        | inl (next, lt) ↦
            retry_loop_error n (k + 1) (handle_failure fx id p k e' (operation k s).1).1 e
              (omega arith) (omega arith) (ground (arith, runs s))
        | inr (stop, final) ↦
            let same : e' ≡ e = ground (arith, runs s) in (k, s, rw (← same) bad, le, ground arith)
      ]
    ]

    -- Under a valid policy, while the signal does not abort and the timer wakes, the retry ends with
    -- an error only if that error is one that the operation threw, at an attempt no later than
    -- `maxAttempts`, and it is either not to be retried or of the last attempt: the throw behind the
    -- loop is never reached.
    pub retry_error_is_last :
        (s : S) (e : Thrown)
        → assert_valid_retry_policy p ≡ true
        → (retry_provider_operation fx id p operation s).0 ≡ err e
        → IsLastError e
    unfolding retry_provider_operation assert_valid_retry_policy
    retry_error_is_last s e valid h =
        retry_loop_error p.max_attempts 1 s e (omega arith) (ground arith) (ground arith)

    retry_loop_recovers :
        (a : A) (m n k : ℕ) (s : S)
        → k + n ≡ p.max_attempts + 1
        → k ≤ m
        → m ≤ p.max_attempts
        → ((j : ℕ) (t : S)
            → j < m
            → (e : Thrown) × ((operation j t).0 ≡ err e) × (is_retried e ≡ true))
        → ((t : S) → (operation m t).0 ≡ ok a)
        → (retry_loop fx id p operation n k s).0 ≡ ok a
    unfolding retry_loop
    retry_loop_recovers a m zero k s sum le top early late = absurd (omega arith)
    retry_loop_recovers a m (suc n) k s sum le top early late = elim (dec_lt k m) [
      | yes lt ↦
          let (e, bad, again) = early k s lt in
          let next = handle_failure_goes_on p k e (operation k s).1 again (omega arith) in
          ground (
            arith,
            runs s,
            retry_loop_recovers a m n (k + 1) (handle_failure fx id p k e (operation k s).1).1
                (omega arith) (omega arith) top early late,
          )
      | no ge ↦ let same : k ≡ m = omega arith in ground (arith, runs s, late s)
    ]

    -- Under a valid policy, while the signal does not abort and the timer wakes: if the first attempts
    -- fail with errors to be retried and a later one within the policy succeeds, the retry returns the
    -- result of that one.
    pub retry_recovers :
        (a : A) (m : ℕ) (s : S)
        → assert_valid_retry_policy p ≡ true
        → 1 ≤ m
        → m ≤ p.max_attempts
        → ((j : ℕ) (t : S)
            → j < m
            → (e : Thrown) × ((operation j t).0 ≡ err e) × (is_retried e ≡ true))
        → ((t : S) → (operation m t).0 ≡ ok a)
        → (retry_provider_operation fx id p operation s).0 ≡ ok a
    unfolding retry_provider_operation
    retry_recovers a m s valid low top early late =
        rw valid (retry_loop_recovers a m p.max_attempts 1 s (omega arith) low top early late)

-- A successful retry returns what some call of the operation returned.
module _ {S A : Type 0} (fx : RetryEffects S) (id : ProviderId) (p : ProviderRetryPolicy)
    (operation : ℕ → S → Result Thrown A × S) where
  retry_loop_ok :
      (n k : ℕ) (s : S) (a : A)
      → (retry_loop fx id p operation n k s).0 ≡ ok a
      → (j : ℕ) × (t : S) × ((operation j t).0 ≡ ok a)
  unfolding retry_loop
  retry_loop_ok zero k s a h = absurd (ground arith)
  retry_loop_ok (suc n) k s a h = elim (Bool-cases (fx.aborted s)) [
    | inl stop ↦ absurd (ground arith)
    | inr go ↦ elim (Result-cases (operation k s).0) [
      | inl (b, good) ↦ (k, s, ground arith)
      | inr (e, bad) ↦ elim (Option-cases (handle_failure fx id p k e (operation k s).1).0) [
        | inl next ↦
            retry_loop_ok n (k + 1) (handle_failure fx id p k e (operation k s).1).1 a
              (ground arith)
        | inr (t, stop) ↦ absurd (ground arith)
      ]
    ]
  ]

  pub retry_ok :
      (s : S) (a : A)
      → (retry_provider_operation fx id p operation s).0 ≡ ok a
      → (j : ℕ) × (t : S) × ((operation j t).0 ≡ ok a)
  unfolding retry_provider_operation
  retry_ok s a h = retry_loop_ok p.max_attempts 1 s a (ground arith)
