-- ===== src/Providers/Circuit/Invariant.antt =====
-- provider-circuit-breaker.ts: what holds of one circuit, and how it opens and recovers.
use proxy_ai.Base.{
  if◌then◌else◌, ap, List, [], ◌∷◌, ◌++◌, length, All, ℕ, ◌+◌, ◌≤◌, ◌<◌, ◌≡◌, ◌≢◌, refl, true,
  false, none, some, arith,
}
use proxy_ai.Providers.Types.{Thrown}
use proxy_ai.Providers.Circuit.{
  closed, open_circuit, half_open, ProviderCircuitRecord, ProviderCircuitBreakerPolicy,
  assert_valid_circuit_breaker_policy, should_count_circuit_failure, new_record, prepare_record,
  complete_success, complete_failure,
}

pub record RecordInv (p : ProviderCircuitBreakerPolicy) (r : ProviderCircuitRecord) : Type 0 where
  pub closed_below : r.state ≡ closed → r.failure_count < p.failure_threshold
  pub broken_above : r.state ≢ closed → p.failure_threshold ≤ r.failure_count
  pub broken_dated : r.state ≢ closed → r.opened_at ≢ none
  pub closed_undated : r.state ≡ closed → r.opened_at ≡ none
  pub trials_capped : r.half_open_trial_count ≤ p.half_open_max_trials
  pub trials_half_open : r.state ≢ half_open → r.half_open_trial_count ≡ 0

module _ (p : ProviderCircuitBreakerPolicy)
    (valid : assert_valid_circuit_breaker_policy p ≡ true) where
  pub new_record-RecordInv : RecordInv p new_record
  unfolding new_record assert_valid_circuit_breaker_policy
  new_record-RecordInv = ground arith

  pub prepare_record-RecordInv :
      (now : ℕ) (r : ProviderCircuitRecord) → RecordInv p r → RecordInv p (prepare_record p now r).1
  unfolding prepare_record assert_valid_circuit_breaker_policy
  prepare_record-RecordInv now r v = ground arith

  pub complete_success-RecordInv :
      (r : ProviderCircuitRecord) → RecordInv p r → RecordInv p (complete_success r)
  unfolding complete_success assert_valid_circuit_breaker_policy
  complete_success-RecordInv r v = ground arith

  pub complete_failure-RecordInv :
      (t u : ℕ) (e : Thrown) (r : ProviderCircuitRecord)
      → RecordInv p r
      → RecordInv p (complete_failure p t u e r)
  unfolding complete_failure assert_valid_circuit_breaker_policy
  complete_failure-RecordInv t u e r v = ground arith

-- How a request fails: the readings of the clock when it is prepared and twice when it ends, and the
-- error.
pub record FailedRequest : Type 0 where
  pub prepared_at : ℕ
  pub failed_at : ℕ
  pub opens_at : ℕ
  pub error : Thrown

abbrev pub IsCounted : FailedRequest → Type 0
IsCounted f = should_count_circuit_failure f.error ≡ true

abbrev fail_once :
    ProviderCircuitBreakerPolicy → FailedRequest → ProviderCircuitRecord → ProviderCircuitRecord
fail_once p f r =
    complete_failure p f.failed_at f.opens_at f.error (prepare_record p f.prepared_at r).1

-- Requests one after the other, which all fail.
unfoldable pub fail_all :
    ProviderCircuitBreakerPolicy
    → List FailedRequest
    → ProviderCircuitRecord
    → ProviderCircuitRecord
fail_all p [] r = r
fail_all p (f ∷ fs) r = fail_all p fs (fail_once p f r)

module _ (p : ProviderCircuitBreakerPolicy) where
  fail_step :
      (f : FailedRequest) (r : ProviderCircuitRecord)
      → IsCounted f
      → r.state ≡ closed
      → r.failure_count < p.failure_threshold
      → let r' = fail_once p f r in
        (r'.failure_count ≡ r.failure_count + 1)
        × (r.failure_count + 1 < p.failure_threshold → r'.state ≡ closed)
        × (r.failure_count + 1 ≡ p.failure_threshold
            → (r'.state ≡ open_circuit) × (r'.opened_at ≡ some f.opens_at))
  unfolding complete_failure prepare_record
  fail_step f r counts c h = ground arith

  fail_all_closed :
      (fs : List FailedRequest) (r : ProviderCircuitRecord)
      → All IsCounted fs
      → r.state ≡ closed
      → r.failure_count + length fs < p.failure_threshold
      → let r' = fail_all p fs r in
        (r'.state ≡ closed) × (r'.failure_count ≡ r.failure_count + length fs)
  unfolding fail_all
  fail_all_closed [] r counts c h = (c, omega arith)
  fail_all_closed (f ∷ fs) r counts c h =
      let (count, stays, opens) = fail_step f r counts.0 c (omega arith) in
      let rest =
        fail_all_closed fs (fail_once p f r) counts.1 (stays (omega arith)) (omega arith) in
      (rest.0, omega arith)

  fail_all-append :
      (fs gs : List FailedRequest) (r : ProviderCircuitRecord)
      → fail_all p (fs ++ gs) r ≡ fail_all p gs (fail_all p fs r)
  unfolding fail_all
  fail_all-append [] gs r = refl
  fail_all-append (f ∷ fs) gs r = fail_all-append fs gs (fail_once p f r)

  -- Counted failures in a row, of any errors and at any readings of the clock, leave a new circuit
  -- closed as long as they are fewer than the threshold, and the one that reaches the threshold opens
  -- it, at the time that it reads last.
  pub opens_at_threshold :
      (fs : List FailedRequest) (f : FailedRequest)
      → All IsCounted fs
      → IsCounted f
      → length fs < p.failure_threshold
      → let before = fail_all p fs new_record in
        let after = fail_all p (fs ++ f ∷ []) new_record in
        (before.state ≡ closed)
        × (length fs + 1 ≡ p.failure_threshold
            → (after.state ≡ open_circuit) × (after.opened_at ≡ some f.opens_at))
  unfolding fail_all new_record
  opens_at_threshold fs f counts last h =
      let (stays, count) = fail_all_closed fs new_record counts refl (omega arith) in
      let step = fail_step f (fail_all p fs new_record) last stays (omega arith) in
      let same = fail_all-append fs (f ∷ []) new_record in
      (stays, λ reached. rw same (step.2 (omega arith)))

-- Requests one after the other at readings of the clock: how many are admitted, and the record.
unfoldable pub ask_all :
    ProviderCircuitBreakerPolicy → List ℕ → ProviderCircuitRecord → ℕ × ProviderCircuitRecord
ask_all p [] r = (0, r)
ask_all p (t ∷ ts) r =
    let (admitted, r₁) = prepare_record p t r in
    let (n, r₂) = ask_all p ts r₁ in ((if admitted then 1 else 0) + n, r₂)

open_refuses :
    (p : ProviderCircuitBreakerPolicy) (ts : List ℕ) (r : ProviderCircuitRecord) (opened : ℕ)
    → r.state ≡ open_circuit
    → r.opened_at ≡ some opened
    → All (λ now. now < opened + p.cooldown_ms) ts
    → ask_all p ts r ≡ (0, r)
unfolding ask_all prepare_record
open_refuses p [] r opened o at early = refl
open_refuses p (t ∷ ts) r opened o at early =
    let refused : prepare_record p t r ≡ (false, r) = ground arith in
    rw (refused, ask_all)
      (ap (λ (x : ℕ × ProviderCircuitRecord). (0 + x.0, x.1))
        (open_refuses p ts r opened o at early.1))

-- Under a valid policy, counted failures in a row that reach the threshold open a new circuit; it
-- admits none of any requests before the cooldown has passed, and stays as it is; from then on it
-- admits one, after which a success makes it a new circuit and a counted failure opens it again, at
-- the time that it reads last.
pub open_circuit_recovers :
    (p : ProviderCircuitBreakerPolicy) (fs : List FailedRequest) (f : FailedRequest) (ts : List ℕ)
    (t : ℕ) (g : FailedRequest)
    → assert_valid_circuit_breaker_policy p ≡ true
    → All IsCounted fs
    → IsCounted f
    → length fs + 1 ≡ p.failure_threshold
    → All (λ now. now < f.opens_at + p.cooldown_ms) ts
    → f.opens_at + p.cooldown_ms ≤ t
    → IsCounted g
    → let opened = fail_all p (fs ++ f ∷ []) new_record in
      let (admitted, trial) = prepare_record p t opened in
      let again = complete_failure p g.failed_at g.opens_at g.error trial in
      (ask_all p ts opened ≡ (0, opened))
      × (admitted ≡ true)
      × (complete_success trial ≡ new_record)
      × (again.state ≡ open_circuit)
      × (again.opened_at ≡ some g.opens_at)
unfolding prepare_record complete_success complete_failure new_record
    assert_valid_circuit_breaker_policy
open_circuit_recovers p fs f ts t g valid counts last reached early late counted =
    let opened = fail_all p (fs ++ f ∷ []) new_record in
    let opens = (opens_at_threshold p fs f counts last (omega arith)).1 reached in
    (
      open_refuses p ts opened f.opens_at opens.0 opens.1 early,
      ground (arith, opens),
      ground (arith, opens),
      ground (arith, opens),
      ground (arith, opens),
    )

-- Under a valid policy, in a half-open circuit whose trials are used up, a request that ends with
-- an uncounted error makes room for one more trial. Nothing asks whether that request was a trial,
-- so one that began while the circuit was still closed lets the trials in flight exceed
-- `halfOpenMaxTrials`.
pub stale_failure_frees_trial :
    (p : ProviderCircuitBreakerPolicy) (now t u : ℕ) (e : Thrown) (r : ProviderCircuitRecord)
    → assert_valid_circuit_breaker_policy p ≡ true
    → r.state ≡ half_open
    → r.half_open_trial_count ≡ p.half_open_max_trials
    → should_count_circuit_failure e ≡ false
    → ((prepare_record p now r).0 ≡ false)
      × ((prepare_record p now (complete_failure p t u e r)).0 ≡ true)
unfolding prepare_record complete_failure assert_valid_circuit_breaker_policy
stale_failure_frees_trial p now t u e r valid h full uncounted = ground arith
