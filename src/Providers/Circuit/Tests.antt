-- ===== src/Providers/Circuit/Tests.antt =====
-- provider-circuit-breaker.ts: the theorems on circuits, at inputs on which their conditions hold.
use proxy_ai.Base.{
  ℕ, ◌+◌, ◌++◌, length, inl, ◌≡◌, refl, true, false, none, some, List, [], ◌∷◌, ok, err, arith,
}
use proxy_ai.Providers.Types.{groq, gemini, third, timeout, invalid_request, Thrown, provider}
use proxy_ai.Providers.Retry.{should_retry_provider_error}
use proxy_ai.Providers.Circuit.{
  closed, open_circuit, half_open, ProviderCircuitRecord, ProviderCircuitBreakerPolicy,
  default_provider_circuit_breaker_policy, assert_valid_circuit_breaker_policy,
  should_count_circuit_failure, new_record, prepare_record, complete_failure, complete_success,
  Breaker, empty_breaker, reset, prepare_request, complete_request,
}
use proxy_ai.Providers.Circuit.Invariant.{
  FailedRequest, fail_all, opens_at_threshold, ask_all, open_circuit_recovers,
  stale_failure_frees_trial,
}
use proxy_ai.Providers.Circuit.Sharing.{
  BreakerInv, Event, begins, ends, resets, run_events, get_snapshot, run_events_invariant,
  complete_request_apart, reset_forgets,
}

abbrev slow : Thrown
slow =
    provider
      (record { category = timeout; provider_id = groq; retryable = true; status_code = none })

abbrev refused : Thrown
refused = provider (record {
  category = invalid_request;
  provider_id = groq;
  retryable = false;
  status_code = some 400;
})

abbrev policy : ProviderCircuitBreakerPolicy
policy = default_provider_circuit_breaker_policy

abbrev opened_at_ten : ProviderCircuitRecord
opened_at_ten = record {
  state = open_circuit;
  failure_count = 5;
  opened_at = some 10;
  last_failure_at = some 10;
  half_open_trial_count = 0;
}

abbrev on_trial : ProviderCircuitRecord
on_trial = record opened_at_ten { state = half_open; half_open_trial_count = 1 }

policy_valid : assert_valid_circuit_breaker_policy policy ≡ true
unfolding assert_valid_circuit_breaker_policy
policy_valid = refl

slow_counts : should_count_circuit_failure slow ≡ true
unfolding should_count_circuit_failure should_retry_provider_error
slow_counts = refl

refused_counts_not : should_count_circuit_failure refused ≡ false
unfolding should_count_circuit_failure should_retry_provider_error
refused_counts_not = refl

-- A failure at a time, which ends one and two milliseconds later.
abbrev failed : ℕ → FailedRequest
failed now = record { prepared_at = now; failed_at = now + 1; opens_at = now + 2; error = slow }

abbrev four_failed : List FailedRequest
four_failed = failed 1 ∷ failed 50000 ∷ failed 60000 ∷ failed 900000 ∷ []

opens_at_threshold_example :
    ((fail_all policy four_failed new_record).state ≡ closed)
    × (length four_failed + 1 ≡ 5
        → ((fail_all policy (four_failed ++ failed 950000 ∷ []) new_record).state ≡ open_circuit)
          × ((fail_all policy (four_failed ++ failed 950000 ∷ []) new_record).opened_at
              ≡ some 950002))
opens_at_threshold_example =
    opens_at_threshold policy four_failed (failed 950000)
      (slow_counts, (slow_counts, (slow_counts, (slow_counts, tt)))) slow_counts (omega arith)

open_circuit_recovers_example :
    let opened = fail_all policy (four_failed ++ failed 950000 ∷ []) new_record in
    let (admitted, trial) = prepare_record policy 980002 opened in
    let again = complete_failure policy 990001 990002 slow trial in
    (ask_all policy (950003 ∷ 980001 ∷ []) opened ≡ (0, opened))
    × (admitted ≡ true)
    × (complete_success trial ≡ new_record)
    × (again.state ≡ open_circuit)
    × (again.opened_at ≡ some 990002)
open_circuit_recovers_example =
    open_circuit_recovers policy four_failed (failed 950000) (950003 ∷ 980001 ∷ []) 980002
      (failed 990000) policy_valid (slow_counts, (slow_counts, (slow_counts, (slow_counts, tt))))
      slow_counts refl (omega arith, (omega arith, tt)) (omega arith) slow_counts

stale_failure_frees_trial_example :
    ((prepare_record policy 50 on_trial).0 ≡ false)
    × ((prepare_record policy 50 (complete_failure policy 20 21 refused on_trial)).0 ≡ true)
stale_failure_frees_trial_example =
    stale_failure_frees_trial policy 50 20 21 refused on_trial policy_valid refl refl
      refused_counts_not

abbrev events : List Event
events =
    begins groq 1
    ∷ begins gemini 2
    ∷ ends 3 4 (err slow) 0
    ∷ resets (some groq)
    ∷ begins groq 5
    ∷ ends 6 7 (ok tt) 0
    ∷ []

run_events_invariant_example : BreakerInv (run_events (empty_breaker policy) events)
run_events_invariant_example = run_events_invariant policy events policy_valid

abbrev gemini_began : Breaker
gemini_began = run_events (empty_breaker policy) (begins gemini 0 ∷ [])

gemini_began-BreakerInv : BreakerInv gemini_began
gemini_began-BreakerInv = run_events_invariant policy (begins gemini 0 ∷ []) policy_valid

groq_begins : (prepare_request groq 1 gemini_began).0 ≡ ok 1
unfolding run_events prepare_request empty_breaker prepare_record new_record
groq_begins = ground arith

complete_request_apart_example :
    let meanwhile =
      run_events
        (prepare_request groq 1 gemini_began).1
        (resets (some groq) ∷ begins third 2 ∷ []) in
    get_snapshot gemini (complete_request {A = Unit {0}} 3 4 (err slow) 1 meanwhile)
    ≡ get_snapshot gemini meanwhile
complete_request_apart_example =
    complete_request_apart {A = Unit {0}} 3 4 1 (err slow) groq gemini 1 gemini_began
      (resets (some groq) ∷ begins third 2 ∷ []) gemini_began-BreakerInv groq_begins (ground arith)

reset_forgets_example :
    let meanwhile =
      run_events
        (reset none (run_events (prepare_request groq 1 gemini_began).1 (begins third 2 ∷ [])))
        (begins groq 3 ∷ []) in
    get_snapshot groq (complete_request {A = Unit {0}} 3 4 (err slow) 1 meanwhile)
    ≡ get_snapshot groq meanwhile
reset_forgets_example =
    reset_forgets {A = Unit {0}} 3 4 1 (err slow) groq groq 1 gemini_began none
      (begins third 2 ∷ []) (begins groq 3 ∷ []) gemini_began-BreakerInv groq_begins (inl refl)
