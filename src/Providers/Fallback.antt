-- ===== src/Providers/Fallback.antt =====
-- provider-fallback.ts: a completion or a stream from the first of an ordered list of providers
-- that can give one. The two loops of the source differ in what they run for a candidate and in
-- what they do with its result, so they share `try_candidates`.
-- The world is the circuit breaker and a state of any type `S`, on which the clock, the abort
-- signal, the timer, the jitter, the adapters and the recorders act. While an adapter runs, other
-- requests may change the breaker: an adapter gives back the whole world.
mod Types
pub mod Attempts
pub mod Stream
mod Tests
pub use Types.*
use Prim.Native.String.{String}
use proxy_ai.Base.{
  ℕ, zero, suc, ◌+◌, Bool, true, false, Option, none, some, List, [], ◌∷◌, ◌++◌, Result, ok, err,
  ltb, if◌then◌else◌,
}
use proxy_ai.Providers.Types.{
  ProviderId, ProviderErrorCategory, unavailable, provider_error, ProviderError, Thrown, provider,
  other,
}
use proxy_ai.Providers.Retry.{ProviderRetryPolicy, RetryEffects, retry_provider_operation}
use proxy_ai.Providers.Circuit.{Breaker, is_open, prepare_request, complete_request}

module _ {S A : Type 0} (fx : FallbackEffects S) where
  -- `ProviderCircuitBreaker.execute`. The clock is read for every request; the source reads it only
  -- where a circuit is open or a failure counts.
  pub execute :
      ProviderId → (World S → Result Thrown A × World S) → World S → Result Thrown A × World S
  execute id operation w =
      let (t, s₁) = fx.now w.rest in
      let (prepared, b₁) = prepare_request id t w.breaker in
      elim prepared [
        | err e ↦ (err e, record { breaker = b₁; rest = s₁ })
        | ok ref ↦
            let (result, w₂) = operation (record { breaker = b₁; rest = s₁ }) in
            let (failed_at, s₃) = fx.now w₂.rest in
            let (opened_at, s₄) = fx.now s₃ in
            (
              result,
              record {
                breaker = complete_request failed_at opened_at result ref w₂.breaker;
                rest = s₄;
              },
            )
      ]

module _ {S R A : Type 0} where
  pub create_candidate_request : R → Candidate S R A → CompletionRequest R
  create_candidate_request request c = record {
    base = request;
    provider_id = c.provider_id;
    model = c.model;
  }

  pub skipped_attempt : Candidate S R A → ℕ → FallbackAttempt
  skipped_attempt c number = record {
    provider_id = c.provider_id;
    model = c.model;
    status = skipped_open_circuit;
    attempt_number = number;
    error_category = some unavailable;
    status_code = some 503;
  }

  pub create_failed_attempt : Candidate S R A → ℕ → Thrown → FallbackAttempt
  create_failed_attempt c number (provider e) = record {
    provider_id = c.provider_id;
    model = c.model;
    status = failed;
    attempt_number = number;
    error_category = some e.category;
    status_code = e.status_code;
  }
  create_failed_attempt c number (other n) = record {
    provider_id = c.provider_id;
    model = c.model;
    status = failed;
    attempt_number = number;
    error_category = some provider_error;
    status_code = none;
  }

  pub succeeded_attempt : Candidate S R A → ℕ → FallbackAttempt
  succeeded_attempt c number = record {
    provider_id = c.provider_id;
    model = c.model;
    status = succeeded;
    attempt_number = number;
    error_category = none;
    status_code = none;
  }

-- The event that goes with an attempt.
pub attempt_event : FallbackEventType → String → FallbackAttempt → FallbackEvent
attempt_event type_ request_id a = record {
  event_type = type_;
  request_id = request_id;
  provider_id = some a.provider_id;
  model = some a.model;
  attempt_number = some a.attempt_number;
  error_category = a.error_category;
  status_code = a.status_code;
}

module _ {S : Type 0} (fx : FallbackEffects S) (request_id : String) where
  -- A metric of a candidate behind the first.
  abbrev pub count_fallback : ℕ → ProviderId → FallbackMetric → S → S
  count_fallback number id metric s = if ltb 1 number then fx.record_fallback id metric s else s

  pub record_skipped : FallbackAttempt → S → S
  unfolding attempt_event
  record_skipped a s =
      count_fallback a.attempt_number a.provider_id metric_skipped
        (fx.record_event (attempt_event candidate_skipped request_id a) s)

  pub record_succeeded : FallbackAttempt → S → S
  unfolding attempt_event
  record_succeeded a s =
      fx.record_event (attempt_event candidate_succeeded request_id a)
        (count_fallback a.attempt_number a.provider_id metric_succeeded s)

  pub record_failed : FallbackAttempt → S → S
  unfolding attempt_event
  record_failed a s =
      fx.record_event (attempt_event candidate_failed request_id a)
        (count_fallback a.attempt_number a.provider_id metric_failed s)

-- The provider of the last candidate.
pub last_provider_id : {S R A : Type 0} → ProviderId → List (Candidate S R A) → ProviderId
last_provider_id id [] = id
last_provider_id id (c ∷ cs) = last_provider_id c.provider_id cs

pub all_unavailable_event : String → ProviderId → FallbackEvent
all_unavailable_event request_id id = record {
  event_type = all_unavailable;
  request_id = request_id;
  provider_id = some id;
  model = none;
  attempt_number = none;
  error_category = some unavailable;
  status_code = some 503;
}

abbrev pub on_rest : {S : Type 0} → (S → S) → World S → World S
on_rest f w = record w { rest = f w.rest }

module _ {S : Type 0} (fx : FallbackEffects S) (request_id : String) where
  -- `createAllProvidersUnavailableError`, for a list that is not empty.
  pub create_all_unavailable : ProviderId → List FallbackAttempt → World S → FallbackError × World S
  create_all_unavailable id attempts w = (
    all_providers_unavailable id request_id attempts,
    on_rest
        (λ s.
          fx.record_fallback id metric_all_unavailable
            (fx.record_event (all_unavailable_event request_id id) s))
        w,
  )

-- What the loop over the candidates ends with: the candidate that gave a result, if one did, and
-- the attempts of all that were tried.
pub record Tried (S R A : Type 0) : Type 0 where
  pub selected : Option (Candidate S R A × A)
  pub attempts : List FallbackAttempt
  pub world : World S

module _ {S R A : Type 0} (fx : FallbackEffects S) (policy : ProviderRetryPolicy)
    (request_id : String) (request : R) where
  -- `skipOpenCircuitCandidate`, with the reading of the clock: the test, and the world.
  pub circuit_is_open : Candidate S R A → World S → Bool × World S
  circuit_is_open c w =
      let (t, s₁) = fx.now w.rest in
      let (skip, b₁) = is_open c.provider_id t w.breaker in
      (skip, record { breaker = b₁; rest = s₁ })

  -- The `try` block, with the metric before it.
  pub attempt_candidate : Candidate S R A → ℕ → World S → Result Thrown A × World S
  attempt_candidate c number w =
      retry_provider_operation fx.retry c.provider_id policy
        (λ _. execute fx c.provider_id (c.run (create_candidate_request request c)))
        (on_rest (count_fallback fx request_id number c.provider_id metric_attempted) w)

  pub try_candidates : List (Candidate S R A) → ℕ → List FallbackAttempt → World S → Tried S R A
  try_candidates [] number attempts w = record { selected = none; attempts = attempts; world = w }
  try_candidates (c ∷ cs) number attempts w =
      let (skip, w₁) = circuit_is_open c w in
      let skipped = skipped_attempt c number in
      let after_skip =
        try_candidates cs (number + 1) (attempts ++ skipped ∷ [])
          (on_rest (record_skipped fx request_id skipped) w₁) in
      elim skip [
        | true ↦ after_skip
        | false ↦
            let (result, w₂) = attempt_candidate c number w₁ in
            elim result [
              | ok a ↦
                  let done = succeeded_attempt c number in
                  record {
                    selected = some (c, a);
                    attempts = attempts ++ done ∷ [];
                    world = on_rest (record_succeeded fx request_id done) w₂;
                  }
              | err e ↦
                  let lost = create_failed_attempt c number e in
                  try_candidates cs (number + 1) (attempts ++ lost ∷ [])
                    (on_rest (record_failed fx request_id lost) w₂)
            ]
      ]

  pub complete_with_ordered_fallback :
      List (Candidate S R A) → World S → Result FallbackError (A × FallbackMetadata) × World S
  complete_with_ordered_fallback [] w = (err no_candidates, w)
  complete_with_ordered_fallback (c ∷ cs) w =
      let tried = try_candidates (c ∷ cs) 1 [] w in
      elim tried.selected [
        | some (chosen, a) ↦ (
          ok (
            a,
            record {
              request_id = request_id;
              selected_provider_id = chosen.provider_id;
              selected_model = chosen.model;
              attempts = tried.attempts;
            },
          ),
          tried.world,
        )
        | none ↦
            let (e, w') =
              create_all_unavailable fx request_id (last_provider_id c.provider_id cs)
                tried.attempts tried.world in
            (err e, w')
      ]
