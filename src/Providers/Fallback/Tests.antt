-- ===== src/Providers/Fallback/Tests.antt =====
-- provider-fallback.ts: the theorems on the ordered fallback, with adapters that are written out.

use mathlib.Core.List.{Memᴰ}
use proxy_ai.Base.{ℕ, ◌+◌, ◌≡◌, ◌⊎◌, true, false, Option, none, some, List, [], ◌∷◌, ok, err, map}
use proxy_ai.Providers.Types.{groq, gemini, timeout, Thrown, provider}
use proxy_ai.Providers.Retry.{floor_of, default_provider_retry_policy}
use proxy_ai.Providers.Circuit.{empty_breaker, default_provider_circuit_breaker_policy}
use proxy_ai.Providers.Fallback.{
  World, FallbackAttempt, Candidate, FallbackEffects, all_providers_unavailable,
  create_candidate_request, complete_with_ordered_fallback, last_provider_id,
}
use proxy_ai.Providers.Fallback.Attempts.{Outcome, report, fallback-Outcome}
use proxy_ai.Providers.Fallback.Stream.{
  done, raises, chunk, StreamCandidate, StreamFailure, from_fallback, read, as_candidate,
  stream_with_ordered_fallback, stream_of_one_provider,
}

abbrev slow : Thrown
slow =
    provider
      (record { category = timeout; provider_id = groq; retryable = true; status_code = none })

-- The state is the clock.
abbrev effects : FallbackEffects ℕ
effects = record {
  retry = record {
    aborted = λ w. false;
    sleep = λ d w. (true, record w { rest = w.rest + elim d [ none ↦ 1 | some ms ↦ ms ] });
    calculate_jitter_ms = λ m w. (floor_of 0, w);
    record_retry = λ i c o w. w;
  };
  now = λ s. (s, s + 1);
  record_event = λ e s. s;
  record_fallback = λ i m s. s;
}

abbrev failing : Candidate ℕ ℕ ℕ
failing = record { provider_id = groq; model = "a"; run = λ r w. (err slow, w) }

abbrev working : Candidate ℕ ℕ ℕ
working = record { provider_id = gemini; model = "b"; run = λ r w. (ok (r.base + 1), w) }

abbrev fresh : World ℕ
fresh = record { breaker = empty_breaker default_provider_circuit_breaker_policy; rest = 0 }

fallback-Outcome_example :
    (attempts : List FallbackAttempt) × (o : Option (Candidate ℕ ℕ ℕ × ℕ)) × Outcome effects
      default_provider_retry_policy "r" 7
      (failing ∷ working ∷ [])
      1
      fresh
      attempts
      o
    × ((complete_with_ordered_fallback effects default_provider_retry_policy "r" 7
          (failing ∷ working ∷ [])
          fresh).0
        ≡ report effects default_provider_retry_policy "r" 7 failing (working ∷ []) attempts o)
fallback-Outcome_example =
    fallback-Outcome effects default_provider_retry_policy "r" 7 failing (working ∷ []) fresh

abbrev broken_stream : StreamCandidate ℕ ℕ ℕ
broken_stream = record { provider_id = groq; model = "a"; stream = λ r w. (raises slow, w) }

abbrev good_stream : StreamCandidate ℕ ℕ ℕ
good_stream = record {
  provider_id = gemini;
  model = "b";
  stream = λ r w. (chunk 1 (chunk 2 done), w);
}

abbrev streamed : List ℕ × Option StreamFailure
streamed =
    (stream_with_ordered_fallback effects default_provider_retry_policy "r" 7
      (broken_stream ∷ good_stream ∷ []) fresh).0

stream_of_one_provider_example :
    ((d : StreamCandidate ℕ ℕ ℕ) × Memᴰ d (broken_stream ∷ good_stream ∷ [])
      × (t : World ℕ) × (streamed
          ≡ read (d.stream (create_candidate_request 7 (as_candidate d)) t).0))
    ⊎ ((attempts : List FallbackAttempt) × (streamed ≡ (
      [],
      some (
          from_fallback (
            all_providers_unavailable
              (last_provider_id groq (map as_candidate (good_stream ∷ [])))
              "r"
              attempts)),
    )))
stream_of_one_provider_example =
    stream_of_one_provider effects default_provider_retry_policy "r" 7 broken_stream
      (good_stream ∷ []) fresh
