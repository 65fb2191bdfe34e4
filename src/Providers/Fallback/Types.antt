-- ===== src/Providers/Fallback/Types.antt =====
-- provider-fallback.ts: the candidates, the requests, and the records of attempts and events.
use Prim.Native.String.{String}
use proxy_ai.Base.{ℕ, Option, List, Result}
use proxy_ai.Providers.Types.{ProviderId, ProviderErrorCategory, Thrown}
use proxy_ai.Providers.Retry.{RetryEffects}
use proxy_ai.Providers.Circuit.{Breaker}

pub record World (S : Type 0) : Type 0 where
  pub breaker : Breaker
  pub rest : S

pub data FallbackAttemptStatus : Type 0 where
  succeeded failed skipped_open_circuit : FallbackAttemptStatus

pub data FallbackEventType : Type 0 where
  candidate_succeeded candidate_failed candidate_skipped all_unavailable : FallbackEventType

-- The labels of the fallback metric.
pub data FallbackMetric : Type 0 where
  metric_attempted metric_succeeded metric_failed metric_skipped metric_all_unavailable :
      FallbackMetric

-- The fields of `CompletionRequest` that come from the candidate, and the caller's part.
pub record CompletionRequest (R : Type 0) : Type 0 where
  pub base : R
  pub provider_id : ProviderId
  pub model : String

pub record FallbackAttempt : Type 0 where
  pub provider_id : ProviderId
  pub model : String
  pub status : FallbackAttemptStatus
  pub attempt_number : ℕ
  pub error_category : Option ProviderErrorCategory
  pub status_code : Option ℕ

pub record FallbackEvent : Type 0 where
  pub event_type : FallbackEventType
  pub request_id : String
  pub provider_id : Option ProviderId
  pub model : Option String
  pub attempt_number : Option ℕ
  pub error_category : Option ProviderErrorCategory
  pub status_code : Option ℕ

-- What one candidate runs: its adapter's `complete`, or the start of its stream.
pub record Candidate (S R A : Type 0) : Type 0 where
  pub provider_id : ProviderId
  pub model : String
  pub run : CompletionRequest R → World S → Result Thrown A × World S

pub record FallbackEffects (S : Type 0) : Type 0 where
  pub retry : RetryEffects (World S)
  pub now : S → ℕ × S
  pub record_event : FallbackEvent → S → S
  pub record_fallback : ProviderId → FallbackMetric → S → S

pub data FallbackError : Type 0 where
  all_providers_unavailable : ProviderId → String → List FallbackAttempt → FallbackError
  no_candidates : FallbackError

pub record FallbackMetadata : Type 0 where
  pub request_id : String
  pub selected_provider_id : ProviderId
  pub selected_model : String
  pub attempts : List FallbackAttempt
