-- ===== src/Providers/Types.antt =====
-- provider.types.ts: provider names, error categories and the errors that providers raise.
use proxy_ai.Base.{ℕ, Option, Bool}

pub data ProviderId : Type 0 where
  groq gemini third : ProviderId

pub ProviderId-discrete : Discrete ProviderId
ProviderId-discrete = hlevel

pub data ProviderErrorCategory : Type 0 where
  timeout rate_limit authentication invalid_request unavailable provider_error :
      ProviderErrorCategory

-- The fields that the gateway reads; texts and latencies are left out.
pub record ProviderError : Type 0 where
  pub category : ProviderErrorCategory
  pub provider_id : ProviderId
  pub retryable : Bool
  pub status_code : Option ℕ

-- What an operation may throw: a value that `isProviderError` accepts, or any other.
pub data Thrown : Type 0 where
  provider : ProviderError → Thrown
  other : ℕ → Thrown
