-- ===== src/Providers/Circuit.antt =====
-- provider-circuit-breaker.ts: one circuit for each provider.
-- A record is an object that the map and the requests in flight share, so the breaker is a heap of
-- records and a map into it: `reset` forgets a record that a request may still hold. The clock is
-- an argument, once for each call of `now`. Metrics do not change a circuit and are left out.
pub mod Invariant
pub mod Sharing
mod Tests
use proxy_ai.Base.{
  ℕ, zero, suc, ◌+◌, ◌-◌, Bool, true, false, ◌&&◌, ◌||◌, not, Option, none, some, List, [], ◌∷◌,
  ◌++◌, Result, ok, err, leb, ltb, if◌then◌else◌, ite, length, get_elem?, set,
}
use proxy_ai.Providers.Types.{
  ProviderId, ProviderId-discrete, unavailable, ProviderError, Thrown, provider, other,
}
use proxy_ai.Providers.Retry.{should_retry_provider_error, is_safe_integer}

pub data ProviderCircuitState : Type 0 where
  closed open_circuit half_open : ProviderCircuitState

pub record ProviderCircuitRecord : Type 0 where
  pub state : ProviderCircuitState
  pub failure_count : ℕ
  pub opened_at : Option ℕ
  pub last_failure_at : Option ℕ
  pub half_open_trial_count : ℕ

pub record ProviderCircuitBreakerPolicy : Type 0 where
  pub failure_threshold : ℕ
  pub cooldown_ms : ℕ
  pub half_open_max_trials : ℕ

abbrev pub default_provider_circuit_breaker_policy : ProviderCircuitBreakerPolicy
default_provider_circuit_breaker_policy = record {
  failure_threshold = 5;
  cooldown_ms = 30000;
  half_open_max_trials = 1;
}

pub assert_valid_circuit_breaker_policy : ProviderCircuitBreakerPolicy → Bool
assert_valid_circuit_breaker_policy p = not (
    not (is_safe_integer p.failure_threshold)
    || ltb p.failure_threshold 1
    || not (is_safe_integer p.cooldown_ms)
    || ltb p.cooldown_ms 1
    || not (is_safe_integer p.half_open_max_trials)
    || ltb p.half_open_max_trials 1)

unfoldable pub provider_circuit_open_error : ProviderId → Thrown
provider_circuit_open_error id =
    provider (record {
      category = unavailable;
      provider_id = id;
      retryable = true;
      status_code = some 503;
    })

pub should_count_circuit_failure : Thrown → Bool
should_count_circuit_failure (provider e) = should_retry_provider_error e
should_count_circuit_failure (other n) = false

pub new_record : ProviderCircuitRecord
new_record = record {
  state = closed;
  failure_count = 0;
  opened_at = none;
  last_failure_at = none;
  half_open_trial_count = 0;
}

abbrev pub is_state_open : ProviderCircuitState → Bool
is_state_open open_circuit = true
is_state_open _ = false

abbrev pub is_half_open : ProviderCircuitState → Bool
is_half_open half_open = true
is_half_open _ = false

-- The clock may run backwards: then the difference is negative, and below any cooldown.
unfoldable pub has_cooldown_elapsed :
    ProviderCircuitBreakerPolicy → ℕ → ProviderCircuitRecord → Bool
has_cooldown_elapsed p now r = elim r.opened_at [
  | none ↦ false
  | some opened ↦ leb (opened + p.cooldown_ms) now
]

-- The second test of `prepareRequest`; `false` is a `ProviderCircuitOpenError`.
pub admit_trial :
    ProviderCircuitBreakerPolicy → ProviderCircuitRecord → Bool × ProviderCircuitRecord
admit_trial p r =
    if is_half_open r.state
    then (if leb p.half_open_max_trials r.half_open_trial_count
        then (false, r)
        else (true, record r { half_open_trial_count = r.half_open_trial_count + 1 }))
    else (true, r)

pub prepare_record :
    ProviderCircuitBreakerPolicy → ℕ → ProviderCircuitRecord → Bool × ProviderCircuitRecord
unfolding has_cooldown_elapsed admit_trial
prepare_record p now r =
    if is_state_open r.state
    then (if has_cooldown_elapsed p now r
        then admit_trial p (record r { state = half_open; half_open_trial_count = 0 })
        else (false, r))
    else admit_trial p r

pub record_success : ProviderCircuitRecord → ProviderCircuitRecord
record_success r = record r {
  state = closed;
  failure_count = 0;
  half_open_trial_count = 0;
  opened_at = none;
  last_failure_at = none;
}

pub open_record : ℕ → ProviderCircuitRecord → ProviderCircuitRecord
open_record now r = record r {
  state = open_circuit;
  opened_at = some now;
  half_open_trial_count = 0;
}

-- `failed_at` and `opened_at` are the two readings of the clock.
pub record_failure :
    ProviderCircuitBreakerPolicy → ℕ → ℕ → Thrown → ProviderCircuitRecord → ProviderCircuitRecord
unfolding open_record
record_failure p failed_at opened_at error r =
    if not (should_count_circuit_failure error)
    then r
    else (let r₁ = record r { last_failure_at = some failed_at } in
        if is_half_open r₁.state
        then open_record opened_at r₁
        else (let r₂ = record r₁ { failure_count = r₁.failure_count + 1 } in
            if leb p.failure_threshold r₂.failure_count then open_record opened_at r₂ else r₂))

-- The `finally` block. The count is positive where 1 is taken from it.
pub release_trial : ProviderCircuitRecord → ProviderCircuitRecord
release_trial r =
    if is_half_open r.state && ltb 0 r.half_open_trial_count
    then record r { half_open_trial_count = r.half_open_trial_count - 1 }
    else r

pub complete_success : ProviderCircuitRecord → ProviderCircuitRecord
unfolding record_success release_trial
complete_success r = release_trial (record_success r)

pub complete_failure :
    ProviderCircuitBreakerPolicy → ℕ → ℕ → Thrown → ProviderCircuitRecord → ProviderCircuitRecord
unfolding record_failure release_trial
complete_failure p failed_at opened_at error r =
    release_trial (record_failure p failed_at opened_at error r)

-- The objects ever made, the newest last, and the map `recordsByProviderId` into them.
pub record Breaker : Type 0 where
  pub policy : ProviderCircuitBreakerPolicy
  pub objects : List ProviderCircuitRecord
  pub refs : ProviderId → Option ℕ

pub empty_breaker : ProviderCircuitBreakerPolicy → Breaker
empty_breaker p = record { policy = p; objects = []; refs = λ _. none }

abbrev pub update_ref : ProviderId → Option ℕ → (ProviderId → Option ℕ) → ProviderId → Option ℕ
update_ref id v m j = ite (ProviderId-discrete j id) v (m j)

-- The object of a provider, made where there is none.
pub get_record : ProviderId → Breaker → ℕ × Breaker
get_record id b = elim (b.refs id) [
  | some ref ↦ (ref, b)
  | none ↦ (
    length b.objects,
    record b {
      objects = b.objects ++ new_record ∷ [];
      refs = update_ref id (some (length b.objects)) b.refs;
    },
  )
]

-- Every reference is to an object of the heap, so the default is never read.
abbrev pub record_at : Breaker → ℕ → ProviderCircuitRecord
record_at b ref = elim (get_elem? b.objects ref) [ some r ↦ r | none ↦ new_record ]

abbrev pub put_record : Breaker → ℕ → ProviderCircuitRecord → Breaker
put_record b ref r = record b { objects = set b.objects ref r }

unfoldable pub is_open : ProviderId → ℕ → Breaker → Bool × Breaker
unfolding get_record
is_open id now b =
    let (ref, b') = get_record id b in
    let r = record_at b' ref in
    (is_state_open r.state && not (has_cooldown_elapsed b'.policy now r), b')

pub reset : Option ProviderId → Breaker → Breaker
reset none b = record b { refs = λ _. none }
reset (some id) b = record b { refs = update_ref id none b.refs }

pub prepare_request : ProviderId → ℕ → Breaker → Result Thrown ℕ × Breaker
unfolding get_record prepare_record
prepare_request id now b =
    let (ref, b₁) = get_record id b in
    let (admitted, r) = prepare_record b₁.policy now (record_at b₁ ref) in
    (if admitted then ok ref else err (provider_circuit_open_error id), put_record b₁ ref r)

-- What a request does to the record that it holds when its operation ends.
pub complete_request {ℓ} : {A : Type ℓ} → ℕ → ℕ → Result Thrown A → ℕ → Breaker → Breaker
unfolding complete_success complete_failure
complete_request failed_at opened_at (ok a) ref b =
    put_record b ref (complete_success (record_at b ref))
complete_request failed_at opened_at (err e) ref b =
    put_record b ref (complete_failure b.policy failed_at opened_at e (record_at b ref))
