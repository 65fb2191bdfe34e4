-- ===== src/Auth.antt =====
-- backend/src/features/auth/login-rate-limit.service.ts: attempts are counted in Redis, by address
-- and by account. The keys that HMAC makes are plain texts. The two scripts of a login run one after
-- the other, in the order of the list; each may fail by itself.
pub mod Attempts
mod Tests
use Prim.Native.String.{String}
use proxy_ai.Base.{
  ℕ, ◌+◌, ◌/◌, max, Bool, true, false, Option, none, some, Result, ok, err, ltb, ◌==◌,
  if◌then◌else◌,
}
use proxy_ai.Idempotency.{Link, evaluate}

abbrev pub login_rate_limit_attempts : ℕ
login_rate_limit_attempts = 10

abbrev pub login_rate_limit_window_ms : ℕ
login_rate_limit_window_ms = 900000

-- What `PTTL` replies.
pub data Ttl : Type 0 where
  negative_ttl : Ttl
  ttl_ms : ℕ → Ttl

-- The commands that the script calls, on a store of type `Store`.
pub record CounterRedis : Type 1 where
  pub Store : Type 0
  pub incr : String → Store → ℕ × Store
  pub pexpire : String → ℕ → Store → Store
  pub pttl : String → Store → Ttl

pub data RateLimitError : Type 0 where
  dependency_unavailable : RateLimitError
  rate_limited : ℕ → RateLimitError

-- `Math.max(1, Math.ceil(ttl / 1_000))`.
pub retry_after_seconds : Ttl → ℕ
retry_after_seconds negative_ttl = 1
retry_after_seconds (ttl_ms n) = max 1 ((n + 999) / 1000)

-- `redisResultSchema`, on the reply of a script, if there was one.
abbrev pub parse_result : Option (ℕ × Ttl) → Option (ℕ × Ttl)
parse_result none = none
parse_result (some (count, ttl)) = if ltb count 1 then none else some (count, ttl)

abbrev pub exceeds : ℕ × Ttl → Bool
exceeds (count, ttl) = ltb login_rate_limit_attempts count

-- The first result that exceeds the limit decides the wait.
abbrev pub login_verdict : Option (ℕ × Ttl) → Option (ℕ × Ttl) → Result RateLimitError (Unit {0})
login_verdict none r = err dependency_unavailable
login_verdict (some a) none = err dependency_unavailable
login_verdict (some a) (some b) =
    if exceeds a
    then err (rate_limited (retry_after_seconds a.1))
    else if exceeds b
    then err (rate_limited (retry_after_seconds b.1))
    else ok tt

abbrev pub demo_verdict : Option (ℕ × Ttl) → Result RateLimitError (Unit {0})
demo_verdict none = err dependency_unavailable
demo_verdict (some a) = if exceeds a then err (rate_limited (retry_after_seconds a.1)) else ok tt

module _ (redis : CounterRedis) where
  open redis use {Store, incr, pexpire, pttl}

  pub increment_script : String → Store → (ℕ × Ttl) × Store
  increment_script key s =
      let (count, s₁) = incr key s in
      let s₂ = if count == 1 then pexpire key login_rate_limit_window_ms s₁ else s₁ in
      ((count, pttl key s₂), s₂)

  -- `consume` of the login limiter.
  pub consume_login :
      Link → Link → String → String → Store → Result RateLimitError (Unit {0}) × Store
  consume_login ip_link account_link ip_key account_key s =
      let (first, s₁) = evaluate ip_link (increment_script ip_key) s in
      let (second, s₂) = evaluate account_link (increment_script account_key) s₁ in
      (login_verdict (parse_result first) (parse_result second), s₂)

  -- `consume` of the limiter of the public demo.
  pub consume_demo : Link → String → Store → Result RateLimitError (Unit {0}) × Store
  consume_demo link key s =
      let (result, s₁) = evaluate link (increment_script key) s in
      (demo_verdict (parse_result result), s₁)
