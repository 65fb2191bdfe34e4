-- ===== src/Auth/Tests.antt =====
-- login-rate-limit.service.ts: the theorem on a store that is a function from keys to counters.
use Prim.Native.String.{String}
use text.Mathlib.Text.{◌==◌ as str_eq}
use text.Mathlib.TextEquality.{eq_iff}
use proxy_ai.Base.{
  ℕ, ◌+◌, ◌-◌, ◌*◌, ◌≤◌, ◌≡◌, ◌≢◌, refl, List, [], ◌∷◌, inl, inr, Bool-cases, if◌then◌else◌, arith,
}
use proxy_ai.Idempotency.{works, fails_after}
use proxy_ai.Auth.{CounterRedis, ttl_ms}
use proxy_ai.Auth.Attempts.{
  CounterLaws, Attempt, logs_in, visits_demo, lapses, passed, lapsed, login_limit_holds,
}

abbrev update : String → ℕ → (String → ℕ) → String → ℕ
update k n s j = if str_eq j k then n else s j

abbrev counters : CounterRedis
counters = record {
  Store = String → ℕ;
  incr = λ k s. (s k + 1, update k (s k + 1) s);
  pexpire = λ k t s. s;
  pttl = λ k s. ttl_ms 900000;
}

update_self : (k : String) (n : ℕ) (s : String → ℕ) → update k n s k ≡ n
update_self k n s = let e = (eq_iff k k).1 refl in ground arith

update_other : (j k : String) (n : ℕ) (s : String → ℕ) → j ≢ k → update k n s j ≡ s j
update_other j k n s ne = elim (Bool-cases (str_eq j k)) [
  | inl e ↦ absurd (ne ((eq_iff j k).0 e))
  | inr e ↦ ground arith
]

counters-laws : CounterLaws counters
counters-laws = record {
  value = λ k s. s k;
  lapse = λ k s. update k 0 s;
  incr_count = λ k s. refl;
  incr_self = λ k s. update_self k (s k + 1) s;
  incr_other = λ j k s ne. update_other j k (s k + 1) s ne;
  pexpire_value = λ j k t s h. refl;
  lapse_other = λ j k s ne. update_other j k 0 s ne;
}

abbrev attempts : List Attempt
attempts =
    logs_in works works "ip" "account"
    ∷ logs_in works fails_after "ip" "account"
    ∷ lapses "ip"
    ∷ visits_demo works "ip"
    ∷ []

login_limit_holds_example :
    passed counters counters-laws "ip" attempts (λ k. 9)
    ≤ 10 - counters-laws.value "ip" (λ k. 9) + 10 * lapsed counters counters-laws "ip" attempts
login_limit_holds_example = login_limit_holds counters counters-laws "ip" attempts (λ k. 9)
