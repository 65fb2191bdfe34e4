-- ===== src/Idempotency/Tests.antt =====
-- idempotency.service.ts: the theorems on a store that is a function from keys to values.
use Prim.Native.String.{String}
use text.Mathlib.Text.{◌==◌ as str_eq}
use text.Mathlib.TextEquality.{eq_iff}
use proxy_ai.Base.{
  ℕ, zero, suc, ◌+◌, ◌≤◌, ◌≡◌, ◌≢◌, refl, true, false, Option, none, some, List, [], ◌∷◌,
  if◌then◌else◌, Bool-cases, inl, inr, arith,
}
use proxy_ai.Idempotency.{
  completed, processing, IdempotencyRecord, Stored, record_value, Redis, works, fails_after,
  ReserveInput, new_reservation, release_before_execution, release_script,
}
use proxy_ai.Idempotency.Calls.{
  RedisLaws, Call, expires, reserves, completes, releases, is_held, is_freed, count, run, grants,
  frees, MayFree,
}
use proxy_ai.Idempotency.Once.{completed_stays, granted_once, freed_by_owner}

abbrev update : String → Option Stored → (String → Option Stored) → String → Option Stored
update k v s j = if str_eq j k then v else s j

abbrev map_redis : Redis
map_redis = record {
  Store = String → Option Stored;
  get = λ k s. s k;
  set_nx_ex = λ k v t s. elim (s k) [ none ↦ (true, update k (some v) s) | some w ↦ (false, s) ];
  set_xx_ex = λ k v t s. elim (s k) [ none ↦ s | some w ↦ update k (some v) s ];
  del = λ k s. update k none s;
}

update_self : (k : String) (v : Option Stored) (s : String → Option Stored) → update k v s k ≡ v
update_self k v s = let e = (eq_iff k k).1 refl in ground arith

update_other :
    (j k : String) (v : Option Stored) (s : String → Option Stored) → j ≢ k → update k v s j ≡ s j
update_other j k v s ne = elim (Bool-cases (str_eq j k)) [
  | inl e ↦ absurd (ne ((eq_iff j k).0 e))
  | inr e ↦ ground arith
]

map_redis-laws : RedisLaws map_redis
map_redis-laws = record {
  nx_free = λ k v t s e. let self = update_self k (some v) s in (ground arith, ground arith);
  nx_taken = λ k v w t s e. ground arith;
  nx_other = λ j k v t s ne. let rest = update_other j k (some v) s ne in ground arith;
  xx_self = λ k v w t s e. let self = update_self k (some v) s in ground arith;
  xx_other = λ j k v t s ne. let rest = update_other j k (some v) s ne in ground arith;
  del_self = λ k s. update_self k none s;
  del_other = λ j k s ne. update_other j k none s ne;
}

abbrev zeros : ℕ → List ℕ
zeros zero = []
zeros (suc n) = b'0' ∷ zeros n

abbrev first_request : ReserveInput
first_request = record { key = "k"; request_id = "a"; request_fingerprint = zeros 64 }

abbrev second_request : ReserveInput
second_request = record { key = "k"; request_id = "b"; request_fingerprint = zeros 64 }

abbrev done_record : IdempotencyRecord
done_record = record { status = completed; request_id = "a"; request_fingerprint = zeros 64 }

abbrev busy_record : IdempotencyRecord
busy_record = record { status = processing; request_id = "a"; request_fingerprint = zeros 64 }

abbrev holding : IdempotencyRecord → String → Option Stored
holding r k = some (record_value r)

abbrev calls : List Call
calls =
    reserves works second_request
    ∷ completes fails_after (new_reservation second_request)
    ∷ releases works (new_reservation first_request)
    ∷ expires "other"
    ∷ []

completed_stays_example :
    (run map_redis 600 3600 calls (holding done_record) "k" ≡ some (record_value done_record))
    × (grants map_redis 600 3600 "k" calls (holding done_record) ≡ 0)
completed_stays_example =
    completed_stays map_redis 600 3600 map_redis-laws "k" calls done_record (holding done_record)
      refl refl refl

granted_once_example :
    grants map_redis 600 3600 "k" calls (λ k. none) + count (is_held map_redis "k" (λ k. none))
    ≤ suc (frees map_redis 600 3600 "k" calls (λ k. none))
granted_once_example = granted_once map_redis 600 3600 map_redis-laws "k" calls (λ k. none)

release_frees :
    is_freed map_redis 600 3600 "k"
      (releases works (new_reservation first_request))
      (holding busy_record)
    ≡ true
unfolding is_freed release_before_execution release_script
release_frees = refl

freed_by_owner_example : MayFree "k" busy_record (releases works (new_reservation first_request))
freed_by_owner_example =
    freed_by_owner map_redis 600 3600 map_redis-laws "k"
      (releases works (new_reservation first_request)) busy_record (holding busy_record) refl
      release_frees
