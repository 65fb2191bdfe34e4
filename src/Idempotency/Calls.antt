-- ===== src/Idempotency/Calls.antt =====
-- idempotency.service.ts: sequences of calls by any requests, and what Redis promises of its commands.
use Prim.Native.String.{String}
use text.Mathlib.Text.{◌==◌ as str_eq}
use proxy_ai.Base.{
  ℕ, ◌+◌, ◌≡◌, ◌≢◌, Bool, true, false, ◌&&◌, ◌||◌, not, none, some, List, [], ◌∷◌, Result, ok, err,
}
use proxy_ai.Idempotency.{
  processing, IdempotencyRecord, Stored, Redis, Link, IdempotencyError, ReserveInput, Reservation,
  reserve, mark_completed, release_before_execution,
}

-- What Redis documents of the commands.
pub record RedisLaws (redis : Redis) : Type 0 where
  pub nx_free :
      (k : String) (v : Stored) (t : ℕ) (s : redis.Store)
      → redis.get k s ≡ none
      → ((redis.set_nx_ex k v t s).0 ≡ true) × (redis.get k (redis.set_nx_ex k v t s).1 ≡ some v)
  pub nx_taken :
      (k : String) (v w : Stored) (t : ℕ) (s : redis.Store)
      → redis.get k s ≡ some w
      → redis.set_nx_ex k v t s ≡ (false, s)
  pub nx_other :
      (j k : String) (v : Stored) (t : ℕ) (s : redis.Store)
      → j ≢ k
      → redis.get j (redis.set_nx_ex k v t s).1 ≡ redis.get j s
  pub xx_self :
      (k : String) (v w : Stored) (t : ℕ) (s : redis.Store)
      → redis.get k s ≡ some w
      → redis.get k (redis.set_xx_ex k v t s) ≡ some v
  pub xx_other :
      (j k : String) (v : Stored) (t : ℕ) (s : redis.Store)
      → j ≢ k
      → redis.get j (redis.set_xx_ex k v t s) ≡ redis.get j s
  pub del_self : (k : String) (s : redis.Store) → redis.get k (redis.del k s) ≡ none
  pub del_other :
      (j k : String) (s : redis.Store) → j ≢ k → redis.get j (redis.del k s) ≡ redis.get j s

-- A call of the service by any request, over a connection that may fail, or the end of a key's time
-- to live, which Redis may put between any two calls.
pub data Call : Type 0 where
  expires : String → Call
  reserves : Link → ReserveInput → Call
  completes : Link → Reservation → Call
  releases : Link → Reservation → Call

-- What may free a key held by the record.
unfoldable pub MayFree : String → IdempotencyRecord → Call → Type 0
MayFree k r (expires j) = j ≡ k
MayFree k r (reserves link i) = ⊥
MayFree k r (completes link own) = ⊥
MayFree k r (releases link own) =
    (own.key ≡ k)
    × ((own.request_id ≡ r.request_id)
        × ((own.provider_execution_started ≡ false) × (r.status ≡ processing)))

abbrev pub count : Bool → ℕ
count true = 1
count false = 0

abbrev pub is_ok : {A : Type 0} → Result IdempotencyError A → Bool
is_ok (ok a) = true
is_ok (err e) = false

abbrev pub ends : String → Call → Bool
ends k (expires j) = str_eq j k
ends k (reserves link i) = false
ends k (completes link r) = false
ends k (releases link r) = false

-- The key's time to live ends between the calls.
abbrev pub expired : String → List Call → Bool
expired k [] = false
expired k (c ∷ cs) = ends k c || expired k cs

module _ (redis : Redis) where
  abbrev pub is_held : String → redis.Store → Bool
  is_held k s = elim (redis.get k s) [ none ↦ false | some v ↦ true ]

module _ (redis : Redis) (ttl done_ttl : ℕ) where
  unfoldable pub step : Call → redis.Store → redis.Store
  step (expires k) s = redis.del k s
  step (reserves link i) s = (reserve redis ttl done_ttl link i s).1
  step (completes link r) s = (mark_completed redis ttl done_ttl link r s).1
  step (releases link r) s = (release_before_execution redis ttl done_ttl link r s).1

  -- The call is a reservation of the key, and succeeds.
  unfoldable pub is_grant : String → Call → redis.Store → Bool
  is_grant k (reserves link i) s = str_eq i.key k && is_ok (reserve redis ttl done_ttl link i s).0
  is_grant k (expires j) s = false
  is_grant k (completes link r) s = false
  is_grant k (releases link r) s = false

  -- The key was held before the call, and is free after it.
  unfoldable pub is_freed : String → Call → redis.Store → Bool
  unfolding step
  is_freed k c s = is_held redis k s && not (is_held redis k (step c s))

  unfoldable pub run : List Call → redis.Store → redis.Store
  run [] s = s
  run (c ∷ cs) s = run cs (step c s)

  unfoldable pub grants : String → List Call → redis.Store → ℕ
  unfolding is_grant
  grants k [] s = 0
  grants k (c ∷ cs) s = count (is_grant k c s) + grants k cs (step c s)

  unfoldable pub frees : String → List Call → redis.Store → ℕ
  unfolding is_freed
  frees k [] s = 0
  frees k (c ∷ cs) s = count (is_freed k c s) + frees k cs (step c s)
