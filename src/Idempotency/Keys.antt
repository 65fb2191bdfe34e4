-- ===== src/Idempotency/Keys.antt =====
-- idempotency.service.ts: what one call does to the key that it names and to every other key.
use Prim.Native.String.{String}
use text.Mathlib.Text.{◌==◌ as str_eq}
use text.Mathlib.TextEquality.{eq_iff}
use proxy_ai.Base.{
  ℕ, ◌≡◌, ◌≢◌, refl, sym, ap, subst, ◌⊎◌, inl, inr, true, false, none, some, Bool-cases,
  Option-cases, arith,
}
use proxy_ai.Idempotency.{
  processing, completed, IdempotencyRecord, Stored, record_value, Redis, Link, ReserveInput,
  reserved, taken, reserve, processing_record, is_own_processing, reserve_script, complete_script,
  release_script,
}
use proxy_ai.Idempotency.Calls.{RedisLaws, is_ok, is_held}

pub eq_or_apart : (j k : String) → (j ≡ k) ⊎ (k ≢ j)
eq_or_apart j k = elim (Bool-cases (str_eq j k)) [
  | inl e ↦ inl ((eq_iff j k).0 e)
  | inr e ↦ inr (λ same. let t = (eq_iff j k).1 (sym same) in absurd (ground arith))
]

pub is_own_processing-means :
    (id : String) (r : IdempotencyRecord)
    → is_own_processing id r ≡ true
    → (id ≡ r.request_id) × (r.status ≡ processing)
is_own_processing-means id r h = (sym ((eq_iff r.request_id id).0 (ground arith)), ground arith)

module _ (redis : Redis) (ttl done_ttl : ℕ) (laws : RedisLaws redis) where
  pub reserve_script-free :
      (k : String) (v : Stored) (s : redis.Store)
      → redis.get k s ≡ none
      → ((reserve_script redis ttl done_ttl k v s).0 ≡ reserved)
        × (redis.get k (reserve_script redis ttl done_ttl k v s).1 ≡ some v)
  unfolding reserve_script
  reserve_script-free k v s e =
      let (inserted, got) = laws.nx_free k v ttl s e in (ground arith, ground arith)

  pub reserve_script-taken :
      (k : String) (v w : Stored) (s : redis.Store)
      → redis.get k s ≡ some w
      → reserve_script redis ttl done_ttl k v s ≡ (taken w, s)
  unfolding reserve_script
  reserve_script-taken k v w s e = rw (laws.nx_taken k v w ttl s e) (rw e refl)

  pub reserve_script-other :
      (j k : String) (v : Stored) (s : redis.Store)
      → j ≢ k
      → redis.get j (reserve_script redis ttl done_ttl k v s).1 ≡ redis.get j s
  unfolding reserve_script
  reserve_script-other j k v s ne = ground (arith, laws.nx_other j k v ttl s ne)

  pub reserve-taken :
      (link : Link) (i : ReserveInput) (w : Stored) (s : redis.Store)
      → redis.get i.key s ≡ some w
      → ((reserve redis ttl done_ttl link i s).1 ≡ s)
        × (is_ok (reserve redis ttl done_ttl link i s).0 ≡ false)
  unfolding reserve
  reserve-taken link i w s e =
      let same = reserve_script-taken i.key (processing_record i) w s e in
      (ground arith, ground arith)

  pub reserve-other :
      (link : Link) (i : ReserveInput) (j : String) (s : redis.Store)
      → j ≢ i.key
      → redis.get j (reserve redis ttl done_ttl link i s).1 ≡ redis.get j s
  unfolding reserve
  reserve-other link i j s ne =
      ground (arith, reserve_script-other j i.key (processing_record i) s ne)

  pub reserve-grant :
      (link : Link) (i : ReserveInput) (s : redis.Store)
      → is_ok (reserve redis ttl done_ttl link i s).0 ≡ true
      → (redis.get i.key s ≡ none)
        × (redis.get i.key (reserve redis ttl done_ttl link i s).1 ≡ some (processing_record i))
  unfolding reserve
  reserve-grant link i s h = elim (Option-cases (redis.get i.key s)) [
    | inr (w, e) ↦ absurd (ground (arith, reserve_script-taken i.key (processing_record i) w s e))
    | inl e ↦
        let (free, got) = reserve_script-free i.key (processing_record i) s e in (e, ground arith)
  ]

  pub complete_script-other :
      (j k id : String) (v : Stored) (s : redis.Store)
      → j ≢ k
      → redis.get j (complete_script redis ttl done_ttl k id v s).1 ≡ redis.get j s
  unfolding complete_script
  complete_script-other j k id v s ne = ground (arith, laws.xx_other j k v done_ttl s ne)

  pub release_script-other :
      (j k id : String) (s : redis.Store)
      → j ≢ k
      → redis.get j (release_script redis ttl done_ttl k id s).1 ≡ redis.get j s
  unfolding release_script
  release_script-other j k id s ne = ground (arith, laws.del_other j k s ne)

  pub complete_script-completed :
      (k id : String) (v : Stored) (r : IdempotencyRecord) (s : redis.Store)
      → redis.get k s ≡ some (record_value r)
      → r.status ≡ completed
      → (complete_script redis ttl done_ttl k id v s).1 ≡ s
  unfolding complete_script
  complete_script-completed k id v r s e done = ground arith

  pub release_script-completed :
      (k id : String) (r : IdempotencyRecord) (s : redis.Store)
      → redis.get k s ≡ some (record_value r)
      → r.status ≡ completed
      → (release_script redis ttl done_ttl k id s).1 ≡ s
  unfolding release_script
  release_script-completed k id r s e done = ground arith

  pub complete_script-keeps :
      (k key id : String) (v : Stored) (r : IdempotencyRecord) (s : redis.Store)
      → redis.get k s ≡ some (record_value r)
      → r.status ≡ completed
      → redis.get k (complete_script redis ttl done_ttl key id v s).1 ≡ redis.get k s
  complete_script-keeps k key id v r s e done = elim (eq_or_apart key k) [
    | inl same ↦ ap (redis.get k) (
        complete_script-completed key id v r s
          (subst (λ j. redis.get j s ≡ some (record_value r)) (sym same) e) done)
    | inr ne ↦ complete_script-other k key id v s ne
  ]

  pub release_script-keeps :
      (k key id : String) (r : IdempotencyRecord) (s : redis.Store)
      → redis.get k s ≡ some (record_value r)
      → r.status ≡ completed
      → redis.get k (release_script redis ttl done_ttl key id s).1 ≡ redis.get k s
  release_script-keeps k key id r s e done = elim (eq_or_apart key k) [
    | inl same ↦ ap (redis.get k) (
        release_script-completed key id r s
          (subst (λ j. redis.get j s ≡ some (record_value r)) (sym same) e) done)
    | inr ne ↦ release_script-other k key id s ne
  ]

  pub reserve-keeps :
      (k : String) (link : Link) (i : ReserveInput) (w : Stored) (s : redis.Store)
      → redis.get k s ≡ some w
      → redis.get k (reserve redis ttl done_ttl link i s).1 ≡ redis.get k s
  reserve-keeps k link i w s e = elim (eq_or_apart i.key k) [
    | inl same ↦
        ap (redis.get k)
          (reserve-taken link i w s (subst (λ j. redis.get j s ≡ some w) (sym same) e)).0
    | inr ne ↦ reserve-other link i k s ne
  ]

  pub complete_script-held :
      (k key id : String) (v w : Stored) (s : redis.Store)
      → redis.get k s ≡ some w
      → is_held redis k (complete_script redis ttl done_ttl key id v s).1 ≡ true
  unfolding complete_script
  complete_script-held k key id v w s e = elim (eq_or_apart key k) [
    | inl same ↦
        let got = subst (λ j. redis.get j s ≡ some w) (sym same) e in
        subst (λ j. is_held redis j (complete_script redis ttl done_ttl key id v s).1 ≡ true) same
          (ground (arith, laws.xx_self key v w done_ttl s got))
    | inr ne ↦ let other = complete_script-other k key id v s ne in ground arith
  ]

  pub release_script-own :
      (key id : String) (r : IdempotencyRecord) (s : redis.Store)
      → redis.get key s ≡ some (record_value r)
      → ((release_script redis ttl done_ttl key id s).1 ≡ s) ⊎ (is_own_processing id r ≡ true)
  unfolding release_script
  release_script-own key id r s e = elim (Bool-cases (is_own_processing id r)) [
    | inl own ↦ inr own
    | inr other ↦ inl (ground arith)
  ]
