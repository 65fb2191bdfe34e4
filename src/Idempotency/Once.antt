-- ===== src/Idempotency/Once.antt =====
-- idempotency.service.ts: who may run a request, over any sequence of calls by any requests.
use Prim.Native.String.{String}
use text.Mathlib.TextEquality.{eq_iff}
use proxy_ai.Base.{
  ℕ, suc, ◌+◌, ◌≤◌, ◌≡◌, refl, sym, subst, ◌∙◌, inl, inr, true, false, some, List, [], ◌∷◌,
  Bool-cases, arith,
}
use proxy_ai.Idempotency.{
  completed, IdempotencyRecord, record_value, Redis, works, fails_before, fails_after,
  mark_completed, release_before_execution, completed_record,
}
use proxy_ai.Idempotency.Calls.{
  RedisLaws, Call, expires, reserves, completes, releases, MayFree, count, ends, expired, is_held,
  step, is_grant, is_freed, run, grants, frees,
}
use proxy_ai.Idempotency.Keys.{
  reserve-grant, release_script-other, eq_or_apart, complete_script-keeps, release_script-keeps,
  reserve-keeps, complete_script-held, release_script-own, is_own_processing-means,
}

module _ (redis : Redis) (ttl done_ttl : ℕ) (laws : RedisLaws redis) where
  is_grant-held :
      (k : String) (c : Call) (s : redis.Store)
      → is_grant redis ttl done_ttl k c s ≡ true
      → (is_held redis k s ≡ false) × (is_held redis k (step redis ttl done_ttl c s) ≡ true)
  unfolding is_grant step
  is_grant-held k (expires j) s h = absurd (ground arith)
  is_grant-held k (completes link r) s h = absurd (ground arith)
  is_grant-held k (releases link r) s h = absurd (ground arith)
  is_grant-held k (reserves link i) s h =
      let e : i.key ≡ k = (eq_iff i.key k).0 (ground arith) in
      let (free, got) = reserve-grant redis ttl done_ttl laws link i s (ground arith) in
      (
        subst (λ j. is_held redis j s ≡ false) e (ground arith),
        subst (λ j. is_held redis j (step redis ttl done_ttl (reserves link i) s) ≡ true) e
            (ground arith),
      )

  step-count :
      (k : String) (c : Call) (s : redis.Store)
      → count (is_grant redis ttl done_ttl k c s) + count (is_held redis k s)
        ≤ count (is_freed redis ttl done_ttl k c s)
          + count (is_held redis k (step redis ttl done_ttl c s))
  unfolding is_freed
  step-count k c s = elim (Bool-cases (is_grant redis ttl done_ttl k c s)) [
    | inl e ↦ let (a, b) = is_grant-held k c s e in rw (e, a, b) (ground arith)
    | inr e ↦ ground arith
  ]

  grants_balance :
      (k : String) (cs : List Call) (s : redis.Store)
      → grants redis ttl done_ttl k cs s + count (is_held redis k s)
        ≤ frees redis ttl done_ttl k cs s + count (is_held redis k (run redis ttl done_ttl cs s))
  unfolding grants frees run
  grants_balance k [] s = ground arith
  grants_balance k (c ∷ cs) s =
      let now = step-count k c s in
      let later = grants_balance k cs (step redis ttl done_ttl c s) in omega arith

  step-keeps :
      (k : String) (c : Call) (r : IdempotencyRecord) (s : redis.Store)
      → ends k c ≡ false
      → redis.get k s ≡ some (record_value r)
      → r.status ≡ completed
      → redis.get k (step redis ttl done_ttl c s) ≡ redis.get k s
  unfolding step mark_completed release_before_execution
  step-keeps k (expires j) r s apart e done = elim (eq_or_apart j k) [
    | inl same ↦ let t = (eq_iff j k).1 same in absurd (ground arith)
    | inr ne ↦ laws.del_other k j s ne
  ]
  step-keeps k (reserves link i) r s apart e done =
      reserve-keeps redis ttl done_ttl laws k link i (record_value r) s e
  step-keeps k (completes works i) r s apart e done =
      complete_script-keeps redis ttl done_ttl laws k i.key i.request_id _ r s e done
  step-keeps k (completes fails_before i) r s apart e done = refl
  step-keeps k (completes fails_after i) r s apart e done =
      complete_script-keeps redis ttl done_ttl laws k i.key i.request_id _ r s e done
  step-keeps k (releases link i) r s apart e done =
      ground (arith, release_script-keeps redis ttl done_ttl laws k i.key i.request_id r s e done)

  -- Once a request's key says that the request is completed, then over every sequence of calls by
  -- any requests, with any failures of the connection, while the key's time to live does not end,
  -- the key keeps that record and no reservation of it succeeds.
  pub completed_stays :
      (k : String) (cs : List Call) (r : IdempotencyRecord) (s : redis.Store)
      → redis.get k s ≡ some (record_value r)
      → r.status ≡ completed
      → expired k cs ≡ false
      → (redis.get k (run redis ttl done_ttl cs s) ≡ some (record_value r))
        × (grants redis ttl done_ttl k cs s ≡ 0)
  unfolding run grants
  completed_stays k [] r s e done alive = (e, refl)
  completed_stays k (c ∷ cs) r s e done alive =
      let kept = step-keeps k c r s (ground arith) e done ∙ e in
      let (same, none_later) =
        completed_stays k cs r (step redis ttl done_ttl c s) kept done (ground arith) in
      (
        same,
        elim (Bool-cases (is_grant redis ttl done_ttl k c s)) [
          | inl g ↦ let (free, held) = is_grant-held k c s g in absurd (ground arith)
          | inr g ↦ ground arith
        ],
      )

  -- Over every sequence of calls by any requests, with any failures of the connection and any ends
  -- of a time to live, two reservations of one key succeed only if the key is freed in between:
  -- they are at most one more than the times it is freed, and none more where it is held at first.
  pub granted_once :
      (k : String) (cs : List Call) (s : redis.Store)
      → grants redis ttl done_ttl k cs s + count (is_held redis k s)
        ≤ suc (frees redis ttl done_ttl k cs s)
  granted_once k cs s = let balance = grants_balance k cs s in ground arith

  -- A call that frees a key held by a record is the end of its time to live, or a release by the
  -- request of that record, which is still processing, and whose provider execution has not started.
  pub freed_by_owner :
      (k : String) (c : Call) (r : IdempotencyRecord) (s : redis.Store)
      → redis.get k s ≡ some (record_value r)
      → is_freed redis ttl done_ttl k c s ≡ true
      → MayFree k r c
  unfolding MayFree is_freed step mark_completed release_before_execution
  freed_by_owner k (expires j) r s e h = elim (eq_or_apart j k) [
    | inl same ↦ same
    | inr ne ↦ let kept = laws.del_other k j s ne in absurd (ground arith)
  ]
  freed_by_owner k (reserves link i) r s e h =
      let kept = reserve-keeps redis ttl done_ttl laws k link i (record_value r) s e in
      absurd (ground arith)
  freed_by_owner k (completes link i) r s e h =
      let held =
        complete_script-held redis ttl done_ttl laws k i.key i.request_id (completed_record i)
          (record_value r) s e in
      absurd (ground arith)
  freed_by_owner k (releases link own) r s e h = elim (eq_or_apart own.key k) [
    | inl same ↦
        let got = subst (λ j. redis.get j s ≡ some (record_value r)) (sym same) e in
        elim (release_script-own redis ttl done_ttl laws own.key own.request_id r s got) [
          | inl kept ↦ absurd (ground arith)
          | inr own_it ↦
              let (id, st) = is_own_processing-means own.request_id r own_it in
              (same, (id, (ground arith, st)))
        ]
    | inr ne ↦
        let kept = release_script-other redis ttl done_ttl laws k own.key own.request_id s ne in
        absurd (ground arith)
  ]
