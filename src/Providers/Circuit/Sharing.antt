-- ===== src/Providers/Circuit/Sharing.antt =====
-- provider-circuit-breaker.ts: the records of all providers, shared by requests in flight.
use proxy_ai.Base.{
  ℕ, zero, suc, ◌<◌, ◌≡◌, ◌≢◌, refl, ap, true, Option, none, some, List, [], ◌∷◌, ◌++◌, Result, ok,
  err, length, get_elem?, set, length-append, All-snoc, All, arith, Option-cases, inl, inr, subst,
  ◌⊎◌,
}
use proxy_ai.Providers.Types.{ProviderId, Thrown}
use proxy_ai.Providers.Circuit.{
  ProviderCircuitRecord, ProviderCircuitBreakerPolicy, assert_valid_circuit_breaker_policy,
  new_record, Breaker, empty_breaker, get_record, record_at, put_record, is_open, reset,
  prepare_request, complete_request,
}
use proxy_ai.Providers.Circuit.Invariant.{
  RecordInv, new_record-RecordInv, prepare_record-RecordInv, complete_success-RecordInv,
  complete_failure-RecordInv,
}

length-set {ℓ} : {A : Type ℓ} (xs : List A) (i : ℕ) (v : A) → length (set xs i v) ≡ length xs
length-set [] i v = refl
length-set (x ∷ xs) zero v = refl
length-set (x ∷ xs) (suc i) v = ap suc (length-set xs i v)

All-set {ℓ κ} :
    {A : Type ℓ} (P : A → Type κ) (xs : List A) (i : ℕ) (v : A)
    → All P xs
    → P v
    → All P (set xs i v)
All-set P [] i v h pv = h
All-set P (x ∷ xs) zero v h pv = (pv, h.1)
All-set P (x ∷ xs) (suc i) v h pv = (h.0, All-set P xs i v h.1 pv)

-- The circuits keep their invariant, and the map leads to objects of the heap, one for each provider.
pub record BreakerInv (b : Breaker) : Type 0 where
  pub valid : assert_valid_circuit_breaker_policy b.policy ≡ true
  pub records : All (RecordInv b.policy) b.objects
  pub in_heap : (id : ProviderId) (ref : ℕ) → b.refs id ≡ some ref → ref < length b.objects
  pub apart : (i j : ProviderId) (ref : ℕ) → b.refs i ≡ some ref → b.refs j ≡ some ref → i ≡ j

get_elem?-All {ℓ κ} :
    {A : Type ℓ} (P : A → Type κ) (xs : List A) (i : ℕ) (x : A)
    → All P xs
    → get_elem? xs i ≡ some x
    → P x
get_elem?-All P [] i x h e = absurd (ground arith)
get_elem?-All P (y ∷ xs) zero x h e = subst P (ground arith) h.0
get_elem?-All P (y ∷ xs) (suc i) x h e = get_elem?-All P xs i x h.1 e

record_at-RecordInv : (b : Breaker) (ref : ℕ) → BreakerInv b → RecordInv b.policy (record_at b ref)
record_at-RecordInv b ref v = elim (Option-cases (get_elem? b.objects ref)) [
  | inl gone ↦ rw (gone, record_at) (new_record-RecordInv b.policy v.valid)
  | inr (r, found) ↦
      rw (found, record_at) (get_elem?-All (RecordInv b.policy) b.objects ref r v.records found)
]

put_record-BreakerInv :
    (b : Breaker) (ref : ℕ) (r : ProviderCircuitRecord)
    → BreakerInv b
    → RecordInv b.policy r
    → BreakerInv (put_record b ref r)
put_record-BreakerInv b ref r v rv = record {
  valid = v.valid;
  records = All-set (RecordInv b.policy) b.objects ref r v.records rv;
  in_heap = λ id k h. rw (length-set b.objects ref r) (v.in_heap id k h);
  apart = v.apart;
}

get_record-BreakerInv :
    (id : ProviderId) (b : Breaker) → BreakerInv b → BreakerInv (get_record id b).1
unfolding get_record
get_record-BreakerInv id b v = elim (Option-cases (b.refs id)) [
  | inr (ref, e) ↦ rw (e, get_record) v
  | inl e ↦
      rw (e, get_record)
        (record {
          valid = v.valid;
          records =
              All-snoc (RecordInv b.policy) b.objects new_record v.records
                (new_record-RecordInv b.policy v.valid);
          in_heap =
              λ j k h. ground (arith, length-append b.objects (new_record ∷ []), v.in_heap j k);
          apart = λ i j k hi hj. ground (arith, v.apart i j k, v.in_heap i k, v.in_heap j k);
        })
]

pub prepare_request-BreakerInv :
    (id : ProviderId) (now : ℕ) (b : Breaker)
    → BreakerInv b
    → BreakerInv (prepare_request id now b).1
unfolding prepare_request
prepare_request-BreakerInv id now b v =
    let (ref, b₁) = get_record id b in
    let v₁ = get_record-BreakerInv id b v in
    put_record-BreakerInv b₁ ref _ v₁ (
      prepare_record-RecordInv b₁.policy v₁.valid now (record_at b₁ ref)
        (record_at-RecordInv b₁ ref v₁))

pub complete_request-BreakerInv {ℓ} :
    {A : Type ℓ} (t u : ℕ) (r : Result Thrown A) (ref : ℕ) (b : Breaker)
    → BreakerInv b
    → BreakerInv (complete_request t u r ref b)
unfolding complete_request
complete_request-BreakerInv t u (ok a) ref b v =
    put_record-BreakerInv b ref _ v
      (complete_success-RecordInv b.policy v.valid _ (record_at-RecordInv b ref v))
complete_request-BreakerInv t u (err e) ref b v =
    put_record-BreakerInv b ref _ v
      (complete_failure-RecordInv b.policy v.valid t u e _ (record_at-RecordInv b ref v))

pub reset-BreakerInv : (o : Option ProviderId) (b : Breaker) → BreakerInv b → BreakerInv (reset o b)
unfolding reset
reset-BreakerInv none b v = record {
  valid = v.valid;
  records = v.records;
  in_heap = λ j k h. ground arith;
  apart = λ i j k hi hj. ground arith;
}
reset-BreakerInv (some id) b v = record {
  valid = v.valid;
  records = v.records;
  in_heap = λ j k h. ground (arith, v.in_heap j k);
  apart = λ i j k hi hj. ground (arith, v.apart i j k);
}

-- What the tasks of the server do to the breaker, in any order: each request that ends does so with
-- some outcome, on an object that it got at its start.
pub data Event : Type 0 where
  asks_open : ProviderId → ℕ → Event
  begins : ProviderId → ℕ → Event
  ends : ℕ → ℕ → Result Thrown (Unit {0}) → ℕ → Event
  resets : Option ProviderId → Event

unfoldable pub apply_event : Breaker → Event → Breaker
unfolding is_open
apply_event b (asks_open id now) = (is_open id now b).1
apply_event b (begins id now) = (prepare_request id now b).1
apply_event b (ends t u r ref) = complete_request t u r ref b
apply_event b (resets o) = reset o b

unfoldable pub run_events : Breaker → List Event → Breaker
unfolding apply_event
run_events b [] = b
run_events b (e ∷ es) = run_events (apply_event b e) es

apply_event-BreakerInv : (b : Breaker) (e : Event) → BreakerInv b → BreakerInv (apply_event b e)
unfolding apply_event
apply_event-BreakerInv b (asks_open id now) v = get_record-BreakerInv id b v
apply_event-BreakerInv b (begins id now) v = prepare_request-BreakerInv id now b v
apply_event-BreakerInv b (ends t u r ref) v = complete_request-BreakerInv t u r ref b v
apply_event-BreakerInv b (resets o) v = reset-BreakerInv o b v

run_events-BreakerInv :
    (b : Breaker) (es : List Event) → BreakerInv b → BreakerInv (run_events b es)
unfolding run_events
run_events-BreakerInv b [] v = v
run_events-BreakerInv b (e ∷ es) v =
    run_events-BreakerInv (apply_event b e) es (apply_event-BreakerInv b e v)

-- Under a valid policy, requests that begin and end in any order and with any outcomes, mixed with
-- resets, keep every circuit in its invariant and every provider on a record of its own.
pub run_events_invariant :
    (p : ProviderCircuitBreakerPolicy) (es : List Event)
    → assert_valid_circuit_breaker_policy p ≡ true
    → BreakerInv (run_events (empty_breaker p) es)
unfolding empty_breaker
run_events_invariant p es valid = run_events-BreakerInv (empty_breaker p) es (record {
  valid = valid;
  records = tt;
  in_heap = λ j k h. ground arith;
  apart = λ i j k hi hj. ground arith;
})

get_elem?-set_ne {ℓ} :
    {A : Type ℓ} (xs : List A) (i j : ℕ) (v : A) → i ≢ j → get_elem? (set xs i v) j ≡ get_elem? xs j
get_elem?-set_ne [] i j v h = refl
get_elem?-set_ne (x ∷ xs) zero zero v h = absurd (h refl)
get_elem?-set_ne (x ∷ xs) zero (suc j) v h = refl
get_elem?-set_ne (x ∷ xs) (suc i) zero v h = refl
get_elem?-set_ne (x ∷ xs) (suc i) (suc j) v h = get_elem?-set_ne xs i j v (λ e. h (ap suc e))

get_elem?-snoc {ℓ} :
    {A : Type ℓ} (xs : List A) (v : A) → get_elem? (xs ++ v ∷ []) (length xs) ≡ some v
get_elem?-snoc [] v = refl
get_elem?-snoc (x ∷ xs) v = get_elem?-snoc xs v

-- What a caller sees of a provider's circuit.
unfoldable pub get_snapshot : ProviderId → Breaker → ProviderCircuitRecord
unfolding get_record
get_snapshot id b = let (ref, b') = get_record id b in record_at b' ref

-- A request that ends writes to the record that it holds, and to that alone.
put_snapshot :
    (j : ProviderId) (ref : ℕ) (r : ProviderCircuitRecord) (b : Breaker)
    → b.refs j ≢ some ref
    → get_snapshot j (put_record b ref r) ≡ get_snapshot j b
unfolding get_snapshot
put_snapshot j ref r b h = elim (Option-cases (b.refs j)) [
  | inl e ↦
      let length_kept = length-set b.objects ref r in
      let before = get_elem?-snoc b.objects new_record in
      let after = get_elem?-snoc (set b.objects ref r) new_record in ground arith
  | inr (k, e) ↦ let kept = get_elem?-set_ne b.objects ref k r in ground arith
]

complete_snapshot {ℓ} :
    {A : Type ℓ} (t u : ℕ) (r : Result Thrown A) (j : ProviderId) (ref : ℕ) (b : Breaker)
    → b.refs j ≢ some ref
    → get_snapshot j (complete_request t u r ref b) ≡ get_snapshot j b
unfolding complete_request
complete_snapshot t u (ok a) j ref b h = put_snapshot j ref _ b h
complete_snapshot t u (err e) j ref b h = put_snapshot j ref _ b h

-- An object of the heap that is no record of the providers in question.
IsApart : (ProviderId → Type 0) → ℕ → Breaker → Type 0
IsApart P ref b = (ref < length b.objects) × ((j : ProviderId) → P j → b.refs j ≢ some ref)

get_record-IsApart :
    (P : ProviderId → Type 0) (ref : ℕ) (id : ProviderId) (b : Breaker)
    → IsApart P ref b
    → IsApart P ref (get_record id b).1
unfolding IsApart get_record
get_record-IsApart P ref id b (made, apart) = elim (Option-cases (b.refs id)) [
  | inr (k, e) ↦ rw (e, get_record) (made, apart)
  | inl e ↦
      let longer = length-append b.objects (new_record ∷ []) in
      rw (e, get_record) (omega arith, λ j p h. let before = apart j p in ground arith)
]

put_record-IsApart :
    (P : ProviderId → Type 0) (ref k : ℕ) (r : ProviderCircuitRecord) (b : Breaker)
    → IsApart P ref b
    → IsApart P ref (put_record b k r)
unfolding IsApart
put_record-IsApart P ref k r b (made, apart) = (rw (length-set b.objects k r) made, apart)

reset-IsApart :
    (P : ProviderId → Type 0) (ref : ℕ) (o : Option ProviderId) (b : Breaker)
    → IsApart P ref b
    → IsApart P ref (reset o b)
unfolding IsApart reset
reset-IsApart P ref none b (made, apart) = (made, λ j p h. ground arith)
reset-IsApart P ref (some id) b (made, apart) =
    (made, λ j p h. let before = apart j p in ground arith)

-- No event gives an object that was made before to a provider.
apply_event-IsApart :
    (P : ProviderId → Type 0) (ref : ℕ) (e : Event) (b : Breaker)
    → IsApart P ref b
    → IsApart P ref (apply_event b e)
unfolding apply_event prepare_request complete_request
apply_event-IsApart P ref (asks_open id now) b h = get_record-IsApart P ref id b h
apply_event-IsApart P ref (begins id now) b h =
    put_record-IsApart P ref _ _ (get_record id b).1 (get_record-IsApart P ref id b h)
apply_event-IsApart P ref (ends t u (ok a) k) b h = put_record-IsApart P ref k _ b h
apply_event-IsApart P ref (ends t u (err e) k) b h = put_record-IsApart P ref k _ b h
apply_event-IsApart P ref (resets o) b h = reset-IsApart P ref o b h

run_events-IsApart :
    (P : ProviderId → Type 0) (ref : ℕ) (es : List Event) (b : Breaker)
    → IsApart P ref b
    → IsApart P ref (run_events b es)
unfolding run_events
run_events-IsApart P ref [] b h = h
run_events-IsApart P ref (e ∷ es) b h =
    run_events-IsApart P ref es (apply_event b e) (apply_event-IsApart P ref e b h)

prepare_request-refs :
    (id : ProviderId) (now ref : ℕ) (b : Breaker)
    → (prepare_request id now b).0 ≡ ok ref
    → (prepare_request id now b).1.refs id ≡ some ref
unfolding prepare_request get_record
prepare_request-refs id now ref b e = ground arith

-- The record that a request is given is its provider's own.
prepare_request-IsApart :
    (id : ProviderId) (now ref : ℕ) (b : Breaker)
    → BreakerInv b
    → (prepare_request id now b).0 ≡ ok ref
    → IsApart (λ j. j ≢ id) ref (prepare_request id now b).1
unfolding IsApart
prepare_request-IsApart id now ref b v e =
    let b₁ = (prepare_request id now b).1 in
    let v₁ = prepare_request-BreakerInv id now b v in
    let own = prepare_request-refs id now ref b e in
    (v₁.in_heap id ref own, λ j ne h. ne (v₁.apart j id ref h own))

-- In a breaker that keeps its invariant a request begins, and anything may happen, resets too: when
-- the request ends, the circuit of every other provider stays as it is.
pub complete_request_apart {ℓ} :
    {A : Type ℓ} (t u now : ℕ) (r : Result Thrown A) (i j : ProviderId) (ref : ℕ) (b : Breaker)
    (es : List Event)
    → BreakerInv b
    → (prepare_request i now b).0 ≡ ok ref
    → j ≢ i
    → let meanwhile = run_events (prepare_request i now b).1 es in
      get_snapshot j (complete_request t u r ref meanwhile) ≡ get_snapshot j meanwhile
unfolding IsApart
complete_request_apart t u now r i j ref b es v e ne =
    let begun = prepare_request-IsApart i now ref b v e in
    let b₁ = (prepare_request i now b).1 in
    complete_snapshot t u r j ref (run_events b₁ es)
      ((run_events-IsApart (λ j. j ≢ i) ref es b₁ begun).1 j ne)

-- A reset of a provider, or of all, forgets the record of a request that has begun.
reset-forgets :
    (i : ProviderId) (ref : ℕ) (o : Option ProviderId) (b : Breaker)
    → (o ≡ none) ⊎ (o ≡ some i)
    → IsApart (λ j. j ≢ i) ref b
    → IsApart (λ j. Unit {0}) ref (reset o b)
unfolding IsApart reset
reset-forgets i ref none b h (made, apart) = (made, λ j p e. ground arith)
reset-forgets i ref (some k) b h (made, apart) =
    (made, λ j p e. let before = apart j in ground arith)

-- A request begins; behind any events its provider, or all, is reset; then again anything happens, so
-- that other requests may have begun: when the request ends, the circuit of no provider changes.
pub reset_forgets {ℓ} :
    {A : Type ℓ} (t u now : ℕ) (r : Result Thrown A) (i j : ProviderId) (ref : ℕ) (b : Breaker)
    (o : Option ProviderId) (es fs : List Event)
    → BreakerInv b
    → (prepare_request i now b).0 ≡ ok ref
    → (o ≡ none) ⊎ (o ≡ some i)
    → let meanwhile = run_events (reset o (run_events (prepare_request i now b).1 es)) fs in
      get_snapshot j (complete_request t u r ref meanwhile) ≡ get_snapshot j meanwhile
unfolding IsApart
reset_forgets t u now r i j ref b o es fs v e covers =
    let b₁ = (prepare_request i now b).1 in
    let b₂ = run_events b₁ es in
    let held =
      run_events-IsApart (λ j. j ≢ i) ref es b₁ (prepare_request-IsApart i now ref b v e) in
    let forgotten = reset-forgets i ref o b₂ covers held in
    complete_snapshot t u r j ref (run_events (reset o b₂) fs)
      ((run_events-IsApart (λ j. Unit {0}) ref fs (reset o b₂) forgotten).1 j tt)
