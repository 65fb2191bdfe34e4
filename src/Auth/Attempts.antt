-- ===== src/Auth/Attempts.antt =====
-- login-rate-limit.service.ts: how many attempts pass, over any sequence of logins.
use Prim.Native.String.{String}
use text.Mathlib.Text.{◌==◌ as str_eq}
use text.Mathlib.TextEquality.{eq_iff}
use proxy_ai.Base.{
  ℕ, ◌+◌, ◌-◌, ◌*◌, ◌≤◌, ◌<◌, ◌≡◌, ◌≢◌, sym, ◌∙◌, inl, inr, Bool, true, false, ◌&&◌, ◌||◌, List, [],
  ◌∷◌, Result, ok, err, subst, Bool-cases, arith,
}
use proxy_ai.Idempotency.{Link, works, fails_before, fails_after, evaluate}
use proxy_ai.Auth.{CounterRedis, RateLimitError, increment_script, consume_login, consume_demo}

-- What Redis documents: `value` is the counter under a key, 0 where there is none, and `lapse` is the
-- end of a key's time to live.
pub record CounterLaws (redis : CounterRedis) : Type 0 where
  pub value : String → redis.Store → ℕ
  pub lapse : String → redis.Store → redis.Store
  pub incr_count : (k : String) (s : redis.Store) → (redis.incr k s).0 ≡ value k s + 1
  pub incr_self : (k : String) (s : redis.Store) → value k (redis.incr k s).1 ≡ value k s + 1
  pub incr_other : (j k : String) (s : redis.Store) → j ≢ k → value j (redis.incr k s).1 ≡ value j s
  pub pexpire_value :
      (j k : String) (t : ℕ) (s : redis.Store) → 0 < t → value j (redis.pexpire k t s) ≡ value j s
  pub lapse_other : (j k : String) (s : redis.Store) → j ≢ k → value j (lapse k s) ≡ value j s

-- Logins and visits of the demo, by anyone, and the ends of times to live, in any order.
pub data Attempt : Type 0 where
  logs_in : Link → Link → String → String → Attempt
  visits_demo : Link → String → Attempt
  lapses : String → Attempt

module _ (redis : CounterRedis) (laws : CounterLaws redis) where
  unfoldable pub attempt : Attempt → redis.Store → redis.Store
  attempt (logs_in l₁ l₂ ip account) s = (consume_login redis l₁ l₂ ip account s).1
  attempt (visits_demo l key) s = (consume_demo redis l key s).1
  attempt (lapses key) s = laws.lapse key s

  abbrev is_ok : {A : Type 0} → Result RateLimitError A → Bool
  is_ok (ok a) = true
  is_ok (err e) = false

  -- The attempt is counted under the key, and passes.
  unfoldable pub is_passed : String → Attempt → redis.Store → Bool
  is_passed k (logs_in l₁ l₂ ip account) s =
      (str_eq ip k || str_eq account k) && is_ok (consume_login redis l₁ l₂ ip account s).0
  is_passed k (visits_demo l key) s = str_eq key k && is_ok (consume_demo redis l key s).0
  is_passed k (lapses key) s = false

  abbrev is_lapse : String → Attempt → Bool
  is_lapse k (logs_in l₁ l₂ ip account) = false
  is_lapse k (visits_demo l key) = false
  is_lapse k (lapses key) = str_eq key k

  abbrev one_if : Bool → ℕ
  one_if true = 1
  one_if false = 0

  unfoldable pub passed : String → List Attempt → redis.Store → ℕ
  unfolding is_passed attempt
  passed k [] s = 0
  passed k (a ∷ as') s = one_if (is_passed k a s) + passed k as' (attempt a s)

  abbrev pub lapsed : String → List Attempt → ℕ
  lapsed k [] = 0
  lapsed k (a ∷ as') = one_if (is_lapse k a) + lapsed k as'

  increment_script_self :
      (k : String) (s : redis.Store)
      → ((increment_script redis k s).0.0 ≡ laws.value k s + 1)
        × (laws.value k (increment_script redis k s).1 ≡ laws.value k s + 1)
  unfolding increment_script
  increment_script_self k s = (
    laws.incr_count k s,
    ground
        (arith, laws.incr_self k s, laws.pexpire_value k k 900000 (redis.incr k s).1 (omega arith)),
  )

  increment_script_other :
      (j k : String) (s : redis.Store)
      → j ≢ k
      → laws.value j (increment_script redis k s).1 ≡ laws.value j s
  unfolding increment_script
  increment_script_other j k s ne = ground (
    arith,
    laws.incr_other j k s ne,
    laws.pexpire_value j k 900000 (redis.incr k s).1 (omega arith),
  )

  increment_script_grows :
      (j k : String) (s : redis.Store)
      → laws.value j s ≤ laws.value j (increment_script redis k s).1
  increment_script_grows j k s = elim (Bool-cases (str_eq j k)) [
    | inl e ↦
        let (count, self) = increment_script_self k s in
        subst (λ i. laws.value i s ≤ laws.value i (increment_script redis k s).1)
          (sym ((eq_iff j k).0 e)) (omega arith)
    | inr e ↦
        let same =
          increment_script_other j k s (λ q. let t = (eq_iff j k).1 q in absurd (ground arith)) in
        omega arith
  ]

  evaluate_grows :
      (link : Link) (j k : String) (s : redis.Store)
      → laws.value j s ≤ laws.value j (evaluate link (increment_script redis k) s).1
  evaluate_grows works j k s = increment_script_grows j k s
  evaluate_grows fails_before j k s = omega arith
  evaluate_grows fails_after j k s = increment_script_grows j k s

  attempt_grows :
      (k : String) (a : Attempt) (s : redis.Store)
      → is_lapse k a ≡ false
      → laws.value k s ≤ laws.value k (attempt a s)
  unfolding attempt consume_login consume_demo
  attempt_grows k (logs_in l₁ l₂ ip account) s h =
      let first = evaluate_grows l₁ k ip s in
      let second = evaluate_grows l₂ k account (evaluate l₁ (increment_script redis ip) s).1 in
      omega arith
  attempt_grows k (visits_demo l key) s h = evaluate_grows l k key s
  attempt_grows k (lapses key) s h =
      let same =
        laws.lapse_other k key s (λ q. let t = (eq_iff key k).1 (sym q) in absurd (ground arith)) in
      omega arith

  -- A login on which both scripts reply passes under its account, and under its address.
  account_passed :
      (ip account : String) (s : redis.Store)
      → is_ok (consume_login redis works works ip account s).0 ≡ true
      → let s' = (consume_login redis works works ip account s).1 in
        (laws.value account s < laws.value account s') × (laws.value account s' ≤ 10)
  unfolding consume_login
  account_passed ip account s o =
      let first = increment_script_grows account ip s in
      let (count, self) = increment_script_self account (increment_script redis ip s).1 in
      (omega arith, ground arith)

  address_passed :
      (ip account : String) (s : redis.Store)
      → ip ≢ account
      → is_ok (consume_login redis works works ip account s).0 ≡ true
      → let s' = (consume_login redis works works ip account s).1 in
        (laws.value ip s < laws.value ip s') × (laws.value ip s' ≤ 10)
  unfolding consume_login
  address_passed ip account s ne o =
      let (count, self) = increment_script_self ip s in
      let same = increment_script_other ip account (increment_script redis ip s).1 ne in
      (omega arith, ground arith)

  login_passed :
      (k ip account : String) (s : redis.Store)
      → str_eq ip k || str_eq account k ≡ true
      → is_ok (consume_login redis works works ip account s).0 ≡ true
      → let s' = (consume_login redis works works ip account s).1 in
        (laws.value k s < laws.value k s') × (laws.value k s' ≤ 10)
  login_passed k ip account s h o = elim (Bool-cases (str_eq account k)) [
    | inl e ↦
        subst
          (λ j.
            let s' = (consume_login redis works works ip account s).1 in
            (laws.value j s < laws.value j s') × (laws.value j s' ≤ 10))
          ((eq_iff account k).0 e) (account_passed ip account s o)
    | inr e ↦
        let same : ip ≡ k = (eq_iff ip k).0 (ground arith) in
        let apart : ip ≢ account =
          λ q. let t = (eq_iff account k).1 (sym q ∙ same) in absurd (ground arith) in
        subst
          (λ j.
            let s' = (consume_login redis works works ip account s).1 in
            (laws.value j s < laws.value j s') × (laws.value j s' ≤ 10))
          same (address_passed ip account s apart o)
  ]

  demo_passed :
      (key : String) (s : redis.Store)
      → is_ok (consume_demo redis works key s).0 ≡ true
      → let s' = (consume_demo redis works key s).1 in
        (laws.value key s < laws.value key s') × (laws.value key s' ≤ 10)
  unfolding consume_demo
  demo_passed key s o =
      let (count, self) = increment_script_self key s in (omega arith, ground arith)

  -- An attempt passes only if every script replied.
  login_linked :
      (l₁ l₂ : Link) (ip account : String) (s : redis.Store)
      → is_ok (consume_login redis l₁ l₂ ip account s).0 ≡ true
      → (l₁ ≡ works) × (l₂ ≡ works)
  unfolding consume_login
  login_linked l₁ l₂ ip account s o = ground arith

  demo_linked :
      (l : Link) (key : String) (s : redis.Store)
      → is_ok (consume_demo redis l key s).0 ≡ true
      → l ≡ works
  unfolding consume_demo
  demo_linked l key s o = ground arith

  attempt_passed :
      (k : String) (a : Attempt) (s : redis.Store)
      → is_passed k a s ≡ true
      → (laws.value k s < laws.value k (attempt a s)) × (laws.value k (attempt a s) ≤ 10)
  unfolding is_passed attempt
  attempt_passed k (logs_in l₁ l₂ ip account) s h =
      let (e₁, e₂) = login_linked l₁ l₂ ip account s (ground arith) in
      let passes = login_passed k ip account s (ground arith) (ground arith) in ground arith
  attempt_passed k (visits_demo l key) s h =
      let e = demo_linked l key s (ground arith) in
      let same : key ≡ k = (eq_iff key k).0 (ground arith) in
      let passes = demo_passed key s (ground arith) in
      subst
        (λ j.
          let s' = (consume_demo redis l key s).1 in
          (laws.value j s < laws.value j s') × (laws.value j s' ≤ 10))
        same (ground arith)
  attempt_passed k (lapses key) s h = absurd (ground arith)

  -- Whatever is tried, by anyone and in any order, and whatever fails, the logins and the demo visits
  -- that are counted under a key and pass are at most ten for each time to live of the key, less
  -- those that were counted before.
  pub login_limit_holds :
      (k : String) (as' : List Attempt) (s : redis.Store)
      → passed k as' s ≤ 10 - laws.value k s + 10 * lapsed k as'
  unfolding passed
  login_limit_holds k [] s = omega arith
  login_limit_holds k (a ∷ as') s =
      let later = login_limit_holds k as' (attempt a s) in
      elim (Bool-cases (is_passed k a s)) [
        | inl e ↦ let now = attempt_passed k a s e in ground arith
        | inr e ↦ elim (Bool-cases (is_lapse k a)) [
          | inl f ↦ ground arith
          | inr f ↦ let grows = attempt_grows k a s f in ground arith
        ]
      ]
