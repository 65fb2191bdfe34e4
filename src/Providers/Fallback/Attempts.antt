-- ===== src/Providers/Fallback/Attempts.antt =====
-- provider-fallback.ts: what `completeWithOrderedFallback` reports of its attempts.
use Prim.Native.String.{String}
use mathlib.Core.List.{append_assoc, append-nil}
use proxy_ai.Base.{
  ℕ, ◌+◌, ◌≡◌, refl, sym, ap, ◌∙◌, Bool, true, false, Option, none, some, List, [], ◌∷◌, ◌++◌,
  Result, ok, err, Result-cases, Bool-cases, All, subst, arith, inl, inr,
}
use proxy_ai.Providers.Types.{Thrown}
use proxy_ai.Providers.Retry.{ProviderRetryPolicy, retry_provider_operation}
use proxy_ai.Providers.Circuit.{is_open, Breaker}
use proxy_ai.Providers.Fallback.{
  World, FallbackAttempt, Candidate, FallbackEffects, FallbackError, all_providers_unavailable,
  FallbackMetadata, skipped_attempt, create_failed_attempt, succeeded_attempt, circuit_is_open,
  attempt_candidate, Tried, try_candidates, last_provider_id, create_all_unavailable,
  complete_with_ordered_fallback, on_rest, record_skipped, record_failed, execute, count_fallback,
  metric_attempted, create_candidate_request,
}

module _ {S R A : Type 0} (fx : FallbackEffects S) (policy : ProviderRetryPolicy) (rid : String)
    (request : R) where
  -- What the circuit of a candidate says at the clock's reading, and the world behind that.
  abbrev asked : Candidate S R A → World S → Bool × World S
  asked c w =
      let (t, s₁) = fx.now w.rest in
      let (refuses, b₁) = is_open c.provider_id t w.breaker in
      (refuses, record { breaker = b₁; rest = s₁ })

  -- The candidate's own run behind its circuit, with retries.
  abbrev run_of : Candidate S R A → ℕ → World S → Result Thrown A × World S
  run_of c n w =
      retry_provider_operation fx.retry c.provider_id policy
        (λ _.
          execute fx c.provider_id
            (c.run (record { base = request; provider_id = c.provider_id; model = c.model })))
        (on_rest (count_fallback fx rid n c.provider_id metric_attempted) w)

  -- The attempts at an ordered list of candidates, from a number and a world on, up to the first
  -- result: a candidate is skipped where its circuit refuses, and is run where it does not.
  pub data Outcome
      : List (Candidate S R A)
        → ℕ
        → World S
        → List FallbackAttempt
        → Option (Candidate S R A × A)
        → Type 0 where
    exhausted : {n : ℕ} {w : World S} → Outcome [] n w [] none
    skipped :
        {c : Candidate S R A} {cs : List (Candidate S R A)} {n : ℕ} {w : World S}
        {as' : List FallbackAttempt} {o : Option (Candidate S R A × A)}
        → (asked c w).0 ≡ true
        → Outcome cs
            (n + 1)
            (on_rest (record_skipped fx rid (skipped_attempt c n)) (asked c w).1)
            as'
            o
        → Outcome (c ∷ cs) n w (skipped_attempt c n ∷ as') o
    failed :
        {c : Candidate S R A} {cs : List (Candidate S R A)} {n : ℕ} {w : World S}
        {as' : List FallbackAttempt} {o : Option (Candidate S R A × A)} (e : Thrown)
        → (asked c w).0 ≡ false
        → (run_of c n (asked c w).1).0 ≡ err e
        → Outcome cs
            (n + 1)
            (on_rest
              (record_failed fx rid (create_failed_attempt c n e))
              (run_of c n (asked c w).1).1)
            as'
            o
        → Outcome (c ∷ cs) n w (create_failed_attempt c n e ∷ as') o
    won :
        {c : Candidate S R A} {cs : List (Candidate S R A)} {n : ℕ} {w : World S} (x : A)
        → (asked c w).0 ≡ false
        → (run_of c n (asked c w).1).0 ≡ ok x
        → Outcome (c ∷ cs) n w (succeeded_attempt c n ∷ []) (some (c, x))

  -- The attempts that the loop adds to those that it was given.
  Adds : List (Candidate S R A) → ℕ → World S → List FallbackAttempt → Tried S R A → Type 0
  Adds cs n w acc t =
      (new : List FallbackAttempt) × (t.attempts ≡ acc ++ new) × Outcome cs n w new t.selected

  try_candidates-Adds :
      (cs : List (Candidate S R A)) (n : ℕ) (acc : List FallbackAttempt) (w : World S)
      → Adds cs n w acc (try_candidates fx policy rid request cs n acc w)
  unfolding try_candidates Adds circuit_is_open attempt_candidate create_candidate_request
  try_candidates-Adds [] n acc w = ([], sym (append-nil acc), exhausted)
  try_candidates-Adds (c ∷ cs) n acc w =
      let (skip, w₁) = asked c w in
      elim (Bool-cases skip) [
        | inl e ↦
            let a = skipped_attempt c n in
            let (new, same, o) =
              try_candidates-Adds cs (n + 1) (acc ++ a ∷ [])
                (on_rest (record_skipped fx rid a) w₁) in
            rw (e, try_candidates) (a ∷ new, same ∙ append_assoc acc (a ∷ []) new, skipped e o)
        | inr e ↦
            let (result, w₂) = run_of c n w₁ in
            elim (Result-cases result) [
              | inl (x, good) ↦
                  rw (e, try_candidates) (rw good (succeeded_attempt c n ∷ [], refl, won x e good))
              | inr (t, bad) ↦
                  let a = create_failed_attempt c n t in
                  let (new, same, o) =
                    try_candidates-Adds cs (n + 1) (acc ++ a ∷ [])
                      (on_rest (record_failed fx rid a) w₂) in
                  rw (e, try_candidates)
                    (rw bad (a ∷ new, same ∙ append_assoc acc (a ∷ []) new, failed t e bad o))
            ]
      ]

  -- What is returned for an outcome of the candidates `c ∷ cs`.
  abbrev pub report :
      Candidate S R A
      → List (Candidate S R A)
      → List FallbackAttempt
      → Option (Candidate S R A × A)
      → Result FallbackError (A × FallbackMetadata)
  report c cs attempts none =
      err (all_providers_unavailable (last_provider_id c.provider_id cs) rid attempts)
  report c cs attempts (some (chosen, x)) = ok (
    x,
    record {
      request_id = rid;
      selected_provider_id = chosen.provider_id;
      selected_model = chosen.model;
      attempts = attempts;
    },
  )

  report_tried :
      (c : Candidate S R A) (cs : List (Candidate S R A)) (w : World S)
      → let t = try_candidates fx policy rid request (c ∷ cs) 1 [] w in
        (complete_with_ordered_fallback fx policy rid request (c ∷ cs) w).0
        ≡ report c cs t.attempts t.selected
  unfolding complete_with_ordered_fallback create_all_unavailable
  report_tried c cs w = ground arith

  -- Whatever the adapters, the clock and the signal do, the fallback goes through the candidates in
  -- their order, numbered from 1, in the world that each leaves to the next: one whose circuit refuses
  -- is skipped; any other is run, behind its circuit and with retries, and if it fails, with the
  -- attempt recorded as failed, the next has its turn. The first result that a candidate's run gives is
  -- returned, with that candidate selected and exactly the attempts up to it; if there is none, the
  -- error lists the attempts at all candidates and names the provider of the last.
  pub fallback-Outcome :
      (c : Candidate S R A) (cs : List (Candidate S R A)) (w : World S)
      → (attempts : List FallbackAttempt) × (o : Option (Candidate S R A × A)) × Outcome
          (c ∷ cs)
          1
          w
          attempts
          o
        × ((complete_with_ordered_fallback fx policy rid request (c ∷ cs) w).0
            ≡ report c cs attempts o)
  unfolding Adds
  fallback-Outcome c cs w =
      let t = try_candidates fx policy rid request (c ∷ cs) 1 [] w in
      let (new, e, o) = try_candidates-Adds (c ∷ cs) 1 [] w in
      (new, t.selected, o, report_tried c cs w ∙ ap (λ as'. report c cs as' t.selected) e)

-- The circuit of a candidate refuses requests, whatever the clock may read.
abbrev pub IsHeldOpen : {S R A : Type 0} → FallbackEffects S → Breaker → Candidate S R A → Type 0
IsHeldOpen {S} fx b c = (s : S) → is_open c.provider_id (fx.now s).0 b ≡ (true, b)

module _ {S R A : Type 0} (fx : FallbackEffects S) (policy : ProviderRetryPolicy) (rid : String)
    (request : R) where
  abbrev pub skipped_from : ℕ → List (Candidate S R A) → List FallbackAttempt
  skipped_from n [] = []
  skipped_from n (c ∷ cs) = skipped_attempt c n ∷ skipped_from (n + 1) cs

  circuit_held_open :
      (c : Candidate S R A) (w : World S)
      → IsHeldOpen fx w.breaker c
      → ((circuit_is_open fx policy rid request c w).0 ≡ true)
        × ((circuit_is_open fx policy rid request c w).1.breaker ≡ w.breaker)
  unfolding circuit_is_open
  circuit_held_open c w h = rw h (refl, refl)

  try_candidates_held_open :
      (cs : List (Candidate S R A)) (n : ℕ) (acc : List FallbackAttempt) (w : World S) (b : Breaker)
      → w.breaker ≡ b
      → All (IsHeldOpen fx b) cs
      → let t = try_candidates fx policy rid request cs n acc w in
        (t.selected ≡ none) × (t.attempts ≡ acc ++ skipped_from n cs) × (t.world.breaker ≡ b)
  unfolding try_candidates
  try_candidates_held_open [] n acc w b e h = (refl, sym (append-nil acc), e)
  try_candidates_held_open (c ∷ cs) n acc w b e h =
      let (open_, same) = circuit_held_open c w (subst (λ b. IsHeldOpen fx b c) (sym e) h.0) in
      let next =
        try_candidates_held_open cs (n + 1) (acc ++ skipped_attempt c n ∷ [])
          (on_rest (record_skipped fx rid (skipped_attempt c n))
            (circuit_is_open fx policy rid request c w).1)
          b (same ∙ e) h.1 in
      rw (open_, try_candidates) (next.0, next.1 ∙ append_assoc acc _ _, next.2)

  -- While the circuits of all candidates are open, whatever the clock reads, every candidate is
  -- skipped, the breaker stays as it is, and the error lists the skipped attempts.
  pub fallback_unavailable :
      (c : Candidate S R A) (cs : List (Candidate S R A)) (w : World S)
      → All (IsHeldOpen fx w.breaker) (c ∷ cs)
      → let r = complete_with_ordered_fallback fx policy rid request (c ∷ cs) w in
        (r.0
          ≡ err (
              all_providers_unavailable
                (last_provider_id c.provider_id cs)
                rid
                (skipped_from 1 (c ∷ cs))))
        × (r.1.breaker ≡ w.breaker)
  unfolding complete_with_ordered_fallback create_all_unavailable
  fallback_unavailable c cs w h =
      ground (arith, try_candidates_held_open (c ∷ cs) 1 [] w w.breaker refl h)
