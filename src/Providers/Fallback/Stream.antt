-- ===== src/Providers/Fallback/Stream.antt =====
-- provider-fallback.ts: `streamWithOrderedFallback`. A provider's stream is the sequence of what its
-- iterator gives: chunks, up to an end or an error. What the iterator does to the world while it is
-- read, once the stream has started, is left out.
use Prim.Native.String.{String}
use mathlib.Core.List.{Memᴰ}
use proxy_ai.Base.{
  ℕ, ◌+◌, ◌≡◌, refl, Option, none, some, List, [], ◌∷◌, ◌++◌, Result, ok, err, Result-cases,
  Bool-cases, arith, inl, inr, ◌⊎◌, Option-cases, map, All, subst,
}
use proxy_ai.Providers.Types.{ProviderId, Thrown}
use proxy_ai.Providers.Retry.{ProviderRetryPolicy}
use proxy_ai.Providers.Retry.Loop.{retry_ok}
use proxy_ai.Providers.Circuit.{prepare_request}
use proxy_ai.Providers.Fallback.{
  World, Candidate, CompletionRequest, FallbackEffects, FallbackError, FallbackAttempt,
  no_candidates, all_providers_unavailable, execute, count_fallback, metric_attempted,
  try_candidates, attempt_candidate, circuit_is_open, create_candidate_request, last_provider_id,
  create_all_unavailable, on_rest, skipped_attempt, create_failed_attempt, record_skipped,
  record_failed,
}

pub data ChunkStream (C : Type 0) : Type 0 where
  done : ChunkStream C
  raises : Thrown → ChunkStream C
  chunk : C → ChunkStream C → ChunkStream C

-- An adapter that streams chunks of type `C`.
pub record StreamCandidate (S R C : Type 0) : Type 0 where
  pub provider_id : ProviderId
  pub model : String
  pub stream : CompletionRequest R → World S → ChunkStream C × World S

-- The first result, `none` where the stream is done, and the iterator behind it.
pub record StreamStart (C : Type 0) : Type 0 where
  pub first_result : Option C
  pub iterator : ChunkStream C

-- How a stream stops that does not end: by an error of the provider, or of the fallback.
pub data StreamFailure : Type 0 where
  from_provider : Thrown → StreamFailure
  from_fallback : FallbackError → StreamFailure

pub start_of : {C : Type 0} → ChunkStream C → Result Thrown (StreamStart C)
start_of done = ok (record { first_result = none; iterator = done })
start_of (raises e) = err e
start_of (chunk x rest) = ok (record { first_result = some x; iterator = rest })

-- The `while` loop: the chunks that are yielded, and the error that stops it, if one does.
abbrev pub read : {C : Type 0} → ChunkStream C → List C × Option StreamFailure
read done = ([], none)
read (raises e) = ([], some (from_provider e))
read (chunk x rest) = (x ∷ (read rest).0, (read rest).1)

pub emit : {C : Type 0} → StreamStart C → List C × Option StreamFailure
emit start = elim start.first_result [
  | none ↦ read start.iterator
  | some x ↦ (x ∷ (read start.iterator).0, (read start.iterator).1)
]

module _ {S R C : Type 0} where
  pub start_provider_stream :
      StreamCandidate S R C
      → CompletionRequest R
      → World S
      → Result Thrown (StreamStart C) × World S
  unfolding start_of
  start_provider_stream c request w = let (s, w') = c.stream request w in (start_of s, w')

  pub as_candidate : StreamCandidate S R C → Candidate S R (StreamStart C)
  as_candidate c = record {
    provider_id = c.provider_id;
    model = c.model;
    run = start_provider_stream c;
  }

module _ {S R C : Type 0} (fx : FallbackEffects S) (policy : ProviderRetryPolicy) (rid : String)
    (request : R) where
  pub stream_with_ordered_fallback :
      List (StreamCandidate S R C) → World S → (List C × Option StreamFailure) × World S
  unfolding emit
  stream_with_ordered_fallback [] w = (([], some (from_fallback no_candidates)), w)
  stream_with_ordered_fallback (c ∷ cs) w =
      let tried = try_candidates fx policy rid request (map as_candidate (c ∷ cs)) 1 [] w in
      elim tried.selected [
        | some (chosen, start) ↦ (emit start, tried.world)
        | none ↦
            let (e, w') =
              create_all_unavailable fx rid (last_provider_id c.provider_id (map as_candidate cs))
                tried.attempts tried.world in
            (([], some (from_fallback e)), w')
      ]

execute_ok :
    {S A : Type 0} (fx : FallbackEffects S) (id : ProviderId)
    (operation : World S → Result Thrown A × World S) (w : World S) (a : A)
    → (execute fx id operation w).0 ≡ ok a
    → (t : World S) × ((operation t).0 ≡ ok a)
unfolding execute
execute_ok fx id operation w a h =
    let (t, s₁) = fx.now w.rest in
    let (prepared, b₁) = prepare_request id t w.breaker in
    elim (Result-cases prepared) [
      | inl (ref, admitted) ↦ (record { breaker = b₁; rest = s₁ }, ground arith)
      | inr (e, refused) ↦ absurd (ground arith)
    ]

module _ {S R A : Type 0} (fx : FallbackEffects S) (policy : ProviderRetryPolicy) (rid : String)
    (request : R) where
  -- The candidate's own run gave this result.
  abbrev Gave : Candidate S R A → A → Type 0
  Gave c x = (t : World S) × ((c.run (create_candidate_request request c) t).0 ≡ ok x)

  attempt_candidate-Gave :
      (c : Candidate S R A) (n : ℕ) (w : World S) (x : A)
      → (attempt_candidate fx policy rid request c n w).0 ≡ ok x
      → Gave c x
  unfolding attempt_candidate
  attempt_candidate-Gave c n w x h =
      let (j, t, e) =
        retry_ok fx.retry c.provider_id policy
          (λ _. execute fx c.provider_id (c.run (create_candidate_request request c)))
          (on_rest (count_fallback fx rid n c.provider_id metric_attempted) w) x h in
      execute_ok fx c.provider_id (c.run (create_candidate_request request c)) t x e

  selected-Gave :
      (P : Candidate S R A → Type 0) (cs : List (Candidate S R A)) (n : ℕ)
      (acc : List FallbackAttempt) (w : World S) (c : Candidate S R A) (x : A)
      → All P cs
      → (try_candidates fx policy rid request cs n acc w).selected ≡ some (c, x)
      → P c × Gave c x
  unfolding try_candidates
  selected-Gave P [] n acc w c x all h = absurd (ground arith)
  selected-Gave P (d ∷ cs) n acc w c x all h =
      let (skip, w₁) = circuit_is_open fx policy rid request d w in
      elim (Bool-cases skip) [
        | inl e ↦
            selected-Gave P cs (n + 1) (acc ++ skipped_attempt d n ∷ [])
              (on_rest (record_skipped fx rid (skipped_attempt d n)) w₁) c x all.1 (ground arith)
        | inr e ↦
            let (result, w₂) = attempt_candidate fx policy rid request d n w₁ in
            elim (Result-cases result) [
              | inl (y, good) ↦
                  let same : ◌≡◌ {A = Candidate S R A × A} (d, y) (c, x) = ground arith in
                  subst (λ (r : Candidate S R A × A). P r.0 × Gave r.0 r.1) same
                    (all.0, attempt_candidate-Gave d n w₁ y good)
              | inr (t, bad) ↦
                  selected-Gave P cs (n + 1) (acc ++ create_failed_attempt d n t ∷ [])
                    (on_rest (record_failed fx rid (create_failed_attempt d n t)) w₂) c x all.1
                    (ground arith)
            ]
      ]

module _ {S R C : Type 0} (fx : FallbackEffects S) (policy : ProviderRetryPolicy) (rid : String)
    (request : R) where
  -- A candidate that streams, from a list of them.
  abbrev IsStreaming : List (StreamCandidate S R C) → Candidate S R (StreamStart C) → Type 0
  IsStreaming all c = (d : StreamCandidate S R C) × Memᴰ d all × (c ≡ as_candidate d)

  All-IsStreaming :
      (all cs : List (StreamCandidate S R C))
      → ((d : StreamCandidate S R C) → Memᴰ d cs → Memᴰ d all)
      → All (IsStreaming all) (map as_candidate cs)
  All-IsStreaming all [] sub = tt
  All-IsStreaming all (c ∷ cs) sub =
      ((c, sub c (Memᴰ.head refl), refl), All-IsStreaming all cs (λ d m. sub d (Memᴰ.tail m)))

  emit-start_of :
      (s : ChunkStream C) (start : StreamStart C) → start_of s ≡ ok start → emit start ≡ read s
  unfolding emit start_of
  emit-start_of done start e = ground arith
  emit-start_of (raises t) start e = absurd (ground arith)
  emit-start_of (chunk x rest) start e = ground arith

  start-Gave :
      (d : StreamCandidate S R C) (start : StreamStart C)
      → Gave fx policy rid request (as_candidate d) start
      → (t : World S) × (emit start
          ≡ read (d.stream (create_candidate_request request (as_candidate d)) t).0)
  unfolding as_candidate start_provider_stream
  start-Gave d start (t, e) =
      (t, emit-start_of (d.stream (create_candidate_request request (as_candidate d)) t).0 start e)

  -- The stream that a caller reads is the whole stream of one candidate, from its first chunk to its
  -- end or its error, with nothing from any other candidate before or after it; or, if no
  -- candidate's stream starts, there is no chunk, and the error that all providers are unavailable.
  pub stream_of_one_provider :
      (c : StreamCandidate S R C) (cs : List (StreamCandidate S R C)) (w : World S)
      → let r = (stream_with_ordered_fallback fx policy rid request (c ∷ cs) w).0 in
        ((d : StreamCandidate S R C) × Memᴰ d (c ∷ cs)
          × (t : World S) × (r
              ≡ read (d.stream (create_candidate_request request (as_candidate d)) t).0))
        ⊎ ((attempts : List FallbackAttempt) × (r ≡ (
          [],
          some (
              from_fallback (
                all_providers_unavailable
                  (last_provider_id c.provider_id (map as_candidate cs))
                  rid
                  attempts)),
        )))
  unfolding stream_with_ordered_fallback create_all_unavailable
  stream_of_one_provider c cs w =
      let tried = try_candidates fx policy rid request (map as_candidate (c ∷ cs)) 1 [] w in
      elim (Option-cases tried.selected) [
        | inl e ↦ inr (tried.attempts, ground arith)
        | inr ((chosen, start), e) ↦
            let (streams, gave) =
              selected-Gave fx policy rid request (IsStreaming (c ∷ cs)) (map as_candidate (c ∷ cs))
                1 [] w chosen start (All-IsStreaming (c ∷ cs) (c ∷ cs) (λ d m. m)) e in
            let (d, member, is) = streams in
            let (t, same) =
              start-Gave d start (subst (λ b. Gave fx policy rid request b start) is gave) in
            inl (d, member, t, ground arith)
      ]
