-- ===== src/Chat/Prepare/Settles.antt =====
-- chat.service.ts: how `prepareChatStream` leaves the reservation that it makes.
use proxy_ai.Base.{
  ℕ, ◌≡◌, Bool, true, false, not, none, List, ◌∷◌, Result, ok, err, Result-cases, Option-cases, inl,
  inr, if◌then◌else◌, arith,
}
use proxy_ai.Policy.{PolicyDecision, block}
use proxy_ai.Billing.{BudgetStatus}
use proxy_ai.Chat.{ProviderMessage}
use proxy_ai.Chat.Trace.{
  Failure, blocked_request, failed_request, analytics_queue, Trace, appends_usage,
  ChatStreamRequest, ChatOrganisationContext, ProductionCandidate, StreamChunk,
  ChatPipelineDependencies, is_ok, asserts_owner, loads_organisation, reserves, perform, ◌>>◌,
  catch,
}
use proxy_ai.Chat.Rules.{bind_rule}
use proxy_ai.Chat.Protocol.{Phase, idle, held, started, completed, phase, is_settled}
use proxy_ai.Chat.Accounting.{Outcome, PreparedChatStream, record_usage_and_complete}
use proxy_ai.Chat.Accounting.Settles.{Accounted, enqueue_or_record-phase, record_usage-Accounted}
use proxy_ai.Chat.Prepare.{
  Progress, before_provider, provider_started, reservation_finalized, decide, record_blocked,
  select_production_candidate, provider_history, start_stream, accept, approved_text, try_prepare,
  on_failure, assert_routing_allowed, prepare_chat_stream,
}

abbrev is_held : Phase → Bool
is_held (held b) = true
is_held _ = false

abbrev is_begun : Phase → Bool
is_begun (started b) = not b
is_begun _ = false

abbrev is_completed_phase : Phase → Bool
is_completed_phase completed = true
is_completed_phase _ = false

-- The phase that goes with what the `try` block returns or throws.
abbrev is_reached : {A : Type 0} → Result (Progress × Failure) A → Phase → Bool
is_reached (ok a) p = is_begun p
is_reached (err (before_provider, e)) p = is_held p
is_reached (err (provider_started action, e)) p = is_begun p
is_reached (err (reservation_finalized, e)) p = is_completed_phase p

-- What the caller of `prepareChatStream` gets.
abbrev pub Prepared : {A : Type 0} → Result Failure A → Trace → Type 0
Prepared (ok a) h = phase h ≡ started false
Prepared (err e) h = is_settled h ≡ true

module _ (deps : ChatPipelineDependencies) where
  decide-phase :
      (request : ChatStreamRequest) (organisation : ChatOrganisationContext) (h : Trace)
      → phase (decide deps request organisation h).1 ≡ phase h
  unfolding decide
  decide-phase request organisation h = ground arith

  select-phase :
      (request : ChatStreamRequest) (h : Trace)
      → phase (select_production_candidate deps request h).1 ≡ phase h
  unfolding select_production_candidate
  select-phase request h = ground arith

  provider_history-phase :
      (organisation : ChatOrganisationContext) (budget : BudgetStatus) (h : Trace)
      → phase (provider_history deps organisation budget h).1 ≡ phase h
  unfolding provider_history
  provider_history-phase organisation budget h = ground arith

  start_stream-phase :
      (d : PolicyDecision) (request : ChatStreamRequest) (c : ProductionCandidate)
      (organisation : ChatOrganisationContext) (approved : List ℕ) (history : List ProviderMessage)
      (h : Trace)
      → phase h ≡ held false
      → let (r, h') = start_stream deps d request c organisation approved history h in
        is_reached r (phase h') ≡ true
  unfolding start_stream
  start_stream-phase d request c organisation approved history h e = ground arith

  record_blocked-phase :
      (h : Trace)
      → phase h ≡ held false
      → let (r, h') = record_blocked deps h in
        (if is_ok r then is_completed_phase (phase h') else is_held (phase h')) ≡ true
  unfolding record_blocked
  record_blocked-phase h e = ground (
    arith,
    enqueue_or_record-phase deps analytics_queue blocked_request
        (record { call = appends_usage blocked_request block none; succeeded = true } ∷ h),
  )

  accept-phase :
      (request : ChatStreamRequest) (organisation : ChatOrganisationContext) (d : PolicyDecision)
      (budget : BudgetStatus) (approved : List ℕ) (h : Trace)
      → phase h ≡ held false
      → let (r, h') = accept deps request organisation d budget approved h in
        is_reached r (phase h') ≡ true
  unfolding accept
  accept-phase request organisation d budget approved h e =
      let e₁ = select-phase request h in
      let (r₁, h₁) = select_production_candidate deps request h in
      let e₂ = provider_history-phase organisation budget h₁ in
      let (r₂, h₂) = provider_history deps organisation budget h₁ in
      elim (Result-cases r₁) [
        | inr (x, bad) ↦ ground arith
        | inl (c, good) ↦ elim (Result-cases r₂) [
          | inr (x, bad) ↦ ground arith
          | inl (history, fine) ↦
              ground (arith, start_stream-phase d request c organisation approved history h₂)
        ]
      ]

  try_prepare-phase :
      (request : ChatStreamRequest) (organisation : ChatOrganisationContext) (h : Trace)
      → phase h ≡ held false
      → let (r, h') = try_prepare deps request organisation h in is_reached r (phase h') ≡ true
  unfolding try_prepare
  try_prepare-phase request organisation h e =
      let e₁ = decide-phase request organisation h in
      let (r₁, h₁) = decide deps request organisation h in
      elim (Result-cases r₁) [
        | inr (x, bad) ↦ ground arith
        | inl ((d, budget), good) ↦ elim (Option-cases (approved_text deps d request.prompt)) [
          | inl none_left ↦ ground (arith, record_blocked-phase h₁)
          | inr (approved, given) ↦
              ground (arith, accept-phase request organisation d budget approved h₁)
        ]
      ]

  pub Accounted-settled :
      (r : Result Failure (Unit {0})) (h : Trace) → Accounted deps r h → is_settled h ≡ true
  Accounted-settled r h (inl a) = ground arith
  Accounted-settled r h (inr a) = ground arith

  is_begun-phase : (p : Phase) → is_begun p ≡ true → p ≡ started false
  is_begun-phase p e = ground arith

  on_failure-settled :
      (p : Progress) (x : Failure) (h : Trace)
      → is_reached {A = Unit {0}} (err (p, x)) (phase h) ≡ true
      → (is_settled (on_failure deps (p, x) h).1 ≡ true)
        × (is_ok (on_failure deps (p, x) h).0 ≡ false)
  unfolding on_failure
  on_failure-settled reservation_finalized x h e = ground arith
  on_failure-settled before_provider x h e = ground arith
  on_failure-settled (provider_started action) x h e =
      let o : Outcome = record {
        status = failed_request;
        policy_action = action;
        usage = none;
        message_persistence = none;
      } in
      let (r, h') = record_usage_and_complete deps o h in
      let settled =
        Accounted-settled r h' (record_usage-Accounted deps o h (is_begun-phase (phase h) e)) in
      elim (Result-cases r) [ inl (u, good) ↦ ground arith | inr (y, bad) ↦ ground arith ]

  settled-Prepared :
      {A : Type 0} (r : Result Failure A) (h : Trace)
      → (is_settled h ≡ true) × (is_ok r ≡ false)
      → Prepared r h
  settled-Prepared (ok a) h e = ground arith
  settled-Prepared (err x) h e = e.0

  caught-Prepared :
      (r : Result (Progress × Failure) (PreparedChatStream × StreamChunk)) (h : Trace)
      → is_reached r (phase h) ≡ true
      → let (r', h') = catch (λ _. (r, h)) (on_failure deps) h in Prepared r' h'
  caught-Prepared (ok a) h e = is_begun-phase (phase h) e
  caught-Prepared (err (p, x)) h e = settled-Prepared _ _ (on_failure-settled p x h e)

  reserve-Prepared :
      (request : ChatStreamRequest) (organisation : ChatOrganisationContext) (h : Trace)
      → phase h ≡ idle
      → let (r, h') =
          (perform reserves deps.reserve
              >> catch (try_prepare deps request organisation) (on_failure deps))
            h in
        Prepared r h'
  reserve-Prepared request organisation h e =
      bind_rule Prepared (perform reserves deps.reserve)
        (λ _. catch (try_prepare deps request organisation) (on_failure deps)) h
        (λ x bad. ground arith)
        λ u reserved. caught-Prepared _ _ (try_prepare-phase request organisation _ (ground arith))

  -- `prepareChatStream`, from a request without a reservation: where it returns a stream, the execution
  -- has started and no usage is stored yet; where it throws, no reservation is left open, but behind
  -- a failed call that would have stored usage, completed the reservation or released it. The
  -- reservation precedes all else that is done with it, usage is stored once, and before a completion.
  pub prepare_chat_stream-Prepared :
      (request : ChatStreamRequest) (h : Trace)
      → phase h ≡ idle
      → let (r, h') = prepare_chat_stream deps request h in Prepared r h'
  unfolding prepare_chat_stream assert_routing_allowed
  prepare_chat_stream-Prepared request h e =
      bind_rule Prepared (perform asserts_owner deps.assert_conversation_owner) _ h
        (λ x bad. ground arith)
        λ u owner.
          bind_rule Prepared (perform loads_organisation deps.load_organisation_context) _ _
            (λ x bad. ground arith)
            λ organisation loaded.
              bind_rule Prepared (assert_routing_allowed request organisation) _ _
                (λ x bad. ground arith)
                λ v allowed. reserve-Prepared request organisation _ (ground arith)
