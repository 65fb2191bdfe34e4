-- ===== src/Chat/Prepare/Sends.antt =====
-- chat.service.ts: what `prepareChatStream` sends to the provider.
use proxy_ai.Base.{
  ℕ, min, ◌≤◌, ◌≡◌, refl, sym, subst, ◌∙◌, false, List, ◌∷◌, true, ok, Result, Result-cases,
  Option-cases, inl, inr, ◌⊎◌, All, arith,
}
use proxy_ai.Policy.{PolicyDecision}
use proxy_ai.Billing.{BudgetStatus}
use proxy_ai.Chat.{ProviderMessage}
use proxy_ai.Chat.Trace.{
  Failure, ChatCall, streams, Trace, ChatStreamRequest, ChatOrganisationContext, StreamChunk,
  ChatPipelineDependencies, Act, is_ok, asserts_owner, loads_organisation, reserves,
  consumes_rate_limit, ChatEvent, ◌>>◌, perform, catch,
}
use proxy_ai.Chat.Rules.{bind_rule, catch_rule}
use proxy_ai.Chat.Disclosure.{disclosures}
use proxy_ai.Chat.Accounting.{PreparedChatStream}
use proxy_ai.Chat.Prepare.{
  Progress, decide, select_production_candidate, provider_history, accept, approved_text,
  try_prepare, on_failure, assert_routing_allowed, prepare_chat_stream,
  build_product_aware_provider_messages,
}
use proxy_ai.Chat.Prepare.Approved.{MayBeSent, IsApproved, approved_text-MayBeSent}
use proxy_ai.Chat.Prepare.Discloses.{
  decide-disclosures, decide-evaluates, record_blocked-disclosures, select-disclosures,
  provider_history-disclosures, provider_history-All, on_failure-disclosures, on_failure_throws,
  assert_routing_allowed-disclosures, start_stream-disclosures, decide-reads,
  assert_routing_allowed-trace,
}

-- A call that succeeded.
abbrev pub done : ChatCall → ChatEvent
done c = record { call = c; succeeded = true }

module _ (deps : ChatPipelineDependencies) where
  -- What a request that began behind a trace is judged by: the organisation that was loaded behind the
  -- check of the owner, and the budget that was read behind the reservation and the rate limit.
  abbrev pub Governs : Trace → ChatOrganisationContext → BudgetStatus → Type 0
  Governs h organisation budget =
      (deps.load_organisation_context (done asserts_owner ∷ h) ≡ ok organisation)
      × (deps.read_budget_status (
            done consumes_rate_limit
            ∷ done reserves
            ∷ done loads_organisation
            ∷ done asserts_owner
            ∷ h)
          ≡ ok budget)

  -- The same for what runs behind the reservation.
  abbrev ReadsBudget : Trace → BudgetStatus → Type 0
  ReadsBudget h budget = deps.read_budget_status (done consumes_rate_limit ∷ h) ≡ ok budget

module _ (deps : ChatPipelineDependencies)
    (Judges : ChatOrganisationContext → BudgetStatus → Type 0) where
  -- The one call that gives text away: its last message is what may be sent of the prompt, by the
  -- organisation and the budget that judge it, and the users' messages of the history are what may be
  -- sent of some texts.
  abbrev pub Sends : ChatStreamRequest → List ChatCall → List ChatCall → Type 0
  Sends request before after =
      (organisation : ChatOrganisationContext) × (budget : BudgetStatus) × (sent : List ℕ)
      × (history : List ProviderMessage) × (n : ℕ) × Judges organisation budget
      × MayBeSent deps organisation budget request.prompt sent
      × All (IsApproved deps organisation budget) history
      × (n ≤ organisation.max_output_tokens_per_request)
      × (after
          ≡ streams
              (build_product_aware_provider_messages (deps.is_product_question request.prompt)
                deps.product_facts_instruction sent history)
              n
            ∷ before)

  abbrev pub SendsAtMost : ChatStreamRequest → List ChatCall → List ChatCall → Type 0
  SendsAtMost request before after = (after ≡ before) ⊎ Sends request before after

  -- Where the computation returns, it has sent.
  abbrev SendsIfOk :
      {E A : Type 0} → ChatStreamRequest → List ChatCall → Result E A → List ChatCall → Type 0
  SendsIfOk request before r after =
      (is_ok r ≡ false) × (after ≡ before) ⊎ Sends request before after

  accept-Sends :
      (request : ChatStreamRequest) (organisation : ChatOrganisationContext) (d : PolicyDecision)
      (budget : BudgetStatus) (approved : List ℕ) (h : Trace)
      → Judges organisation budget
      → MayBeSent deps organisation budget request.prompt approved
      → let (r, h') = accept deps request organisation d budget approved h in
        SendsIfOk request (disclosures h) r (disclosures h')
  unfolding accept
  accept-Sends request organisation d budget approved h judges allowed =
      let e₁ = select-disclosures deps request h in
      let (r₁, h₁) = select_production_candidate deps request h in
      let e₂ = provider_history-disclosures deps organisation budget h₁ in
      let (r₂, h₂) = provider_history deps organisation budget h₁ in
      elim (Result-cases r₁) [
        | inr (x, bad) ↦ inl (ground arith)
        | inl (c, good) ↦ elim (Result-cases r₂) [
          | inr (x, bad) ↦ inl (ground arith)
          | inl (history, fine) ↦
              let e₃ = start_stream-disclosures deps d request c organisation approved history h₂ in
              inr (
                organisation,
                budget,
                approved,
                history,
                min c.max_output_tokens organisation.max_output_tokens_per_request,
                judges,
                allowed,
                provider_history-All deps organisation budget h₁ history fine,
                omega arith,
                ground arith,
              )
        ]
      ]

  try_prepare-Sends :
      (request : ChatStreamRequest) (organisation : ChatOrganisationContext) (h : Trace)
      → ((budget : BudgetStatus) → ReadsBudget deps h budget → Judges organisation budget)
      → let (r, h') = try_prepare deps request organisation h in
        SendsIfOk request (disclosures h) r (disclosures h')
  unfolding try_prepare
  try_prepare-Sends request organisation h judges =
      let e₁ = decide-disclosures deps request organisation h in
      let (r₁, h₁) = decide deps request organisation h in
      elim (Result-cases r₁) [
        | inr (x, bad) ↦ inl (ground arith)
        | inl ((d, budget), good) ↦ elim (Option-cases (approved_text deps d request.prompt)) [
          | inl none_left ↦ let e₂ = record_blocked-disclosures deps h₁ in inl (ground arith)
          | inr (approved, given) ↦
              let evaluated = decide-evaluates deps request organisation d budget h good in
              let allowed =
                approved_text-MayBeSent deps organisation budget request.prompt d approved evaluated
                  given in
              let same : try_prepare deps request organisation h
                  ≡ accept deps request organisation d budget approved h₁ =
                ground arith in
              let read = decide-reads deps request organisation d budget h good in
              let sends =
                accept-Sends request organisation d budget approved h₁ (judges budget read)
                  allowed in
              let (r₂, h₂) = accept deps request organisation d budget approved h₁ in
              subst (λ x. SendsIfOk request (disclosures h) x.0 (disclosures x.1)) (sym same)
                (subst (λ x. SendsIfOk request x r₂ (disclosures h₂)) e₁ sends)
        ]
      ]

  on_failure-Sends :
      (request : ChatStreamRequest) (before : List ChatCall) (p : Progress) (x : Failure)
      (h : Trace)
      → (disclosures h ≡ before) ⊎ Sends request before (disclosures h)
      → let (r, h') = on_failure deps (p, x) h in SendsIfOk request before r (disclosures h')
  on_failure-Sends request before p x h (inl same) =
      inl (on_failure_throws deps p x h, on_failure-disclosures deps p x h ∙ same)
  on_failure-Sends request before p x h (inr sends) =
      inr (subst (Sends request before) (sym (on_failure-disclosures deps p x h)) sends)

  abbrev reserved_steps :
      ChatStreamRequest → ChatOrganisationContext → Act Failure (PreparedChatStream × StreamChunk)
  reserved_steps request organisation =
      catch (try_prepare deps request organisation) (on_failure deps)

  reserved_steps-Sends :
      (request : ChatStreamRequest) (organisation : ChatOrganisationContext) (h : Trace)
      → ((budget : BudgetStatus) → ReadsBudget deps h budget → Judges organisation budget)
      → let (r, h') = reserved_steps request organisation h in
        SendsIfOk request (disclosures h) r (disclosures h')
  reserved_steps-Sends request organisation h judges =
      let sends = try_prepare-Sends request organisation h judges in
      let before = disclosures h in
      let after = disclosures (try_prepare deps request organisation h).1 in
      catch_rule (λ r h'. SendsIfOk request before r (disclosures h'))
        (try_prepare deps request organisation) (on_failure deps) h
        (λ a good. subst (λ r. SendsIfOk request before r after) good sends)
        λ (p, x) bad.
          on_failure-Sends request before p x _
            (elim sends [ inl (no_result, same) ↦ inl same | inr s ↦ inr s ])

  abbrev reserve_steps :
      ChatStreamRequest → ChatOrganisationContext → Act Failure (PreparedChatStream × StreamChunk)
  reserve_steps request organisation =
      perform reserves deps.reserve >> reserved_steps request organisation

  reserve_steps-Sends :
      (request : ChatStreamRequest) (organisation : ChatOrganisationContext) (h : Trace)
      → ((budget : BudgetStatus)
          → ReadsBudget deps (done reserves ∷ h) budget
          → Judges organisation budget)
      → let (r, h') = reserve_steps request organisation h in
        SendsIfOk request (disclosures h) r (disclosures h')
  reserve_steps-Sends request organisation h judges =
      bind_rule (λ r h'. SendsIfOk request (disclosures h) r (disclosures h'))
        (perform reserves deps.reserve) (λ w. reserved_steps request organisation) h
        (λ x bad. inl (refl, refl))
        λ w reserved.
          reserved_steps-Sends request organisation (perform reserves deps.reserve h).1
            (λ budget read. judges budget (ground arith))

  routed-Sends :
      (request : ChatStreamRequest) (organisation : ChatOrganisationContext) (h : Trace)
      → ((budget : BudgetStatus)
          → ReadsBudget deps (done reserves ∷ h) budget
          → Judges organisation budget)
      → let (r, h') =
          (assert_routing_allowed request organisation >> reserve_steps request organisation) h in
        SendsIfOk request (disclosures h) r (disclosures h')
  routed-Sends request organisation h judges =
      let same = assert_routing_allowed-disclosures deps request organisation h in
      let untouched = assert_routing_allowed-trace deps request organisation h in
      let h₁ = (assert_routing_allowed request organisation h).1 in
      let (r₂, h₂) = reserve_steps request organisation h₁ in
      bind_rule (λ r h'. SendsIfOk request (disclosures h) r (disclosures h'))
        (assert_routing_allowed request organisation) (λ v. reserve_steps request organisation) h
        (λ x bad. inl (refl, same))
        λ v allowed.
          subst (λ c. SendsIfOk request c r₂ (disclosures h₂)) same
            (reserve_steps-Sends request organisation h₁ (λ budget read.
              judges budget
                (subst (λ t. ReadsBudget deps (done reserves ∷ t) budget) untouched read)))

module _ (deps : ChatPipelineDependencies) where
  -- Of all that `prepareChatStream` calls, one call at most gives text away, and where a stream is
  -- returned it was made: the provider is sent the messages that end with what may be sent of the
  -- prompt, judged by the thresholds of the organisation and the budget that were loaded for this request: the
  -- prompt below the mask threshold, the masked one below the block threshold, and
  -- nothing at all else or where the budget is exceeded; each user's message of the history before
  -- it is what may be sent of a text in the same way, and the output is within the organisation's limit.
  pub prepare_chat_stream-Sends :
      (request : ChatStreamRequest) (h : Trace)
      → let (r, h') = prepare_chat_stream deps request h in
        SendsIfOk deps (Governs deps h) request (disclosures h) r (disclosures h')
  unfolding prepare_chat_stream assert_routing_allowed
  prepare_chat_stream-Sends request h =
      let P : Result Failure (PreparedChatStream × StreamChunk) → Trace → Type 0 =
        λ r h'. SendsIfOk deps (Governs deps h) request (disclosures h) r (disclosures h') in
      bind_rule P (perform asserts_owner deps.assert_conversation_owner) _ h
        (λ x bad. inl (refl, refl))
        λ u owner.
          bind_rule P (perform loads_organisation deps.load_organisation_context) _ _
            (λ x bad. inl (refl, refl))
            λ organisation loaded.
              routed-Sends deps (Governs deps h) request organisation _
                λ budget read. (ground arith, ground arith)
