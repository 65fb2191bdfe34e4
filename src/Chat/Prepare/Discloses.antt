-- ===== src/Chat/Prepare/Discloses.antt =====
-- chat.service.ts: which steps of `prepareChatStream` give text away.
use proxy_ai.Base.{
  ℕ, min, ◌≡◌, refl, subst, true, false, none, List, [], ◌∷◌, ok, Result-cases, Bool-cases, inl,
  inr, All, arith,
}
use proxy_ai.Policy.{PolicyDecision, block}
use proxy_ai.Billing.{BudgetStatus}
use proxy_ai.Chat.{ProviderMessage}
use proxy_ai.Chat.Trace.{
  Failure, blocked_request, failed_request, analytics_queue, appends_usage, consumes_rate_limit,
  streams, Trace, ChatStreamRequest, ChatOrganisationContext, ProductionCandidate,
  ChatPipelineDependencies, is_ok,
}
use proxy_ai.Chat.Disclosure.{disclosures}
use proxy_ai.Chat.Accounting.Discloses.{enqueue_or_record-disclosures, record_usage-disclosures}
use proxy_ai.Chat.Prepare.{
  Progress, before_provider, provider_started, reservation_finalized, decide, record_blocked,
  select_production_candidate, provider_history, start_stream, evaluate_text, on_failure,
  assert_routing_allowed, build_product_aware_provider_messages,
}
use proxy_ai.Chat.Prepare.Approved.{IsApproved, history_of-All}

module _ (deps : ChatPipelineDependencies) where
  pub decide-disclosures :
      (request : ChatStreamRequest) (organisation : ChatOrganisationContext) (h : Trace)
      → disclosures (decide deps request organisation h).1 ≡ disclosures h
  unfolding decide
  decide-disclosures request organisation h = ground arith

  pub decide-evaluates :
      (request : ChatStreamRequest) (organisation : ChatOrganisationContext) (d : PolicyDecision)
      (budget : BudgetStatus) (h : Trace)
      → (decide deps request organisation h).0 ≡ ok (d, budget)
      → evaluate_text deps organisation budget request.prompt ≡ ok d
  unfolding decide
  decide-evaluates request organisation d budget h e = ground arith

  pub decide-reads :
      (request : ChatStreamRequest) (organisation : ChatOrganisationContext) (d : PolicyDecision)
      (budget : BudgetStatus) (h : Trace)
      → (decide deps request organisation h).0 ≡ ok (d, budget)
      → deps.read_budget_status (record { call = consumes_rate_limit; succeeded = true } ∷ h)
        ≡ ok budget
  unfolding decide
  decide-reads request organisation d budget h e = ground arith

  pub record_blocked-disclosures :
      (h : Trace) → disclosures (record_blocked deps h).1 ≡ disclosures h
  unfolding record_blocked
  record_blocked-disclosures h = ground (
    arith,
    enqueue_or_record-disclosures deps analytics_queue blocked_request
        (record { call = appends_usage blocked_request block none; succeeded = true } ∷ h),
  )

  pub select-disclosures :
      (request : ChatStreamRequest) (h : Trace)
      → disclosures (select_production_candidate deps request h).1 ≡ disclosures h
  unfolding select_production_candidate
  select-disclosures request h = ground arith

  pub provider_history-disclosures :
      (organisation : ChatOrganisationContext) (budget : BudgetStatus) (h : Trace)
      → disclosures (provider_history deps organisation budget h).1 ≡ disclosures h
  unfolding provider_history
  provider_history-disclosures organisation budget h = ground arith

  pub provider_history-All :
      (organisation : ChatOrganisationContext) (budget : BudgetStatus) (h : Trace)
      (history : List ProviderMessage)
      → (provider_history deps organisation budget h).0 ≡ ok history
      → All (IsApproved deps organisation budget) history
  unfolding provider_history
  provider_history-All organisation budget h history e =
      elim (Bool-cases organisation.encrypted_storage) [
        | inr plain ↦
            let empty : [] ≡ history = ground arith in
            subst (All (IsApproved deps organisation budget)) empty tt
        | inl encrypted ↦ elim (Result-cases (deps.load_conversation_history h)) [
          | inr (x, bad) ↦ ground arith
          | inl (messages, good) ↦
              history_of-All deps organisation budget messages history (ground arith)
        ]
      ]

  pub on_failure-disclosures :
      (p : Progress) (x : Failure) (h : Trace)
      → disclosures (on_failure deps (p, x) h).1 ≡ disclosures h
  unfolding on_failure
  on_failure-disclosures reservation_finalized x h = refl
  on_failure-disclosures before_provider x h = ground arith
  on_failure-disclosures (provider_started action) x h =
      let same =
        record_usage-disclosures deps
          (record {
            status = failed_request;
            policy_action = action;
            usage = none;
            message_persistence = none;
          })
          h refl in
      ground arith

  pub on_failure_throws :
      (p : Progress) (x : Failure) (h : Trace) → is_ok (on_failure deps (p, x) h).0 ≡ false
  unfolding on_failure
  on_failure_throws reservation_finalized x h = ground arith
  on_failure_throws before_provider x h = ground arith
  on_failure_throws (provider_started action) x h = ground arith

  pub assert_routing_allowed-disclosures :
      (request : ChatStreamRequest) (organisation : ChatOrganisationContext) (h : Trace)
      → disclosures (assert_routing_allowed request organisation h).1 ≡ disclosures h
  unfolding assert_routing_allowed
  assert_routing_allowed-disclosures request organisation h = ground arith

  pub assert_routing_allowed-trace :
      (request : ChatStreamRequest) (organisation : ChatOrganisationContext) (h : Trace)
      → (assert_routing_allowed request organisation h).1 ≡ h
  unfolding assert_routing_allowed
  assert_routing_allowed-trace request organisation h = ground arith

  pub start_stream-disclosures :
      (d : PolicyDecision) (request : ChatStreamRequest) (c : ProductionCandidate)
      (organisation : ChatOrganisationContext) (approved : List ℕ) (history : List ProviderMessage)
      (h : Trace)
      → disclosures (start_stream deps d request c organisation approved history h).1
        ≡ streams
            (build_product_aware_provider_messages
              (deps.is_product_question request.prompt)
              deps.product_facts_instruction
              approved
              history)
            (min c.max_output_tokens organisation.max_output_tokens_per_request)
          ∷ disclosures h
  unfolding start_stream
  start_stream-disclosures d request c organisation approved history h = ground arith
