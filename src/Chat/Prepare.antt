-- ===== src/Chat/Prepare.antt =====
-- chat.service.ts: `prepareChatStream`, from a request to the first chunk of an answer, or to an error.
pub mod Settles
pub mod Approved
pub mod Discloses
pub mod Sends
pub mod Original
use proxy_ai.Base.{
  ℕ, min, Bool, true, false, ◌&&◌, ◌||◌, not, Option, none, some, List, [], ◌∷◌, ◌++◌, length,
  Result, ok, err, leb, if◌then◌else◌, ite,
}
use proxy_ai.Providers.Types.{ProviderId, ProviderId-discrete, groq}
use proxy_ai.Pii.Prompt.{PiiPromptProcessingResult, process_pii_prompt}
use proxy_ai.Pii.Risk.{calculate_pii_risk}
use proxy_ai.Policy.{
  PolicyAction, allow, allow_with_mask, block, PolicyEvaluationInput, PolicyDecision,
  evaluate_policy,
}
use proxy_ai.Billing.{BudgetStatus}
use proxy_ai.Chat.{
  system, user, ProviderMessage, HistoryPair, RetainedConversationMessage, pair_messages_by_request,
  build_bounded_provider_history,
}
use proxy_ai.Chat.Trace.{
  ErrorCode, feature_disabled, policy_blocked, provider_unavailable, Failure, app_error,
  other_failure, failed_request, blocked_request, analytics_queue, ChatCall, asserts_owner,
  loads_organisation, reserves, consumes_rate_limit, reads_budget, emits_policy_event,
  appends_audit, appends_usage, reads_provider_health, loads_history, marks_execution_started,
  streams, marks_completed, releases, ChatEvent, Trace, RoutingMode, manual, auto,
  ChatStreamRequest, ChatOrganisationContext, ProductionCandidate, StreamChunk,
  ChatPipelineDependencies, Act, pure, raise, perform, map_error, catch, continue, is_ok, ◌>>=◌,
  ◌>>◌,
}
use proxy_ai.Chat.Accounting.{PreparedChatStream, enqueue_or_record, record_usage_and_complete}

-- How far `prepareChatStream` has come when something is thrown: `providerStarted` with the policy
-- action, and `reservationFinalized`.
pub data Progress : Type 0 where
  before_provider : Progress
  provider_started : PolicyAction → Progress
  reservation_finalized : Progress

abbrev pub from_result : {E A : Type 0} → Result E A → Result Failure A
from_result (ok a) = ok a
from_result (err e) = err other_failure

pub assert_routing_allowed : ChatStreamRequest → ChatOrganisationContext → Act Failure (Unit {0})
assert_routing_allowed request organisation = elim request.routing_mode [
  | manual ↦ pure tt
  | auto ↦ elim organisation.auto_routing_enabled [
    | true ↦ pure tt
    | false ↦ raise (app_error feature_disabled)
  ]
]

pub normalize_pre_stream_error : Failure → Failure
normalize_pre_stream_error (app_error c) = app_error c
normalize_pre_stream_error other_failure = app_error provider_unavailable

-- `candidates.find`, for Groq.
pub find_groq : List ProductionCandidate → Option ProductionCandidate
find_groq [] = none
find_groq (c ∷ cs) = ite (ProviderId-discrete c.provider_id groq) (some c) (find_groq cs)

abbrev pub asks_another : ChatStreamRequest → ProductionCandidate → Bool
asks_another request c = elim request.routing_mode [
  | auto ↦ false
  | manual ↦ elim request.provider_id [
    | none ↦ true
    | some id ↦ ite (ProviderId-discrete id c.provider_id) false true
  ]
]

pub build_product_aware_provider_messages :
    Bool → List ℕ → List ℕ → List ProviderMessage → List ProviderMessage
build_product_aware_provider_messages is_product_question instruction approved_prompt history =
    (if is_product_question then record { role = system; content = instruction } ∷ [] else [])
    ++ history
    ++ record { role = user; content = approved_prompt } ∷ []

-- The checks of `buildAuditMetadata` that a policy decision can fail.
abbrev pub is_safe_metadata : PolicyDecision → Bool
is_safe_metadata d = leb d.risk_score 100 && leb (length d.categories) 100

abbrev pub evaluation_input :
    ChatOrganisationContext → BudgetStatus → PiiPromptProcessingResult → PolicyEvaluationInput
evaluation_input organisation budget pii = record {
  sanitized_prompt = pii.sanitized_prompt;
  categories = pii.classification.categories;
  spans = pii.classification.spans;
  score = (calculate_pii_risk pii.classification.spans).score;
  budget_exceeded = budget.exceeded;
  thresholds = organisation.thresholds;
}

module _ (deps : ChatPipelineDependencies) where
  -- `processPrompt`, `calculatePiiRisk` and `evaluatePolicy` of a text.
  pub evaluate_text :
      ChatOrganisationContext → BudgetStatus → List ℕ → Result Failure PolicyDecision
  evaluate_text organisation budget text = elim (process_pii_prompt text (deps.matches text)) [
    | err e ↦ err other_failure
    | ok pii ↦ from_result (evaluate_policy (evaluation_input organisation budget pii))
  ]

  -- What a provider may see of a text; `none` where the text is blocked.
  pub approved_text : PolicyDecision → List ℕ → Option (List ℕ)
  approved_text decision text = elim decision.action [
    | allow ↦ some text
    | allow_with_mask ↦ decision.provider_prompt
    | block ↦ none
  ]

  pub decide :
      ChatStreamRequest → ChatOrganisationContext → Act Failure (PolicyDecision × BudgetStatus)
  unfolding evaluate_text
  decide request organisation = do
    perform consumes_rate_limit deps.consume_rate_limit
    budget ← perform reads_budget deps.read_budget_status
    decision ← (λ h. (evaluate_text organisation budget request.prompt, h))
    perform (emits_policy_event decision) (λ h. ok tt)
    (if is_safe_metadata decision then pure tt else raise other_failure)
    perform (appends_audit decision) deps.append_audit
    pure (decision, budget)

  pub record_blocked : Act Failure (Unit {0})
  record_blocked = do
    perform (appends_usage blocked_request block none) deps.append_usage
    enqueue_or_record deps analytics_queue blocked_request
    perform marks_completed deps.mark_completed

  pub select_production_candidate : ChatStreamRequest → Act Failure ProductionCandidate
  select_production_candidate request = elim (find_groq deps.candidates) [
    | none ↦ raise (app_error provider_unavailable)
    | some c ↦ elim (asks_another request c) [
      | true ↦ raise (app_error provider_unavailable)
      | false ↦ do
        unhealthy ← perform reads_provider_health deps.is_unhealthy
        (if unhealthy then raise (app_error provider_unavailable) else pure c)
    ]
  ]

  -- `sanitizeUserContent`, which may throw.
  abbrev pub sanitize_user_content :
      ChatOrganisationContext → BudgetStatus → List ℕ → Result Failure (Option (List ℕ))
  sanitize_user_content organisation budget text = elim (evaluate_text organisation budget text) [
    | err e ↦ err e
    | ok decision ↦ ok (approved_text decision text)
  ]

  abbrev pub or_nothing : Result Failure (Option (List ℕ)) → Option (List ℕ)
  or_nothing (ok o) = o
  or_nothing (err e) = none

  -- The first error of the sanitizer on the users' messages of complete pairs.
  pub first_error : (List ℕ → Result Failure (Option (List ℕ))) → List HistoryPair → Option Failure
  first_error sanitize [] = none
  first_error sanitize (p ∷ ps) = elim p.user_content [
    | none ↦ first_error sanitize ps
    | some u ↦ elim p.assistant_content [
      | none ↦ first_error sanitize ps
      | some a ↦ elim (sanitize u) [ err e ↦ some e | ok o ↦ first_error sanitize ps ]
    ]
  ]

  pub history_of :
      ChatOrganisationContext
      → BudgetStatus
      → List RetainedConversationMessage
      → Result Failure (List ProviderMessage)
  unfolding first_error
  history_of organisation budget messages =
      let sanitize = sanitize_user_content organisation budget in
      elim (first_error sanitize (pair_messages_by_request [] messages)) [
        | some e ↦ err e
        | none ↦
            ok (build_bounded_provider_history messages (λ text. or_nothing (sanitize text)) none)
      ]

  pub provider_history : ChatOrganisationContext → BudgetStatus → Act Failure (List ProviderMessage)
  unfolding history_of
  provider_history organisation budget = elim organisation.encrypted_storage [
    | false ↦ pure []
    | true ↦ do
      messages ← perform loads_history deps.load_conversation_history
      (λ h. (history_of organisation budget messages, h))
  ]

  -- From the start of the provider's execution to the first chunk.
  pub start_stream :
      PolicyDecision
      → ChatStreamRequest
      → ProductionCandidate
      → ChatOrganisationContext
      → List ℕ
      → List ProviderMessage
      → Act (Progress × Failure) (PreparedChatStream × StreamChunk)
  start_stream decision request candidate organisation approved_prompt history =
      let messages =
        build_product_aware_provider_messages (deps.is_product_question request.prompt)
          deps.product_facts_instruction approved_prompt history in
      let max_tokens = min candidate.max_output_tokens organisation.max_output_tokens_per_request in
      perform marks_execution_started (λ h. ok tt)
      >> map_error (λ e. (provider_started decision.action, e))
          (perform (streams messages max_tokens) deps.next_chunk >>= λ first. elim first [
            | none ↦ raise (app_error provider_unavailable)
            | some chunk ↦
                pure (record { decision = decision; original_user_content = request.prompt }, chunk)
          ])

  pub accept :
      ChatStreamRequest
      → ChatOrganisationContext
      → PolicyDecision
      → BudgetStatus
      → List ℕ
      → Act (Progress × Failure) (PreparedChatStream × StreamChunk)
  unfolding start_stream
  accept request organisation decision budget approved_prompt = do
    candidate ← map_error (λ e. (before_provider, e)) (select_production_candidate request)
    history ← map_error (λ e. (before_provider, e)) (provider_history organisation budget)
    start_stream decision request candidate organisation approved_prompt history

  -- The `try` block behind the reservation.
  pub try_prepare :
      ChatStreamRequest
      → ChatOrganisationContext
      → Act (Progress × Failure) (PreparedChatStream × StreamChunk)
  unfolding decide record_blocked accept
  try_prepare request organisation = do
    (decision, budget) ← map_error (λ e. (before_provider, e)) (decide request organisation)
    elim (approved_text decision request.prompt) [
      | none ↦ do
        map_error (λ e. (before_provider, e)) record_blocked
        raise (reservation_finalized, app_error policy_blocked)
      | some approved ↦ accept request organisation decision budget approved
    ]

  -- The `catch` block.
  pub on_failure : Progress × Failure → Act Failure (PreparedChatStream × StreamChunk)
  on_failure (reservation_finalized, e) = raise (normalize_pre_stream_error e)
  on_failure (before_provider, e) = do
    perform releases deps.release_before_execution
    raise (normalize_pre_stream_error e)
  on_failure (provider_started action, e) = do
    record_usage_and_complete deps (record {
      status = failed_request;
      policy_action = action;
      usage = none;
      message_persistence = none;
    })
    raise (normalize_pre_stream_error e)

  pub prepare_chat_stream : ChatStreamRequest → Act Failure (PreparedChatStream × StreamChunk)
  unfolding assert_routing_allowed try_prepare on_failure
  prepare_chat_stream request = do
    perform asserts_owner deps.assert_conversation_owner
    organisation ← perform loads_organisation deps.load_organisation_context
    assert_routing_allowed request organisation
    perform reserves deps.reserve
    catch (try_prepare request organisation) on_failure
