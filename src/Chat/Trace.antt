-- ===== src/Chat/Trace.antt =====
-- chat.service.ts: what the service asks of its dependencies. A trace lists the calls that were made,
-- the newest first, and how each ended; a dependency answers by the trace, so its answer may depend
-- on all that happened before. Ids of the request are the same in every call and are left out, and so
-- are the log and the metrics.
use proxy_ai.Base.{ℕ, Bool, true, false, Option, List, ◌∷◌, Result, ok, err}
use proxy_ai.Providers.Types.{ProviderId}
use proxy_ai.Policy.{PolicyAction, PolicyDecision, Thresholds}
use proxy_ai.Billing.{BudgetStatus}
use proxy_ai.Pii.Spans.{PiiDetectorId}
use proxy_ai.Pii.Detector.{Match}
use proxy_ai.Chat.{RetainedConversationMessage, ProviderMessage}

pub data ErrorCode : Type 0 where
  feature_disabled policy_blocked provider_unavailable stream_interrupted : ErrorCode
  other_code : ℕ → ErrorCode

-- What is thrown: an `AppError`, or anything else.
pub data Failure : Type 0 where
  app_error : ErrorCode → Failure
  other_failure : Failure

pub data RequestStatus : Type 0 where
  completed_request failed_request interrupted_request blocked_request : RequestStatus

pub record TokenUsage : Type 0 where
  pub input_tokens : ℕ
  pub output_tokens : ℕ
  pub total_tokens : ℕ

pub data QueueName : Type 0 where
  billing_queue analytics_queue : QueueName

-- The events that are sent to the client; what only tells the request's ids is left out.
pub data ChatSseEvent : Type 0 where
  request_started routing error_event : ChatSseEvent
  policy : PolicyDecision → ChatSseEvent
  token_event : List ℕ → ChatSseEvent
  done : PolicyDecision → Option TokenUsage → ChatSseEvent

pub data ChatCall : Type 0 where
  asserts_owner loads_organisation reserves consumes_rate_limit reads_budget : ChatCall
  emits_policy_event appends_audit : PolicyDecision → ChatCall
  appends_usage : RequestStatus → PolicyAction → Option TokenUsage → ChatCall
  enqueues : QueueName → RequestStatus → ChatCall
  records_enqueue_failure : QueueName → ChatCall
  reads_provider_health loads_history : ChatCall
  marks_execution_started : ChatCall
  -- The first result of the stream for these messages and this many output tokens.
  streams : List ProviderMessage → ℕ → ChatCall
  reads_chunk : ChatCall
  persists_messages : List ℕ → List ℕ → ChatCall
  marks_completed releases : ChatCall
  writes : ChatSseEvent → ChatCall

pub record ChatEvent : Type 0 where
  pub call : ChatCall
  pub succeeded : Bool

abbrev pub Trace : Type 0
Trace = List ChatEvent

pub data RoutingMode : Type 0 where
  manual auto : RoutingMode

pub record ChatStreamRequest : Type 0 where
  pub prompt : List ℕ
  pub routing_mode : RoutingMode
  pub provider_id : Option ProviderId

pub record ChatOrganisationContext : Type 0 where
  pub thresholds : Thresholds
  pub max_output_tokens_per_request : ℕ
  pub auto_routing_enabled : Bool
  pub encrypted_storage : Bool

pub record ProductionCandidate : Type 0 where
  pub provider_id : ProviderId
  pub model : ℕ
  pub max_output_tokens : ℕ

pub data StreamChunk : Type 0 where
  token : List ℕ → StreamChunk
  finished : Option TokenUsage → StreamChunk

-- What the dependencies answer. `matches` is what the detectors' regular expressions find in a text,
-- and `is_product_question` what those of product-facts.ts say of it.
pub record ChatPipelineDependencies : Type 0 where
  pub assert_conversation_owner : Trace → Result Failure (Unit {0})
  pub load_organisation_context : Trace → Result Failure ChatOrganisationContext
  pub reserve : Trace → Result Failure (Unit {0})
  pub consume_rate_limit : Trace → Result Failure (Unit {0})
  pub read_budget_status : Trace → Result Failure BudgetStatus
  pub matches : List ℕ → PiiDetectorId → List Match
  pub is_product_question : List ℕ → Bool
  pub product_facts_instruction : List ℕ
  pub load_conversation_history : Trace → Result Failure (List RetainedConversationMessage)
  pub candidates : List ProductionCandidate
  pub is_unhealthy : Trace → Result Failure Bool
  pub next_chunk : Trace → Result Failure (Option StreamChunk)
  pub append_usage : Trace → Result Failure (Unit {0})
  pub enqueue : QueueName → Trace → Result Failure (Unit {0})
  pub record_enqueue_failure : Trace → Result Failure (Unit {0})
  pub append_audit : Trace → Result Failure (Unit {0})
  pub persist_messages : Trace → Result Failure (Unit {0})
  pub mark_completed : Trace → Result Failure (Unit {0})
  pub release_before_execution : Trace → Result Failure (Unit {0})

-- A computation that may throw an `E`; the trace stays after a throw.
abbrev pub Act : Type 0 → Type 0 → Type 0
Act E A = Trace → Result E A × Trace

abbrev pub pure : {E A : Type 0} → A → Act E A
pure a h = (ok a, h)

abbrev pub raise : {E A : Type 0} → E → Act E A
raise e h = (err e, h)

abbrev pub continue : {E A B : Type 0} → Result E A × Trace → (A → Act E B) → Result E B × Trace
continue (ok a, h) f = f a h
continue (err e, h) f = (err e, h)

infixl 5 ◌>>=◌ ◌>>◌
abbrev pub ◌>>=◌ : {E A B : Type 0} → Act E A → (A → Act E B) → Act E B
◌>>=◌ m f h = continue (m h) f

abbrev pub ◌>>◌ : {E A B : Type 0} → Act E A → Act E B → Act E B
m >> k = m >>= λ _. k

abbrev pub is_ok : {E A : Type 0} → Result E A → Bool
is_ok (ok a) = true
is_ok (err e) = false

-- A call of a dependency, with its answer.
abbrev pub perform : {E A : Type 0} → ChatCall → (Trace → Result E A) → Act E A
perform c answer h = let r = answer h in (r, record { call = c; succeeded = is_ok r } ∷ h)

-- What is thrown goes on in another form.
abbrev pub map_error : {E F A : Type 0} → (E → F) → Act E A → Act F A
map_error f m h = let (r, h') = m h in (elim r [ ok a ↦ ok a | err e ↦ err (f e) ], h')

-- `try { … } catch { … }` whose handler ends with the code behind it.
abbrev pub catch : {E F A : Type 0} → Act E A → (E → Act F A) → Act F A
catch m handler h = let (r, h') = m h in elim r [ ok a ↦ (ok a, h') | err e ↦ handler e h' ]
