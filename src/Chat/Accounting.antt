-- ===== src/Chat/Accounting.antt =====
-- chat.service.ts: `recordUsageAndComplete`, by which every provider run is accounted for.
pub mod Settles
pub mod Discloses
use mathlib.Core.Option.{map as option_map}
use proxy_ai.Base.{ℕ, Bool, true, false, Option, none, some, List, [], ◌∷◌, Result, ok, err}
use proxy_ai.Policy.{PolicyAction, allow, allow_with_mask, block, PolicyDecision}
use proxy_ai.Chat.Trace.{
  Failure, RequestStatus, completed_request, TokenUsage, QueueName, billing_queue, analytics_queue,
  ChatCall, appends_usage, enqueues, records_enqueue_failure, persists_messages, marks_completed,
  ChatEvent, Trace, ChatPipelineDependencies, Act, pure, raise, perform, continue, is_ok, ◌>>=◌,
  ◌>>◌,
}

-- The contents of the two messages that are kept.
pub record MessagePersistence : Type 0 where
  pub user_content : List ℕ
  pub assistant_content : List ℕ

pub record Outcome : Type 0 where
  pub status : RequestStatus
  pub policy_action : PolicyAction
  pub usage : Option TokenUsage
  pub message_persistence : Option MessagePersistence

-- What the service keeps of a stream that has begun.
pub record PreparedChatStream : Type 0 where
  pub decision : PolicyDecision
  pub original_user_content : List ℕ

abbrev pub is_completed : RequestStatus → Bool
is_completed completed_request = true
is_completed _ = false

module _ (deps : ChatPipelineDependencies) where
  -- Whatever it is that fails here, nothing is thrown.
  pub record_recovery_failure_safely : QueueName → Act Failure (Unit {0})
  record_recovery_failure_safely queue h =
      (ok tt, (perform (records_enqueue_failure queue) deps.record_enqueue_failure h).1)

  pub enqueue_or_record : QueueName → RequestStatus → Act Failure (Unit {0})
  unfolding record_recovery_failure_safely
  enqueue_or_record queue status h =
      let (r, h') = perform (enqueues queue status) (deps.enqueue queue) h in
      elim r [ ok u ↦ (ok tt, h') | err e ↦ record_recovery_failure_safely queue h' ]

  -- The error of the message store, which is thrown at the end.
  pub persist_message_pair : Outcome → Trace → Option Failure × Trace
  persist_message_pair o h = elim o.message_persistence [
    | none ↦ (none, h)
    | some m ↦ elim (is_completed o.status) [
      | false ↦ (none, h)
      | true ↦
          let (r, h') =
            perform (persists_messages m.user_content m.assistant_content) deps.persist_messages
              h in
          (elim r [ ok u ↦ none | err e ↦ some e ], h')
    ]
  ]

  pub after_usage : Outcome → Act Failure (Unit {0})
  unfolding persist_message_pair enqueue_or_record
  after_usage o h =
      let (message_error, h₁) = persist_message_pair o h in
      continue (enqueue_or_record billing_queue o.status h₁) λ _ h₂.
        continue (enqueue_or_record analytics_queue o.status h₂)
          λ _ h₃. (elim message_error [ none ↦ ok tt | some e ↦ err e ], h₃)

  -- The `finally` block, behind usage that is stored; what it throws takes the place of what was thrown.
  pub complete_finally : Result Failure (Unit {0}) × Trace → Result Failure (Unit {0}) × Trace
  complete_finally (r, h) =
      let (m, h') = perform marks_completed deps.mark_completed h in
      (elim m [ ok u ↦ r | err e ↦ err e ], h')

  pub record_usage_and_complete : Outcome → Act Failure (Unit {0})
  unfolding after_usage complete_finally
  record_usage_and_complete o h =
      let (r, h') = perform (appends_usage o.status o.policy_action o.usage) deps.append_usage h in
      elim r [ err e ↦ (err e, h') | ok u ↦ complete_finally (after_usage o h') ]

  abbrev final_action : PolicyAction → PolicyAction
  final_action allow_with_mask = allow_with_mask
  final_action _ = allow

  -- The assistant's content is given where the stream was completed.
  pub finalize_chat_stream :
      PreparedChatStream
      → RequestStatus
      → Option TokenUsage
      → Option (List ℕ)
      → Act Failure (Unit {0})
  unfolding record_usage_and_complete
  finalize_chat_stream prepared status usage assistant_content = record_usage_and_complete (record {
    status = status;
    policy_action = final_action prepared.decision.action;
    usage = usage;
    message_persistence =
        option_map
          (λ content. record {
            user_content = prepared.original_user_content;
            assistant_content = content;
          })
          assistant_content;
  })
