-- ===== src/Chat/Accounting/Discloses.antt =====
-- chat.service.ts: what the accounting of a provider run gives away.
use proxy_ai.Base.{
  ℕ, ◌≡◌, refl, Option, none, some, List, ◌∷◌, Bool-cases, Result-cases, inl, inr, ◌⊎◌, arith,
}
use proxy_ai.Chat.Trace.{
  RequestStatus, TokenUsage, QueueName, ChatCall, persists_messages, Trace,
  ChatPipelineDependencies,
}
use proxy_ai.Chat.Disclosure.{disclosures}
use proxy_ai.Chat.Accounting.{
  Outcome, PreparedChatStream, enqueue_or_record, persist_message_pair, after_usage,
  complete_finally, is_completed, record_usage_and_complete, finalize_chat_stream,
}

module _ (deps : ChatPipelineDependencies) where
  pub enqueue_or_record-disclosures :
      (q : QueueName) (s : RequestStatus) (h : Trace)
      → disclosures (enqueue_or_record deps q s h).1 ≡ disclosures h
  unfolding enqueue_or_record
  enqueue_or_record-disclosures q s h = ground arith

  pub record_usage-disclosures :
      (o : Outcome) (h : Trace)
      → o.message_persistence ≡ none
      → disclosures (record_usage_and_complete deps o h).1 ≡ disclosures h
  unfolding record_usage_and_complete after_usage persist_message_pair complete_finally
      enqueue_or_record
  record_usage-disclosures o h e = ground arith

  -- Where something is stored, it is the contents of the two messages.
  abbrev pub Stores : PreparedChatStream → List ℕ → List ChatCall → List ChatCall → Type 0
  Stores prepared content before after =
      (after ≡ before) ⊎ (after ≡ persists_messages prepared.original_user_content content ∷ before)

  pub finalize_chat_stream-Stores :
      (prepared : PreparedChatStream) (status : RequestStatus) (usage : Option TokenUsage)
      (content : List ℕ) (h : Trace)
      → Stores prepared content
          (disclosures h)
          (disclosures (finalize_chat_stream deps prepared status usage (some content) h).1)
  unfolding finalize_chat_stream record_usage_and_complete after_usage persist_message_pair
      complete_finally enqueue_or_record
  finalize_chat_stream-Stores prepared status usage content h =
      elim (Bool-cases (is_completed status)) [
        | inl e ↦ elim (Result-cases (deps.append_usage h)) [
          | inl (u, good) ↦ inr (ground arith)
          | inr (x, bad) ↦ inl (ground arith)
        ]
        | inr e ↦ inl (ground arith)
      ]

  pub finalize_chat_stream-disclosures :
      (prepared : PreparedChatStream) (status : RequestStatus) (usage : Option TokenUsage)
      (h : Trace)
      → disclosures (finalize_chat_stream deps prepared status usage none h).1 ≡ disclosures h
  unfolding finalize_chat_stream
  finalize_chat_stream-disclosures prepared status usage h = record_usage-disclosures _ h refl
