-- ===== src/Chat/Accounting/Settles.antt =====
-- chat.service.ts: what `recordUsageAndComplete` leaves of a reservation.
use proxy_ai.Base.{
  ℕ, ◌≡◌, ◌≢◌, sym, subst, Bool, true, false, Option, List, ◌∷◌, Result, ok, Result-cases, inl, inr,
  ◌⊎◌, arith,
}
use proxy_ai.Chat.Trace.{
  Failure, RequestStatus, TokenUsage, QueueName, ChatEvent, appends_usage, billing_queue,
  analytics_queue, Trace, ChatPipelineDependencies, is_ok,
}
use proxy_ai.Chat.Protocol.{
  Phase, held, started, completed, phase, is_stuck, is_dealt_with, violated,
}
use proxy_ai.Chat.Accounting.{
  Outcome, PreparedChatStream, enqueue_or_record, persist_message_pair, after_usage,
  complete_finally, record_usage_and_complete, finalize_chat_stream,
}

abbrev pub is_stored : Phase → Bool
is_stored (held b) = b
is_stored (started b) = b
is_stored _ = false

module _ (deps : ChatPipelineDependencies) where
  -- Behind stored usage a job is put into its queue or, if that fails, handed to the recovery, once.
  pub enqueue_or_record-phase :
      (q : QueueName) (s : RequestStatus) (h : Trace)
      → is_stored (phase h) ≡ true
      → let (r, h') = enqueue_or_record deps q s h in
        (r ≡ ok tt) × (phase h' ≡ phase h) × (is_dealt_with q h' ≡ true)
  unfolding enqueue_or_record
  enqueue_or_record-phase q s h e = ground arith

  enqueue_or_record-kept :
      (p q : QueueName) (s : RequestStatus) (h : Trace)
      → is_dealt_with p h ≡ true
      → is_dealt_with p (enqueue_or_record deps q s h).1 ≡ true
  unfolding enqueue_or_record
  enqueue_or_record-kept p q s h e = ground arith

  persist_message_pair-phase :
      (o : Outcome) (h : Trace)
      → is_stored (phase h) ≡ true
      → phase (persist_message_pair deps o h).1 ≡ phase h
  unfolding persist_message_pair
  persist_message_pair-phase o h e = ground arith

  after_usage-phase :
      (o : Outcome) (h : Trace)
      → is_stored (phase h) ≡ true
      → let h' = (after_usage deps o h).1 in
        (phase h' ≡ phase h)
        × (is_dealt_with billing_queue h' ≡ true)
        × (is_dealt_with analytics_queue h' ≡ true)
  unfolding after_usage
  after_usage-phase o h e =
      let h₁ = (persist_message_pair deps o h).1 in
      let e₁ = persist_message_pair-phase o h e in
      let (r₂, e₂, c₂) = enqueue_or_record-phase billing_queue o.status h₁ (ground arith) in
      let h₂ = (enqueue_or_record deps billing_queue o.status h₁).1 in
      let (r₃, e₃, c₃) = enqueue_or_record-phase analytics_queue o.status h₂ (ground arith) in
      let kept = enqueue_or_record-kept billing_queue analytics_queue o.status h₂ c₂ in ground arith

  -- How the accounting of an execution ends: completed, with both jobs dealt with; or in an error, with the call that stores usage or completes the reservation failed.
  abbrev pub Accounted : Result Failure (Unit {0}) → Trace → Type 0
  Accounted r h =
      ((phase h ≡ completed)
        × (is_dealt_with billing_queue h ≡ true)
        × (is_dealt_with analytics_queue h ≡ true))
      ⊎ ((is_ok r ≡ false) × (is_stuck h ≡ true) × (phase h ≢ violated))

  complete_finally-Accounted :
      (r : Result Failure (Unit {0})) (h : Trace)
      → phase h ≡ started true
      → is_dealt_with billing_queue h ≡ true
      → is_dealt_with analytics_queue h ≡ true
      → let (r', h') = complete_finally deps (r, h) in Accounted r' h'
  unfolding complete_finally
  complete_finally-Accounted r h e b a = elim (Result-cases (deps.mark_completed h)) [
    | inl (u, good) ↦ inl (ground arith)
    | inr (x, bad) ↦ inr (ground arith)
  ]

  abbrev usage_event : Outcome → ChatEvent
  usage_event o = record { call = appends_usage o.status o.policy_action o.usage; succeeded = true }

  record_usage-stored :
      (o : Outcome) (h : Trace) (u : Unit {0})
      → deps.append_usage h ≡ ok u
      → record_usage_and_complete deps o h
        ≡ complete_finally deps (after_usage deps o (usage_event o ∷ h))
  unfolding record_usage_and_complete
  record_usage-stored o h u good = ground arith

  pub record_usage-Accounted :
      (o : Outcome) (h : Trace)
      → phase h ≡ started false
      → let (r, h') = record_usage_and_complete deps o h in Accounted r h'
  unfolding record_usage_and_complete
  record_usage-Accounted o h e = elim (Result-cases (deps.append_usage h)) [
    | inl (u, good) ↦
        let h₁ = usage_event o ∷ h in
        let (same, b, a) = after_usage-phase o h₁ (ground arith) in
        let (r, h₂) = after_usage deps o h₁ in
        subst (λ (x : Result Failure (Unit {0}) × Trace). Accounted x.0 x.1)
          (sym (record_usage-stored o h u good))
          (complete_finally-Accounted r h₂ (ground arith) b a)
    | inr (x, bad) ↦ inr (ground arith)
  ]

  -- `finalizeChatStream` ends an execution that has started: it completes the reservation, with the
  -- billing job and the analytics job each put into its queue, or recorded for the recovery where that
  -- failed, or left without either where both calls failed, whatever else fails; or it throws, behind a failure to store usage or to complete the reservation.
  pub finalize_chat_stream-Accounted :
      (prepared : PreparedChatStream) (status : RequestStatus) (usage : Option TokenUsage)
      (content : Option (List ℕ)) (h : Trace)
      → phase h ≡ started false
      → let (r, h') = finalize_chat_stream deps prepared status usage content h in Accounted r h'
  unfolding finalize_chat_stream
  finalize_chat_stream-Accounted prepared status usage content h e = record_usage-Accounted _ h e
