-- ===== src/Chat/Protocol.antt =====
-- chat.service.ts: the order of the calls around one reservation, as a state machine over the trace.
use proxy_ai.Base.{Bool, true, false, ◌&&◌, ◌||◌, not, [], ◌∷◌}
use proxy_ai.Chat.Trace.{
  QueueName, billing_queue, analytics_queue, reserves, appends_usage, enqueues,
  records_enqueue_failure, marks_execution_started, streams, reads_chunk, persists_messages,
  marks_completed, releases, writes, ChatEvent, Trace,
}

-- A reservation is held, then the provider's execution has started; the flag tells whether usage is
-- stored. It is closed when it is completed or released.
pub data Phase : Type 0 where
  idle : Phase
  held started : Bool → Phase
  completed released violated : Phase

abbrev on_reserves : Bool → Phase → Phase
on_reserves true idle = held false
on_reserves false idle = idle
on_reserves b _ = violated

abbrev on_start : Phase → Phase
on_start (held false) = started false
on_start _ = violated

-- The provider is asked between the start of its execution and the storing of usage.
abbrev on_provider : Phase → Phase
on_provider (started false) = started false
on_provider _ = violated

abbrev on_usage : Bool → Phase → Phase
on_usage b (held false) = held b
on_usage b (started false) = started b
on_usage b _ = violated

-- What is done with stored usage only.
abbrev on_stored : Phase → Phase
on_stored (held true) = held true
on_stored (started true) = started true
on_stored _ = violated

abbrev on_complete : Bool → Phase → Phase
on_complete true (held true) = completed
on_complete true (started true) = completed
on_complete false (held true) = held true
on_complete false (started true) = started true
on_complete b _ = violated

-- A release is refused once the execution has started.
abbrev on_release : Bool → Phase → Phase
on_release true (held b) = released
on_release false (held b) = held b
on_release b _ = violated

abbrev pub next_phase : ChatEvent → Phase → Phase
next_phase e p = elim e.call [
  | reserves ↦ on_reserves e.succeeded p
  | marks_execution_started ↦ on_start p
  | streams messages n ↦ on_provider p
  | reads_chunk ↦ on_provider p
  | appends_usage s a u ↦ on_usage e.succeeded p
  | enqueues q s ↦ on_stored p
  | records_enqueue_failure q ↦ on_stored p
  | persists_messages u a ↦ on_stored p
  | marks_completed ↦ on_complete e.succeeded p
  | releases ↦ on_release e.succeeded p
  | _ ↦ p
]

abbrev pub phase : Trace → Phase
phase [] = idle
phase (e ∷ h) = next_phase e (phase h)

-- The latest call but those that write to the client is one that would have stored usage or closed
-- the reservation, and it failed.
abbrev pub is_stuck : Trace → Bool
is_stuck [] = false
is_stuck (e ∷ h) = elim e.call [
  | appends_usage s a u ↦ not e.succeeded
  | marks_completed ↦ not e.succeeded
  | releases ↦ not e.succeeded
  | writes w ↦ is_stuck h
  | _ ↦ false
]

-- Nothing is left open, but by such a failure.
abbrev pub is_settled : Trace → Bool
is_settled h = elim (phase h) [
  | idle ↦ true
  | completed ↦ true
  | released ↦ true
  | held b ↦ is_stuck h
  | started b ↦ is_stuck h
  | violated ↦ false
]

abbrev same_queue : QueueName → QueueName → Bool
same_queue billing_queue billing_queue = true
same_queue analytics_queue analytics_queue = true
same_queue _ _ = false

abbrev as_asked : Bool → Bool → Bool
as_asked true b = b
as_asked false b = not b

-- Whether a call for the queue succeeded, or whether one failed.
abbrev pub has_enqueue : Bool → QueueName → Trace → Bool
has_enqueue b q [] = false
has_enqueue b q (e ∷ h) =
    (elim e.call [ enqueues q' s ↦ same_queue q q' && as_asked b e.succeeded | _ ↦ false ])
    || has_enqueue b q h

-- The same of the calls that hand a job to the recovery.
abbrev pub has_recovery : Bool → QueueName → Trace → Bool
has_recovery b q [] = false
has_recovery b q (e ∷ h) =
    (elim e.call [
      | records_enqueue_failure q' ↦ same_queue q q' && as_asked b e.succeeded
      | _ ↦ false
    ])
    || has_recovery b q h

-- The job was put into the queue; or that failed, and its failure was recorded for the recovery; or
-- both calls failed.
abbrev pub is_dealt_with : QueueName → Trace → Bool
is_dealt_with q h =
    has_enqueue true q h
    || has_enqueue false q h && (has_recovery true q h || has_recovery false q h)
