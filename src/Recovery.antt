-- ===== src/Recovery.antt =====
-- enqueue-recovery.service.ts and enqueue-recovery.repository.ts: jobs that were not put into their
-- queue. The request log of an organisation is a list by ascending cursor, and a record is what the
-- collection holds for one scope, while one scan runs at a time. Times are milliseconds.
pub mod Discovery
pub mod Attempts
mod Tests
use proxy_ai.Base.{
  ℕ, zero, suc, ◌+◌, ◌-◌, ◌*◌, ◌^◌, Bool, true, false, ◌&&◌, Option, none, some, List, [], ◌∷◌,
  ◌++◌, leb, ltb, if◌then◌else◌, take, length,
}
use proxy_ai.Chat.Trace.{RequestStatus, blocked_request, QueueName, billing_queue, analytics_queue}

pub data EnqueueRecoveryJobType : Type 0 where
  request_completed_job request_blocked_job : EnqueueRecoveryJobType

pub record EnqueueRecoveryScope : Type 0 where
  pub request_id : ℕ
  pub queue_name : QueueName
  pub job_type : EnqueueRecoveryJobType

-- What the discovery reads of a request.
pub record RecoveryRequestSource : Type 0 where
  pub cursor_id : ℕ
  pub request_id : ℕ
  pub status : RequestStatus

abbrev pub recovery_batch_size : ℕ
recovery_batch_size = 100

abbrev pub claim_window_ms : ℕ
claim_window_ms = 60000

abbrev pub bullmq_job_attempts : ℕ
bullmq_job_attempts = 3

abbrev pub bullmq_backoff_delay_ms : ℕ
bullmq_backoff_delay_ms = 1000

pub expected_recovery_scopes : RecoveryRequestSource → List EnqueueRecoveryScope
expected_recovery_scopes source = elim source.status [
  | blocked_request ↦
      record {
        request_id = source.request_id;
        queue_name = analytics_queue;
        job_type = request_blocked_job;
      }
      ∷ []
  | _ ↦
      record {
        request_id = source.request_id;
        queue_name = billing_queue;
        job_type = request_completed_job;
      }
      ∷ record {
        request_id = source.request_id;
        queue_name = analytics_queue;
        job_type = request_completed_job;
      }
      ∷ []
]

-- The two loops over the records and their scopes, as the scopes that are made pending.
pub scopes_of : List RecoveryRequestSource → List EnqueueRecoveryScope
unfolding expected_recovery_scopes
scopes_of [] = []
scopes_of (source ∷ sources) = expected_recovery_scopes source ++ scopes_of sources

-- `_id: { $gt: afterCursor }`.
pub behind_cursor : Option ℕ → List RecoveryRequestSource → List RecoveryRequestSource
behind_cursor none logs = logs
behind_cursor (some c) [] = []
behind_cursor (some c) (source ∷ logs) =
    let rest = behind_cursor (some c) logs in if ltb c source.cursor_id then source ∷ rest else rest

pub list_request_log_batch : List RecoveryRequestSource → Option ℕ → ℕ → List RecoveryRequestSource
unfolding behind_cursor
list_request_log_batch logs after limit = take limit (behind_cursor after logs)

-- `records.at(-1)?.cursorId`.
pub last_cursor : List RecoveryRequestSource → Option ℕ
last_cursor [] = none
last_cursor (source ∷ []) = some source.cursor_id
last_cursor (source ∷ next ∷ sources) = last_cursor (next ∷ sources)

-- The `do` loop, on fuel: the scopes that were made pending, or `none` where the fuel does not last.
pub discover_loop :
    ℕ
    → ℕ
    → List RecoveryRequestSource
    → Option ℕ
    → List EnqueueRecoveryScope
    → Option (List EnqueueRecoveryScope)
unfolding scopes_of list_request_log_batch last_cursor
discover_loop limit zero logs after pending = none
discover_loop limit (suc fuel) logs after pending =
    let records = list_request_log_batch logs after limit in
    let pending' = pending ++ scopes_of records in
    elim (last_cursor records) [
      | none ↦ some pending'
      | some c ↦
          let rest = discover_loop limit fuel logs (some c) pending' in
          if ltb (length records) limit then some pending' else rest
    ]

pub discover_missing_recovery_records :
    ℕ → List RecoveryRequestSource → Option (List EnqueueRecoveryScope)
unfolding discover_loop
discover_missing_recovery_records fuel logs = discover_loop recovery_batch_size fuel logs none []

pub data EnqueueRecoveryState : Type 0 where
  pending enqueued completed failed : EnqueueRecoveryState

pub record EnqueueRecoveryRecord : Type 0 where
  pub state : EnqueueRecoveryState
  pub attempt_count : ℕ
  pub next_attempt_at : Option ℕ

pub data BusinessLedgerState : Type 0 where
  no_ledger processing_ledger completed_ledger : BusinessLedgerState

pub data RecoveryQueueJobState : Type 0 where
  missing_job failed_job other_job : RecoveryQueueJobState

pub data RecoveryResult : Type 0 where
  skipped_result enqueued_result completed_result failed_result : RecoveryResult

-- What the outside answers to the recovery of one record, and the time.
pub record RecoveryAnswers : Type 0 where
  pub has_source : Bool
  pub ledger_state : BusinessLedgerState
  pub queue_state : RecoveryQueueJobState
  pub enqueue_succeeds : Bool
  pub now : ℕ

abbrev pub is_open : EnqueueRecoveryState → Bool
is_open pending = true
is_open enqueued = true
is_open _ = false

abbrev pub is_due : ℕ → EnqueueRecoveryRecord → Bool
is_due now r = is_open r.state && elim r.next_attempt_at [ none ↦ true | some t ↦ leb t now ]

pub claim_attempt : ℕ → ℕ → EnqueueRecoveryRecord → Option EnqueueRecoveryRecord
claim_attempt now claim_until r =
    if is_due now r && ltb r.attempt_count 3
    then some (record {
      state = pending;
      attempt_count = r.attempt_count + 1;
      next_attempt_at = some claim_until;
    })
    else none

abbrev pub mark_enqueued : ℕ → EnqueueRecoveryRecord → EnqueueRecoveryRecord
mark_enqueued next r = record r { state = enqueued; next_attempt_at = some next }

abbrev pub mark_pending_retry : ℕ → EnqueueRecoveryRecord → EnqueueRecoveryRecord
mark_pending_retry next r = record r { state = pending; next_attempt_at = some next }

abbrev pub mark_completed : EnqueueRecoveryRecord → EnqueueRecoveryRecord
mark_completed r = record r { state = completed; next_attempt_at = none }

abbrev pub mark_failed : EnqueueRecoveryRecord → EnqueueRecoveryRecord
mark_failed r = record r { state = failed; next_attempt_at = none }

pub recovery_backoff_ms : ℕ → ℕ
recovery_backoff_ms attempt_count = bullmq_backoff_delay_ms * 2 ^ (attempt_count - 1)

-- What a scan does: its result, whether it called for the job to be put into its queue, and the
-- record.
abbrev pub Recovered : Type 0
Recovered = RecoveryResult × Bool × EnqueueRecoveryRecord

-- The last part of `recoverRecord`, for a record that is claimed.
pub enqueue_claimed : RecoveryAnswers → EnqueueRecoveryRecord → Recovered
unfolding recovery_backoff_ms
enqueue_claimed a r =
    if a.enqueue_succeeds
    then (enqueued_result, true, mark_enqueued (a.now + claim_window_ms) r)
    else if leb bullmq_job_attempts r.attempt_count
    then (failed_result, true, mark_failed r)
    else (skipped_result, true, mark_pending_retry (a.now + recovery_backoff_ms r.attempt_count) r)

pub recover_record : RecoveryAnswers → EnqueueRecoveryRecord → Recovered
unfolding claim_attempt enqueue_claimed
recover_record a r =
    if a.has_source
    then elim a.ledger_state [
      | completed_ledger ↦ (completed_result, false, mark_completed r)
      | processing_ledger ↦ (skipped_result, false, mark_enqueued (a.now + claim_window_ms) r)
      | no_ledger ↦ elim a.queue_state [
        | failed_job ↦ (failed_result, false, mark_failed r)
        | other_job ↦ (skipped_result, false, mark_enqueued (a.now + claim_window_ms) r)
        | missing_job ↦ elim (claim_attempt a.now (a.now + claim_window_ms) r) [
          | none ↦ (skipped_result, false, r)
          | some claimed ↦ enqueue_claimed a claimed
        ]
      ]
    ]
    else (failed_result, false, mark_failed r)

-- The filter of `listOpen`: only a record that is due is recovered. The result is `none` where it is
-- not, and the flag tells whether the job was put into its queue.
pub scan_record :
    RecoveryAnswers → EnqueueRecoveryRecord → Option RecoveryResult × Bool × EnqueueRecoveryRecord
unfolding recover_record
scan_record a r =
    let (result, puts, r') = recover_record a r in
    if is_due a.now r then (some result, puts, r') else (none, false, r)
