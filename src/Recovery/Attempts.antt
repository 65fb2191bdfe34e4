-- ===== src/Recovery/Attempts.antt =====
-- enqueue-recovery.service.ts: what any number of scans make of one record.
use proxy_ai.Base.{ℕ, ◌+◌, ◌≤◌, ◌≡◌, refl, ◌∙◌, ap, true, List, [], ◌∷◌, All, if◌then◌else◌, arith}
use proxy_ai.Recovery.{
  EnqueueRecoveryRecord, claim_attempt, enqueue_claimed, recover_record, RecoveryAnswers, no_ledger,
  missing_job, scan_record,
}

pub run_scans : List RecoveryAnswers → EnqueueRecoveryRecord → EnqueueRecoveryRecord
run_scans [] r = r
run_scans (a ∷ scans) r = run_scans scans (scan_record a r).2

-- How often the job is put into its queue.
pub enqueue_calls : List RecoveryAnswers → EnqueueRecoveryRecord → ℕ
enqueue_calls [] r = 0
enqueue_calls (a ∷ scans) r =
    let (result, puts, r') = scan_record a r in (if puts then 1 else 0) + enqueue_calls scans r'

scan_attempts :
    (a : RecoveryAnswers) (r : EnqueueRecoveryRecord)
    → r.attempt_count ≤ 3
    → let (result, puts, r') = scan_record a r in
      ((if puts then 1 else 0) + r.attempt_count ≡ r'.attempt_count) × (r'.attempt_count ≤ 3)
unfolding scan_record recover_record claim_attempt enqueue_claimed
scan_attempts a r h = ground arith

-- However often a record is scanned, and whatever is answered: the calls that put its job into the queue
-- are as many as its count of attempts grows by, and the count never passes three.
pub enqueue_calls-bounded :
    (scans : List RecoveryAnswers) (r : EnqueueRecoveryRecord)
    → r.attempt_count ≤ 3
    → (enqueue_calls scans r + r.attempt_count ≡ (run_scans scans r).attempt_count)
      × ((run_scans scans r).attempt_count ≤ 3)
unfolding run_scans enqueue_calls
enqueue_calls-bounded [] r h = (omega arith, h)
enqueue_calls-bounded (a ∷ scans) r h =
    let (count, bound) = scan_attempts a r h in
    let (rest, bound') = enqueue_calls-bounded scans (scan_record a r).2 bound in
    (omega arith, bound')

-- The request is in the log, no ledger knows the job, and the queue has lost it.
abbrev pub IsLost : RecoveryAnswers → Type 0
IsLost a = (a.has_source ≡ true) × (a.ledger_state ≡ no_ledger) × (a.queue_state ≡ missing_job)

exhausted_scan :
    (a : RecoveryAnswers) (r : EnqueueRecoveryRecord)
    → r.attempt_count ≡ 3
    → IsLost a
    → (scan_record a r).2 ≡ r
unfolding scan_record recover_record claim_attempt
exhausted_scan a r h (source, ledger, queue) = ground arith

-- A record whose third attempt was made stays as it is over any scans that find its job in no ledger
-- and not in the queue: it is neither tried again nor failed.
pub exhausted_stays :
    (scans : List RecoveryAnswers) (r : EnqueueRecoveryRecord)
    → r.attempt_count ≡ 3
    → All IsLost scans
    → run_scans scans r ≡ r
unfolding run_scans
exhausted_stays [] r h lost = refl
exhausted_stays (a ∷ scans) r h lost =
    let same = exhausted_scan a r h lost.0 in
    ap (run_scans scans) same ∙ exhausted_stays scans r h lost.1
