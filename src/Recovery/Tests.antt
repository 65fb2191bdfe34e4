-- ===== src/Recovery/Tests.antt =====
-- enqueue-recovery.service.ts: the theorems on a log of two requests, and on a record whose third
-- attempt was made.
use proxy_ai.Base.{◌+◌, ◌≤◌, ◌≡◌, refl, true, some, List, [], ◌∷◌, arith}
use proxy_ai.Chat.Trace.{completed_request, blocked_request}
use proxy_ai.Recovery.{
  RecoveryRequestSource, scopes_of, discover_missing_recovery_records, RecoveryAnswers, no_ledger,
  missing_job, EnqueueRecoveryRecord, pending, enqueued,
}
use proxy_ai.Recovery.Discovery.{discover_missing_all}
use proxy_ai.Recovery.Attempts.{run_scans, enqueue_calls, enqueue_calls-bounded, exhausted_stays}

abbrev logs : List RecoveryRequestSource
logs =
    record { cursor_id = 3; request_id = 1; status = completed_request }
    ∷ record { cursor_id = 5; request_id = 2; status = blocked_request }
    ∷ []

discover_missing_all_example : discover_missing_recovery_records 3 logs ≡ some (scopes_of logs)
discover_missing_all_example =
    discover_missing_all 3 logs ((omega arith, tt), (tt, tt)) (omega arith)

abbrev lost : RecoveryAnswers
lost = record {
  has_source = true;
  ledger_state = no_ledger;
  queue_state = missing_job;
  enqueue_succeeds = true;
  now = 100000;
}

abbrev new_record : EnqueueRecoveryRecord
new_record = record { state = pending; attempt_count = 0; next_attempt_at = some 0 }

enqueue_calls-bounded_example :
    (enqueue_calls (lost ∷ lost ∷ []) new_record + 0
      ≡ (run_scans (lost ∷ lost ∷ []) new_record).attempt_count)
    × ((run_scans (lost ∷ lost ∷ []) new_record).attempt_count ≤ 3)
enqueue_calls-bounded_example = enqueue_calls-bounded (lost ∷ lost ∷ []) new_record (omega arith)

abbrev tried_record : EnqueueRecoveryRecord
tried_record = record { state = enqueued; attempt_count = 3; next_attempt_at = some 90000 }

exhausted_stays_example : run_scans (lost ∷ lost ∷ []) tried_record ≡ tried_record
exhausted_stays_example =
    exhausted_stays (lost ∷ lost ∷ []) tried_record refl
      ((refl, refl, refl), ((refl, refl, refl), tt))
