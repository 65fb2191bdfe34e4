-- ===== src/Anomaly/Tests.antt =====
-- anomaly.worker.ts: a job that records an alert.
use proxy_ai.Base.{◌≡◌, refl, true, false, some, List, [], ◌∷◌, ok}
use proxy_ai.Anomaly.{
  find_daily_usage, find_prior_active_days, baseline_total, DailyUserTokenUsage, UsageUpdatedJob,
  AnomalyAnswers, alert_recorded, process_usage_updated_anomaly_job,
  process_usage_updated_anomaly_job_twice,
}

abbrev usage : DailyUserTokenUsage
usage = record {
  org_id = 1;
  user_id = 2;
  date = 20;
  known_usage_request_count = 5;
  unknown_usage_request_count = 0;
  total_tokens = 1000;
}

abbrev usages : List DailyUserTokenUsage
usages =
    usage
    ∷ record usage { date = 13; total_tokens = 100 }
    ∷ record usage { date = 15; total_tokens = 499 }
    ∷ record usage { date = 19; total_tokens = 900 }
    ∷ []

abbrev job : UsageUpdatedJob
job = record { org_id = 1; user_id = 2; observed_day = 20 }

abbrev answers : AnomalyAnswers
answers = record {
  get_feature_state = ok (some true);
  daily_usage_fails = false;
  prior_days_fail = false;
  upsert_fails = false;
}

records_alert : (process_usage_updated_anomaly_job answers 7 job usages []).0 ≡ ok alert_recorded
unfolding process_usage_updated_anomaly_job find_daily_usage find_prior_active_days baseline_total
records_alert = refl

process_usage_updated_anomaly_job_twice_example :
    let first = process_usage_updated_anomaly_job answers 7 job usages [] in
    process_usage_updated_anomaly_job answers 8 job usages first.1 ≡ first
process_usage_updated_anomaly_job_twice_example =
    process_usage_updated_anomaly_job_twice answers 7 8 job usages []
