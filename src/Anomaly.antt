-- ===== src/Anomaly.antt =====
-- anomaly.worker.ts: `processUsageUpdatedAnomalyJob`, on the operations of anomaly.repository.ts. Days
-- are counted from a day that is before every date of a job by a week at least, so that the start of
-- the window is a day too. The log is left out, and so are the texts of an alert; its average is kept
-- as the total and the number of days. The usages are the aggregates of scope USER; the order of the
-- prior days, which nothing depends on, is theirs.
mod Tests
use proxy_ai.Base.{
  ℕ, ◌+◌, ◌*◌, ◌-◌, ◌≡◌, ◌<◌, ◌≤◌, refl, Bool, true, false, ◌&&◌, not, Option, none, some, List, [],
  ◌∷◌, Result, ok, err, if◌then◌else◌, ltb, leb, ◌==◌, length, arith, inl, inr, Bool-cases,
}

pub record DailyUserTokenUsage : Type 0 where
  pub org_id : ℕ
  pub user_id : ℕ
  pub date : ℕ
  pub known_usage_request_count : ℕ
  pub unknown_usage_request_count : ℕ
  pub total_tokens : ℕ

pub record UsageUpdatedJob : Type 0 where
  pub org_id : ℕ
  pub user_id : ℕ
  pub observed_day : ℕ

pub record AnomalyMetadata : Type 0 where
  pub observed_tokens : ℕ
  pub baseline_total_tokens : ℕ
  pub baseline_active_days : ℕ
  pub baseline_window_start : ℕ
  pub baseline_window_end : ℕ

pub record DailyAnomalyAlert : Type 0 where
  pub alert_id : ℕ
  pub org_id : ℕ
  pub user_id : ℕ
  pub observed_day : ℕ
  pub metadata : AnomalyMetadata
  pub is_open : Bool

pub data AnomalyJobProcessingResult : Type 0 where
  alert_recorded no_anomaly skipped_feature_disabled skipped_current_usage_unavailable :
      AnomalyJobProcessingResult
  skipped_insufficient_baseline : AnomalyJobProcessingResult

-- An `UnrecoverableError`, and every other error.
pub data AnomalyJobError : Type 0 where
  terminal transient : AnomalyJobError

-- What the database answers: the feature flag of the organisation, and which of the calls fail.
pub record AnomalyAnswers : Type 0 where
  pub get_feature_state : Result (Unit {0}) (Option Bool)
  pub daily_usage_fails : Bool
  pub prior_days_fail : Bool
  pub upsert_fails : Bool

abbrev pub anomaly_baseline_window_days : ℕ
anomaly_baseline_window_days = 7

abbrev pub anomaly_minimum_active_days : ℕ
anomaly_minimum_active_days = 3

abbrev pub anomaly_threshold_multiplier : ℕ
anomaly_threshold_multiplier = 2

abbrev pub has_complete_current_usage : DailyUserTokenUsage → Bool
has_complete_current_usage u =
    ltb 0 u.known_usage_request_count && u.unknown_usage_request_count == 0

abbrev pub is_daily_usage : UsageUpdatedJob → DailyUserTokenUsage → Bool
is_daily_usage job u =
    u.org_id == job.org_id && u.user_id == job.user_id && u.date == job.observed_day

unfoldable pub find_daily_usage :
    UsageUpdatedJob → List DailyUserTokenUsage → Option DailyUserTokenUsage
find_daily_usage job [] = none
find_daily_usage job (u ∷ us) = if is_daily_usage job u then some u else find_daily_usage job us

abbrev pub is_prior_active_day : UsageUpdatedJob → DailyUserTokenUsage → Bool
is_prior_active_day job u =
    u.org_id == job.org_id
    && u.user_id == job.user_id
    && leb (job.observed_day - anomaly_baseline_window_days) u.date
    && ltb u.date job.observed_day
    && has_complete_current_usage u

unfoldable pub find_prior_active_days :
    UsageUpdatedJob → List DailyUserTokenUsage → List DailyUserTokenUsage
find_prior_active_days job [] = []
find_prior_active_days job (u ∷ us) =
    let rest = find_prior_active_days job us in if is_prior_active_day job u then u ∷ rest else rest

unfoldable pub baseline_total : List DailyUserTokenUsage → ℕ
baseline_total [] = 0
baseline_total (u ∷ us) = u.total_tokens + baseline_total us

abbrev pub is_alert_of : UsageUpdatedJob → DailyAnomalyAlert → Bool
is_alert_of job a =
    a.org_id == job.org_id && a.user_id == job.user_id && a.observed_day == job.observed_day

-- The id is drawn for an insertion only.
pub upsert_daily_anomaly_alert :
    ℕ → UsageUpdatedJob → AnomalyMetadata → List DailyAnomalyAlert → List DailyAnomalyAlert
upsert_daily_anomaly_alert id job metadata [] =
    record {
      alert_id = id;
      org_id = job.org_id;
      user_id = job.user_id;
      observed_day = job.observed_day;
      metadata = metadata;
      is_open = true;
    }
    ∷ []
upsert_daily_anomaly_alert id job metadata (a ∷ alerts) =
    let rest = upsert_daily_anomaly_alert id job metadata alerts in
    if is_alert_of job a
    then record a { metadata = metadata; is_open = true } ∷ alerts
    else a ∷ rest

-- Whether the tokens of the day are above twice the average of the baseline.
abbrev pub is_above_baseline : DailyUserTokenUsage → List DailyUserTokenUsage → Bool
is_above_baseline current days =
    not (
      leb (current.total_tokens * length days) (anomaly_threshold_multiplier * baseline_total days))

unfoldable pub process_usage_updated_anomaly_job :
    AnomalyAnswers
    → ℕ
    → UsageUpdatedJob
    → List DailyUserTokenUsage
    → List DailyAnomalyAlert
    → Result AnomalyJobError AnomalyJobProcessingResult × List DailyAnomalyAlert
process_usage_updated_anomaly_job a id job usages alerts = elim a.get_feature_state [
  | err e ↦ (err transient, alerts)
  | ok none ↦ (err terminal, alerts)
  | ok (some enabled) ↦
      if not enabled
      then (ok skipped_feature_disabled, alerts)
      else if a.daily_usage_fails
      then (err transient, alerts)
      else elim (find_daily_usage job usages) [
        | none ↦ (err terminal, alerts)
        | some current ↦
            let days = find_prior_active_days job usages in
            if not (has_complete_current_usage current)
            then (ok skipped_current_usage_unavailable, alerts)
            else if a.prior_days_fail
            then (err transient, alerts)
            else if ltb (length days) anomaly_minimum_active_days
            then (ok skipped_insufficient_baseline, alerts)
            else if not (is_above_baseline current days)
            then (ok no_anomaly, alerts)
            else if a.upsert_fails
            then (err transient, alerts)
            else (
              ok alert_recorded,
              upsert_daily_anomaly_alert id job
                  (record {
                    observed_tokens = current.total_tokens;
                    baseline_total_tokens = baseline_total days;
                    baseline_active_days = length days;
                    baseline_window_start = job.observed_day - anomaly_baseline_window_days;
                    baseline_window_end = job.observed_day - 1;
                  })
                  alerts,
            )
      ]
]

upsert-upsert :
    (id id' : ℕ) (job : UsageUpdatedJob) (m : AnomalyMetadata) (alerts : List DailyAnomalyAlert)
    → upsert_daily_anomaly_alert id' job m (upsert_daily_anomaly_alert id job m alerts)
      ≡ upsert_daily_anomaly_alert id job m alerts
unfolding upsert_daily_anomaly_alert
upsert-upsert id id' job m [] = ground arith
upsert-upsert id id' job m (a ∷ alerts) =
    let ih = upsert-upsert id id' job m alerts in
    elim (Bool-cases (is_alert_of job a)) [ inl e ↦ rw (e, e) refl | inr e ↦ rw (e, e, ih) refl ]

-- A job that is delivered a second time, while the database answers alike, ends alike and leaves the
-- alerts as they are, whatever id is drawn.
pub process_usage_updated_anomaly_job_twice :
    (a : AnomalyAnswers) (id id' : ℕ) (job : UsageUpdatedJob) (usages : List DailyUserTokenUsage)
    (alerts : List DailyAnomalyAlert)
    → let first = process_usage_updated_anomaly_job a id job usages alerts in
      process_usage_updated_anomaly_job a id' job usages first.1 ≡ first
unfolding process_usage_updated_anomaly_job
process_usage_updated_anomaly_job_twice a id id' job usages alerts = grind (arith, upsert-upsert)
