-- ===== src/Automation/Runs.antt =====
-- The configuration, the results, and the rows of the runs.
use dos_amigos_ops.Base.{
  Bool, List, Option, Text, [], any, false, if◌then◌else◌, max, min, none, some, text_eq, true,
  update_where, ℕ, ◌++◌, ◌+◌, ◌∷◌,
}
use dos_amigos_ops.Base.Action.{gets, pure, ◌>>=◌, ◌>>◌}
use dos_amigos_ops.Models.{
  DbAction, Env, IikoSalesAutomationRun, RunStatus, TriggerType, commit, datetime_now,
  set_automation_runs, uuid4,
}
use dos_amigos_ops.Sales.{optional_or}

pub data AutomationStatus : Type 0 where
  proven partial failed skipped not_due already_completed already_running completed unchanged
        created :
      AutomationStatus

abbrev pub is_failure : AutomationStatus → Bool
is_failure AutomationStatus.failed = true
is_failure _ = false

abbrev pub is_partial_run : AutomationStatus → Bool
is_partial_run AutomationStatus.partial = true
is_partial_run _ = false

-- `SalesAutomationConfig`; `scheduled_time` is the time of day that `scheduled_local_time` names.
pub record SalesAutomationConfig : Type 0 where
  pub organization_id : Text
  pub business_timezone : Text
  pub automation_enabled : Bool
  pub scheduled_time : ℕ
  pub backfill_max_days : ℕ
  pub outbox_enabled : Bool

pub record SalesAutomationResult : Type 0 where
  pub status : AutomationStatus
  pub trigger_type : TriggerType
  pub organization_id : Text
  pub date_from : Option ℕ
  pub date_to : Option ℕ
  pub days_considered : ℕ
  pub days_processed : ℕ
  pub days_unchanged : ℕ
  pub days_partial : ℕ
  pub days_failed : ℕ
  pub outbox_created : ℕ
  pub dry_run : Bool
  pub error_code : Option Text
  pub outbox_ids : List Text

-- A result with the defaults of the class.
abbrev pub result_for :
    AutomationStatus → TriggerType → Text → Option ℕ → Option ℕ → Bool → SalesAutomationResult
result_for status trigger org date_from date_to dry_run = record {
  status = status;
  trigger_type = trigger;
  organization_id = org;
  date_from = date_from;
  date_to = date_to;
  days_considered = 0;
  days_processed = 0;
  days_unchanged = 0;
  days_partial = 0;
  days_failed = 0;
  outbox_created = 0;
  dry_run = dry_run;
  error_code = none;
  outbox_ids = [];
}

-- `_run_status`
unfoldable pub run_status : AutomationStatus → RunStatus
run_status AutomationStatus.partial = RunStatus.partial
run_status AutomationStatus.failed = RunStatus.failed
run_status AutomationStatus.not_due = RunStatus.not_due
run_status AutomationStatus.already_completed = RunStatus.already_completed
run_status AutomationStatus.already_running = RunStatus.already_running
run_status AutomationStatus.skipped = RunStatus.skipped
run_status AutomationStatus.proven = RunStatus.completed
run_status AutomationStatus.completed = RunStatus.completed
run_status AutomationStatus.unchanged = RunStatus.completed
run_status AutomationStatus.created = RunStatus.completed

-- `min(..., default=None)` and `max(..., default=None)` over the dates that are there
abbrev pub min_date : Option ℕ → Option ℕ → Option ℕ
min_date none b = b
min_date (some a) none = some a
min_date (some a) (some b) = some (min a b)

abbrev pub max_date : Option ℕ → Option ℕ → Option ℕ
max_date none b = b
max_date (some a) none = some a
max_date (some a) (some b) = some (max a b)

abbrev pub sum_of : (SalesAutomationResult → ℕ) → List SalesAutomationResult → ℕ
sum_of f [] = 0
sum_of f (r ∷ rs) = f r + sum_of f rs

abbrev pub earliest : List SalesAutomationResult → Option ℕ
earliest [] = none
earliest (r ∷ rs) = min_date r.date_from (earliest rs)

abbrev pub latest : List SalesAutomationResult → Option ℕ
latest [] = none
latest (r ∷ rs) = max_date r.date_to (latest rs)

-- The first error code that is neither none nor empty.
abbrev pub first_error : List SalesAutomationResult → Option Text
first_error [] = none
first_error (r ∷ rs) = optional_or r.error_code (first_error rs)

abbrev pub all_ids : List SalesAutomationResult → List Text
all_ids [] = []
all_ids (r ∷ rs) = r.outbox_ids ++ all_ids rs

unfoldable pub merged_status : List SalesAutomationResult → AutomationStatus
merged_status results =
    if any (λ r. is_failure r.status) results
    then AutomationStatus.failed
    else if any (λ r. is_partial_run r.status) results
    then AutomationStatus.partial
    else AutomationStatus.completed

-- `_merge_results`
unfoldable pub merge_results :
    Text → TriggerType → List SalesAutomationResult → SalesAutomationResult
merge_results org trigger [] = result_for AutomationStatus.completed trigger org none none false
merge_results org trigger (r ∷ rs) = record {
  status = merged_status (r ∷ rs);
  trigger_type = trigger;
  organization_id = org;
  date_from = earliest (r ∷ rs);
  date_to = latest (r ∷ rs);
  days_considered = sum_of (λ r. r.days_considered) (r ∷ rs);
  days_processed = sum_of (λ r. r.days_processed) (r ∷ rs);
  days_unchanged = sum_of (λ r. r.days_unchanged) (r ∷ rs);
  days_partial = sum_of (λ r. r.days_partial) (r ∷ rs);
  days_failed = sum_of (λ r. r.days_failed) (r ∷ rs);
  outbox_created = sum_of (λ r. r.outbox_created) (r ∷ rs);
  dry_run = any (λ r. r.dry_run) (r ∷ rs);
  error_code = first_error (r ∷ rs);
  outbox_ids = all_ids (r ∷ rs);
}

module _ (env : Env) (config : SalesAutomationConfig) where
  -- `_start_run`
  unfoldable pub start_run :
      TriggerType → Option ℕ → Option ℕ → Bool → DbAction (Option IikoSalesAutomationRun)
  start_run trigger date_from date_to true = pure none
  start_run trigger date_from date_to false = do
    id ← uuid4 env
    started_at ← datetime_now env
    let run : IikoSalesAutomationRun = record {
      id = id;
      trigger_type = trigger;
      requested_date_from = date_from;
      requested_date_to = date_to;
      business_timezone = config.business_timezone;
      scheduled_local_time = some config.scheduled_time;
      started_at = started_at;
      finished_at = none;
      status = RunStatus.running;
      days_considered = 0;
      days_processed = 0;
      days_unchanged = 0;
      days_partial = 0;
      days_failed = 0;
      outbox_created = 0;
      error_code = none;
      error_message_redacted = none;
    }
    runs ← gets (λ s. s.working.automation_runs)
    set_automation_runs (runs ++ run ∷ [])
    commit
    pure (some run)

  abbrev pub finished_run :
      IikoSalesAutomationRun → SalesAutomationResult → ℕ → Option Text → IikoSalesAutomationRun
  finished_run run result now message = record run {
    status = run_status result.status;
    finished_at = some now;
    days_considered = result.days_considered;
    days_processed = result.days_processed;
    days_unchanged = result.days_unchanged;
    days_partial = result.days_partial;
    days_failed = result.days_failed;
    outbox_created = result.outbox_created;
    error_code = result.error_code;
    error_message_redacted = message;
  }

  -- `_finish_run`
  unfoldable pub finish_run :
      Option IikoSalesAutomationRun
      → SalesAutomationResult
      → Bool
      → Option Text
      → DbAction (Unit {0})
  unfolding run_status
  finish_run none result dry_run message = pure tt
  finish_run (some run) result true message = pure tt
  finish_run (some run) result false message = do
    now ← datetime_now env
    runs ← gets (λ s. s.working.automation_runs)
    set_automation_runs
        (update_where (λ r. text_eq r.id run.id) (λ _. finished_run run result now message) runs)
    commit

  -- `_record_skipped`
  unfoldable pub record_skipped :
      TriggerType → AutomationStatus → ℕ → Bool → DbAction SalesAutomationResult
  unfolding start_run finish_run
  record_skipped trigger status day dry_run = do
    let result = result_for status trigger config.organization_id (some day) (some day) dry_run
    run ← start_run trigger (some day) (some day) dry_run
    finish_run run result dry_run none
    pure result
