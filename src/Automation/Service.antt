-- ===== src/Automation/Service.antt =====
-- The imports under the advisory lock.
use dos_amigos_ops.Automation.Outbox.{HermesPayload, ensure_outbox}
use dos_amigos_ops.Automation.Runs.{
  AutomationStatus, SalesAutomationConfig, SalesAutomationResult, finish_run, merge_results,
  record_skipped, result_for, start_run,
}
use dos_amigos_ops.Base.{
  Bool, List, Option, Text, [], any, false, if◌then◌else◌, is_some, ltb, min, none, not, some, suc,
  true, where_rows, zero, ℕ, ◌&&◌, ◌+◌, ◌-◌, ◌==◌, ◌||◌, ◌∷◌,
}
use dos_amigos_ops.Base.Action.{
  Action, Exn, Result, exn_message, gets, ok, pure, try_except, try_finally, type_name, ◌>>=◌, ◌>>◌,
}
use dos_amigos_ops.Models.{
  DbAction, Env, IikoSalesAutomationRun, ResultStatus, RunStatus, Session, Tables, TriggerType,
  is_partial, is_scheduled, is_usable,
}
use dos_amigos_ops.Sales.{IikoSalesSyncResult, Normalization, RawResult, get_daily, sync_day}

-- The date and the time of day in the business timezone.
pub record LocalTime : Type 0 where
  pub date : ℕ
  pub time : ℕ

-- Whether another session holds the lock at the n-th attempt, and what the timezone makes of a
-- time.
pub record Site : Type 0 where
  pub is_locked : ℕ → Bool
  pub astimezone : ℕ → LocalTime

-- The session, whether this session holds the lock, and its attempts and releases so far.
pub record Automation : Type 0 where
  pub session : Session
  pub is_held : Bool
  pub attempts : ℕ
  pub releases : ℕ

abbrev pub on_session : {A : Type 0} → DbAction A → Action Automation A
on_session m a = ((m a.session).0, record a { session = (m a.session).1 })

-- `lock.acquire`
unfoldable pub acquire : Site → Action Automation Bool
acquire site a = (
  ok (not (site.is_locked a.attempts)),
  record a { is_held = not (site.is_locked a.attempts); attempts = a.attempts + 1 },
)

-- `lock.release`, of a lock that is held
unfoldable pub release : Automation → Automation
release a = if a.is_held then record a { is_held = false; releases = a.releases + 1 } else a

abbrev pub one_if : Bool → ℕ
one_if true = 1
one_if false = 0

-- `sync_result.status.value` of a usable status
abbrev pub usable_status : ResultStatus → AutomationStatus
usable_status ResultStatus.partial = AutomationStatus.partial
usable_status _ = AutomationStatus.proven

-- `requested_date_to == target_date`
abbrev pub is_date : Option ℕ → ℕ → Bool
is_date none day = false
is_date (some d) day = d == day

-- Days in a row from this one on.
unfoldable pub days_from : ℕ → ℕ → List ℕ
days_from zero day = []
days_from (suc n) day = day ∷ days_from n (day + 1)

module _ (env : Env) (lower : Text → Text) {P : Type 0}
    (fetch : ℕ → Text → ℕ → Result (RawResult P)) (normalize : P → Text → ℕ → Normalization)
    (build_payload : Tables → Text → ℕ → Result HermesPayload) (site : Site)
    (config : SalesAutomationConfig) where
  -- The result for a day that is there already.
  abbrev pub existing_result :
      TriggerType → ℕ → Bool → SalesAutomationResult → SalesAutomationResult
  existing_result trigger day dry_run outbox =
      record (result_for AutomationStatus.skipped trigger config.organization_id (some day)
        (some day) dry_run) {
          days_considered = 1;
          days_unchanged = 1;
          outbox_created = outbox.outbox_created;
          outbox_ids = outbox.outbox_ids;
        }

  abbrev pub imported_result :
      TriggerType → ℕ → Bool → IikoSalesSyncResult → SalesAutomationResult → SalesAutomationResult
  imported_result trigger day dry_run sync outbox =
      record (result_for (usable_status sync.status) trigger config.organization_id (some day)
        (some day) dry_run) {
          days_considered = 1;
          days_processed = 1;
          days_unchanged = one_if sync.unchanged;
          days_partial = one_if (is_partial sync.status);
          outbox_created = outbox.outbox_created;
          error_code = sync.error_code;
          outbox_ids = outbox.outbox_ids;
        }

  abbrev pub failed_import : TriggerType → ℕ → Bool → IikoSalesSyncResult → SalesAutomationResult
  failed_import trigger day dry_run sync =
      record (result_for AutomationStatus.failed trigger config.organization_id (some day)
        (some day) dry_run) {
          days_considered = 1;
          days_processed = 1;
          days_failed = 1;
          error_code = sync.error_code;
        }

  abbrev pub raised_import : TriggerType → ℕ → Bool → Exn → SalesAutomationResult
  raised_import trigger day dry_run e =
      record (result_for AutomationStatus.failed trigger config.organization_id (some day)
        (some day) dry_run) {
          days_considered = 1;
          days_failed = 1;
          error_code = some (type_name e);
        }

  -- The `try` clause of `run_date`: the result, before it is recorded.
  unfoldable pub import_day :
      TriggerType → ℕ → (dry_run force no_publish : Bool) → DbAction SalesAutomationResult
  import_day trigger day dry_run force no_publish = do
    existing ← gets (λ s. get_daily config.organization_id day s.working)
    if is_some existing && not force
        then (do
          outbox ← ensure_outbox env build_payload config day (dry_run || no_publish)
          pure (existing_result trigger day dry_run outbox))
        else (do
          sync ← sync_day env lower fetch normalize config.organization_id day dry_run
          if is_usable sync.status
              then (do
                outbox ← ensure_outbox env build_payload config day (dry_run || no_publish)
                pure (imported_result trigger day dry_run sync outbox))
              else pure (failed_import trigger day dry_run sync))

  -- The `try` and `except` clauses.
  unfoldable pub import_or_fail :
      Option IikoSalesAutomationRun
      → TriggerType
      → ℕ
      → (dry_run force no_publish : Bool) → DbAction SalesAutomationResult
  import_or_fail run trigger day dry_run force no_publish =
      try_except
        (do
          result ← import_day trigger day dry_run force no_publish
          finish_run env config run result dry_run none
          pure result)
        (λ e.
          finish_run env config run (raised_import trigger day dry_run e) dry_run
            (some (exn_message e))
          >> pure (raised_import trigger day dry_run e))

  -- `run_date` once it has the lock; a raise of `_start_run` would keep it.
  unfoldable pub run_locked :
      TriggerType → ℕ → (dry_run force no_publish : Bool) → Action Automation SalesAutomationResult
  unfolding release
  run_locked trigger day dry_run force no_publish = do
    run ← on_session (start_run env config trigger (some day) (some day) dry_run)
    try_finally (on_session (import_or_fail run trigger day dry_run force no_publish)) release

  unfoldable pub run_date :
      TriggerType → ℕ → (dry_run force no_publish : Bool) → Action Automation SalesAutomationResult
  unfolding acquire
  run_date trigger day dry_run force no_publish = do
    acquired ← acquire site
    if acquired
        then run_locked trigger day dry_run force no_publish
        else on_session
            (record_skipped env config trigger AutomationStatus.already_running day dry_run)

  -- The test on one day of `_find_backfill_days`.
  unfoldable pub is_due : Bool → Tables → ℕ → Bool
  is_due retry_partial db day = elim (get_daily config.organization_id day db) [
    | none ↦ true
    | some row ↦ row.requires_resync || (retry_partial && is_partial row.result_status)
  ]

  -- `_find_backfill_days`; the window does not begin before the first of all dates.
  unfoldable pub find_backfill_days : (target_date backfill_days : ℕ) → Bool → Tables → List ℕ
  unfolding is_due days_from
  find_backfill_days target_date backfill_days retry_partial db =
      let limit = min backfill_days config.backfill_max_days in
      where_rows (is_due retry_partial db) (days_from limit (target_date + 1 - limit))

  unfoldable pub run_days :
      (dry_run no_publish : Bool) → List ℕ → Action Automation (List SalesAutomationResult)
  run_days dry_run no_publish [] = pure []
  run_days dry_run no_publish (day ∷ days) = do
    result ← run_date TriggerType.backfill day dry_run true no_publish
    rest ← run_days dry_run no_publish days
    pure (result ∷ rest)

  abbrev pub backfill_result : ℕ → Bool → SalesAutomationResult → SalesAutomationResult
  backfill_result backfill_days dry_run merged = record merged {
    trigger_type = TriggerType.backfill;
    organization_id = config.organization_id;
    days_considered = min backfill_days config.backfill_max_days;
    dry_run = dry_run;
  }

  unfoldable pub run_backfill :
      (target_date backfill_days : ℕ) (dry_run no_publish retry_partial : Bool)
      → Action Automation SalesAutomationResult
  unfolding find_backfill_days
  run_backfill target_date backfill_days dry_run no_publish retry_partial = do
    days ← gets (λ a. find_backfill_days target_date backfill_days retry_partial a.session.working)
    results ← run_days dry_run no_publish days
    pure (
        backfill_result backfill_days dry_run
          (merge_results config.organization_id TriggerType.backfill results))

  -- `status.in_(["completed", "partial"])`
  abbrev pub is_success : RunStatus → Bool
  is_success RunStatus.completed = true
  is_success RunStatus.partial = true
  is_success _ = false

  -- `_successful_scheduled_run_exists`
  unfoldable pub successful_scheduled_run_exists : (local_date target_date : ℕ) → Tables → Bool
  successful_scheduled_run_exists local_date target_date db =
      any
        (λ run.
          is_scheduled run.trigger_type
          && is_success run.status
          && (is_date run.requested_date_to target_date
              || (site.astimezone run.started_at).date == local_date))
        db.automation_runs

  abbrev pub scheduled_result : SalesAutomationResult → Bool → SalesAutomationResult
  scheduled_result backfill dry_run = record backfill {
    trigger_type = TriggerType.scheduled;
    organization_id = config.organization_id;
    dry_run = dry_run;
  }

  -- What is left to do once the back-fill is through.
  unfoldable pub finish_due :
      (is_target_due : Bool) (target_date : ℕ) (backfill : SalesAutomationResult)
      (dry_run force no_publish : Bool)
      → Action Automation SalesAutomationResult
  finish_due true target_date backfill dry_run force no_publish = on_session (do
    run ← start_run env config TriggerType.scheduled backfill.date_from backfill.date_to dry_run
    finish_run env config run (scheduled_result backfill dry_run) dry_run none
    pure (scheduled_result backfill dry_run))
  finish_due false target_date backfill dry_run force no_publish = do
    today ← run_date TriggerType.scheduled target_date dry_run force no_publish
    pure (merge_results config.organization_id TriggerType.scheduled (backfill ∷ today ∷ []))

  -- `run_due`, at the time `now`
  unfoldable pub run_due :
      (now : ℕ) (dry_run force no_publish retry_partial : Bool)
      → Action Automation SalesAutomationResult
  unfolding successful_scheduled_run_exists
  run_due now dry_run force no_publish retry_partial a =
      let local = site.astimezone now in
      let target_date = local.date - 1 in
      let skip = λ (status : AutomationStatus).
        on_session (record_skipped env config TriggerType.scheduled status target_date dry_run) in
      if not config.automation_enabled
      then skip AutomationStatus.skipped a
      else if ltb local.time config.scheduled_time
      then skip AutomationStatus.not_due a
      else if successful_scheduled_run_exists local.date target_date a.session.working
      then skip AutomationStatus.already_completed a
      else ((do
        due_days ← gets (λ b.
            find_backfill_days target_date config.backfill_max_days retry_partial b.session.working)
        backfill ←
            run_backfill target_date config.backfill_max_days dry_run no_publish retry_partial
        finish_due (any (λ day. day == target_date) due_days) target_date backfill dry_run force
            no_publish)
          a)
