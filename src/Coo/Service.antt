-- ===== src/Coo/Service.antt =====
-- `closeout`, `reconcile` and their dry run.
use dos_amigos_ops.Automation.{
  Automation, HermesPayload, acquire, build_sales_daily_hermes_payload, on_session, release,
}
use dos_amigos_ops.Base.{
  Bool, List, Option, Text, [], codes, false, if◌then◌else◌, none, some, true, ℕ, ◌∷◌,
}
use dos_amigos_ops.Base.Action.{
  Action, Exn, Result, err, exception, gets, ok, pure, raise, try_except, try_finally, type_name,
  ◌>>=◌, ◌>>◌,
}
use dos_amigos_ops.Coo.Changes.{payload_changes}
use dos_amigos_ops.Coo.Orchestrator.{
  DailyCooReportResult, Orchestrator, coo_result, fail_coo_run, finish_coo_run, resolve_date,
  start_coo_run,
}
use dos_amigos_ops.Coo.Outbox.{
  ensure_alert_outbox, ensure_correction_outbox, latest_sales_report, upsert_sales_outbox,
}
use dos_amigos_ops.Models.{
  Change, CooStatus, DailyCooReportRun, DbAction, HermesReportOutbox, Mode, is_usable, rollback,
}
use dos_amigos_ops.Redaction.{safe_report_message}
use dos_amigos_ops.Sales.{IikoSalesSyncResult, sync_day, text_or}

-- `try: ... except Exception as exc: return ...`: what a step answers or raises, as a value.
abbrev pub outcome : {S A : Type 0} → Action S A → Action S (Result A)
outcome m s = let (r, t) = m s in (ok r, t)

abbrev pub sync_failed : Text
sync_failed = codes "iiko_sales_sync_failed"

abbrev pub sync_exception : Text
sync_exception = codes "iiko_sync_exception"

-- `decimal.InvalidOperation`
abbrev pub invalid_operation : Exn
invalid_operation =
    exception (codes "InvalidOperation") (codes "[<class 'decimal.ConversionSyntax'>]")

module _ {P : Type 0} (self : Orchestrator P) where
  -- `_sync_day`
  unfoldable pub sync_report_day : ℕ → Bool → DbAction IikoSalesSyncResult
  sync_report_day day dry_run =
      sync_day self.env self.lower self.fetch self.normalize self.organization_id day dry_run

  -- The results with an alert.
  abbrev pub alerted : CooStatus → Mode → ℕ → Text → Text → DailyCooReportResult
  alerted status mode day alert_id error_code = record (coo_result status mode day) {
    outbox_ids = alert_id ∷ [];
    error_code = some error_code;
  }

  abbrev pub raised_sync : Mode → ℕ → Exn → DailyCooReportResult
  raised_sync mode day e = record (coo_result CooStatus.failed mode day) {
    error_code = some sync_exception;
    error_message_redacted = some (safe_report_message self.unicode e);
  }

  -- An alert, and the end of the run.
  unfoldable pub finish_with_alert :
      DailyCooReportRun → CooStatus → Mode → ℕ → Text → DbAction DailyCooReportResult
  unfolding ensure_alert_outbox finish_coo_run
  finish_with_alert run status mode day error_code = do
    alert ← ensure_alert_outbox self mode day error_code
    finish_coo_run self run (alerted status mode day alert.id error_code)

  -- `_fail_run_with_alert`
  unfoldable pub fail_run_with_alert :
      DailyCooReportRun → Mode → ℕ → Exn → DbAction DailyCooReportResult
  unfolding ensure_alert_outbox finish_coo_run safe_report_message
  fail_run_with_alert run mode day e = do
    rollback
    try_except
        (do
          alert ← ensure_alert_outbox self mode day sync_exception
          finish_coo_run self run (record (raised_sync mode day e) { outbox_ids = alert.id ∷ [] }))
        (λ _.
          rollback
          >> try_except (finish_coo_run self run (raised_sync mode day e))
              (λ _. rollback >> pure (raised_sync mode day e)))

  -- What follows the import of the day: it raised, or it cannot be used, or `go_on`.
  unfoldable pub after_sync :
      DailyCooReportRun
      → Mode
      → ℕ
      → DbAction DailyCooReportResult
      → Result IikoSalesSyncResult
      → DbAction DailyCooReportResult
  unfolding fail_run_with_alert finish_with_alert
  after_sync run mode day go_on (err e) = fail_run_with_alert run mode day e
  after_sync run mode day go_on (ok sync) =
      if is_usable sync.status
      then go_on
      else finish_with_alert run CooStatus.failed mode day (text_or sync.error_code sync_failed)

  -- `build_sales_daily_hermes_payload`
  unfoldable pub build_payload : ℕ → DbAction HermesPayload
  unfolding build_sales_daily_hermes_payload
  build_payload day s =
      (build_sales_daily_hermes_payload self.collate s.working self.organization_id day, s)

  -- The report of the close-out.
  unfoldable pub report_closeout : DailyCooReportRun → ℕ → DbAction DailyCooReportResult
  unfolding build_payload upsert_sales_outbox finish_coo_run
  report_closeout run day = do
    payload ← build_payload day
    outbox ← upsert_sales_outbox self payload day
    finish_coo_run self run (record (coo_result CooStatus.outbox_ready Mode.closeout day) {
      outbox_ids = outbox.id ∷ [];
    })

  -- The inner `try` clause of `closeout`.
  unfoldable pub closeout_day : DailyCooReportRun → ℕ → DbAction DailyCooReportResult
  unfolding sync_report_day after_sync report_closeout
  closeout_day run day = do
    sync ← outcome (sync_report_day day false)
    after_sync run Mode.closeout day (report_closeout run day) sync

  abbrev pub correction_status : Bool → CooStatus
  correction_status created = if created then CooStatus.correction_created else CooStatus.unchanged

  unfoldable pub report_changes :
      DailyCooReportRun
      → ℕ
      → HermesReportOutbox
      → HermesPayload
      → Option (List Change)
      → DbAction DailyCooReportResult
  unfolding ensure_correction_outbox finish_coo_run
  report_changes run day original current none = raise invalid_operation
  report_changes run day original current (some []) =
      finish_coo_run self run (coo_result CooStatus.reconciled Mode.reconcile day)
  report_changes run day original current (some (c ∷ changes)) = do
    answer ← ensure_correction_outbox self original current (c ∷ changes) day
    finish_coo_run self run (record (coo_result (correction_status answer.1) Mode.reconcile day) {
      outbox_ids = (answer.0).id ∷ [];
    })

  -- The comparison of the reconciliation.
  unfoldable pub report_reconcile :
      DailyCooReportRun → ℕ → HermesReportOutbox → DbAction DailyCooReportResult
  unfolding build_payload payload_changes report_changes
  report_reconcile run day original = do
    current ← build_payload day
    report_changes run day original current
        (payload_changes original.payload_json current.payload_json)

  unfoldable pub reconcile_report :
      DailyCooReportRun → ℕ → Option HermesReportOutbox → DbAction DailyCooReportResult
  unfolding finish_with_alert sync_report_day after_sync report_reconcile
  reconcile_report run day none =
      finish_with_alert run CooStatus.missing_closeout Mode.reconcile day (codes "missing_closeout")
  reconcile_report run day (some original) = do
    sync ← outcome (sync_report_day day false)
    after_sync run Mode.reconcile day (report_reconcile run day original) sync

  -- The inner `try` clause of `reconcile`.
  unfoldable pub reconcile_day : DailyCooReportRun → ℕ → DbAction DailyCooReportResult
  unfolding latest_sales_report reconcile_report
  reconcile_day run day = do
    original ← gets (λ s. latest_sales_report self.collate self.organization_id day s.working)
    reconcile_report run day original

  abbrev pub day_of_mode : Mode → DailyCooReportRun → ℕ → DbAction DailyCooReportResult
  day_of_mode Mode.closeout = closeout_day
  day_of_mode Mode.reconcile = reconcile_day

  -- The work under the lock.
  unfoldable pub run_mode : Mode → ℕ → DbAction DailyCooReportResult
  unfolding start_coo_run closeout_day reconcile_day fail_coo_run
  run_mode mode day = do
    run ← start_coo_run self mode day
    try_except (day_of_mode mode run day) (fail_coo_run self run mode day)

  -- `_dry_run`
  unfoldable pub dry_run_result :
      Mode → ℕ → Result IikoSalesSyncResult → DbAction DailyCooReportResult
  unfolding safe_report_message
  dry_run_result mode day (err e) = do
    rollback
    pure (record (coo_result CooStatus.dry_run_failed mode day) {
      error_code = some (type_name e);
      error_message_redacted = some (safe_report_message self.unicode e);
      dry_run = true;
    })
  dry_run_result mode day (ok sync) = pure (
      if is_usable sync.status
      then record (coo_result CooStatus.dry_run_ready mode day) { dry_run = true }
      else record (coo_result CooStatus.dry_run_failed mode day) {
        error_code = some (text_or sync.error_code sync_failed);
        dry_run = true;
      })

  unfoldable pub dry_run_day : Mode → ℕ → DbAction DailyCooReportResult
  unfolding sync_report_day dry_run_result
  dry_run_day mode day = do sync ← outcome (sync_report_day day true); dry_run_result mode day sync

  -- A call for a date: a dry run, or one under the lock.
  unfoldable pub report_day : Mode → ℕ → Bool → Action Automation DailyCooReportResult
  unfolding dry_run_day acquire run_mode release
  report_day mode day true = on_session (dry_run_day mode day)
  report_day mode day false = do
    acquired ← acquire self.site
    if acquired
        then try_finally (on_session (run_mode mode day)) release
        else pure (coo_result CooStatus.already_running mode day)

  -- `closeout` and `reconcile`, by their mode
  unfoldable pub report :
      Mode
      → (now business_date : Option ℕ) (dry_run : Bool) → Action Automation DailyCooReportResult
  unfolding resolve_date report_day
  report mode now business_date dry_run = do
    day ← on_session (resolve_date self mode now business_date)
    report_day mode day dry_run

  -- `closeout`
  unfoldable pub closeout :
      (now business_date : Option ℕ) (dry_run : Bool) → Action Automation DailyCooReportResult
  unfolding report
  closeout = report Mode.closeout

  -- `reconcile`
  unfoldable pub reconcile :
      (now business_date : Option ℕ) (dry_run : Bool) → Action Automation DailyCooReportResult
  unfolding report
  reconcile = report Mode.reconcile
