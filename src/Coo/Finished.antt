-- ===== src/Coo/Finished.antt =====
-- The rows of the runs of the daily report.
use dos_amigos_ops.Automation.{HermesPayload}
use dos_amigos_ops.Base.{
  Bool, List, Option, Option-cases, Text, [], ap, codes, false, find, find-append, find-append_none,
  inl, inr, is_some, none, refl, some, subst, sym, text_eq_refl, true, ℕ, ◌++◌, ◌∙◌, ◌∷◌, ◌≡◌,
}
use dos_amigos_ops.Base.Action.{Exn, Result, err, ok, pure, try_except, ◌>>=◌, ◌>>◌}
use dos_amigos_ops.Coo.Changes.{payload_changes}
use dos_amigos_ops.Coo.Ends.{
  CooFinished, Ends, Ends-bind, Going, fail_coo_run-Ends, finish_coo_run-Ends, if-Ends, ok_except,
  result_except, rolled_back,
}
use dos_amigos_ops.Coo.Kept.{
  build_payload-runs, coo_runs_of, ensure_alert_outbox-runs, ensure_correction_outbox-runs,
  sync_report_day-runs, upsert_sales_outbox-runs,
}
use dos_amigos_ops.Coo.Lock.{
  fail_coo_run_answer, finish_coo_run_answer, run_mode_started, run_started, session_started,
}
use dos_amigos_ops.Coo.Orchestrator.{
  DailyCooReportResult, Orchestrator, coo_result, coo_run_of, fail_coo_run, failure_of,
  finish_coo_run, first_id,
}
use dos_amigos_ops.Coo.Outbox.{
  ensure_alert_outbox, ensure_correction_outbox, latest_sales_report, upsert_sales_outbox,
}
use dos_amigos_ops.Coo.Service.{
  after_sync, alerted, build_payload, closeout_day, correction_status, day_of_mode,
  fail_run_with_alert, finish_with_alert, outcome, raised_sync, reconcile_day, reconcile_report,
  report_changes, report_closeout, report_reconcile, run_mode, sync_exception, sync_failed,
  sync_report_day,
}
use dos_amigos_ops.Models.{
  Change, CooStatus, DailyCooReportRun, DbAction, HermesReportOutbox, Mode, Session, Tables,
  is_usable, rollback,
}
use dos_amigos_ops.OutboxApi.Effects.{answers}
use dos_amigos_ops.Sales.{IikoSalesSyncResult, text_or}

module _ {P : Type 0} (self : Orchestrator P) where
  answered :
      (run : DailyCooReportRun) (mode : Mode) (day : ℕ) (r : Result DailyCooReportResult)
      (s t : Session)
      → Ends run.id r t
      → let p = try_except (λ (_ : Session). (r, t)) (fail_coo_run self run mode day) s in
        (result : DailyCooReportResult) × (p.0 ≡ ok result) × CooFinished run.id result p.1
  answered run mode day (ok result) s t ends = (result, refl, ends)
  answered run mode day (err e) s t ends = (
    failure_of self mode day e,
    fail_coo_run_answer self run mode day e t,
    fail_coo_run-Ends self run mode day e t ends,
  )

  finish_with_alert-Ends :
      (run : DailyCooReportRun) (status : CooStatus) (mode : Mode) (day : ℕ) (error_code : Text)
      (s : Session)
      → Going run.id s
      → Ends run.id
          (finish_with_alert self run status mode day error_code s).0
          (finish_with_alert self run status mode day error_code s).1
  unfolding finish_with_alert
  finish_with_alert-Ends run status mode day error_code s going =
      Ends-bind run.id (ensure_alert_outbox self mode day error_code)
        (λ alert. finish_coo_run self run (alerted self status mode day alert.id error_code)) s
        (ensure_alert_outbox-runs self mode day error_code) going
        (λ alert t going'.
          finish_coo_run-Ends self run (alerted self status mode day alert.id error_code) t going')

  -- `_fail_run_with_alert` once the session is rolled back; its finish does not raise.
  fail_with_alert-Ends :
      (run : DailyCooReportRun) (mode : Mode) (day : ℕ) (e : Exn) (s : Session)
      → Going run.id s
      → Ends run.id
          (fail_run_with_alert self run mode day e s).0
          (fail_run_with_alert self run mode day e s).1
  unfolding fail_run_with_alert
  fail_with_alert-Ends run mode day e s going =
      let v = (rollback s).1 in
      let m : DbAction DailyCooReportResult =
        ensure_alert_outbox self mode day sync_exception >>= λ alert.
        finish_coo_run self run
          (record (raised_sync self mode day e) { outbox_ids = alert.id ∷ [] }) in
      let plain : DbAction DailyCooReportResult =
        finish_coo_run self run (raised_sync self mode day e) in
      let last : Exn → DbAction DailyCooReportResult =
        λ _. rollback >> pure (raised_sync self mode day e) in
      result_except run.id (m v).0 (λ _. rollback >> try_except plain last) v (m v).1
        (Ends-bind run.id (ensure_alert_outbox self mode day sync_exception)
          (λ alert.
            finish_coo_run self run
              (record (raised_sync self mode day e) { outbox_ids = alert.id ∷ [] }))
          v (ensure_alert_outbox-runs self mode day sync_exception)
          (rolled_back self run.id s going)
          (λ alert t going'.
            finish_coo_run-Ends self run
              (record (raised_sync self mode day e) { outbox_ids = alert.id ∷ [] }) t going'))
        (λ _ going'.
          let w = (rollback (m v).1).1 in
          subst (λ (p : Result DailyCooReportResult × Session). Ends run.id p.0 p.1)
            (sym (
              ok_except (plain w).0 last w (plain w).1 (raised_sync self mode day e)
                (finish_coo_run_answer self run (raised_sync self mode day e) w)))
            (finish_coo_run-Ends self run (raised_sync self mode day e) w
              (rolled_back self run.id (m v).1 going')))

  after_sync-Ends :
      (run : DailyCooReportRun) (mode : Mode) (day : ℕ) (go_on : DbAction DailyCooReportResult)
      (r : Result IikoSalesSyncResult) (s : Session)
      → Going run.id s
      → Ends run.id (go_on s).0 (go_on s).1
      → Ends run.id
          (after_sync self run mode day go_on r s).0
          (after_sync self run mode day go_on r s).1
  unfolding after_sync
  after_sync-Ends run mode day go_on (err e) s going ends =
      fail_with_alert-Ends run mode day e s going
  after_sync-Ends run mode day go_on (ok sync) s going ends =
      if-Ends run.id (is_usable sync.status) go_on
        (finish_with_alert self run CooStatus.failed mode day (text_or sync.error_code sync_failed))
        s ends
        (finish_with_alert-Ends run CooStatus.failed mode day (text_or sync.error_code sync_failed)
          s going)

  report_closeout-Ends :
      (run : DailyCooReportRun) (day : ℕ) (s : Session)
      → Going run.id s
      → Ends run.id (report_closeout self run day s).0 (report_closeout self run day s).1
  unfolding report_closeout
  report_closeout-Ends run day s going =
      let result : Text → DailyCooReportResult = λ id.
        record (coo_result CooStatus.outbox_ready Mode.closeout day) { outbox_ids = id ∷ [] } in
      Ends-bind run.id (build_payload self day)
        (λ payload. upsert_sales_outbox self payload day >>= λ outbox.
          finish_coo_run self run (result outbox.id))
        s (build_payload-runs self day) going
        (λ payload t going'.
          Ends-bind run.id (upsert_sales_outbox self payload day)
            (λ outbox. finish_coo_run self run (result outbox.id)) t
            (upsert_sales_outbox-runs self payload day) going'
            (λ outbox v going''. finish_coo_run-Ends self run (result outbox.id) v going''))

  closeout_day-Ends :
      (run : DailyCooReportRun) (day : ℕ) (s : Session)
      → Going run.id s
      → Ends run.id (closeout_day self run day s).0 (closeout_day self run day s).1
  unfolding closeout_day
  closeout_day-Ends run day s going =
      Ends-bind run.id (outcome (sync_report_day self day false))
        (λ r. after_sync self run Mode.closeout day (report_closeout self run day) r) s
        (sync_report_day-runs self day false) going
        (λ r t going'.
          after_sync-Ends run Mode.closeout day (report_closeout self run day) r t going'
            (report_closeout-Ends run day t going'))

  report_changes-Ends :
      (run : DailyCooReportRun) (day : ℕ) (original : HermesReportOutbox) (current : HermesPayload)
      (changes : Option (List Change)) (s : Session)
      → Going run.id s
      → Ends run.id
          (report_changes self run day original current changes s).0
          (report_changes self run day original current changes s).1
  unfolding report_changes
  report_changes-Ends run day original current none s going = going
  report_changes-Ends run day original current (some []) s going =
      finish_coo_run-Ends self run (coo_result CooStatus.reconciled Mode.reconcile day) s going
  report_changes-Ends run day original current (some (c ∷ changes)) s going =
      let result : HermesReportOutbox × Bool → DailyCooReportResult = λ answer.
        record (coo_result (correction_status self answer.1) Mode.reconcile day) {
          outbox_ids = (answer.0).id ∷ [];
        } in
      Ends-bind run.id (ensure_correction_outbox self original current (c ∷ changes) day)
        (λ answer. finish_coo_run self run (result answer)) s
        (ensure_correction_outbox-runs self original current (c ∷ changes) day) going
        (λ answer t going'. finish_coo_run-Ends self run (result answer) t going')

  reconcile_report-Ends :
      (run : DailyCooReportRun) (day : ℕ) (original : Option HermesReportOutbox) (s : Session)
      → Going run.id s
      → Ends run.id
          (reconcile_report self run day original s).0
          (reconcile_report self run day original s).1
  unfolding reconcile_report report_reconcile
  reconcile_report-Ends run day none s going =
      finish_with_alert-Ends run CooStatus.missing_closeout Mode.reconcile day
        (codes "missing_closeout") s going
  reconcile_report-Ends run day (some original) s going =
      Ends-bind run.id (outcome (sync_report_day self day false))
        (λ r. after_sync self run Mode.reconcile day (report_reconcile self run day original) r) s
        (sync_report_day-runs self day false) going
        (λ r t going'.
          after_sync-Ends run Mode.reconcile day (report_reconcile self run day original) r t going'
            (Ends-bind run.id (build_payload self day)
              (λ current.
                report_changes self run day original current
                  (payload_changes original.payload_json current.payload_json))
              t (build_payload-runs self day) going'
              (λ current v going''.
                report_changes-Ends run day original current
                  (payload_changes original.payload_json current.payload_json) v going'')))

  day_of_mode-Ends :
      (mode : Mode) (run : DailyCooReportRun) (day : ℕ) (s : Session)
      → Going run.id s
      → Ends run.id (day_of_mode self mode run day s).0 (day_of_mode self mode run day s).1
  unfolding reconcile_day
  day_of_mode-Ends Mode.closeout run day s going = closeout_day-Ends run day s going
  day_of_mode-Ends Mode.reconcile run day s going =
      reconcile_report-Ends run day
        (latest_sales_report self.collate self.organization_id day s.working) s going

  -- The run that is added is found.
  coo_run_added :
      (run : DailyCooReportRun) (runs : List DailyCooReportRun)
      → (x : DailyCooReportRun) × (find (coo_run_of run.id) (runs ++ run ∷ []) ≡ some x)
  coo_run_added run runs = elim (Option-cases (find (coo_run_of run.id) runs)) [
    | inl fresh ↦ (
      run,
      find-append_none (coo_run_of run.id) runs (run ∷ []) fresh
          ∙ unfold find in rw (text_eq_refl run.id) refl,
    )
    | inr (x, found) ↦ (x, find-append (coo_run_of run.id) runs (run ∷ []) found)
  ]

  -- A close-out or a reconciliation under the lock leaves no run behind that is still running: it
  -- answers, whatever happens on the way, and the committed row of its run is finished with the
  -- status of the answer, the id of the row it left in the outbox, if it left one, and the error.
  pub run_mode-Finished :
      (mode : Mode) (day : ℕ) (s : Session)
      → let (r, t) = run_mode self mode day s in
        (result : DailyCooReportResult) × (r ≡ ok result)
        × (row : DailyCooReportRun) × (find
              (coo_run_of (self.env.uuid s.draws))
              t.committed.coo_runs
            ≡ some row)
        × (row.status ≡ result.status)
        × (is_some row.finished_at ≡ true)
        × (row.outbox_id ≡ first_id result.outbox_ids)
        × (row.error_code ≡ result.error_code)
        × (row.error_message_redacted ≡ result.error_message_redacted)
  run_mode-Finished mode day s =
      let run = run_started self mode day s in
      let t = session_started self mode day s in
      let m = day_of_mode self mode run day t in
      let (x, found) = coo_run_added run (coo_runs_of s) in
      let ends = day_of_mode-Ends mode run day t (refl, x, found) in
      let (result, answers, finished) =
        subst
          (λ (p : Result DailyCooReportResult × Session).
            (result : DailyCooReportResult) × (p.0 ≡ ok result) × CooFinished run.id result p.1)
          (sym (run_mode_started self mode day s)) (answered run mode day m.0 t m.1 ends) in
      let (row, row_found, status, ended, outbox, code, message, clean) = finished in
      let committed = ap (λ (db : Tables). find (coo_run_of run.id) db.coo_runs) (sym clean) in
      (result, answers, row, committed ∙ row_found, status, ended, outbox, code, message)
