-- ===== src/Coo/Frozen.antt =====
-- What the close-out and the reconciliation do to the rows of the outbox that they may no longer
-- change.
use dos_amigos_ops.Automation.{Automation, HermesPayload, acquire, release}
use dos_amigos_ops.Base.{
  Bool, Bool-cases, List, Option, Text, [], ap, codes, false, inl, inr, none, refl, some, subst,
  sym, text_eq, true, where_rows, ℕ, ◌∙◌, ◌∷◌, ◌≡◌,
}
use dos_amigos_ops.Base.Action.{Exn, Result, err, gets, ok, pure, try_except, ◌>>=◌, ◌>>◌}
use dos_amigos_ops.Base.Keeps.{Keeps, Keeps-bind, Keeps-if, Keeps-then, Keeps-try_except}
use dos_amigos_ops.Coo.Changes.{payload_changes}
use dos_amigos_ops.Coo.Guarded.{
  ensure_alert_outbox-Sealed, ensure_correction_outbox-Sealed, upsert_sales_outbox-Sealed,
}
use dos_amigos_ops.Coo.Lock.{report_resolved, run_mode_started, run_started, session_started}
use dos_amigos_ops.Coo.Orchestrator.{
  DailyCooReportResult, Orchestrator, coo_result, fail_coo_run, failure_of, finish_coo_run,
}
use dos_amigos_ops.Coo.Outbox.{
  ensure_alert_outbox, ensure_correction_outbox, latest_sales_report, upsert_sales_outbox,
}
use dos_amigos_ops.Coo.Sealed.{
  Sealed, StaysSealed, StaysSealed-refl, StaysSealed-trans, apart_step, build_payload-Sealed,
  finish-Sealed, gets-Sealed, is_settled, rollback-Sealed, sync-Sealed,
}
use dos_amigos_ops.Coo.Service.{
  after_sync, alerted, build_payload, closeout_day, correction_status, day_of_mode, dry_run_day,
  dry_run_result, fail_run_with_alert, finish_with_alert, outcome, raised_sync, reconcile_day,
  reconcile_report, report, report_changes, report_closeout, report_day, report_reconcile, run_mode,
  sync_exception, sync_failed, sync_report_day,
}
use dos_amigos_ops.Models.{
  Change, CooStatus, DailyCooReportRun, DbAction, HermesReportOutbox, Mode, Session, Tables,
  is_usable, rollback,
}
use dos_amigos_ops.OutboxApi.{has_id}
use dos_amigos_ops.Sales.{IikoSalesSyncResult, text_or}

module _ {P : Type 0} (self : Orchestrator P) (row : HermesReportOutbox)
    (fresh : (n : ℕ) → text_eq (self.env.uuid n) row.id ≡ false) where
  finish_with_alert-Sealed :
      (run : DailyCooReportRun) (status : CooStatus) (mode : Mode) (day : ℕ) (error_code : Text)
      → Keeps (StaysSealed row) (finish_with_alert self run status mode day error_code)
  unfolding finish_with_alert
  finish_with_alert-Sealed run status mode day error_code =
      Keeps-bind (StaysSealed row) (StaysSealed-refl self row fresh)
        (StaysSealed-trans self row fresh) (ensure_alert_outbox self mode day error_code) _
        (ensure_alert_outbox-Sealed self row fresh mode day error_code)
        (λ alert.
          finish-Sealed self row fresh run (alerted self status mode day alert.id error_code))

  fail_with_alert-Sealed :
      (run : DailyCooReportRun) (mode : Mode) (day : ℕ) (e : Exn)
      → Keeps (StaysSealed row) (fail_run_with_alert self run mode day e)
  unfolding fail_run_with_alert
  fail_with_alert-Sealed run mode day e =
      let plain = raised_sync self mode day e in
      let noted : Text → DailyCooReportResult = λ id. record plain { outbox_ids = id ∷ [] } in
      let last : Exn → DbAction DailyCooReportResult = λ _. rollback >> pure plain in
      let again : Exn → DbAction DailyCooReportResult =
        λ _. rollback >> try_except (finish_coo_run self run plain) last in
      let told : DbAction DailyCooReportResult =
        ensure_alert_outbox self mode day sync_exception >>= λ alert.
        finish_coo_run self run (noted alert.id) in
      Keeps-then (StaysSealed row) (StaysSealed-refl self row fresh)
        (StaysSealed-trans self row fresh) rollback (try_except told again)
        (rollback-Sealed self row fresh)
        (Keeps-try_except (StaysSealed row) (StaysSealed-refl self row fresh)
          (StaysSealed-trans self row fresh) told again
          (Keeps-bind (StaysSealed row) (StaysSealed-refl self row fresh)
            (StaysSealed-trans self row fresh) (ensure_alert_outbox self mode day sync_exception)
            (λ alert. finish_coo_run self run (noted alert.id))
            (ensure_alert_outbox-Sealed self row fresh mode day sync_exception)
            (λ alert. finish-Sealed self row fresh run (noted alert.id)))
          (λ _.
            Keeps-then (StaysSealed row) (StaysSealed-refl self row fresh)
              (StaysSealed-trans self row fresh) rollback
              (try_except (finish_coo_run self run plain) last) (rollback-Sealed self row fresh)
              (Keeps-try_except (StaysSealed row) (StaysSealed-refl self row fresh)
                (StaysSealed-trans self row fresh) (finish_coo_run self run plain) last
                (finish-Sealed self row fresh run plain)
                (λ _.
                  Keeps-then (StaysSealed row) (StaysSealed-refl self row fresh)
                    (StaysSealed-trans self row fresh) rollback (pure plain)
                    (rollback-Sealed self row fresh) (record { at = λ s h. h })))))

  after_sync-Sealed :
      (run : DailyCooReportRun) (mode : Mode) (day : ℕ) (go_on : DbAction DailyCooReportResult)
      (r : Result IikoSalesSyncResult)
      → Keeps (StaysSealed row) go_on
      → Keeps (StaysSealed row) (after_sync self run mode day go_on r)
  unfolding after_sync
  after_sync-Sealed run mode day go_on (err e) kept = fail_with_alert-Sealed run mode day e
  after_sync-Sealed run mode day go_on (ok sync) kept =
      Keeps-if (StaysSealed row) (StaysSealed-refl self row fresh)
        (StaysSealed-trans self row fresh) (is_usable sync.status) go_on
        (finish_with_alert self run CooStatus.failed mode day (text_or sync.error_code sync_failed))
        kept
        (finish_with_alert-Sealed run CooStatus.failed mode day
          (text_or sync.error_code sync_failed))

  report_closeout-Sealed :
      (run : DailyCooReportRun) (day : ℕ) → Keeps (StaysSealed row) (report_closeout self run day)
  unfolding report_closeout
  report_closeout-Sealed run day =
      let result : Text → DailyCooReportResult = λ id.
        record (coo_result CooStatus.outbox_ready Mode.closeout day) { outbox_ids = id ∷ [] } in
      Keeps-bind (StaysSealed row) (StaysSealed-refl self row fresh)
        (StaysSealed-trans self row fresh) (build_payload self day)
        (λ payload. upsert_sales_outbox self payload day >>= λ outbox.
          finish_coo_run self run (result outbox.id))
        (build_payload-Sealed self row fresh day)
        (λ payload.
          Keeps-bind (StaysSealed row) (StaysSealed-refl self row fresh)
            (StaysSealed-trans self row fresh) (upsert_sales_outbox self payload day)
            (λ outbox. finish_coo_run self run (result outbox.id))
            (upsert_sales_outbox-Sealed self row fresh payload day)
            (λ outbox. finish-Sealed self row fresh run (result outbox.id)))

  report_changes-Sealed :
      (run : DailyCooReportRun) (day : ℕ) (original : HermesReportOutbox) (current : HermesPayload)
      (changes : Option (List Change))
      → Keeps (StaysSealed row) (report_changes self run day original current changes)
  unfolding report_changes
  report_changes-Sealed run day original current none = record { at = λ s h. h }
  report_changes-Sealed run day original current (some []) =
      finish-Sealed self row fresh run (coo_result CooStatus.reconciled Mode.reconcile day)
  report_changes-Sealed run day original current (some (c ∷ changes)) =
      let result : HermesReportOutbox × Bool → DailyCooReportResult = λ answer.
        record (coo_result (correction_status self answer.1) Mode.reconcile day) {
          outbox_ids = (answer.0).id ∷ [];
        } in
      Keeps-bind (StaysSealed row) (StaysSealed-refl self row fresh)
        (StaysSealed-trans self row fresh)
        (ensure_correction_outbox self original current (c ∷ changes) day)
        (λ answer. finish_coo_run self run (result answer))
        (ensure_correction_outbox-Sealed self row fresh original current (c ∷ changes) day)
        (λ answer. finish-Sealed self row fresh run (result answer))

  report_reconcile-Sealed :
      (run : DailyCooReportRun) (day : ℕ) (original : HermesReportOutbox)
      → Keeps (StaysSealed row) (report_reconcile self run day original)
  unfolding report_reconcile
  report_reconcile-Sealed run day original =
      Keeps-bind (StaysSealed row) (StaysSealed-refl self row fresh)
        (StaysSealed-trans self row fresh) (build_payload self day)
        (λ current.
          report_changes self run day original current
            (payload_changes original.payload_json current.payload_json))
        (build_payload-Sealed self row fresh day)
        (λ current.
          report_changes-Sealed run day original current
            (payload_changes original.payload_json current.payload_json))

  -- The import of the day and what follows it.
  synced-Sealed :
      (run : DailyCooReportRun) (mode : Mode) (day : ℕ) (go_on : DbAction DailyCooReportResult)
      → Keeps (StaysSealed row) go_on
      → Keeps
          (StaysSealed row)
          (outcome (sync_report_day self day false) >>= after_sync self run mode day go_on)
  synced-Sealed run mode day go_on kept =
      Keeps-bind (StaysSealed row) (StaysSealed-refl self row fresh)
        (StaysSealed-trans self row fresh) (outcome (sync_report_day self day false))
        (after_sync self run mode day go_on) (sync-Sealed self row fresh day false)
        (λ r. after_sync-Sealed run mode day go_on r kept)

  reconcile_report-Sealed :
      (run : DailyCooReportRun) (day : ℕ) (original : Option HermesReportOutbox)
      → Keeps (StaysSealed row) (reconcile_report self run day original)
  unfolding reconcile_report
  reconcile_report-Sealed run day none =
      finish_with_alert-Sealed run CooStatus.missing_closeout Mode.reconcile day
        (codes "missing_closeout")
  reconcile_report-Sealed run day (some original) =
      synced-Sealed run Mode.reconcile day (report_reconcile self run day original)
        (report_reconcile-Sealed run day original)

  day_of_mode-Sealed :
      (mode : Mode) (run : DailyCooReportRun) (day : ℕ)
      → Keeps (StaysSealed row) (day_of_mode self mode run day)
  unfolding closeout_day reconcile_day
  day_of_mode-Sealed Mode.closeout run day =
      synced-Sealed run Mode.closeout day (report_closeout self run day)
        (report_closeout-Sealed run day)
  day_of_mode-Sealed Mode.reconcile run day =
      Keeps-bind (StaysSealed row) (StaysSealed-refl self row fresh)
        (StaysSealed-trans self row fresh)
        (gets
          (λ (s : Session). latest_sales_report self.collate self.organization_id day s.working))
        (reconcile_report self run day) (gets-Sealed self row fresh _)
        (reconcile_report-Sealed run day)

  fail_coo_run-Sealed :
      (run : DailyCooReportRun) (mode : Mode) (day : ℕ) (e : Exn)
      → Keeps (StaysSealed row) (fail_coo_run self run mode day e)
  unfolding fail_coo_run
  fail_coo_run-Sealed run mode day e =
      Keeps-then (StaysSealed row) (StaysSealed-refl self row fresh)
        (StaysSealed-trans self row fresh) rollback
        (finish_coo_run self run (failure_of self mode day e)) (rollback-Sealed self row fresh)
        (finish-Sealed self row fresh run (failure_of self mode day e))

  run_mode-Sealed : (mode : Mode) (day : ℕ) → Keeps (StaysSealed row) (run_mode self mode day)
  run_mode-Sealed mode day = record {
    at = λ s sealed.
        let run = run_started self mode day s in
        let t = session_started self mode day s in
        let work = try_except (day_of_mode self mode run day) (fail_coo_run self run mode day) in
        subst (λ (p : Result DailyCooReportResult × Session). Sealed row p.1)
          (sym (run_mode_started self mode day s))
          ((Keeps-try_except (StaysSealed row) (StaysSealed-refl self row fresh)
              (StaysSealed-trans self row fresh) (day_of_mode self mode run day)
              (fail_coo_run self run mode day) (day_of_mode-Sealed mode run day)
              (fail_coo_run-Sealed run mode day)).at
            t (apart_step self row fresh s t refl refl refl sealed));
  }

  dry_run_result-Sealed :
      (mode : Mode) (day : ℕ) (r : Result IikoSalesSyncResult)
      → Keeps (StaysSealed row) (dry_run_result self mode day r)
  unfolding dry_run_result
  dry_run_result-Sealed mode day (ok sync) = record { at = λ s h. h }
  dry_run_result-Sealed mode day (err e) = record {
    at = λ s h. (rollback-Sealed self row fresh).at s h;
  }

  dry_run_day-Sealed : (mode : Mode) (day : ℕ) → Keeps (StaysSealed row) (dry_run_day self mode day)
  unfolding dry_run_day
  dry_run_day-Sealed mode day =
      Keeps-bind (StaysSealed row) (StaysSealed-refl self row fresh)
        (StaysSealed-trans self row fresh) (outcome (sync_report_day self day true))
        (dry_run_result self mode day) (sync-Sealed self row fresh day true)
        (λ r. dry_run_result-Sealed mode day r)

  report_day-Sealed :
      (mode : Mode) (day : ℕ) (dry_run : Bool) (a : Automation)
      → Sealed row a.session
      → Sealed row (report_day self mode day dry_run a).1.session
  unfolding report_day acquire release
  report_day-Sealed mode day true a sealed = (dry_run_day-Sealed mode day).at a.session sealed
  report_day-Sealed mode day false a sealed = elim (Bool-cases (self.site.is_locked a.attempts)) [
    | inl locked ↦ rw locked sealed
    | inr open_lock ↦ rw open_lock ((run_mode-Sealed mode day).at a.session sealed)
  ]

  -- A row of the outbox whose id is its own and no new one, which is delivered, or which a
  -- recipient's delivery is recorded for and whose key is not an alert's, comes out of a close-out
  -- or a reconciliation as it is, whatever the call does, and can be changed by no later one
  -- either: it is still the only row with its id, and settled, in a session with nothing pending.
  pub report-Sealed :
      (mode : Mode) (now business_date : Option ℕ) (dry_run : Bool) (a : Automation)
      → Sealed row a.session
      → Sealed row (report self mode now business_date dry_run a).1.session
  report-Sealed mode now business_date dry_run a sealed =
      let (day, t, same, undone, e) = report_resolved self mode now business_date dry_run a in
      let kept : Sealed row t = record {
        clean = same ∙ sealed.clean ∙ sym undone;
        only = ap (λ (db : Tables). where_rows (has_id row.id) db.outbox) same ∙ sealed.only;
        settled = subst (λ (db : Tables). is_settled db row ≡ true) (sym same) sealed.settled;
      } in
      subst (λ (p : Result DailyCooReportResult × Automation). Sealed row p.1.session) (sym e)
        (report_day-Sealed mode day dry_run (record a { session = t }) kept)
