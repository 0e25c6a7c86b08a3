-- ===== src/Coo/Unchanged.antt =====
-- The reconciliation of a day that did not change.
use dos_amigos_ops.Automation.{HermesPayload, ReportRows, report_json, report_payload, rows_of}
use dos_amigos_ops.Automation.Stable.{build-some}
use dos_amigos_ops.Base.{List, Option, [], ap, refl, some, ℕ, ◌<◌, ◌∙◌, ◌≡◌}
use dos_amigos_ops.Base.Action.{Result, bind_ok, ok}
use dos_amigos_ops.Coo.Changes.{payload_changes}
use dos_amigos_ops.Coo.Lock.{finish_coo_run_answer}
use dos_amigos_ops.Coo.Orchestrator.{DailyCooReportResult, Orchestrator, coo_result, finish_coo_run}
use dos_amigos_ops.Coo.Same.{payload_changes-same}
use dos_amigos_ops.Coo.Service.{build_payload, report_changes, report_reconcile}
use dos_amigos_ops.Models.{
  Change, CooStatus, DailyCooReportRun, HermesReportOutbox, IikoSalesDaily, Mode, PayloadJson,
  Session,
}
use dos_amigos_ops.Sales.{get_daily}

module _ {P : Type 0} (self : Orchestrator P) where
  abbrev rows_on : ℕ → IikoSalesDaily → Session → ReportRows
  rows_on day daily s = rows_of self.collate self.organization_id day s.working daily

  abbrev payload_on : ℕ → IikoSalesDaily → Session → HermesPayload
  payload_on day daily s = report_payload self.organization_id day (rows_on day daily s)

  json_on :
      (day : ℕ) (daily : IikoSalesDaily) (s : Session)
      → (payload_on day daily s).payload_json
        ≡ PayloadJson.sales (report_json (rows_on day daily s))
  unfolding report_payload
  json_on day daily s = refl

  built_on :
      (day : ℕ) (daily : IikoSalesDaily) (s : Session)
      → get_daily self.organization_id day s.working ≡ some daily
      → 7 < day
      → build_payload self day s ≡ (ok (payload_on day daily s), s)
  unfolding build_payload
  built_on day daily s found late =
      ap (λ (r : Result HermesPayload). (r, s))
        (build-some self.collate s.working self.organization_id day daily found late)

  unchanged_finish :
      (run : DailyCooReportRun) (day : ℕ) (original : HermesReportOutbox) (current : HermesPayload)
      (changes : Option (List Change)) (s : Session)
      → changes ≡ some []
      → report_changes self run day original current changes s
        ≡ finish_coo_run self run (coo_result CooStatus.reconciled Mode.reconcile day) s
  unfolding report_changes
  unchanged_finish run day original current changes s e =
      ap (λ (c : Option (List Change)). report_changes self run day original current c s) e

  finish_outbox :
      (run : DailyCooReportRun) (result : DailyCooReportResult) (s : Session)
      → (finish_coo_run self run result s).1.working.outbox ≡ s.working.outbox
  unfolding finish_coo_run
  finish_outbox run result s = refl

  -- The comparison of an imported day, not one of the first seven of all days, whose report has
  -- the payload that its rows give now, answers that the day is reconciled, and leaves the outbox
  -- as it is.
  pub report_reconcile-same :
      (run : DailyCooReportRun) (day : ℕ) (daily : IikoSalesDaily) (original : HermesReportOutbox)
      (s : Session)
      → get_daily self.organization_id day s.working ≡ some daily
      → 7 < day
      → original.payload_json
        ≡ PayloadJson.sales
            (report_json (rows_of self.collate self.organization_id day s.working daily))
      → let (r, t) = report_reconcile self run day original s in
        (r ≡ ok (coo_result CooStatus.reconciled Mode.reconcile day))
        × (t.working.outbox ≡ s.working.outbox)
  unfolding report_reconcile
  report_reconcile-same run day daily original s found late same =
      let current = payload_on day daily s in
      let json = PayloadJson.sales (report_json (rows_on day daily s)) in
      let done = coo_result CooStatus.reconciled Mode.reconcile day in
      let none_changed : payload_changes original.payload_json current.payload_json ≡ some [] =
        ap (λ (j : PayloadJson). payload_changes j current.payload_json) same
        ∙ ap (payload_changes json) (json_on day daily s)
        ∙ payload_changes-same (rows_on day daily s) in
      let whole =
        bind_ok (build_payload self day)
          (λ payload.
            report_changes self run day original payload
              (payload_changes original.payload_json payload.payload_json))
          s s current (built_on day daily s found late)
        ∙ unchanged_finish run day original current
            (payload_changes original.payload_json current.payload_json) s none_changed in
      (
        ap (λ (p : Result DailyCooReportResult × Session). p.0) whole
            ∙ finish_coo_run_answer self run done s,
        ap (λ (p : Result DailyCooReportResult × Session). p.1.working.outbox) whole
            ∙ finish_outbox run done s,
      )
