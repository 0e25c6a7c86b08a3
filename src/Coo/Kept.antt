-- ===== src/Coo/Kept.antt =====
-- What the steps of the daily report do to the rows of its runs.
use dos_amigos_ops.Automation.{HermesPayload, has_key}
use dos_amigos_ops.Base.{
  Bool, List, Option, Text, ap, false, find, none, not, refl, some, true, ℕ, ◌∙◌, ◌≡◌,
}
use dos_amigos_ops.Base.Action.{gets}
use dos_amigos_ops.Base.Keeps.{Keeps, Keeps-bind}
use dos_amigos_ops.Coo.Orchestrator.{Orchestrator}
use dos_amigos_ops.Coo.Outbox.{
  add_row, alert_key, alert_row, correction_key, ensure_alert_outbox, ensure_correction_outbox,
  latest_sales_report, operational_markdown, place_alert, place_correction, refreshed_alert,
  report_row, sales_outbox_is_mutable, update_if_mutable, updated_report, upsert_existing,
  upsert_for_date, upsert_sales_outbox,
}
use dos_amigos_ops.Coo.Service.{build_payload, outcome, sync_report_day}
use dos_amigos_ops.Models.{
  Change, DailyCooReportRun, HermesReportOutbox, Mode, Session, datetime_now, is_delivered,
}
use dos_amigos_ops.OutboxApi.{save_outbox}
use dos_amigos_ops.Sales.Atomic.{Clean}
use dos_amigos_ops.Sales.Untouched.{Apart, sync_day-apart}

abbrev pub coo_runs_of : Session → List DailyCooReportRun
coo_runs_of s = s.working.coo_runs

-- From a session with nothing pending an action comes to one, and leaves the runs.
abbrev pub KeepsCooRuns : Session → Session → Type 0
KeepsCooRuns s t = Clean s → Clean t × (coo_runs_of t ≡ coo_runs_of s)

KeepsCooRuns-refl : (s : Session) → KeepsCooRuns s s
KeepsCooRuns-refl s h = (h, refl)

KeepsCooRuns-trans : (s t v : Session) → KeepsCooRuns s t → KeepsCooRuns t v → KeepsCooRuns s v
KeepsCooRuns-trans s t v h k c = let (c', e) = h c in let (c'', e') = k c' in (c'', e' ∙ e)

module _ {P : Type 0} (self : Orchestrator P) where
  pub sync_report_day-runs :
      (day : ℕ) (dry_run : Bool) → Keeps KeepsCooRuns (outcome (sync_report_day self day dry_run))
  unfolding sync_report_day
  sync_report_day-runs day dry_run = record {
    at = λ s clean.
        let (clean', same) =
          (sync_day-apart self.env self.lower self.fetch self.normalize self.organization_id day
              dry_run).at
            s clean in
        (clean', ap (λ (a : Apart). a.coo_runs) same);
  }

  pub build_payload-runs : (day : ℕ) → Keeps KeepsCooRuns (build_payload self day)
  unfolding build_payload
  build_payload-runs day = record { at = λ s h. (h, refl) }

  pub gets-runs : {A : Type 0} (f : Session → A) → Keeps KeepsCooRuns (gets f)
  gets-runs f = record { at = λ s h. (h, refl) }

  add_row-runs : (row : Text → ℕ → HermesReportOutbox) → Keeps KeepsCooRuns (add_row self row)
  unfolding add_row
  add_row-runs row = record { at = λ s h. (refl, refl) }

  update_if_mutable-runs :
      (mutable : Bool) (row updated : HermesReportOutbox)
      → Keeps KeepsCooRuns (update_if_mutable self mutable row updated)
  unfolding update_if_mutable save_outbox
  update_if_mutable-runs true row updated = record { at = λ s h. (refl, refl) }
  update_if_mutable-runs false row updated = record { at = λ s h. (h, refl) }

  datetime_now-runs : Keeps KeepsCooRuns (datetime_now self.env)
  datetime_now-runs = record { at = λ s h. (h, refl) }

  place_alert-runs :
      (mode : Mode) (day : ℕ) (error_code : Text) (now : ℕ) (existing : Option HermesReportOutbox)
      → Keeps KeepsCooRuns (place_alert self mode day error_code now existing)
  unfolding place_alert
  place_alert-runs mode day error_code now none =
      add_row-runs (alert_row self mode day error_code now)
  place_alert-runs mode day error_code now (some row) =
      update_if_mutable-runs (not (is_delivered row.delivery_status)) row
        (refreshed_alert self mode day error_code now row)

  pub ensure_alert_outbox-runs :
      (mode : Mode) (day : ℕ) (error_code : Text)
      → Keeps KeepsCooRuns (ensure_alert_outbox self mode day error_code)
  unfolding ensure_alert_outbox
  ensure_alert_outbox-runs mode day error_code =
      Keeps-bind KeepsCooRuns KeepsCooRuns-refl KeepsCooRuns-trans
        (gets
          (λ (s : Session). find (has_key (alert_key self mode day error_code)) s.working.outbox))
        _ (gets-runs _)
        (λ existing.
          Keeps-bind KeepsCooRuns KeepsCooRuns-refl KeepsCooRuns-trans (datetime_now self.env) _
            datetime_now-runs (λ now. place_alert-runs mode day error_code now existing))

  upsert_for_date-runs :
      (payload : HermesPayload) (markdown : Text) (day now : ℕ) (newest : Option HermesReportOutbox)
      → Keeps KeepsCooRuns (upsert_for_date self payload markdown day now newest)
  unfolding upsert_for_date
  upsert_for_date-runs payload markdown day now none =
      add_row-runs (report_row self payload markdown day now)
  upsert_for_date-runs payload markdown day now (some row) =
      Keeps-bind KeepsCooRuns KeepsCooRuns-refl KeepsCooRuns-trans
        (gets (λ (s : Session). sales_outbox_is_mutable s.working row)) _ (gets-runs _)
        (λ mutable.
          update_if_mutable-runs mutable row
            (updated_report payload.idempotency_key payload markdown now row))

  upsert_existing-runs :
      (payload : HermesPayload) (markdown : Text) (day now : ℕ)
      (existing : Option HermesReportOutbox)
      → Keeps KeepsCooRuns (upsert_existing self payload markdown day now existing)
  unfolding upsert_existing
  upsert_existing-runs payload markdown day now (some row) =
      Keeps-bind KeepsCooRuns KeepsCooRuns-refl KeepsCooRuns-trans
        (gets (λ (s : Session). sales_outbox_is_mutable s.working row)) _ (gets-runs _)
        (λ mutable.
          update_if_mutable-runs mutable row
            (updated_report row.idempotency_key payload markdown now row))
  upsert_existing-runs payload markdown day now none =
      Keeps-bind KeepsCooRuns KeepsCooRuns-refl KeepsCooRuns-trans
        (gets
          (λ (s : Session). latest_sales_report self.collate self.organization_id day s.working))
        _ (gets-runs _) (λ newest. upsert_for_date-runs payload markdown day now newest)

  pub upsert_sales_outbox-runs :
      (payload : HermesPayload) (day : ℕ)
      → Keeps KeepsCooRuns (upsert_sales_outbox self payload day)
  unfolding upsert_sales_outbox
  upsert_sales_outbox-runs payload day =
      Keeps-bind KeepsCooRuns KeepsCooRuns-refl KeepsCooRuns-trans
        (gets (λ (s : Session). find (has_key payload.idempotency_key) s.working.outbox)) _
        (gets-runs _)
        (λ existing.
          Keeps-bind KeepsCooRuns KeepsCooRuns-refl KeepsCooRuns-trans (datetime_now self.env) _
            datetime_now-runs
            (λ now.
              upsert_existing-runs payload (operational_markdown day payload.payload_markdown) day
                now existing))

  place_correction-runs :
      (original : HermesReportOutbox) (current : HermesPayload) (changes : List Change) (day : ℕ)
      (existing : Option HermesReportOutbox)
      → Keeps KeepsCooRuns (place_correction self original current changes day existing)
  unfolding place_correction add_row
  place_correction-runs original current changes day (some row) = record { at = λ s h. (h, refl) }
  place_correction-runs original current changes day none = record { at = λ s h. (refl, refl) }

  pub ensure_correction_outbox-runs :
      (original : HermesReportOutbox) (current : HermesPayload) (changes : List Change) (day : ℕ)
      → Keeps KeepsCooRuns (ensure_correction_outbox self original current changes day)
  unfolding ensure_correction_outbox
  ensure_correction_outbox-runs original current changes day =
      Keeps-bind KeepsCooRuns KeepsCooRuns-refl KeepsCooRuns-trans
        (gets (λ (s : Session). find (has_key (correction_key self day changes)) s.working.outbox))
        _ (gets-runs _) (λ existing. place_correction-runs original current changes day existing)
