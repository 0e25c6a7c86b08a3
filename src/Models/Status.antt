-- ===== src/Models/Status.antt =====
-- The closed sets of strings that the columns and the results hold.
use dos_amigos_ops.Base.{Bool, false, true}

-- `HermesReportOutbox.delivery_status` and `HermesReportRecipientDelivery.delivery_status`
pub data DeliveryStatus : Type 0 where
  pending delivering delivered failed superseded : DeliveryStatus

abbrev pub is_pending : DeliveryStatus → Bool
is_pending DeliveryStatus.pending = true
is_pending _ = false

abbrev pub is_failed : DeliveryStatus → Bool
is_failed DeliveryStatus.failed = true
is_failed _ = false

abbrev pub is_delivered : DeliveryStatus → Bool
is_delivered DeliveryStatus.delivered = true
is_delivered _ = false

-- `HermesReportOutbox.report_type`
pub data ReportType : Type 0 where
  sales_daily sales_daily_correction sales_daily_alert : ReportType

abbrev pub is_sales_daily : ReportType → Bool
is_sales_daily ReportType.sales_daily = true
is_sales_daily _ = false

-- `integrations.iiko.schemas.ResultStatus`
pub data ResultStatus : Type 0 where
  proven partial blocked unknown : ResultStatus

abbrev pub is_proven : ResultStatus → Bool
is_proven ResultStatus.proven = true
is_proven _ = false

abbrev pub is_partial : ResultStatus → Bool
is_partial ResultStatus.partial = true
is_partial _ = false

-- `status in {ResultStatus.PROVEN, ResultStatus.PARTIAL}`
abbrev pub is_usable : ResultStatus → Bool
is_usable ResultStatus.proven = true
is_usable ResultStatus.partial = true
is_usable _ = false

-- The two runs of the daily report.
pub data Mode : Type 0 where
  closeout reconcile : Mode

-- `integrations.iiko.sales.PaymentCategory`
pub data PaymentCategory : Type 0 where
  cash card other unknown : PaymentCategory

-- `IikoSalesAutomationRun.trigger_type` and `SalesAutomationResult.trigger_type`
pub data TriggerType : Type 0 where
  scheduled backfill manual outbox rebuild_outbox : TriggerType

abbrev pub is_scheduled : TriggerType → Bool
is_scheduled TriggerType.scheduled = true
is_scheduled _ = false

-- `IikoSalesAutomationRun.status`
pub data RunStatus : Type 0 where
  running completed partial failed skipped not_due already_completed already_running : RunStatus

-- `DailyCooReportRun.status` and `DailyCooReportResult.status`
pub data CooStatus : Type 0 where
  running already_running outbox_ready failed missing_closeout reconciled correction_created
        unchanged dry_run_ready dry_run_failed :
      CooStatus
