-- ===== src/Models/Rows.antt =====
-- One record for each table, one field for each column.
use dos_amigos_ops.Base.{Bool, Option, Text, ℕ, ℤ}
use dos_amigos_ops.Models.Payload.{PayloadJson}
use dos_amigos_ops.Models.Status.{
  CooStatus, DeliveryStatus, Mode, PaymentCategory, ReportType, ResultStatus, RunStatus,
  TriggerType,
}

pub record HermesReportOutbox : Type 0 where
  pub id : Text
  pub report_type : ReportType
  pub organization_id : Text
  pub business_date : ℕ
  pub source_checksum : Text
  pub idempotency_key : Text
  pub payload_json : PayloadJson
  pub payload_markdown : Text
  pub delivery_status : DeliveryStatus
  pub delivery_attempts : ℕ
  pub next_attempt_at : Option ℕ
  pub last_attempt_at : Option ℕ
  pub delivered_at : Option ℕ
  pub external_message_id : Option Text
  pub error_code : Option Text
  pub error_message_redacted : Option Text
  pub created_at : ℕ
  pub updated_at : ℕ

pub record HermesReportRecipientDelivery : Type 0 where
  pub id : Text
  pub report_id : Text
  pub recipient_key : Text
  pub delivery_status : DeliveryStatus
  pub delivery_attempts : ℕ
  pub delivered_at : Option ℕ
  pub last_attempt_at : Option ℕ
  pub error_code : Option Text
  pub error_message_redacted : Option Text
  pub created_at : ℕ
  pub updated_at : ℕ

-- Amounts in cents, quantities in ten-thousandths.
pub record IikoSalesDaily : Type 0 where
  pub organization_id : Text
  pub business_date : ℕ
  pub currency_code : Option Text
  pub gross_sales : ℤ
  pub reported_discounts : ℤ
  pub reported_increases : ℤ
  pub net_sales : ℤ
  pub unexplained_adjustment : ℤ
  pub refunds : ℤ
  pub checks_count : ℕ
  pub guests_count : Option ℕ
  pub average_check : ℤ
  pub source_rows_count : ℕ
  pub source_checksum : Text
  pub result_status : ResultStatus
  pub reconciliation_error_code : Option Text
  pub requires_resync : Bool
  pub imported_at : ℕ
  pub updated_at : ℕ

pub record IikoSalesDailyPayment : Type 0 where
  pub id : Text
  pub organization_id : Text
  pub business_date : ℕ
  pub payment_type_id : Option Text
  pub payment_type_key : Text
  pub payment_type_name : Text
  pub payment_category : PaymentCategory
  pub sales_amount : ℤ
  pub refund_amount : ℤ
  pub transactions_count : Option ℕ
  pub imported_at : ℕ
  pub updated_at : ℕ

pub record IikoSalesDailyProduct : Type 0 where
  pub id : Text
  pub organization_id : Text
  pub business_date : ℕ
  pub product_id : Text
  pub product_size_id : Option Text
  pub product_size_key : Text
  pub product_name_snapshot : Text
  pub quantity : ℤ
  pub gross_sales : ℤ
  pub discounts : ℤ
  pub net_sales : ℤ
  pub refund_quantity : Option ℤ
  pub refund_amount : ℤ
  pub imported_at : ℕ
  pub updated_at : ℕ

pub record IikoSalesSyncRun : Type 0 where
  pub id : Text
  pub organization_id : Text
  pub date_from : ℕ
  pub date_to : ℕ
  pub dataset : Text
  pub status : ResultStatus
  pub started_at : ℕ
  pub finished_at : Option ℕ
  pub fetched_rows : ℕ
  pub persisted_rows : ℕ
  pub source_checksum : Option Text
  pub error_code : Option Text
  pub error_message_redacted : Option Text

pub record IikoSalesAutomationRun : Type 0 where
  pub id : Text
  pub trigger_type : TriggerType
  pub requested_date_from : Option ℕ
  pub requested_date_to : Option ℕ
  pub business_timezone : Text
  pub scheduled_local_time : Option ℕ
  pub started_at : ℕ
  pub finished_at : Option ℕ
  pub status : RunStatus
  pub days_considered : ℕ
  pub days_processed : ℕ
  pub days_unchanged : ℕ
  pub days_partial : ℕ
  pub days_failed : ℕ
  pub outbox_created : ℕ
  pub error_code : Option Text
  pub error_message_redacted : Option Text

pub record DailyCooReportRun : Type 0 where
  pub id : Text
  pub mode : Mode
  pub organization_id : Text
  pub business_date : ℕ
  pub business_timezone : Text
  pub status : CooStatus
  pub started_at : ℕ
  pub finished_at : Option ℕ
  pub dry_run : Bool
  pub outbox_id : Option Text
  pub correction_outbox_id : Option Text
  pub error_code : Option Text
  pub error_message_redacted : Option Text
