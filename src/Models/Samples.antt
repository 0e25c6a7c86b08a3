-- ===== src/Models/Samples.antt =====
-- Rows and surroundings that the tests share.
use dos_amigos_ops.Base.{[], codes, false, none, pos, some, ◌++◌, ◌+◌, ◌∷◌}
use dos_amigos_ops.Models.Database.{Env, Session, Tables}
use dos_amigos_ops.Models.Payload.{PayloadJson}
use dos_amigos_ops.Models.Rows.{HermesReportOutbox, IikoSalesDaily, IikoSalesDailyProduct}
use dos_amigos_ops.Models.Status.{DeliveryStatus, Mode, ReportType, ResultStatus}

abbrev pub sample_payload : PayloadJson
sample_payload = PayloadJson.alert Mode.closeout 20 (codes "ValueError")

abbrev pub sample_report : HermesReportOutbox
sample_report = record {
  id = codes "r1";
  report_type = ReportType.sales_daily;
  organization_id = codes "org";
  business_date = 20;
  source_checksum = codes "sum";
  idempotency_key = codes "key";
  payload_json = sample_payload;
  payload_markdown = codes "Sales";
  delivery_status = DeliveryStatus.pending;
  delivery_attempts = 0;
  next_attempt_at = none;
  last_attempt_at = none;
  delivered_at = none;
  external_message_id = none;
  error_code = none;
  error_message_redacted = none;
  created_at = 5;
  updated_at = 5;
}

abbrev pub delivered_sample : HermesReportOutbox
delivered_sample = record sample_report {
  id = codes "r2";
  delivery_status = DeliveryStatus.delivered;
  delivered_at = some 7;
}

abbrev pub sample_tables : Tables
sample_tables = record {
  outbox = sample_report ∷ delivered_sample ∷ [];
  recipients = [];
  daily = [];
  payments = [];
  products = [];
  sync_runs = [];
  automation_runs = [];
  coo_runs = [];
}

abbrev pub sample_session : Session
sample_session = record { working = sample_tables; committed = sample_tables; draws = 0; ticks = 0 }

abbrev pub sample_env : Env
sample_env = record { uuid = λ n. codes "id" ++ n ∷ []; now = λ n. 100 + n }

abbrev pub sample_day : IikoSalesDaily
sample_day = record {
  organization_id = codes "org";
  business_date = 20;
  currency_code = none;
  gross_sales = pos 1000;
  reported_discounts = pos 0;
  reported_increases = pos 0;
  net_sales = pos 1000;
  unexplained_adjustment = pos 0;
  refunds = pos 0;
  checks_count = 2;
  guests_count = none;
  average_check = pos 500;
  source_rows_count = 1;
  source_checksum = codes "c1";
  result_status = ResultStatus.proven;
  reconciliation_error_code = none;
  requires_resync = false;
  imported_at = 7;
  updated_at = 7;
}

abbrev pub sample_product : IikoSalesDailyProduct
sample_product = record {
  id = codes "q1";
  organization_id = codes "org";
  business_date = 20;
  product_id = codes "taco";
  product_size_id = none;
  product_size_key = codes "__none__";
  product_name_snapshot = codes "Taco";
  quantity = pos 20_000;
  gross_sales = pos 1000;
  discounts = pos 0;
  net_sales = pos 1000;
  refund_quantity = none;
  refund_amount = pos 0;
  imported_at = 7;
  updated_at = 7;
}

-- The day is imported, with one product.
abbrev pub day_session : Session
day_session = record sample_session {
  working = record sample_tables { daily = sample_day ∷ []; products = sample_product ∷ [] };
}
