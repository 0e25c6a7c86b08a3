-- ===== src/Sales/Repository.antt =====
-- `IikoSalesRepository`.
use dos_amigos_ops.Base.{
  Bool, List, Option, Text, [], codes, false, find, if◌then◌else◌, length, none, not, some, text_eq,
  true, where_rows, ℕ, ◌&&◌, ◌++◌, ◌+◌, ◌==◌, ◌∷◌,
}
use dos_amigos_ops.Base.Action.{gets, pure, ◌>>=◌, ◌>>◌}
use dos_amigos_ops.Models.{
  DbAction, Env, IikoSalesDaily, IikoSalesDailyPayment, IikoSalesDailyProduct, IikoSalesSyncRun,
  ResultStatus, Tables, set_daily, set_payments, set_products, set_sync_runs, uuid4,
}
use dos_amigos_ops.Sales.Report.{
  NormalizedSalesReport, SalesDailySummary, SalesPaymentSummary, SalesProductSummary,
  payment_type_key, product_size_key,
}

pub record SalesPersistenceResult : Type 0 where
  pub persisted_rows : ℕ
  pub unchanged : Bool

-- The `where` clauses on a day of an organization.
abbrev pub daily_of : Text → ℕ → IikoSalesDaily → Bool
daily_of org day row = text_eq row.organization_id org && row.business_date == day

abbrev pub payment_of : Text → ℕ → IikoSalesDailyPayment → Bool
payment_of org day row = text_eq row.organization_id org && row.business_date == day

abbrev pub product_of : Text → ℕ → IikoSalesDailyProduct → Bool
product_of org day row = text_eq row.organization_id org && row.business_date == day

abbrev pub get_daily : Text → ℕ → Tables → Option IikoSalesDaily
get_daily org day db = find (daily_of org day) db.daily

-- `delete(...).where(...)`
unfoldable pub delete_where : {A : Type 0} → (A → Bool) → List A → List A
delete_where p rows = where_rows (λ x. not (p x)) rows

abbrev pub daily_row : SalesDailySummary → ℕ → IikoSalesDaily
daily_row daily finished_at = record {
  organization_id = daily.organization_id;
  business_date = daily.business_date;
  currency_code = daily.currency_code;
  gross_sales = daily.gross_sales;
  reported_discounts = daily.reported_discounts;
  reported_increases = daily.reported_increases;
  net_sales = daily.net_sales;
  unexplained_adjustment = daily.unexplained_adjustment;
  refunds = daily.refunds;
  checks_count = daily.checks_count;
  guests_count = daily.guests_count;
  average_check = daily.average_check;
  source_rows_count = daily.source_rows_count;
  source_checksum = daily.source_checksum;
  result_status = daily.result_status;
  reconciliation_error_code = daily.reconciliation_error_code;
  requires_resync = false;
  imported_at = finished_at;
  updated_at = finished_at;
}

abbrev pub payment_row : (Text → Text) → Text → SalesPaymentSummary → ℕ → IikoSalesDailyPayment
payment_row lower id payment finished_at = record {
  id = id;
  organization_id = payment.organization_id;
  business_date = payment.business_date;
  payment_type_id = payment.payment_type_id;
  payment_type_key = payment_type_key lower payment.payment_type_id payment.payment_type_name;
  payment_type_name = payment.payment_type_name;
  payment_category = payment.payment_category;
  sales_amount = payment.sales_amount;
  refund_amount = payment.refund_amount;
  transactions_count = payment.transactions_count;
  imported_at = finished_at;
  updated_at = finished_at;
}

abbrev pub product_row : Text → SalesProductSummary → ℕ → IikoSalesDailyProduct
product_row id product finished_at = record {
  id = id;
  organization_id = product.organization_id;
  business_date = product.business_date;
  product_id = product.product_id;
  product_size_id = product.product_size_id;
  product_size_key = product_size_key product.product_size_id;
  product_name_snapshot = product.product_name_snapshot;
  quantity = product.quantity;
  gross_sales = product.gross_sales;
  discounts = product.discounts;
  net_sales = product.net_sales;
  refund_quantity = product.refund_quantity;
  refund_amount = product.refund_amount;
  imported_at = finished_at;
  updated_at = finished_at;
}

-- `_sync_run`, with the id that it is added under
abbrev pub sync_run : Text → NormalizedSalesReport → ℕ → ℕ → ℕ → IikoSalesSyncRun
sync_run id report started_at finished_at persisted_rows = record {
  id = id;
  organization_id = report.daily.organization_id;
  date_from = report.daily.business_date;
  date_to = report.daily.business_date;
  dataset = codes "orders_or_sales";
  status = report.daily.result_status;
  started_at = started_at;
  finished_at = some finished_at;
  fetched_rows = report.daily.source_rows_count;
  persisted_rows = persisted_rows;
  source_checksum = some report.daily.source_checksum;
  error_code = report.daily.reconciliation_error_code;
  error_message_redacted = none;
}

-- `existing and existing.source_checksum == daily.source_checksum`
abbrev pub same_checksum : Option IikoSalesDaily → SalesDailySummary → Bool
same_checksum none daily = false
same_checksum (some row) daily = text_eq row.source_checksum daily.source_checksum

module _ (env : Env) (lower : Text → Text) where
  unfoldable pub add_sync_run : (Text → IikoSalesSyncRun) → DbAction (Unit {0})
  add_sync_run run = do
    id ← uuid4 env
    rows ← gets (λ s. s.working.sync_runs)
    set_sync_runs (rows ++ run id ∷ [])

  unfoldable pub add_payments : ℕ → List SalesPaymentSummary → DbAction (Unit {0})
  add_payments finished_at [] = pure tt
  add_payments finished_at (payment ∷ payments) = do
    id ← uuid4 env
    rows ← gets (λ s. s.working.payments)
    set_payments (rows ++ payment_row lower id payment finished_at ∷ [])
    add_payments finished_at payments

  unfoldable pub add_products : ℕ → List SalesProductSummary → DbAction (Unit {0})
  add_products finished_at [] = pure tt
  add_products finished_at (product ∷ products) = do
    id ← uuid4 env
    rows ← gets (λ s. s.working.products)
    set_products (rows ++ product_row id product finished_at ∷ [])
    add_products finished_at products

  -- The rows of the day are taken out (no row of the day itself is there if none was found), and
  -- the report's put in.
  unfoldable pub replace_day : NormalizedSalesReport → ℕ → DbAction (Unit {0})
  replace_day report finished_at = do
    let daily = report.daily
    payments ← gets (λ s. s.working.payments)
    set_payments (delete_where (payment_of daily.organization_id daily.business_date) payments)
    products ← gets (λ s. s.working.products)
    set_products (delete_where (product_of daily.organization_id daily.business_date) products)
    rows ← gets (λ s. s.working.daily)
    set_daily (
        delete_where (daily_of daily.organization_id daily.business_date) rows
        ++ daily_row daily finished_at ∷ [])
    add_payments finished_at report.payments
    add_products finished_at report.products

  unfoldable pub persist_report :
      NormalizedSalesReport → (started_at finished_at : ℕ) → DbAction SalesPersistenceResult
  persist_report report started_at finished_at = do
    let daily = report.daily
    existing ← gets (λ s. get_daily daily.organization_id daily.business_date s.working)
    if same_checksum existing daily
        then (do
          add_sync_run (λ id. sync_run id report started_at finished_at 0)
          pure (record { persisted_rows = 0; unchanged = true }))
        else (do
          replace_day report finished_at
          let persisted_rows = 1 + length report.payments + length report.products
          add_sync_run (λ id. sync_run id report started_at finished_at persisted_rows)
          pure (record { persisted_rows = persisted_rows; unchanged = false }))

  unfoldable pub record_failed_run :
      (organization_id : Text) (business_date : ℕ) (status : ResultStatus)
      (started_at finished_at fetched_rows : ℕ) (error_code error_message_redacted : Text)
      → DbAction (Unit {0})
  record_failed_run org day status started_at finished_at fetched_rows code message =
      add_sync_run λ id. record {
        id = id;
        organization_id = org;
        date_from = day;
        date_to = day;
        dataset = codes "orders_or_sales";
        status = status;
        started_at = started_at;
        finished_at = some finished_at;
        fetched_rows = fetched_rows;
        persisted_rows = 0;
        source_checksum = none;
        error_code = some code;
        error_message_redacted = some message;
      }
