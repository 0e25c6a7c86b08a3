-- ===== src/Sales/Tests.antt =====
-- The theorems on the import of sales at a concrete report and a concrete range.
use dos_amigos_ops.Base.{
  All, List, Text, [], any, codes, false, find, if◌then◌else◌, length, none, pos, refl, some,
  text_eq, true, where_rows, ℕ, ◌+ℤ◌, ◌+◌, ◌-ℤ◌, ◌-◌, ◌<◌, ◌==◌, ◌↔◌, ◌∷◌, ◌≡◌, ◌≤◌, ◌⊎◌,
}
use dos_amigos_ops.Base.Action.{Result, err, ok}
use dos_amigos_ops.Decimal.{magnitude}
use dos_amigos_ops.Models.{PaymentCategory, ResultStatus, is_usable}
use dos_amigos_ops.Models.Samples.{sample_env, sample_session, sample_tables}
use dos_amigos_ops.Redaction.{is_space}
use dos_amigos_ops.Sales.Checksum.{Normalizer}
use dos_amigos_ops.Sales.Committed.{
  accepted_imports, before_commit, import_all, import_all_refines, integrity_error, is_accepted,
  sync_normalized-Atomic,
}
use dos_amigos_ops.Sales.Contents.{OfDay, Replaced}
use dos_amigos_ops.Sales.Day.{persist_report-Replaced, persist_report_twice, sales_tables}
use dos_amigos_ops.Sales.DryRun.{SameTables, sync_range-SameTables}
use dos_amigos_ops.Sales.Json.{Json, Row, get, parsed, str}
use dos_amigos_ops.Sales.Normalize.{
  Figures, OlapPayload, is_unknown_category, normalize_iiko_sales_payload, report_of, total_of,
}
use dos_amigos_ops.Sales.Range.{
  DayAnswers, severity, sync_range_lem, total_persisted, total_rows, validate_date_range_lem, worst,
}
use dos_amigos_ops.Sales.Reconciled.{normalize-reconciled}
use dos_amigos_ops.Sales.Refined.{replay, view}
use dos_amigos_ops.Sales.Report.{
  NormalizedSalesReport, SalesDailySummary, SalesPaymentSummary, SalesProductSummary,
}
use dos_amigos_ops.Sales.Repository.{
  SalesPersistenceResult, get_daily, persist_report, same_checksum,
}
use dos_amigos_ops.Sales.Rows.{date_from_value}
use dos_amigos_ops.Sales.Scope.{normalize-OfDay}
use dos_amigos_ops.Sales.Sync.{
  IikoSalesSyncResult, Normalization, RawResult, merge_day, merge_status, record_failure,
  result_from_normalized, sync_day, sync_days, sync_normalized, sync_range, sync_raw,
  validate_date_range,
}

abbrev summary_of : Text → SalesDailySummary
summary_of checksum = record {
  organization_id = codes "org";
  business_date = 20;
  currency_code = none;
  gross_sales = pos 1000;
  reported_discounts = pos 0;
  reported_increases = pos 0;
  net_sales = pos 1000;
  unexplained_adjustment = pos 0;
  refunds = pos 0;
  checks_count = 2;
  guests_count = none;
  average_check = pos 500;
  source_rows_count = 3;
  source_checksum = checksum;
  result_status = ResultStatus.proven;
  reconciliation_error_code = none;
}

abbrev cash : SalesPaymentSummary
cash = record {
  organization_id = codes "org";
  business_date = 20;
  payment_type_id = none;
  payment_type_name = codes "Cash";
  payment_category = PaymentCategory.cash;
  sales_amount = pos 1000;
  refund_amount = pos 0;
  transactions_count = some 2;
}

-- A report with two payments of one key, which the commit refuses.
abbrev twice_paid : NormalizedSalesReport
twice_paid = record { daily = summary_of (codes "def"); payments = cash ∷ cash ∷ []; products = [] }

abbrev sales_report : NormalizedSalesReport
sales_report = record { daily = summary_of (codes "abc"); payments = cash ∷ []; products = [] }

abbrev same_case : Text → Text
same_case name = name

entries-OfDay : OfDay sales_report
unfolding text_eq
entries-OfDay = ((refl, tt), tt)

twice_paid-OfDay : OfDay twice_paid
unfolding text_eq
twice_paid-OfDay = ((refl, (refl, tt)), tt)

nothing_stored : same_checksum (get_daily (codes "org") 20 sample_tables) sales_report.daily ≡ false
unfolding find
nothing_stored = refl

persist_report-Replaced_example :
    Replaced sales_report 9 sample_tables
      (persist_report sample_env same_case sales_report 8 9 sample_session).1.working
    × ((persist_report sample_env same_case sales_report 8 9 sample_session).0
        ≡ ok (record { persisted_rows = 2; unchanged = false }))
persist_report-Replaced_example =
    persist_report-Replaced sample_env same_case sales_report 8 9 sample_session entries-OfDay
      nothing_stored

persist_report_twice_example :
    let t = (persist_report sample_env same_case sales_report 8 9 sample_session).1 in
    let (r, t') = persist_report sample_env same_case sales_report 10 11 t in
    (r ≡ ok (record { persisted_rows = 0; unchanged = true }))
    × (sales_tables sample_env same_case sales_report 10 11 t'.working
        ≡ sales_tables sample_env same_case sales_report 10 11 t.working)
persist_report_twice_example =
    persist_report_twice sample_env same_case sales_report 8 9 10 11 sample_session

-- iiko has nothing for the second day.
abbrev fetch_days : ℕ → Text → ℕ → Result (RawResult ℕ)
fetch_days n org day = ok (record {
  status = if day == 20 then ResultStatus.proven else ResultStatus.blocked;
  payload = 0;
  records_count = 3;
  error_code = none;
  error_message_sanitized = none;
})

abbrev normalize_day : ℕ → Text → ℕ → Normalization
normalize_day payload org day = Normalization.normalized sales_report

sync_range-SameTables_example :
    SameTables sample_session
      (sync_range sample_env same_case fetch_days normalize_day
        (codes "org")
        30
        20
        21
        true
        false
        sample_session).1
sync_range-SameTables_example =
    sync_range-SameTables sample_env same_case fetch_days normalize_day (codes "org") 30 20 21 false
      sample_session

sync_normalized-Atomic_example :
    let (r, t) =
      sync_normalized sample_env same_case fetch_days normalize_day
        (codes "org")
        (Normalization.normalized twice_paid)
        20
        8
        3
        false
        sample_session in
    let stored = before_commit sample_env same_case twice_paid 8 sample_session in
    (is_accepted sample_env same_case twice_paid 8 sample_session ≡ true
      → (p : SalesPersistenceResult) × (stored.0 ≡ ok p)
        × (r ≡ ok (result_from_normalized twice_paid false p.persisted_rows p.unchanged))
        × (t.working ≡ stored.1.working)
        × (t.committed ≡ stored.1.working))
    × (is_accepted sample_env same_case twice_paid 8 sample_session ≡ false
        → (r ≡ err integrity_error)
          × (t.working ≡ sample_session.working)
          × (t.committed ≡ sample_session.working))
sync_normalized-Atomic_example =
    sync_normalized-Atomic sample_env same_case fetch_days normalize_day (codes "org") twice_paid 20
      8 3 sample_session refl

abbrev two_days : IikoSalesSyncResult
two_days = record {
  status = ResultStatus.blocked;
  organization_id = codes "org";
  date_from = 20;
  date_to = 21;
  days_processed = 2;
  source_rows = 6;
  records_persisted = 0;
  unchanged = false;
  dry_run = true;
  error_code = none;
  source_checksum = some (codes "abc");
}

answered :
    (sync_range sample_env same_case fetch_days normalize_day
      (codes "org")
      30
      20
      21
      true
      false
      sample_session).0
    ≡ ok two_days
unfolding sync_range validate_date_range sync_days sync_day sync_raw sync_normalized record_failure
    merge_day merge_status
answered = refl

sync_range_lem_example :
    (validate_date_range 30 20 21 false ≡ none)
    × (results : List IikoSalesSyncResult) × DayAnswers sample_env same_case fetch_days
        normalize_day
        (codes "org")
        true
        20
        results
        sample_session
        (sync_range sample_env same_case fetch_days normalize_day
          (codes "org")
          30
          20
          21
          true
          false
          sample_session).1
    × (length results ≡ 21 + 1 - 20)
    × (two_days.days_processed ≡ length results)
    × (severity two_days.status ≡ worst results)
    × (two_days.source_rows ≡ total_rows results)
    × (two_days.records_persisted ≡ total_persisted results)
sync_range_lem_example =
    sync_range_lem sample_env same_case fetch_days normalize_day (codes "org") true 30 20 21 false
      sample_session two_days answered

validate_date_range_lem_example :
    (validate_date_range 30 20 21 false ≡ none)
    ↔ ((20 ≤ 21) × (21 ≤ 20 + 30) × ((false ≡ true) ⊎ (21 < 30)))
validate_date_range_lem_example = validate_date_range_lem 30 20 21 false

abbrev olap_row : Row
olap_row =
    (codes "Department.Id", Json.text (codes "org"))
    ∷ (codes "OpenDate.Typed", Json.text (codes "2026-10-11"))
    ∷ (codes "Storned", Json.text (codes "FALSE"))
    ∷ (codes "OrderDeleted", Json.text (codes "NOT_DELETED"))
    ∷ (codes "DishSumInt", Json.integer (pos 10))
    ∷ (codes "DishDiscountSumInt", Json.text (codes "10.00"))
    ∷ (codes "UniqOrderId.OrdersCount", Json.integer (pos 2))
    ∷ (codes "PayTypes.Group", Json.text (codes "CASH"))
    ∷ (codes "DishId", Json.text (codes "taco"))
    ∷ (codes "DishAmountInt", Json.integer (pos 1))
    ∷ []

abbrev olap_payload : OlapPayload
olap_payload = record {
  daily_rows = olap_row ∷ [];
  payment_rows = olap_row ∷ [];
  product_rows = olap_row ∷ [];
}

abbrev sample_normalizer : Normalizer
sample_normalizer = record {
  digest = λ p. p.business_date;
  dumps = λ row. [];
  payment_category_map = [];
}

abbrev olap_figures : Figures
olap_figures = record {
  gross_sales = pos 1000;
  reported_discounts = pos 0;
  reported_increases = pos 0;
  net_sales = pos 1000;
  refunds = pos 0;
  checks_count = 2;
}

abbrev olap_payment : SalesPaymentSummary
olap_payment = record {
  organization_id = codes "org";
  business_date = 739_900;
  payment_type_id = none;
  payment_type_name = codes "Unknown";
  payment_category = PaymentCategory.cash;
  sales_amount = pos 1000;
  refund_amount = pos 0;
  transactions_count = none;
}

abbrev olap_product : SalesProductSummary
olap_product = record {
  organization_id = codes "org";
  business_date = 739_900;
  product_id = codes "taco";
  product_name_snapshot = [];
  product_size_id = none;
  quantity = pos 10_000;
  gross_sales = pos 1000;
  discounts = pos 0;
  net_sales = pos 1000;
  refund_quantity = none;
  refund_amount = pos 0;
}

abbrev olap_report : NormalizedSalesReport
olap_report =
    report_of sample_normalizer (codes "org") 739_900 olap_payload olap_figures (olap_payment ∷ [])
      (olap_product ∷ [])

olap_normalized :
    normalize_iiko_sales_payload sample_normalizer olap_payload (codes "org") 739_900
    ≡ Normalization.normalized olap_report
unfolding normalize_iiko_sales_payload text_eq where_rows any ◌+ℤ◌ ◌-ℤ◌ is_space
olap_normalized = refl

olap_usable : is_usable olap_report.daily.result_status ≡ true
unfolding report_of text_eq where_rows any ◌+ℤ◌ ◌-ℤ◌
olap_usable = refl

normalize-reconciled_example :
    (magnitude (
        total_of (λ (p : SalesPaymentSummary). p.sales_amount) olap_report.payments
        -ℤ olap_report.daily.net_sales)
      ≤ 1)
    × (magnitude (
          total_of (λ (p : SalesProductSummary). p.net_sales) olap_report.products
          -ℤ olap_report.daily.net_sales)
        ≤ 1)
    × (magnitude (
          total_of (λ (p : SalesProductSummary). p.gross_sales) olap_report.products
          -ℤ olap_report.daily.gross_sales)
        ≤ 1)
    × (olap_report.daily.result_status ≡ ResultStatus.proven
        → (magnitude (
              olap_report.daily.gross_sales -ℤ olap_report.daily.reported_discounts
              +ℤ olap_report.daily.reported_increases -ℤ olap_report.daily.net_sales)
            ≤ 1)
          × (any
                (λ (p : SalesPaymentSummary). is_unknown_category p.payment_category)
                olap_report.payments
              ≡ false))
normalize-reconciled_example =
    normalize-reconciled sample_normalizer (codes "org") 739_900 olap_payload olap_report
      olap_normalized olap_usable

normalize-OfDay_example :
    OfDay olap_report
    × (olap_report.daily.organization_id ≡ codes "org")
    × (olap_report.daily.business_date ≡ 739_900)
    × All
        (λ (row : Row).
          (str (get row (codes "Department.Id")) ≡ codes "org")
          × (date_from_value (get row (codes "OpenDate.Typed")) (codes "OpenDate.Typed")
              ≡ parsed 739_900))
        (olap_row ∷ olap_row ∷ olap_row ∷ [])
normalize-OfDay_example =
    normalize-OfDay sample_normalizer (codes "org") 739_900 olap_payload olap_report olap_normalized

olap-OfDay : OfDay olap_report
olap-OfDay =
    (normalize-OfDay sample_normalizer (codes "org") 739_900 olap_payload olap_report
      olap_normalized).0

-- The second of the imports is refused.
abbrev sample_imports : List (NormalizedSalesReport × ℕ)
sample_imports = (sales_report, 8) ∷ (twice_paid, 9) ∷ (olap_report, 10) ∷ []

import_all_refines_example :
    view
      (import_all sample_env same_case fetch_days normalize_day
        (codes "org")
        sample_imports
        sample_session).committed
    ≡ replay
        (accepted_imports sample_env same_case fetch_days normalize_day
          (codes "org")
          sample_imports
          sample_session)
        (view sample_session.working)
import_all_refines_example =
    import_all_refines sample_env same_case fetch_days normalize_day (codes "org") sample_imports
      sample_session refl (entries-OfDay, (twice_paid-OfDay, (olap-OfDay, tt)))
