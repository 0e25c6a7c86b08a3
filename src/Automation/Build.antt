-- ===== src/Automation/Build.antt =====
-- `build_sales_daily_hermes_payload`, with its limits at their defaults.
use dos_amigos_ops.Automation.Facts.{
  daily_coo_attention, daily_coo_facts, has_unknown_payment, is_given, line_if, payment_total,
  sold_text,
}
use dos_amigos_ops.Automation.Format.{
  human_money, human_quantity, money, sales_comparison, ten_thousandths,
}
use dos_amigos_ops.Automation.Outbox.{HermesPayload}
use dos_amigos_ops.Automation.Queries.{category_text, list_payments, list_top_products}
use dos_amigos_ops.Base.{
  Bool, List, Option, Text, [], codes, if◌then◌else◌, ltb, map, none, or_else, some, take, ℕ, ◌++◌,
  ◌+ℤ◌, ◌+◌, ◌-◌, ◌∷◌,
}
use dos_amigos_ops.Base.Action.{Exn, Result, err, exception, ok}
use dos_amigos_ops.Calendar.{day_month_year, isoformat}
use dos_amigos_ops.Decimal.{digits, format_f}
use dos_amigos_ops.Models.{
  IikoSalesDaily, IikoSalesDailyPayment, IikoSalesDailyProduct, PayloadJson, PaymentCategory,
  PaymentEntry, ProductEntry, SalesPayload, Tables, is_partial,
}
use dos_amigos_ops.Sales.{get_daily}

-- `"\n".join(lines)`
unfoldable pub join_lines : List Text → Text
join_lines [] = []
join_lines (line ∷ []) = line
join_lines (line ∷ next ∷ lines) = line ++ 10 ∷ join_lines (next ∷ lines)

abbrev pub payment_entry : IikoSalesDailyPayment → PaymentEntry
payment_entry p = record {
  category = category_text p.payment_category;
  payment_type_id = p.payment_type_id;
  payment_type_name = p.payment_type_name;
  amount = money p.sales_amount;
}

abbrev pub product_entry : IikoSalesDailyProduct → ProductEntry
product_entry p = record {
  product_id = p.product_id;
  name = p.product_name_snapshot;
  quantity = format_f (ten_thousandths p.quantity);
  net_sales = money p.net_sales;
}

-- The rows that a report is made of.
pub record ReportRows : Type 0 where
  pub daily : IikoSalesDaily
  pub payments : List IikoSalesDailyPayment
  pub products : List IikoSalesDailyProduct
  pub previous_day : Option IikoSalesDaily
  pub previous_weekday : Option IikoSalesDaily

unfoldable pub report_warnings : ReportRows → List Text
report_warnings rows =
    line_if (is_given rows.daily.reconciliation_error_code)
      (or_else rows.daily.reconciliation_error_code [])
    ++ line_if (is_partial rows.daily.result_status) (codes "partial")
    ++ line_if (has_unknown_payment rows.payments) (codes "unknown_payment_category")

-- `payload_json`
unfoldable pub report_json : ReportRows → SalesPayload
unfolding money format_f report_warnings sales_comparison
report_json rows = record {
  status = rows.daily.result_status;
  organization_id = rows.daily.organization_id;
  business_date = rows.daily.business_date;
  gross_sales = money rows.daily.gross_sales;
  reported_discounts = money rows.daily.reported_discounts;
  reported_increases = money rows.daily.reported_increases;
  net_sales = money rows.daily.net_sales;
  unexplained_adjustment = money rows.daily.unexplained_adjustment;
  refunds = money rows.daily.refunds;
  checks_count = rows.daily.checks_count;
  average_check = money rows.daily.average_check;
  payments = map payment_entry rows.payments;
  top_products = map product_entry rows.products;
  source_checksum = rows.daily.source_checksum;
  warnings = report_warnings rows;
  comparison_previous_day = sales_comparison rows.daily.net_sales rows.previous_day;
  comparison_same_weekday_previous_week =
      sales_comparison rows.daily.net_sales rows.previous_weekday;
}

-- The lines of the top, numbered from this number on.
unfoldable pub top_lines : ℕ → List IikoSalesDailyProduct → List Text
unfolding digits human_money human_quantity
top_lines index [] = []
top_lines index (product ∷ products) =
    (digits index ++ codes ". " ++ sold_text product) ∷ top_lines (index + 1) products

abbrev pub or_line : List Text → Text → List Text
or_line [] text = text ∷ []
or_line (line ∷ lines) text = line ∷ lines

abbrev pub dashed : List Text → List Text
dashed lines = map (λ (line : Text). codes "— " ++ line) lines

abbrev pub titled : Text → ℕ → Text
titled title day = title ++ codes " " ++ day_month_year day

-- `markdown_lines`
unfoldable pub markdown_lines : ℕ → ReportRows → List Text
unfolding day_month_year human_money sales_comparison digits payment_total top_lines daily_coo_facts
    daily_coo_attention
markdown_lines day rows =
    let amount = λ (category : PaymentCategory). payment_total category rows.payments in
    titled (codes "Dos Amigos — итоги") day
      ∷ []
      ∷ (codes "Выручка: " ++ human_money rows.daily.net_sales)
      ∷ (codes "К предыдущему дню: " ++ sales_comparison rows.daily.net_sales rows.previous_day)
      ∷ (codes "К тому же дню прошлой недели: "
          ++ sales_comparison rows.daily.net_sales rows.previous_weekday)
      ∷ []
      ∷ (codes "Чеков: " ++ digits rows.daily.checks_count)
      ∷ (codes "Средний чек: " ++ human_money rows.daily.average_check)
      ∷ (codes "Скидки: " ++ human_money rows.daily.reported_discounts)
      ∷ []
      ∷ codes "Оплаты:"
      ∷ (codes "— наличные: " ++ human_money (amount PaymentCategory.cash))
      ∷ (codes "— карта: " ++ human_money (amount PaymentCategory.card))
      ∷ (codes "— другие: "
          ++ human_money (amount PaymentCategory.other +ℤ amount PaymentCategory.unknown))
      ∷ []
      ∷ codes "Топ продаж:"
      ∷ or_line (top_lines 1 (take 3 rows.products)) (codes "— нет данных")
    ++ []
      ∷ codes "Факты:"
      ∷ or_line
          (dashed
            (daily_coo_facts rows.daily rows.products rows.previous_day rows.previous_weekday))
          (codes "— нет новых числовых наблюдений.")
    ++ [] ∷ codes "Требует внимания:" ∷ dashed (daily_coo_attention rows.daily rows.payments)

abbrev pub sales_daily_key : Text → ℕ → Text → Text
sales_daily_key org day checksum =
    codes "sales_daily:" ++ org ++ codes ":" ++ isoformat day ++ codes ":" ++ checksum

-- The payload of the rows.
unfoldable pub report_payload : Text → ℕ → ReportRows → HermesPayload
unfolding report_json join_lines markdown_lines isoformat
report_payload org day rows = record {
  source_checksum = rows.daily.source_checksum;
  idempotency_key = sales_daily_key org day rows.daily.source_checksum;
  payload_json = PayloadJson.sales (report_json rows);
  payload_markdown = join_lines (markdown_lines day rows);
}

-- The dates before the first one of all are out of range, and the first one is 1.
abbrev pub date_overflow : Exn
date_overflow = exception (codes "OverflowError") (codes "date value out of range")

abbrev pub not_imported : Exn
not_imported = exception (codes "ValueError") (codes "sales day was not imported")

module _ (collate : Text → Text → Bool) where
  -- The rows of an imported day.
  unfoldable pub rows_of : Text → ℕ → Tables → IikoSalesDaily → ReportRows
  unfolding list_payments list_top_products
  rows_of org day db daily = record {
    daily = daily;
    payments = list_payments collate org day db;
    products = list_top_products collate org day 10 db;
    previous_day = get_daily org (day - 1) db;
    previous_weekday = get_daily org (day - 7) db;
  }

  abbrev pub imported_payload : Text → ℕ → Tables → IikoSalesDaily → Result HermesPayload
  imported_payload org day db daily =
      if ltb 7 day
      then ok (report_payload org day (rows_of org day db daily))
      else err date_overflow

  unfoldable pub build_sales_daily_hermes_payload : Tables → Text → ℕ → Result HermesPayload
  unfolding report_payload rows_of
  build_sales_daily_hermes_payload db org day = elim (get_daily org day db) [
    | none ↦ err not_imported
    | some daily ↦ imported_payload org day db daily
  ]
