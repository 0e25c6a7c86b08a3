-- ===== src/Sales/Normalize.antt =====
-- `normalize_iiko_sales_payload` of integrations/iiko/sales.py.
use dos_amigos_ops.Base.{
  Bool, List, Option, Text, [], any, codes, false, if◌then◌else◌, is_empty, is_some, length, lookup,
  none, not, pos, some, text_eq, true, ℕ, ℤ, ◌&&◌, ◌++◌, ◌+ℤ◌, ◌+◌, ◌-ℤ◌, ◌==◌, ◌||◌, ◌∷◌,
}
use dos_amigos_ops.Decimal.{Decimal, half_up, magnitude, quantize, quotient, signed_as}
use dos_amigos_ops.Models.{PaymentCategory}
use dos_amigos_ops.OutboxApi.Lookup.{report}
use dos_amigos_ops.Sales.Checks.{Checks, error_codes, first_code, over_cent, status_of}
use dos_amigos_ops.Sales.Checksum.{Normalizer, calculate_sales_checksum}
use dos_amigos_ops.Sales.Json.{
  Json, Parsed, Row, and_then, get, get_or, is_truthy, parsed, refused, str, threw,
}
use dos_amigos_ops.Sales.Report.{
  NormalizedSalesReport, SalesDailySummary, SalesPaymentSummary, SalesProductSummary,
}
use dos_amigos_ops.Sales.Rows.{
  amount_field, categorize_payment, int_from_decimal, is_unknown_status, mapped_category,
  normal_sales_rows, quantize_money, sum_field, validate_row_scope,
}
use dos_amigos_ops.Sales.Sync.{Normalization}

-- The rows of the three answers.
pub record OlapPayload : Type 0 where
  pub daily_rows : List Row
  pub payment_rows : List Row
  pub product_rows : List Row

-- The totals of the daily rows.
pub record Figures : Type 0 where
  pub gross_sales : ℤ
  pub reported_discounts : ℤ
  pub reported_increases : ℤ
  pub net_sales : ℤ
  pub refunds : ℤ
  pub checks_count : ℕ

abbrev pub money_sum : List Row → Text → Parsed ℤ
money_sum rows name = and_then (sum_field rows name) (λ (d : Decimal). parsed (quantize_money d))

unfoldable pub figures_of : List Row → Parsed Figures
unfolding sum_field quantize_money int_from_decimal
figures_of rows = and_then (money_sum rows (codes "DishSumInt")) (λ (gross : ℤ).
    and_then (money_sum rows (codes "DiscountSum")) (λ (discounts : ℤ).
      and_then (money_sum rows (codes "IncreaseSum")) (λ (increases : ℤ).
        and_then (money_sum rows (codes "DishDiscountSumInt")) (λ (net : ℤ).
          and_then (money_sum rows (codes "DishReturnSum")) (λ (returned : ℤ).
            and_then (sum_field rows (codes "UniqOrderId.OrdersCount")) (λ (count : Decimal).
              and_then (int_from_decimal count (codes "checks")) (λ (checks : ℕ). parsed (record {
                gross_sales = gross;
                reported_discounts = discounts;
                reported_increases = increases;
                net_sales = net;
                refunds = returned;
                checks_count = checks;
              }))))))))

-- The average of so many checks, in cents; none is zero.
unfoldable pub average_of : ℤ → ℕ → ℤ
unfolding quotient quantize_money
average_of net checks =
    let (n, places) = quotient (magnitude net) checks in
    if checks == 0
    then pos 0
    else quantize_money (record { coefficient = signed_as net n; places = places + 2 })

abbrev pub optional_str : Json → Option Text
optional_str value = if is_truthy value then some (str value) else none

abbrev pub group_of : Row → Text
group_of row = str (get_or row (codes "PayTypes.Group") (Json.text []))

abbrev pub guid_of : Row → Option Text
guid_of row = optional_str (get row (codes "PayTypes.GUID"))

-- `str(value or default)`
abbrev pub str_or : Json → Text → Text
str_or value default = if is_truthy value then str value else default

abbrev pub money_field : Row → Text → Parsed ℤ
money_field row name = and_then (amount_field row name) (λ (d : Decimal). parsed (quantize_money d))

abbrev pub is_unknown_category : PaymentCategory → Bool
is_unknown_category PaymentCategory.unknown = true
is_unknown_category _ = false

abbrev pub total_of : {A : Type 0} → (A → ℤ) → List A → ℤ
total_of f [] = pos 0
total_of f (x ∷ xs) = f x +ℤ total_of f xs

module _ (self : Normalizer) (org : Text) (day : ℕ) where
  -- A non-cash payment whose type is not in the map.
  unfoldable pub is_unmapped : Row → Bool
  unfolding str get_or get is_truthy lookup
  is_unmapped row =
      text_eq (group_of row) (codes "NON_CASH")
      && not (is_some (mapped_category self.payment_category_map (guid_of row)))

  unfoldable pub payment_from : Row → Parsed SalesPaymentSummary
  unfolding categorize_payment amount_field quantize_money str get_or get is_truthy
  payment_from row =
      and_then (categorize_payment (group_of row) (guid_of row) self.payment_category_map)
        (λ (category : PaymentCategory).
          and_then (money_field row (codes "DishDiscountSumInt")) (λ (amount : ℤ).
            and_then (money_field row (codes "DishReturnSum")) (λ (refund : ℤ). parsed (record {
              organization_id = org;
              business_date = day;
              payment_type_id = guid_of row;
              payment_type_name = str_or (get row (codes "PayTypes")) (codes "Unknown");
              payment_category = category;
              sales_amount = amount;
              refund_amount = refund;
              transactions_count = none;
            }))))

  unfoldable pub payments_from : List Row → Parsed (List SalesPaymentSummary)
  unfolding payment_from
  payments_from [] = parsed []
  payments_from (row ∷ rows) = and_then (payment_from row) (λ (p : SalesPaymentSummary).
      and_then (payments_from rows) (λ (ps : List SalesPaymentSummary). parsed (p ∷ ps)))

  -- The quantity is what its column holds, four places.
  unfoldable pub product_from : Row → Parsed SalesProductSummary
  unfolding amount_field quantize_money quantize half_up str get is_truthy
  product_from row =
      if is_empty (str_or (get row (codes "DishId")) [])
      then refused (codes "missing_product_id") (codes "Product row is missing DishId")
      else and_then (money_field row (codes "DishSumInt")) (λ (gross : ℤ).
        and_then (money_field row (codes "DishDiscountSumInt")) (λ (net : ℤ).
          and_then (amount_field row (codes "DishAmountInt")) (λ (quantity : Decimal).
            and_then (money_field row (codes "DishReturnSum")) (λ (refund : ℤ). parsed (record {
              organization_id = org;
              business_date = day;
              product_id = str_or (get row (codes "DishId")) [];
              product_name_snapshot = str_or (get row (codes "DishName")) [];
              product_size_id = optional_str (get row (codes "DishSize.Id"));
              quantity = quantize half_up 4 quantity;
              gross_sales = gross;
              discounts = gross -ℤ net;
              net_sales = net;
              refund_quantity = none;
              refund_amount = refund;
            })))))

  unfoldable pub products_from : List Row → Parsed (List SalesProductSummary)
  unfolding product_from
  products_from [] = parsed []
  products_from (row ∷ rows) = and_then (product_from row) (λ (p : SalesProductSummary).
      and_then (products_from rows) (λ (ps : List SalesProductSummary). parsed (p ∷ ps)))

  abbrev pub unexplained : Figures → ℤ
  unexplained f = f.gross_sales -ℤ f.reported_discounts +ℤ f.reported_increases -ℤ f.net_sales

  -- The comparisons of the totals.
  unfoldable pub checks_of :
      OlapPayload → Figures → List SalesPaymentSummary → List SalesProductSummary → Checks
  unfolding is_unmapped is_unknown_status normal_sales_rows
  checks_of payload f payments products = record {
    discounts_differ = over_cent (unexplained f);
    category_open =
        any is_unmapped (normal_sales_rows payload.payment_rows)
        || any (λ (p : SalesPaymentSummary). is_unknown_category p.payment_category) payments;
    status_unknown =
        any is_unknown_status payload.daily_rows
        || any is_unknown_status payload.payment_rows
        || any is_unknown_status payload.product_rows;
    payments_differ =
        over_cent (total_of (λ (p : SalesPaymentSummary). p.sales_amount) payments -ℤ f.net_sales);
    products_differ =
        over_cent (total_of (λ (p : SalesProductSummary). p.net_sales) products -ℤ f.net_sales)
        || over_cent
            (total_of (λ (p : SalesProductSummary). p.gross_sales) products -ℤ f.gross_sales);
  }

  -- The report of what was read.
  unfoldable pub report_of :
      OlapPayload
      → Figures
      → List SalesPaymentSummary
      → List SalesProductSummary
      → NormalizedSalesReport
  unfolding checks_of status_of error_codes average_of calculate_sales_checksum normal_sales_rows
  report_of payload f payments products =
      let daily = normal_sales_rows payload.daily_rows in
      let paid = normal_sales_rows payload.payment_rows in
      let sold = normal_sales_rows payload.product_rows in
      let checks = checks_of payload f payments products in
      let summary : SalesDailySummary = record {
        organization_id = org;
        business_date = day;
        currency_code = none;
        gross_sales = f.gross_sales;
        reported_discounts = f.reported_discounts;
        reported_increases = f.reported_increases;
        net_sales = f.net_sales;
        unexplained_adjustment = unexplained f;
        refunds = f.refunds;
        checks_count = f.checks_count;
        guests_count = none;
        average_check = average_of f.net_sales f.checks_count;
        source_rows_count = length daily + length paid + length sold;
        source_checksum = calculate_sales_checksum self org day daily paid sold;
        result_status = status_of checks;
        reconciliation_error_code = first_code (error_codes checks);
      } in
      record { daily = summary; payments = payments; products = products }

  abbrev pub all_rows : OlapPayload → List Row
  all_rows payload = payload.daily_rows ++ payload.payment_rows ++ payload.product_rows

  unfoldable pub read_report : OlapPayload → Parsed NormalizedSalesReport
  unfolding validate_row_scope figures_of payments_from products_from report_of normal_sales_rows
  read_report payload = and_then (validate_row_scope org day (all_rows payload)) (λ _.
      and_then (figures_of (normal_sales_rows payload.daily_rows)) (λ (f : Figures).
        and_then (payments_from (normal_sales_rows payload.payment_rows))
          (λ (payments : List SalesPaymentSummary).
            and_then (products_from (normal_sales_rows payload.product_rows))
              (λ (products : List SalesProductSummary).
                parsed (report_of payload f payments products)))))

abbrev pub normalization_of : Parsed NormalizedSalesReport → Normalization
normalization_of (parsed report) = Normalization.normalized report
normalization_of (refused code message) = Normalization.rejected code message
normalization_of (threw e) = Normalization.raised e

unfoldable pub normalize_iiko_sales_payload : Normalizer → OlapPayload → Text → ℕ → Normalization
unfolding read_report
normalize_iiko_sales_payload self payload org day =
    normalization_of (read_report self org day payload)
