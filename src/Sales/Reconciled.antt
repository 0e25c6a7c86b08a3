-- ===== src/Sales/Reconciled.antt =====
-- The status of a normalised report.
use dos_amigos_ops.Base.{
  Bool, List, Text, any, arith, false, subst, true, ℕ, ℤ, ◌+ℤ◌, ◌-ℤ◌, ◌||◌, ◌≡◌, ◌≤◌,
}
use dos_amigos_ops.Decimal.{magnitude}
use dos_amigos_ops.Models.{ResultStatus, is_usable}
use dos_amigos_ops.OutboxApi.Lookup.{report}
use dos_amigos_ops.Sales.Checks.{Checks, over_cent, status_of}
use dos_amigos_ops.Sales.Checksum.{Normalizer}
use dos_amigos_ops.Sales.Normalize.{
  Figures, OlapPayload, checks_of, is_unknown_category, is_unmapped, normalize_iiko_sales_payload,
  report_of, total_of, unexplained,
}
use dos_amigos_ops.Sales.Parsing.{normalized-Read}
use dos_amigos_ops.Sales.Report.{NormalizedSalesReport, SalesPaymentSummary, SalesProductSummary}
use dos_amigos_ops.Sales.Rows.{normal_sales_rows}
use dos_amigos_ops.Sales.Sync.{Normalization}

usable_checks :
    (c : Checks)
    → is_usable (status_of c) ≡ true
    → (c.payments_differ ≡ false) × (c.products_differ ≡ false)
unfolding status_of
usable_checks c h = (ground (arith, h), ground (arith, h))

proven_checks :
    (c : Checks)
    → status_of c ≡ ResultStatus.proven
    → (c.discounts_differ ≡ false) × (c.category_open ≡ false)
unfolding status_of
proven_checks c h = (ground (arith, h), ground (arith, h))

within_cent : (a : ℤ) → over_cent a ≡ false → magnitude a ≤ 1
within_cent a h = ground (arith, h)

neither : (a b : Bool) → (a || b) ≡ false → (a ≡ false) × (b ≡ false)
neither a b h = (ground (arith, h), ground (arith, h))

-- What a usable status means.
abbrev Reconciles : NormalizedSalesReport → Type 0
Reconciles report =
    (magnitude (
        total_of (λ (p : SalesPaymentSummary). p.sales_amount) report.payments
        -ℤ report.daily.net_sales)
      ≤ 1)
    × (magnitude (
          total_of (λ (p : SalesProductSummary). p.net_sales) report.products
          -ℤ report.daily.net_sales)
        ≤ 1)
    × (magnitude (
          total_of (λ (p : SalesProductSummary). p.gross_sales) report.products
          -ℤ report.daily.gross_sales)
        ≤ 1)
    × (report.daily.result_status ≡ ResultStatus.proven
        → (magnitude (
              report.daily.gross_sales -ℤ report.daily.reported_discounts
              +ℤ report.daily.reported_increases -ℤ report.daily.net_sales)
            ≤ 1)
          × (any (λ (p : SalesPaymentSummary). is_unknown_category p.payment_category)
                report.payments
              ≡ false))

module _ (self : Normalizer) (org : Text) (day : ℕ) (payload : OlapPayload) where
  usable-report_of :
      (f : Figures) (payments : List SalesPaymentSummary) (products : List SalesProductSummary)
      → let report = report_of self org day payload f payments products in
        is_usable report.daily.result_status ≡ true
        → (magnitude (
              total_of (λ (p : SalesPaymentSummary). p.sales_amount) report.payments
              -ℤ report.daily.net_sales)
            ≤ 1)
          × (magnitude (
                total_of (λ (p : SalesProductSummary). p.net_sales) report.products
                -ℤ report.daily.net_sales)
              ≤ 1)
          × (magnitude (
                total_of (λ (p : SalesProductSummary). p.gross_sales) report.products
                -ℤ report.daily.gross_sales)
              ≤ 1)
  unfolding report_of checks_of
  usable-report_of f payments products h =
      let (paid, sold) = usable_checks (checks_of self org day payload f payments products) h in
      let a = total_of (λ (p : SalesPaymentSummary). p.sales_amount) payments -ℤ f.net_sales in
      let b = total_of (λ (p : SalesProductSummary). p.net_sales) products -ℤ f.net_sales in
      let c = total_of (λ (p : SalesProductSummary). p.gross_sales) products -ℤ f.gross_sales in
      let (net, gross) = neither (over_cent b) (over_cent c) sold in
      (within_cent a paid, within_cent b net, within_cent c gross)

  proven-report_of :
      (f : Figures) (payments : List SalesPaymentSummary) (products : List SalesProductSummary)
      → let report = report_of self org day payload f payments products in
        report.daily.result_status ≡ ResultStatus.proven
        → (magnitude report.daily.unexplained_adjustment ≤ 1)
          × (any
                (λ (p : SalesPaymentSummary). is_unknown_category p.payment_category)
                report.payments
              ≡ false)
  unfolding report_of checks_of
  proven-report_of f payments products h =
      let (discounts, category) =
        proven_checks (checks_of self org day payload f payments products) h in
      (
        within_cent (unexplained self org day f) discounts,
        (neither (any (is_unmapped self org day) (normal_sales_rows payload.payment_rows))
            (any (λ (p : SalesPaymentSummary). is_unknown_category p.payment_category) payments)
            category).1,
      )

  -- The adjustment is the one that the figures leave.
  unexplained-report_of :
      (f : Figures) (payments : List SalesPaymentSummary) (products : List SalesProductSummary)
      → let report = report_of self org day payload f payments products in
        report.daily.result_status ≡ ResultStatus.proven
        → (magnitude (
              report.daily.gross_sales -ℤ report.daily.reported_discounts
              +ℤ report.daily.reported_increases -ℤ report.daily.net_sales)
            ≤ 1)
          × (any
                (λ (p : SalesPaymentSummary). is_unknown_category p.payment_category)
                report.payments
              ≡ false)
  unfolding report_of
  unexplained-report_of f payments products h = proven-report_of f payments products h

  -- Where the normalisation of a day's rows makes a report whose status is proven or partial, the
  -- payments come to the day's net sales, and the products to its net sales and to its gross sales,
  -- each to a cent. Where the status is proven, the gross sales less the discounts and with the
  -- increases come to the net sales to a cent too, and no payment is of an unknown category.
  pub normalize-reconciled :
      (report : NormalizedSalesReport)
      → normalize_iiko_sales_payload self payload org day ≡ Normalization.normalized report
      → is_usable report.daily.result_status ≡ true
      → (magnitude (
            total_of (λ (p : SalesPaymentSummary). p.sales_amount) report.payments
            -ℤ report.daily.net_sales)
          ≤ 1)
        × (magnitude (
              total_of (λ (p : SalesProductSummary). p.net_sales) report.products
              -ℤ report.daily.net_sales)
            ≤ 1)
        × (magnitude (
              total_of (λ (p : SalesProductSummary). p.gross_sales) report.products
              -ℤ report.daily.gross_sales)
            ≤ 1)
        × (report.daily.result_status ≡ ResultStatus.proven
            → (magnitude (
                  report.daily.gross_sales -ℤ report.daily.reported_discounts
                  +ℤ report.daily.reported_increases -ℤ report.daily.net_sales)
                ≤ 1)
              × (any
                    (λ (p : SalesPaymentSummary). is_unknown_category p.payment_category)
                    report.payments
                  ≡ false))
  normalize-reconciled report h usable =
      let read = normalized-Read self org day payload report h in
      subst (λ (r : NormalizedSalesReport). is_usable r.daily.result_status ≡ true → Reconciles r)
        read.made
        (λ u.
          let (a, b, c) = usable-report_of read.figures read.payments read.products u in
          (a, b, c, unexplained-report_of read.figures read.payments read.products))
        usable
