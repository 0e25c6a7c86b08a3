-- ===== src/Sales/Day.antt =====
-- The tables of a day before and after `persist_report`.
use dos_amigos_ops.Base.{
  ==_refl, All, Bool, Bool-cases, List, Text, [], ap, append-nil, false, find, find-append_none,
  inl, inr, length, map, refl, some, text_eq, text_eq_refl, true, where_rows, ℕ, ◌&&◌, ◌++◌, ◌+◌,
  ◌==◌, ◌∙◌, ◌∷◌, ◌≡◌,
}
use dos_amigos_ops.Base.Action.{ok}
use dos_amigos_ops.Models.{
  Env, IikoSalesDaily, IikoSalesDailyPayment, IikoSalesDailyProduct, Session, Tables,
}
use dos_amigos_ops.Sales.Contents.{
  All-map, OfDay, Replaced, find-append_miss, find-delete_where_ne, other_day, payment_summary,
  payments_of, product_summary, products_of, where_rows_none,
}
use dos_amigos_ops.Sales.Persist.{
  day_replaced, find-delete_where, payment_rows, persist_report_changed, persist_report_same,
  product_rows, where_rows-append, where_rows-delete_where, where_rows-delete_where_ne,
  where_rows_all,
}
use dos_amigos_ops.Sales.Report.{NormalizedSalesReport, SalesPaymentSummary, SalesProductSummary}
use dos_amigos_ops.Sales.Repository.{
  daily_of, daily_row, delete_where, get_daily, payment_of, persist_report, product_of,
  same_checksum,
}

module _ (env : Env) (lower : Text → Text) (report : NormalizedSalesReport)
    (started_at finished_at : ℕ) where
  abbrev org : Text
  org = report.daily.organization_id

  abbrev day : ℕ
  day = report.daily.business_date

  abbrev paid : ℕ → List SalesPaymentSummary → List IikoSalesDailyPayment
  paid = payment_rows env lower report started_at finished_at

  abbrev sold : ℕ → List SalesProductSummary → List IikoSalesDailyProduct
  sold = product_rows env lower report started_at finished_at

  summary-payment_rows :
      (n : ℕ) (ps : List SalesPaymentSummary) → map payment_summary (paid n ps) ≡ ps
  unfolding payment_rows
  summary-payment_rows n [] = refl
  summary-payment_rows n (p ∷ ps) = ap (λ l. p ∷ l) (summary-payment_rows (n + 1) ps)

  summary-product_rows :
      (n : ℕ) (ps : List SalesProductSummary) → map product_summary (sold n ps) ≡ ps
  unfolding product_rows
  summary-product_rows n [] = refl
  summary-product_rows n (p ∷ ps) = ap (λ l. p ∷ l) (summary-product_rows (n + 1) ps)

  -- Rows keep what is said of their entries' day.
  All-payment_rows :
      (org' : Text) (day' : ℕ) (b : Bool) (n : ℕ) (ps : List SalesPaymentSummary)
      → All
          (λ (p : SalesPaymentSummary).
            (text_eq p.organization_id org' && p.business_date == day') ≡ b)
          ps
      → All (λ row. payment_of org' day' row ≡ b) (paid n ps)
  unfolding payment_rows
  All-payment_rows org' day' b n [] h = tt
  All-payment_rows org' day' b n (p ∷ ps) (h, rest) =
      (h, All-payment_rows org' day' b (n + 1) ps rest)

  All-product_rows :
      (org' : Text) (day' : ℕ) (b : Bool) (n : ℕ) (ps : List SalesProductSummary)
      → All
          (λ (p : SalesProductSummary).
            (text_eq p.organization_id org' && p.business_date == day') ≡ b)
          ps
      → All (λ row. product_of org' day' row ≡ b) (sold n ps)
  unfolding product_rows
  All-product_rows org' day' b n [] h = tt
  All-product_rows org' day' b n (p ∷ ps) (h, rest) =
      (h, All-product_rows org' day' b (n + 1) ps rest)

  -- One day of a table: the added rows are all there is of it, and none of another day.
  payments_replaced :
      (s : Session)
      → OfDay report
      → map payment_summary
          (payments_of org day (day_replaced env lower report started_at finished_at s))
        ≡ report.payments
  payments_replaced s (h, _) =
      let added = paid s.draws report.payments in
      ap (map payment_summary) (
        where_rows-append (payment_of org day)
          (delete_where (payment_of org day) s.working.payments) added
        ∙ ap (λ l. l ++ where_rows (payment_of org day) added)
            (where_rows-delete_where (payment_of org day) s.working.payments)
        ∙ where_rows_all (payment_of org day) added
            (All-payment_rows org day true s.draws report.payments h))
      ∙ summary-payment_rows s.draws report.payments

  products_replaced :
      (s : Session)
      → OfDay report
      → map product_summary
          (products_of org day (day_replaced env lower report started_at finished_at s))
        ≡ report.products
  products_replaced s (_, h) =
      let n = s.draws + length report.payments in
      let added = sold n report.products in
      ap (map product_summary) (
        where_rows-append (product_of org day)
          (delete_where (product_of org day) s.working.products) added
        ∙ ap (λ l. l ++ where_rows (product_of org day) added)
            (where_rows-delete_where (product_of org day) s.working.products)
        ∙ where_rows_all (product_of org day) added
            (All-product_rows org day true n report.products h))
      ∙ summary-product_rows n report.products

  payments_kept :
      (s : Session) (org' : Text) (day' : ℕ)
      → OfDay report
      → (text_eq org org' && day == day') ≡ false
      → payments_of org' day' (day_replaced env lower report started_at finished_at s)
        ≡ payments_of org' day' s.working
  payments_kept s org' day' (h, _) other =
      let added = paid s.draws report.payments in
      where_rows-append (payment_of org' day')
        (delete_where (payment_of org day) s.working.payments) added
      ∙ ap
          (λ l.
            where_rows (payment_of org' day') (delete_where (payment_of org day) s.working.payments)
            ++ l)
          (where_rows_none (payment_of org' day') added (
            All-payment_rows org' day' false s.draws report.payments (
              All-map _ _ report.payments
                (λ p. other_day org org' day day' p.organization_id p.business_date other) h)))
      ∙ append-nil _
      ∙ where_rows-delete_where_ne (payment_of org day) (payment_of org' day') s.working.payments
          (λ r. other_day org org' day day' r.organization_id r.business_date other)

  products_kept :
      (s : Session) (org' : Text) (day' : ℕ)
      → OfDay report
      → (text_eq org org' && day == day') ≡ false
      → products_of org' day' (day_replaced env lower report started_at finished_at s)
        ≡ products_of org' day' s.working
  products_kept s org' day' (_, h) other =
      let n = s.draws + length report.payments in
      let added = sold n report.products in
      where_rows-append (product_of org' day')
        (delete_where (product_of org day) s.working.products) added
      ∙ ap
          (λ l.
            where_rows (product_of org' day') (delete_where (product_of org day) s.working.products)
            ++ l)
          (where_rows_none (product_of org' day') added (
            All-product_rows org' day' false n report.products (
              All-map _ _ report.products
                (λ p. other_day org org' day day' p.organization_id p.business_date other) h)))
      ∙ append-nil _
      ∙ where_rows-delete_where_ne (product_of org day) (product_of org' day') s.working.products
          (λ r. other_day org org' day day' r.organization_id r.business_date other)

  daily_there :
      (s : Session)
      → get_daily org day (day_replaced env lower report started_at finished_at s)
        ≡ some (daily_row report.daily finished_at)
  unfolding find
  daily_there s =
      find-append_none (daily_of org day) (delete_where (daily_of org day) s.working.daily)
        (daily_row report.daily finished_at ∷ [])
        (find-delete_where (daily_of org day) s.working.daily)
      ∙ rw (text_eq_refl org, ==_refl day) refl

  daily_kept :
      (s : Session) (org' : Text) (day' : ℕ)
      → (text_eq org org' && day == day') ≡ false
      → get_daily org' day' (day_replaced env lower report started_at finished_at s)
        ≡ get_daily org' day' s.working
  daily_kept s org' day' other =
      find-append_miss (daily_of org' day') (delete_where (daily_of org day) s.working.daily)
        (daily_row report.daily finished_at) other
      ∙ find-delete_where_ne (daily_of org day) (daily_of org' day') s.working.daily
          (λ r. other_day org org' day day' r.organization_id r.business_date other)

  -- A report whose checksum is not that of the stored day, all entries of which are of its day,
  -- becomes what is stored of the day: its row is the report's summary, its payments and products
  -- are the report's, in their order. Every other day of every organization is as it was. The
  -- answer counts the rows.
  pub persist_report-Replaced :
      (s : Session)
      → OfDay report
      → same_checksum (get_daily org day s.working) report.daily ≡ false
      → Replaced report finished_at s.working
          (persist_report env lower report started_at finished_at s).1.working
        × ((persist_report env lower report started_at finished_at s).0
            ≡ ok (record {
              persisted_rows = 1 + length report.payments + length report.products;
              unchanged = false;
            }))
  persist_report-Replaced s h new =
      rw (persist_report_changed env lower report started_at finished_at s new) (
        record {
          daily = daily_there s;
          payments = payments_replaced s h;
          products = products_replaced s h;
          other_daily = daily_kept s;
          other_payments = λ org' day' o. payments_kept s org' day' h o;
          other_products = λ org' day' o. products_kept s org' day' h o;
        },
        refl,
      )

  -- The tables that hold the sales.
  abbrev pub sales_tables :
      Tables → List IikoSalesDaily × List IikoSalesDailyPayment × List IikoSalesDailyProduct
  sales_tables db = (db.daily, db.payments, db.products)

  same_after :
      (s : Session)
      → same_checksum
          (get_daily org day (persist_report env lower report started_at finished_at s).1.working)
          report.daily
        ≡ true
  same_after s = elim (Bool-cases (same_checksum (get_daily org day s.working) report.daily)) [
    | inl same ↦ rw (persist_report_same env lower report started_at finished_at s same) same
    | inr new ↦
        rw (persist_report_changed env lower report started_at finished_at s new)
          (rw (daily_there s) (text_eq_refl report.daily.source_checksum))
  ]

  -- A report that was persisted is not persisted again: at whatever times the second call is made,
  -- it answers `unchanged` with no row, and the sales are as the first call left them.
  pub persist_report_twice :
      (started_again finished_again : ℕ) (s : Session)
      → let t = (persist_report env lower report started_at finished_at s).1 in
        let (r, t') = persist_report env lower report started_again finished_again t in
        (r ≡ ok (record { persisted_rows = 0; unchanged = true }))
        × (sales_tables t'.working ≡ sales_tables t.working)
  persist_report_twice started_again finished_again s =
      let t = (persist_report env lower report started_at finished_at s).1 in
      rw (persist_report_same env lower report started_again finished_again t (same_after s))
        (refl, refl)
