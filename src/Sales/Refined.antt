-- ===== src/Sales/Refined.antt =====
-- The tables of sales as a function from an organization and a day to what is stored of it, and an
-- import on that function.
use dos_amigos_ops.Base.{
  ==_iff, ==_refl, Bool, Bool-cases, List, Option, Text, [], ap, arith, false, if◌then◌else◌, inl,
  inr, map, some, subst, text_eq, text_eq_refl, text_eq→eq, true, ℕ, ◌&&◌, ◌==◌, ◌∷◌, ◌≡◌,
}
use dos_amigos_ops.Base.Action.{Result}
use dos_amigos_ops.Models.{Env, IikoSalesDaily, Session, Tables}
use dos_amigos_ops.Sales.Contents.{
  OfDay, payment_summary, payments_of, product_summary, products_of,
}
use dos_amigos_ops.Sales.Day.{persist_report-Replaced}
use dos_amigos_ops.Sales.Persist.{persist_report_same}
use dos_amigos_ops.Sales.Report.{NormalizedSalesReport, SalesPaymentSummary, SalesProductSummary}
use dos_amigos_ops.Sales.Repository.{
  SalesPersistenceResult, daily_row, get_daily, persist_report, same_checksum,
}

-- What is stored of a day.
pub record DayEntry : Type 0 where
  pub daily : Option IikoSalesDaily
  pub payments : List SalesPaymentSummary
  pub products : List SalesProductSummary

abbrev pub Store : Type 0
Store = Text → ℕ → DayEntry

abbrev pub view : Tables → Store
view db org day = record {
  daily = get_daily org day db;
  payments = map payment_summary (payments_of org day db);
  products = map product_summary (products_of org day db);
}

-- A report to be stored, with the times of its import.
pub record Import : Type 0 where
  pub report : NormalizedSalesReport
  pub started_at : ℕ
  pub finished_at : ℕ

abbrev pub is_day_of : NormalizedSalesReport → Text → ℕ → Bool
is_day_of report org day =
    text_eq report.daily.organization_id org && report.daily.business_date == day

abbrev pub entry_of : Import → DayEntry
entry_of i = record {
  daily = some (daily_row i.report.daily i.finished_at);
  payments = i.report.payments;
  products = i.report.products;
}

-- An import on the function: its day's entry is the report's, unless the checksum is the same.
unfoldable pub put : Import → Store → Store
put i f org day =
    if is_day_of i.report org day
    then (if same_checksum (f org day).daily i.report.daily then f org day else entry_of i)
    else f org day

unfoldable pub replay : List Import → Store → Store
replay [] f = f
replay (i ∷ imports) f = replay imports (put i f)

own_day :
    (report : NormalizedSalesReport) (org : Text) (day : ℕ)
    → is_day_of report org day ≡ true
    → (report.daily.organization_id ≡ org) × (report.daily.business_date ≡ day)
own_day report org day h = (
  text_eq→eq report.daily.organization_id org (ground (arith, h)),
  (==_iff report.daily.business_date day).0 (ground (arith, h)),
)

module _ (env : Env) (lower : Text → Text) where
  abbrev pub after : Import → Session → Tables
  after i s = (persist_report env lower i.report i.started_at i.finished_at s).1.working

  -- With the same checksum no table of sales changes.
  same_view :
      (i : Import) (s : Session)
      → same_checksum
          (get_daily i.report.daily.organization_id i.report.daily.business_date s.working)
          i.report.daily
        ≡ true
      → view (after i s) ≡ view s.working
  same_view i s same =
      ap (λ (p : Result SalesPersistenceResult × Session). view p.1.working)
        (persist_report_same env lower i.report i.started_at i.finished_at s same)

  other_day_view :
      (i : Import) (s : Session) (org : Text) (day : ℕ)
      → OfDay i.report
      → is_day_of i.report org day ≡ false
      → view (after i s) org day ≡ view s.working org day
  other_day_view i s org day entries other =
      elim (Bool-cases (
        same_checksum
          (get_daily i.report.daily.organization_id i.report.daily.business_date s.working)
          i.report.daily)) [
            | inl same ↦ ap (λ (f : Store). f org day) (same_view i s same)
            | inr new ↦
                let replaced =
                  (persist_report-Replaced env lower i.report i.started_at i.finished_at s entries
                    new).0 in
                λ j. record {
                  daily = replaced.other_daily org day other j;
                  payments = map payment_summary (replaced.other_payments org day other j);
                  products = map product_summary (replaced.other_products org day other j);
                }
          ]

  own_day_view :
      (i : Import) (s : Session)
      → OfDay i.report
      → let org = i.report.daily.organization_id in
        let day = i.report.daily.business_date in
        view (after i s) org day ≡ put i (view s.working) org day
  unfolding put
  own_day_view i s entries =
      let org = i.report.daily.organization_id in
      let day = i.report.daily.business_date in
      rw (text_eq_refl org) (
        rw (==_refl day)
          (elim (Bool-cases (same_checksum (get_daily org day s.working) i.report.daily)) [
            | inl same ↦ rw same (ap (λ (f : Store). f org day) (same_view i s same))
            | inr new ↦
                let replaced =
                  (persist_report-Replaced env lower i.report i.started_at i.finished_at s entries
                    new).0 in
                rw new (λ j. record {
                  daily = replaced.daily j;
                  payments = replaced.payments j;
                  products = replaced.products j;
                })
          ]))

  pub persist_report-view :
      (i : Import) (s : Session) (org : Text) (day : ℕ)
      → OfDay i.report
      → view (after i s) org day ≡ put i (view s.working) org day
  unfolding put
  persist_report-view i s org day entries = elim (Bool-cases (is_day_of i.report org day)) [
    | inl own ↦
        let (org_same, day_same) = own_day i.report org day own in
        subst (λ (o : Text). view (after i s) o day ≡ put i (view s.working) o day) org_same
          (subst
            (λ (d : ℕ).
              view (after i s) i.report.daily.organization_id d
              ≡ put i (view s.working) i.report.daily.organization_id d)
            day_same (own_day_view i s entries))
    | inr other ↦ rw other (other_day_view i s org day entries other)
  ]
