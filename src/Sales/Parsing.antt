-- ===== src/Sales/Parsing.antt =====
-- What is known where a value was read.
use dos_amigos_ops.Base.{List, Text, refl, ℕ, ◌≡◌}
use dos_amigos_ops.OutboxApi.Lookup.{report}
use dos_amigos_ops.Sales.Checksum.{Normalizer}
use dos_amigos_ops.Sales.Json.{Parsed, and_then, parsed, refused, threw}
use dos_amigos_ops.Sales.Normalize.{
  Figures, OlapPayload, all_rows, figures_of, normalization_of, normalize_iiko_sales_payload,
  payments_from, products_from, read_report, report_of,
}
use dos_amigos_ops.Sales.Report.{NormalizedSalesReport, SalesPaymentSummary, SalesProductSummary}
use dos_amigos_ops.Sales.Rows.{normal_sales_rows, validate_row_scope}
use dos_amigos_ops.Sales.Sync.{Normalization}

pub and_then_parsed :
    {A B : Type 0} (m : Parsed A) (f : A → Parsed B) (b : B)
    → and_then m f ≡ parsed b
    → (a : A) × (m ≡ parsed a) × (f a ≡ parsed b)
and_then_parsed (parsed a) f b h = (a, refl, h)
and_then_parsed (refused code message) f b h = cc
and_then_parsed (threw e) f b h = cc

parsed_of :
    (r : Parsed NormalizedSalesReport) (report : NormalizedSalesReport)
    → normalization_of r ≡ Normalization.normalized report
    → r ≡ parsed report
parsed_of (parsed a) report h = cc h
parsed_of (refused code message) report h = cc
parsed_of (threw e) report h = cc

-- A report that comes out is made of what was read.
pub record Read (self : Normalizer) (org : Text) (day : ℕ) (payload : OlapPayload)
    (report : NormalizedSalesReport) : Type 0 where
  pub figures : Figures
  pub payments : List SalesPaymentSummary
  pub products : List SalesProductSummary
  pub in_scope : validate_row_scope org day (all_rows self org day payload) ≡ parsed tt
  pub payments_read :
      payments_from self org day (normal_sales_rows payload.payment_rows) ≡ parsed payments
  pub products_read :
      products_from self org day (normal_sales_rows payload.product_rows) ≡ parsed products
  pub made : report_of self org day payload figures payments products ≡ report

pub normalized-Read :
    (self : Normalizer) (org : Text) (day : ℕ) (payload : OlapPayload)
    (report : NormalizedSalesReport)
    → normalize_iiko_sales_payload self payload org day ≡ Normalization.normalized report
    → Read self org day payload report
unfolding normalize_iiko_sales_payload read_report
normalized-Read self org day payload report h =
    let (_, scope, e1) =
      and_then_parsed (validate_row_scope org day (all_rows self org day payload)) _ report
        (parsed_of (read_report self org day payload) report h) in
    let (figures, _, e2) =
      and_then_parsed (figures_of (normal_sales_rows payload.daily_rows)) _ report e1 in
    let (payments, paid, e3) =
      and_then_parsed (payments_from self org day (normal_sales_rows payload.payment_rows)) _ report
        e2 in
    let (products, sold, e4) =
      and_then_parsed (products_from self org day (normal_sales_rows payload.product_rows)) _ report
        e3 in
    record {
      figures = figures;
      payments = payments;
      products = products;
      in_scope = scope;
      payments_read = paid;
      products_read = sold;
      made = cc e4;
    }

pub parsed-injective : {A : Type 0} (a b : A) → parsed a ≡ parsed b → a ≡ b
parsed-injective a b h = cc h
