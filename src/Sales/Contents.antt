-- ===== src/Sales/Contents.antt =====
-- What the tables of sales hold of a day.
use dos_amigos_ops.Base.{
  All, Bool, List, Text, [], arith, false, find, map, refl, some, text_eq, text_eq_iff, true,
  where_rows, ℕ, ◌&&◌, ◌++◌, ◌==◌, ◌∷◌, ◌≡◌,
}
use dos_amigos_ops.Models.{IikoSalesDailyPayment, IikoSalesDailyProduct, Tables}
use dos_amigos_ops.Sales.Report.{NormalizedSalesReport, SalesPaymentSummary, SalesProductSummary}
use dos_amigos_ops.Sales.Repository.{daily_row, delete_where, get_daily, payment_of, product_of}

-- The entries that the rows of a day stand for.
abbrev pub payment_summary : IikoSalesDailyPayment → SalesPaymentSummary
payment_summary row = record {
  organization_id = row.organization_id;
  business_date = row.business_date;
  payment_type_id = row.payment_type_id;
  payment_type_name = row.payment_type_name;
  payment_category = row.payment_category;
  sales_amount = row.sales_amount;
  refund_amount = row.refund_amount;
  transactions_count = row.transactions_count;
}

abbrev pub product_summary : IikoSalesDailyProduct → SalesProductSummary
product_summary row = record {
  organization_id = row.organization_id;
  business_date = row.business_date;
  product_id = row.product_id;
  product_name_snapshot = row.product_name_snapshot;
  product_size_id = row.product_size_id;
  quantity = row.quantity;
  gross_sales = row.gross_sales;
  discounts = row.discounts;
  net_sales = row.net_sales;
  refund_quantity = row.refund_quantity;
  refund_amount = row.refund_amount;
}

-- What the tables of sales hold of a day.
abbrev pub payments_of : Text → ℕ → Tables → List IikoSalesDailyPayment
payments_of org day db = where_rows (payment_of org day) db.payments

abbrev pub products_of : Text → ℕ → Tables → List IikoSalesDailyProduct
products_of org day db = where_rows (product_of org day) db.products

-- Every entry of a report is of the report's day.
abbrev pub OfDay : NormalizedSalesReport → Type 0
OfDay report =
    All
      (λ (p : SalesPaymentSummary).
        (text_eq p.organization_id report.daily.organization_id
          && p.business_date == report.daily.business_date)
        ≡ true)
      report.payments
    × All
        (λ (p : SalesProductSummary).
          (text_eq p.organization_id report.daily.organization_id
            && p.business_date == report.daily.business_date)
          ≡ true)
        report.products

-- The day holds the report, and every other day what it held.
pub record Replaced (report : NormalizedSalesReport) (finished_at : ℕ) (a b : Tables) : Type 0 where
  pub daily :
      get_daily report.daily.organization_id report.daily.business_date b
      ≡ some (daily_row report.daily finished_at)
  pub payments :
      map payment_summary (payments_of report.daily.organization_id report.daily.business_date b)
      ≡ report.payments
  pub products :
      map product_summary (products_of report.daily.organization_id report.daily.business_date b)
      ≡ report.products
  pub other_daily :
      (org : Text) (day : ℕ)
      → (text_eq report.daily.organization_id org && report.daily.business_date == day) ≡ false
      → get_daily org day b ≡ get_daily org day a
  pub other_payments :
      (org : Text) (day : ℕ)
      → (text_eq report.daily.organization_id org && report.daily.business_date == day) ≡ false
      → payments_of org day b ≡ payments_of org day a
  pub other_products :
      (org : Text) (day : ℕ)
      → (text_eq report.daily.organization_id org && report.daily.business_date == day) ≡ false
      → products_of org day b ≡ products_of org day a

pub find-append_miss :
    {A : Type 0} (p : A → Bool) (xs : List A) (y : A)
    → p y ≡ false
    → find p (xs ++ y ∷ []) ≡ find p xs
unfolding find
find-append_miss p [] y h = rw h refl
find-append_miss p (x ∷ xs) y h = ground (arith, find-append_miss p xs y)

pub find-delete_where_ne :
    {A : Type 0} (p q : A → Bool) (xs : List A)
    → ((x : A) → p x ≡ true → q x ≡ false)
    → find q (delete_where p xs) ≡ find q xs
unfolding find delete_where where_rows
find-delete_where_ne p q [] h = refl
find-delete_where_ne p q (x ∷ xs) h = ground (arith, find-delete_where_ne p q xs h, h x)

-- A row of one day is of no other.
pub other_day :
    (org org' : Text) (day day' : ℕ) (o : Text) (d : ℕ)
    → (text_eq org org' && day == day') ≡ false
    → (text_eq o org && d == day) ≡ true
    → (text_eq o org' && d == day') ≡ false
other_day org org' day day' o d h k = ground (arith, text_eq_iff o org)

pub where_rows_none :
    {A : Type 0} (p : A → Bool) (xs : List A) → All (λ x. p x ≡ false) xs → where_rows p xs ≡ []
unfolding where_rows
where_rows_none p [] h = refl
where_rows_none p (x ∷ xs) (h, rest) = rw h (where_rows_none p xs rest)

pub All-map {ℓ} :
    {A : Type ℓ} (P Q : A → Type 0) (xs : List A) → ((x : A) → P x → Q x) → All P xs → All Q xs
All-map P Q [] f h = tt
All-map P Q (x ∷ xs) f (h, rest) = (f x h, All-map P Q xs f rest)
