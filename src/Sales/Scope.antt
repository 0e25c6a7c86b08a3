-- ===== src/Sales/Scope.antt =====
-- The rows that a report is normalised from, and the day of its entries.
use dos_amigos_ops.Base.{
  ==_iff, ==_refl, All, Bool, Bool-cases, List, Text, [], ap, arith, codes, false, if◌then◌else◌,
  inl, inr, is_empty, not, refl, subst, text_eq, text_eq_refl, text_eq→eq, true, ℕ, ◌&&◌, ◌++◌,
  ◌==◌, ◌∙◌, ◌∷◌, ◌≡◌,
}
use dos_amigos_ops.OutboxApi.Lookup.{report}
use dos_amigos_ops.Sales.Checksum.{Normalizer}
use dos_amigos_ops.Sales.Contents.{OfDay}
use dos_amigos_ops.Sales.Json.{Parsed, Row, get, parsed, refused, str}
use dos_amigos_ops.Sales.Normalize.{
  Figures, OlapPayload, all_rows, group_of, guid_of, money_field, normalize_iiko_sales_payload,
  payment_from, payments_from, product_from, products_from, report_of, str_or,
}
use dos_amigos_ops.Sales.Parsing.{and_then_parsed, normalized-Read, parsed-injective}
use dos_amigos_ops.Sales.Report.{NormalizedSalesReport, SalesPaymentSummary, SalesProductSummary}
use dos_amigos_ops.Sales.Rows.{
  amount_field, categorize_payment, date_from_value, normal_sales_rows, validate_row,
  validate_row_scope,
}
use dos_amigos_ops.Sales.Sync.{Normalization}

-- The row is of the organization and of the day.
abbrev InScope : Text → ℕ → Row → Type 0
InScope org day row =
    (str (get row (codes "Department.Id")) ≡ org)
    × (date_from_value (get row (codes "OpenDate.Typed")) (codes "OpenDate.Typed") ≡ parsed day)

date_matches :
    (row_date day : ℕ) (r : Parsed ℕ)
    → r ≡ parsed row_date
    → (if row_date == day
        then parsed tt
        else refused (codes "business_date_mismatch") (codes "OLAP row date mismatch"))
      ≡ parsed tt
    → r ≡ parsed day
date_matches row_date day r e h = elim (Bool-cases (row_date == day)) [
  | inl hit ↦ e ∙ ap (λ (d : ℕ). parsed d) ((==_iff row_date day).0 hit)
  | inr miss ↦ absurd (ground (arith, h, miss))
]

-- A row of another organization is refused.
same_organization :
    (b : Bool) (rest : Parsed (Unit {0}))
    → (if not b
        then refused (codes "organization_mismatch") (codes "OLAP row organization mismatch")
        else rest)
      ≡ parsed tt
    → (b ≡ true) × (rest ≡ parsed tt)
same_organization true rest h = (refl, h)
same_organization false rest h = cc

validate_row-InScope :
    (org : Text) (day : ℕ) (row : Row) → validate_row org day row ≡ parsed tt → InScope org day row
unfolding validate_row
validate_row-InScope org day row h =
    let department = str (get row (codes "Department.Id")) in
    let read = date_from_value (get row (codes "OpenDate.Typed")) (codes "OpenDate.Typed") in
    let (same, rest) = same_organization (text_eq department org) _ h in
    let (row_date, e, k) = and_then_parsed read _ tt rest in
    (text_eq→eq department org same, date_matches row_date day read e k)

validate_row_scope-InScope :
    (org : Text) (day : ℕ) (rows : List Row)
    → validate_row_scope org day rows ≡ parsed tt
    → All (InScope org day) rows
unfolding validate_row_scope
validate_row_scope-InScope org day [] h = tt
validate_row_scope-InScope org day (row ∷ rows) h =
    let (u, first, rest) =
      and_then_parsed (validate_row org day row) (λ _. validate_row_scope org day rows) tt h in
    (validate_row-InScope org day row (cc first), validate_row_scope-InScope org day rows rest)

abbrev PaymentOn : Text → ℕ → SalesPaymentSummary → Type 0
PaymentOn org day p = (text_eq p.organization_id org && p.business_date == day) ≡ true

abbrev ProductOn : Text → ℕ → SalesProductSummary → Type 0
ProductOn org day p = (text_eq p.organization_id org && p.business_date == day) ≡ true

on_day : (org : Text) (day : ℕ) → (text_eq org org && day == day) ≡ true
on_day org day = rw (text_eq_refl org) (==_refl day)

module _ (self : Normalizer) (org : Text) (day : ℕ) where
  payment_from-PaymentOn :
      (row : Row) (p : SalesPaymentSummary)
      → payment_from self org day row ≡ parsed p
      → PaymentOn org day p
  unfolding payment_from
  payment_from-PaymentOn row p h =
      let (category, _, e0) =
        and_then_parsed (categorize_payment (group_of row) (guid_of row) self.payment_category_map)
          _ p h in
      let (amount, _, e1) = and_then_parsed (money_field row (codes "DishDiscountSumInt")) _ p e0 in
      let (refund, _, e2) = and_then_parsed (money_field row (codes "DishReturnSum")) _ p e1 in
      subst (PaymentOn org day) (parsed-injective _ p e2) (on_day org day)

  payments_from-PaymentOn :
      (rows : List Row) (ps : List SalesPaymentSummary)
      → payments_from self org day rows ≡ parsed ps
      → All (PaymentOn org day) ps
  unfolding payments_from
  payments_from-PaymentOn [] ps h = subst (All (PaymentOn org day)) (parsed-injective [] ps h) tt
  payments_from-PaymentOn (row ∷ rows) ps h =
      let (p, first, e1) = and_then_parsed (payment_from self org day row) _ ps h in
      let (rest, read, e2) = and_then_parsed (payments_from self org day rows) _ ps e1 in
      subst (All (PaymentOn org day)) (parsed-injective (p ∷ rest) ps e2)
        (payment_from-PaymentOn row p first, payments_from-PaymentOn rows rest read)

  -- A row with a product's id is read field by field.
  with_product :
      (b : Bool) (rest : Parsed SalesProductSummary) (p : SalesProductSummary)
      → (if b
          then refused (codes "missing_product_id") (codes "Product row is missing DishId")
          else rest)
        ≡ parsed p
      → rest ≡ parsed p
  with_product true rest p h = cc
  with_product false rest p h = h

  product_from-ProductOn :
      (row : Row) (p : SalesProductSummary)
      → product_from self org day row ≡ parsed p
      → ProductOn org day p
  unfolding product_from
  product_from-ProductOn row p h =
      let e0 = with_product (is_empty (str_or (get row (codes "DishId")) [])) _ p h in
      let (gross, _, e1) = and_then_parsed (money_field row (codes "DishSumInt")) _ p e0 in
      let (net, _, e2) = and_then_parsed (money_field row (codes "DishDiscountSumInt")) _ p e1 in
      let (quantity, _, e3) = and_then_parsed (amount_field row (codes "DishAmountInt")) _ p e2 in
      let (refund, _, e4) = and_then_parsed (money_field row (codes "DishReturnSum")) _ p e3 in
      subst (ProductOn org day) (parsed-injective _ p e4) (on_day org day)

  products_from-ProductOn :
      (rows : List Row) (ps : List SalesProductSummary)
      → products_from self org day rows ≡ parsed ps
      → All (ProductOn org day) ps
  unfolding products_from
  products_from-ProductOn [] ps h = subst (All (ProductOn org day)) (parsed-injective [] ps h) tt
  products_from-ProductOn (row ∷ rows) ps h =
      let (p, first, e1) = and_then_parsed (product_from self org day row) _ ps h in
      let (rest, read, e2) = and_then_parsed (products_from self org day rows) _ ps e1 in
      subst (All (ProductOn org day)) (parsed-injective (p ∷ rest) ps e2)
        (product_from-ProductOn row p first, products_from-ProductOn rows rest read)

  report_of-OfDay :
      (payload : OlapPayload) (f : Figures) (payments : List SalesPaymentSummary)
      (products : List SalesProductSummary)
      → All (PaymentOn org day) payments
      → All (ProductOn org day) products
      → let report = report_of self org day payload f payments products in
        OfDay report × (report.daily.organization_id ≡ org) × (report.daily.business_date ≡ day)
  unfolding report_of
  report_of-OfDay payload f payments products h k = ((h, k), refl, refl)

  -- A report that the normalisation makes is one of the day and the organization that it is asked
  -- for, with every entry; and every row of the three answers, counted or not, is of that day and
  -- that organization: a row of another one is never counted for them.
  pub normalize-OfDay :
      (payload : OlapPayload) (report : NormalizedSalesReport)
      → normalize_iiko_sales_payload self payload org day ≡ Normalization.normalized report
      → OfDay report
        × (report.daily.organization_id ≡ org)
        × (report.daily.business_date ≡ day)
        × All
            (λ (row : Row).
              (str (get row (codes "Department.Id")) ≡ org)
              × (date_from_value (get row (codes "OpenDate.Typed")) (codes "OpenDate.Typed")
                  ≡ parsed day))
            (payload.daily_rows ++ payload.payment_rows ++ payload.product_rows)
  normalize-OfDay payload report h =
      let read = normalized-Read self org day payload report h in
      let (entries, organization, date) =
        subst
          (λ (r : NormalizedSalesReport).
            OfDay r × (r.daily.organization_id ≡ org) × (r.daily.business_date ≡ day))
          read.made
          (report_of-OfDay payload read.figures read.payments read.products
            (payments_from-PaymentOn (normal_sales_rows payload.payment_rows) read.payments
              read.payments_read)
            (products_from-ProductOn (normal_sales_rows payload.product_rows) read.products
              read.products_read)) in
      (
        entries,
        organization,
        date,
        validate_row_scope-InScope org day (all_rows self org day payload) read.in_scope,
      )
