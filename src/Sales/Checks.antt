-- ===== src/Sales/Checks.antt =====
-- The status and the error codes of a normalised report.
use dos_amigos_ops.Base.{
  Bool, List, Option, Text, [], codes, if◌then◌else◌, ltb, none, some, ℤ, ◌++◌, ◌∷◌,
}
use dos_amigos_ops.Decimal.{magnitude}
use dos_amigos_ops.Models.{ResultStatus}

-- More than a cent.
abbrev pub over_cent : ℤ → Bool
over_cent amount = ltb 1 (magnitude amount)

abbrev pub first_code : List Text → Option Text
first_code [] = none
first_code (code ∷ codes_after) = some code

-- What the status depends on.
pub record Checks : Type 0 where
  pub discounts_differ : Bool
  pub category_open : Bool
  pub status_unknown : Bool
  pub payments_differ : Bool
  pub products_differ : Bool

abbrev pub code_if : Bool → Text → List Text
code_if c code = if c then code ∷ [] else []

-- `error_codes`
unfoldable pub error_codes : Checks → List Text
error_codes c =
    code_if c.discounts_differ (codes "IIKO_DISCOUNT_RECONCILIATION_MISMATCH")
    ++ code_if c.status_unknown (codes "unknown_order_status")
    ++ code_if c.payments_differ (codes "payment_total_mismatch")
    ++ code_if c.products_differ (codes "product_total_mismatch")

-- `result_status`, one assignment after the other
unfoldable pub status_of : Checks → ResultStatus
status_of c =
    let s1 = if c.discounts_differ then ResultStatus.partial else ResultStatus.proven in
    let s2 = if c.category_open then ResultStatus.partial else s1 in
    let s3 = if c.status_unknown then ResultStatus.unknown else s2 in
    let s4 = if c.payments_differ then ResultStatus.unknown else s3 in
    if c.products_differ then ResultStatus.unknown else s4
