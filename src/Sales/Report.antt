-- ===== src/Sales/Report.antt =====
-- `NormalizedSalesReport` of integrations/iiko/sales.py, and the keys of its entries.
use dos_amigos_ops.Base.{
  List, Option, Text, [], codes, if◌then◌else◌, is_empty, none, not, some, ℕ, ℤ, ◌&&◌, ◌++◌, ◌∷◌,
}
use dos_amigos_ops.Models.{PaymentCategory, ResultStatus}
use dos_amigos_ops.Redaction.{is_space}

pub record SalesDailySummary : Type 0 where
  pub organization_id : Text
  pub business_date : ℕ
  pub currency_code : Option Text
  pub gross_sales : ℤ
  pub reported_discounts : ℤ
  pub reported_increases : ℤ
  pub net_sales : ℤ
  pub unexplained_adjustment : ℤ
  pub refunds : ℤ
  pub checks_count : ℕ
  pub guests_count : Option ℕ
  pub average_check : ℤ
  pub source_rows_count : ℕ
  pub source_checksum : Text
  pub result_status : ResultStatus
  pub reconciliation_error_code : Option Text

pub record SalesPaymentSummary : Type 0 where
  pub organization_id : Text
  pub business_date : ℕ
  pub payment_type_id : Option Text
  pub payment_type_name : Text
  pub payment_category : PaymentCategory
  pub sales_amount : ℤ
  pub refund_amount : ℤ
  pub transactions_count : Option ℕ

pub record SalesProductSummary : Type 0 where
  pub organization_id : Text
  pub business_date : ℕ
  pub product_id : Text
  pub product_name_snapshot : Text
  pub product_size_id : Option Text
  pub quantity : ℤ
  pub gross_sales : ℤ
  pub discounts : ℤ
  pub net_sales : ℤ
  pub refund_quantity : Option ℤ
  pub refund_amount : ℤ

pub record NormalizedSalesReport : Type 0 where
  pub daily : SalesDailySummary
  pub payments : List SalesPaymentSummary
  pub products : List SalesProductSummary

-- `text.split()`, with the word read so far
unfoldable pub split_words : Text → Text → List Text
split_words word [] = if is_empty word then [] else word ∷ []
split_words word (c ∷ s) =
    let rest = split_words (if is_space c then [] else word ++ c ∷ []) s in
    if is_space c && not (is_empty word) then word ∷ rest else rest

-- `" ".join(words)`
unfoldable pub join_words : List Text → Text
join_words [] = []
join_words (word ∷ []) = word
join_words (word ∷ next ∷ words) = word ++ 32 ∷ join_words (next ∷ words)

-- `normalized_name or 'unknown'`
abbrev pub name_or_unknown : Text → Text
name_or_unknown [] = codes "unknown"
name_or_unknown (c ∷ name) = c ∷ name

-- `SalesPaymentSummary.payment_type_key`, with `str.lower`
unfoldable pub payment_type_key : (Text → Text) → Option Text → Text → Text
unfolding split_words join_words
payment_type_key lower none name =
    codes "name:" ++ name_or_unknown (join_words (split_words [] (lower name)))
payment_type_key lower (some []) name =
    codes "name:" ++ name_or_unknown (join_words (split_words [] (lower name)))
payment_type_key lower (some (c ∷ id)) name = c ∷ id

-- `SalesProductSummary.product_size_key`
unfoldable pub product_size_key : Option Text → Text
product_size_key none = codes "__none__"
product_size_key (some []) = codes "__none__"
product_size_key (some (c ∷ id)) = c ∷ id
