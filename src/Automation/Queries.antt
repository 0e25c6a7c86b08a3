-- ===== src/Automation/Queries.antt =====
-- `IikoSalesRepository.list_payments` and `list_top_products`. The order of texts is the
-- database's collation, a parameter: whether one text comes before another or ties with it.
use dos_amigos_ops.Base.{
  Bool, List, Text, codes, ltb_ℤ, not, order_by, take, where_rows, ℕ, ◌&&◌, ◌||◌,
}
use dos_amigos_ops.Models.{IikoSalesDailyPayment, IikoSalesDailyProduct, PaymentCategory, Tables}
use dos_amigos_ops.Sales.{payment_of, product_of}

-- The value of a category's column.
abbrev pub category_text : PaymentCategory → Text
category_text PaymentCategory.cash = codes "cash"
category_text PaymentCategory.card = codes "card"
category_text PaymentCategory.other = codes "other"
category_text PaymentCategory.unknown = codes "unknown"

module _ (collate : Text → Text → Bool) where
  -- Two sort keys: the second one decides where the first ones tie.
  abbrev pub then_by : (a_first b_first rest : Bool) → Bool
  then_by a_first b_first rest = a_first && (not b_first || rest)

  unfoldable pub payment_precedes : IikoSalesDailyPayment → IikoSalesDailyPayment → Bool
  payment_precedes a b =
      then_by (collate (category_text a.payment_category) (category_text b.payment_category))
        (collate (category_text b.payment_category) (category_text a.payment_category))
        (then_by (collate a.payment_type_name b.payment_type_name)
          (collate b.payment_type_name a.payment_type_name)
          (collate a.payment_type_key b.payment_type_key))

  -- Amounts and quantities in descending order.
  unfoldable pub product_precedes : IikoSalesDailyProduct → IikoSalesDailyProduct → Bool
  product_precedes a b =
      then_by (not (ltb_ℤ a.net_sales b.net_sales)) (not (ltb_ℤ b.net_sales a.net_sales)) (
        then_by (not (ltb_ℤ a.quantity b.quantity)) (not (ltb_ℤ b.quantity a.quantity)) (
          then_by (collate a.product_id b.product_id) (collate b.product_id a.product_id)
            (collate a.product_size_key b.product_size_key)))

  unfoldable pub list_payments : Text → ℕ → Tables → List IikoSalesDailyPayment
  unfolding order_by payment_precedes
  list_payments org day db = order_by payment_precedes (where_rows (payment_of org day) db.payments)

  unfoldable pub list_top_products : Text → ℕ → ℕ → Tables → List IikoSalesDailyProduct
  unfolding order_by product_precedes
  list_top_products org day limit db =
      take limit (order_by product_precedes (where_rows (product_of org day) db.products))
