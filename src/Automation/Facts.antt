-- ===== src/Automation/Facts.antt =====
-- `_payment_totals`, `_daily_coo_facts` and `_daily_coo_attention`.
use dos_amigos_ops.Automation.Format.{
  comparison_percent, human_decimal, human_money, human_quantity, is_positive, percent, percent_of,
}
use dos_amigos_ops.Base.{
  Bool, List, Option, Text, [], any, codes, false, if◌then◌else◌, is_empty, none, not,
  option_text_eq, pos, some, take, true, ℤ, ◌&&◌, ◌++◌, ◌+ℤ◌, ◌∷◌,
}
use dos_amigos_ops.Decimal.{is_negative, magnitude}
use dos_amigos_ops.Models.{
  IikoSalesDaily, IikoSalesDailyPayment, IikoSalesDailyProduct, PaymentCategory, is_partial,
}

abbrev pub same_category : PaymentCategory → PaymentCategory → Bool
same_category PaymentCategory.cash PaymentCategory.cash = true
same_category PaymentCategory.card PaymentCategory.card = true
same_category PaymentCategory.other PaymentCategory.other = true
same_category PaymentCategory.unknown PaymentCategory.unknown = true
same_category _ _ = false

-- `_payment_totals(payments)[category]`
unfoldable pub payment_total : PaymentCategory → List IikoSalesDailyPayment → ℤ
payment_total category [] = pos 0
payment_total category (p ∷ payments) =
    let rest = payment_total category payments in
    if same_category p.payment_category category then p.sales_amount +ℤ rest else rest

abbrev pub has_unknown_payment : List IikoSalesDailyPayment → Bool
has_unknown_payment payments =
    any (λ (p : IikoSalesDailyPayment). same_category p.payment_category PaymentCategory.unknown)
      payments

-- The sentence on one comparison, where there is one.
unfoldable pub comparison_fact : Text → Option ℤ → List Text
unfolding human_decimal
comparison_fact label none = []
comparison_fact label (some n) =
    let share = human_decimal (percent (pos (magnitude n))) 1 ++ codes " %" in
    (if is_positive n
      then codes "Выручка выросла " ++ label ++ codes " на " ++ share ++ codes "."
      else if is_negative n
      then codes "Выручка снизилась " ++ label ++ codes " на " ++ share ++ codes "."
      else codes "Выручка не изменилась " ++ label ++ codes ".")
    ∷ []

abbrev pub sold_text : IikoSalesDailyProduct → Text
sold_text product =
    product.product_name_snapshot
    ++ codes " — "
    ++ human_quantity product.quantity
    ++ codes " / "
    ++ human_money product.net_sales

unfoldable pub leader_fact : List IikoSalesDailyProduct → List Text
leader_fact [] = []
leader_fact (leader ∷ products) = (codes "Лидер продаж: " ++ sold_text leader ++ codes ".") ∷ []

unfoldable pub discount_fact : IikoSalesDaily → List Text
unfolding human_decimal percent_of
discount_fact daily =
    if is_positive daily.gross_sales && is_positive daily.reported_discounts
    then (codes "Скидки составили "
        ++ human_decimal (percent (percent_of daily.reported_discounts daily.gross_sales)) 1
        ++ codes " % от валовой выручки.")
      ∷ []
    else []

-- `_daily_coo_facts`
unfoldable pub daily_coo_facts :
    IikoSalesDaily
    → List IikoSalesDailyProduct
    → Option IikoSalesDaily
    → Option IikoSalesDaily
    → List Text
unfolding comparison_fact comparison_percent leader_fact discount_fact
daily_coo_facts daily products previous_day previous_weekday = take 3 (
    comparison_fact (codes "к предыдущему дню") (comparison_percent daily.net_sales previous_day)
    ++ comparison_fact (codes "к тому же дню прошлой недели")
        (comparison_percent daily.net_sales previous_weekday)
    ++ leader_fact products
    ++ discount_fact daily)

-- The truth of an optional text.
abbrev pub is_given : Option Text → Bool
is_given none = false
is_given (some text) = not (is_empty text)

-- `[text] if c else []`
abbrev pub line_if : Bool → Text → List Text
line_if c text = if c then text ∷ [] else []

abbrev pub or_none_line : List Text → List Text
or_none_line [] = codes "нет" ∷ []
or_none_line (line ∷ lines) = line ∷ lines

abbrev pub is_discount_mismatch : Option Text → Bool
is_discount_mismatch code =
    option_text_eq code (some (codes "IIKO_DISCOUNT_RECONCILIATION_MISMATCH"))

-- `_daily_coo_attention`
unfoldable pub daily_coo_attention : IikoSalesDaily → List IikoSalesDailyPayment → List Text
daily_coo_attention daily payments = or_none_line (
    (if is_discount_mismatch daily.reconciliation_error_code
      then (codes "В iiko обнаружено расхождение между суммой скидок и итоговой выручкой. "
          ++ codes "Продажи загружены, но показатель скидок требует сверки.")
        ∷ []
      else line_if (is_partial daily.result_status)
          (codes "Часть показателей не удалось подтвердить полностью; требуется сверка с iiko.")
        ++ line_if (is_given daily.reconciliation_error_code)
            (codes "В iiko есть расхождение, требующее ручной сверки."))
    ++ line_if (has_unknown_payment payments) (codes "Есть оплаты без подтверждённой категории."))
