-- ===== src/Automation/Totals.antt =====
-- The amounts of a report's payments.
use dos_amigos_ops.Automation.Facts.{payment_total, same_category}
use dos_amigos_ops.Base.{
  List, [], ap, eq_of_parts, if◌then◌else◌, int_laws, pos, refl, ℤ, ◌+ℤ◌, ◌∙◌, ◌∷◌, ◌≡◌,
}
use dos_amigos_ops.Models.{IikoSalesDailyPayment, PaymentCategory}

-- What all the payments come to.
abbrev pub amount_of : List IikoSalesDailyPayment → ℤ
amount_of [] = pos 0
amount_of (p ∷ payments) = p.sales_amount +ℤ amount_of payments

-- The amounts of the four categories together.
abbrev pub four : ℤ → ℤ → ℤ → ℤ → ℤ
four a b c d = a +ℤ b +ℤ (c +ℤ d)

four_first : (x a b c d : ℤ) → four (x +ℤ a) b c d ≡ x +ℤ four a b c d
four_first x a b c d = eq_of_parts _ _ (omega int_laws)

four_second : (x a b c d : ℤ) → four a (x +ℤ b) c d ≡ x +ℤ four a b c d
four_second x a b c d = eq_of_parts _ _ (omega int_laws)

four_third : (x a b c d : ℤ) → four a b (x +ℤ c) d ≡ x +ℤ four a b c d
four_third x a b c d = eq_of_parts _ _ (omega int_laws)

four_fourth : (x a b c d : ℤ) → four a b c (x +ℤ d) ≡ x +ℤ four a b c d
four_fourth x a b c d = eq_of_parts _ _ (omega int_laws)

-- One more amount under a category.
one_more :
    (category : PaymentCategory) (x a b c d : ℤ)
    → let counted =
        λ (other : PaymentCategory) (n : ℤ). if same_category category other then x +ℤ n else n in
      four
        (counted PaymentCategory.cash a)
        (counted PaymentCategory.card b)
        (counted PaymentCategory.other c)
        (counted PaymentCategory.unknown d)
      ≡ x +ℤ four a b c d
one_more PaymentCategory.cash x a b c d = four_first x a b c d
one_more PaymentCategory.card x a b c d = four_second x a b c d
one_more PaymentCategory.other x a b c d = four_third x a b c d
one_more PaymentCategory.unknown x a b c d = four_fourth x a b c d

-- The three amounts that a report prints, cash, card and the others, come to what all the day's
-- payments come to: each payment is counted under one of them.
pub payment_total_lem :
    (payments : List IikoSalesDailyPayment)
    → let total = λ (category : PaymentCategory). payment_total category payments in
      total PaymentCategory.cash
        +ℤ total PaymentCategory.card
        +ℤ (total PaymentCategory.other +ℤ total PaymentCategory.unknown)
      ≡ amount_of payments
unfolding payment_total ◌+ℤ◌
payment_total_lem [] = refl
payment_total_lem (p ∷ payments) =
    let total = λ (category : PaymentCategory). payment_total category payments in
    let a = total PaymentCategory.cash in
    let b = total PaymentCategory.card in
    let c = total PaymentCategory.other in
    let d = total PaymentCategory.unknown in
    one_more p.payment_category p.sales_amount a b c d
    ∙ ap (λ (n : ℤ). p.sales_amount +ℤ n) (payment_total_lem payments)
