-- ===== src/Automation/Format.antt =====
-- The amounts and percentages of the daily report: `money`, `_human_decimal` and what is built on
-- it, `_comparison_percent` and `_sales_comparison`.
use dos_amigos_ops.Base.{
  Bool, Option, Text, [], codes, if◌then◌else◌, none, not, pos, some, ℕ, ℤ, ◌%◌, ◌&&◌, ◌*◌, ◌++◌,
  ◌-ℤ◌, ◌/◌, ◌==◌, ◌||◌, ◌∷◌,
}
use dos_amigos_ops.Decimal.{
  Decimal, format_f, grouped, half_up, is_negative, last_digits, magnitude, negate, power_of_ten,
  quantize, quotient, strip_zeros,
}
use dos_amigos_ops.Models.{IikoSalesDaily}

-- A column of amounts, and one of quantities.
abbrev pub cents : ℤ → Decimal
cents n = record { coefficient = n; places = 2 }

abbrev pub ten_thousandths : ℤ → Decimal
ten_thousandths n = record { coefficient = n; places = 4 }

abbrev pub is_zero : ℤ → Bool
is_zero n = magnitude n == 0

abbrev pub is_positive : ℤ → Bool
is_positive n = not (is_negative n || is_zero n)

-- `money`, of an amount in cents
unfoldable pub money : ℤ → Text
unfolding format_f
money value = if is_zero value then codes "0" else format_f (cents value)

-- `",fraction"` where a fraction is left
abbrev pub fraction_part : Text → Text
fraction_part [] = []
fraction_part (c ∷ s) = codes "," ++ c ∷ s

-- What is rendered of a coefficient at so many places.
unfoldable pub human_coefficient : ℕ → ℤ → Text
unfolding grouped last_digits strip_zeros power_of_ten
human_coefficient places n =
    let scale = power_of_ten places in
    (if is_negative n then codes "-" else [])
    ++ grouped (magnitude n / scale)
    ++ fraction_part (strip_zeros (last_digits places (magnitude n % scale)))

-- `_human_decimal`
unfoldable pub human_decimal : Decimal → ℕ → Text
unfolding quantize half_up human_coefficient
human_decimal value places = human_coefficient places (quantize half_up places value)

-- `_human_money`
unfoldable pub human_money : ℤ → Text
unfolding human_decimal
human_money value = human_decimal (cents value) 2 ++ codes " ₽"

-- `_human_quantity`
unfoldable pub human_quantity : ℤ → Text
unfolding human_decimal
human_quantity value = human_decimal (ten_thousandths value) 4 ++ codes " шт."

abbrev pub has_sign_of : ℤ → ℤ → Bool
has_sign_of a b = is_negative a && is_negative b || not (is_negative a || is_negative b)

-- `(a / b * Decimal("100")).quantize(Decimal("0.1"), rounding=ROUND_HALF_UP)`: the coefficient at
-- one place.
unfoldable pub percent_of : ℤ → ℤ → ℤ
unfolding quotient quantize half_up
percent_of a b =
    let (n, places) = quotient (magnitude a) (magnitude b) in
    let scaled = n * 100 in
    quantize half_up 1 (record {
      coefficient = if has_sign_of a b then pos scaled else negate scaled;
      places = places;
    })

-- `_comparison_percent`
unfoldable pub comparison_percent : ℤ → Option IikoSalesDaily → Option ℤ
unfolding percent_of
comparison_percent current none = none
comparison_percent current (some previous) =
    if is_zero previous.net_sales
    then none
    else some (percent_of (current -ℤ previous.net_sales) previous.net_sales)

abbrev pub percent : ℤ → Decimal
percent n = record { coefficient = n; places = 1 }

-- `NO_COMPARISON_DATA`
abbrev pub no_comparison_data : Text
no_comparison_data = codes "нет данных для сравнения"

abbrev pub comparison_text : Option ℤ → Text
comparison_text none = no_comparison_data
comparison_text (some n) =
    (if is_positive n then codes "+" else []) ++ human_decimal (percent n) 1 ++ codes " %"

-- `_sales_comparison`
unfoldable pub sales_comparison : ℤ → Option IikoSalesDaily → Text
unfolding comparison_percent human_decimal
sales_comparison current previous = comparison_text (comparison_percent current previous)
