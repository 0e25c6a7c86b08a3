-- ===== src/Coo/Numerals.antt =====
-- The comparison of two amounts, and `_format_money` and `_format_quantity`.
use dos_amigos_ops.Automation.{fraction_part, is_zero}
use dos_amigos_ops.Base.{Bool, Text, [], codes, if◌then◌else◌, max, ◌%◌, ◌++◌, ◌-ℤ◌, ◌/◌, ◌==◌}
use dos_amigos_ops.Decimal.{
  Decimal, at_places, digits, grouped, half_up, is_negative, last_digits, magnitude, quantize,
  strip_zeros,
}

-- `a == b` on decimals
unfoldable pub decimal_eq : Decimal → Decimal → Bool
unfolding at_places
decimal_eq a b =
    let places = max a.places b.places in is_zero (at_places places a -ℤ at_places places b)

-- `_format_money`
unfoldable pub format_money : Decimal → Text
unfolding quantize half_up grouped last_digits
format_money value =
    let n = quantize half_up 2 value in
    (if is_negative n then codes "-" else [])
    ++ grouped (magnitude n / 100)
    ++ (if magnitude n % 100 == 0 then [] else codes "," ++ last_digits 2 (magnitude n % 100))
    ++ codes " ₽"

-- `_format_quantity`
unfoldable pub format_quantity : Decimal → Text
unfolding quantize half_up digits last_digits strip_zeros
format_quantity value =
    let n = quantize half_up 4 value in
    (if is_negative n then codes "-" else [])
    ++ digits (magnitude n / 10_000)
    ++ fraction_part (strip_zeros (last_digits 4 (magnitude n % 10_000)))
    ++ codes " шт."
