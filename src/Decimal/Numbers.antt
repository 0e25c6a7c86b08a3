-- ===== src/Decimal/Numbers.antt =====
-- `decimal.Decimal` for finite numbers: `coefficient` times ten to the power -`places`.
use dos_amigos_ops.Base.{
  Bool, Text, [], codes, false, if◌then◌else◌, leb, length, ltb, max, negsuc, not, pos, suc, true,
  zero, ℕ, ℤ, ◌%◌, ◌&&◌, ◌*◌, ◌++◌, ◌+ℤ◌, ◌+◌, ◌-◌, ◌/◌, ◌==◌,
}
use dos_amigos_ops.Decimal.Digits.{digits, last_digits}

pub record Decimal : Type 0 where
  pub coefficient : ℤ
  pub places : ℕ

unfoldable pub power_of_ten : ℕ → ℕ
power_of_ten zero = 1
power_of_ten (suc n) = 10 * power_of_ten n

abbrev pub magnitude : ℤ → ℕ
magnitude (pos n) = n
magnitude (negsuc n) = suc n

abbrev pub negate : ℕ → ℤ
negate zero = pos 0
negate (suc n) = negsuc n

abbrev pub is_negative : ℤ → Bool
is_negative (pos n) = false
is_negative (negsuc n) = true

-- The number with this magnitude and the sign of another one.
abbrev pub signed_as : ℤ → ℕ → ℤ
signed_as (pos _) n = pos n
signed_as (negsuc _) n = negate n

-- Rounding `n / d` to a whole number: ROUND_HALF_UP, and the default ROUND_HALF_EVEN.
unfoldable pub half_up : ℕ → ℕ → ℕ
half_up n d = (2 * n + d) / (2 * d)

unfoldable pub half_even : ℕ → ℕ → ℕ
half_even n d =
    let q = n / d in
    if ltb d (2 * (n % d)) then q + 1 else if 2 * (n % d) == d then q + q % 2 else q

-- `value.quantize(...)`: the coefficient at so many places.
unfoldable pub quantize : (ℕ → ℕ → ℕ) → ℕ → Decimal → ℤ
unfolding power_of_ten
quantize round places d =
    if leb d.places places
    then signed_as d.coefficient (magnitude d.coefficient * power_of_ten (places - d.places))
    else signed_as d.coefficient
        (round (magnitude d.coefficient) (power_of_ten (d.places - places)))

-- The coefficient at more places.
unfoldable pub at_places : ℕ → Decimal → ℤ
unfolding power_of_ten
at_places places d =
    signed_as d.coefficient (magnitude d.coefficient * power_of_ten (places - d.places))

unfoldable pub add : Decimal → Decimal → Decimal
unfolding at_places
add a b =
    let places = max a.places b.places in
    record { coefficient = at_places places a +ℤ at_places places b; places = places }

-- The context's precision.
abbrev pub precision : ℕ
precision = 28

-- A result of at most so many digits, where `n` times ten to the power -`places` has more.
unfoldable pub to_precision : ℕ → ℕ → ℕ × ℕ
unfolding half_even power_of_ten digits
to_precision n places =
    let extra = length (digits n) - precision in
    (half_even n (power_of_ten extra) * power_of_ten (extra - places), places - extra)

-- `a / b` for positive numbers of the same scale and of at most 28 digits: the quotient, with a digit that tells whether the
-- division came out even, rounded to the context's precision.
unfoldable pub quotient : ℕ → ℕ → ℕ × ℕ
unfolding to_precision digits power_of_ten
quotient a b =
    let shift = length (digits b) + precision + 1 - length (digits a) in
    let n = a * power_of_ten shift in
    let q = n / b in to_precision (if not (n % b == 0) && q % 5 == 0 then q + 1 else q) shift

-- `format(value, "f")`
unfoldable pub format_f : Decimal → Text
unfolding digits last_digits power_of_ten
format_f d =
    let n = magnitude d.coefficient in
    (if is_negative d.coefficient then codes "-" else [])
    ++ digits (n / power_of_ten d.places)
    ++ (if d.places == 0 then [] else codes "." ++ last_digits d.places n)
