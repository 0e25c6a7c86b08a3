-- ===== src/Decimal/Digits.antt =====
-- Numbers in decimal notation.
-- The digits of a number; fuel above the number is enough.
use dos_amigos_ops.Base.{
  Text, [], false, if◌then◌else◌, is_empty, ltb, suc, true, zero, ℕ, ◌%◌, ◌&&◌, ◌*◌, ◌++◌, ◌+◌, ◌-◌,
  ◌/◌, ◌==◌, ◌∷◌,
}

unfoldable pub digits_from : ℕ → ℕ → Text
digits_from zero n = []
digits_from (suc fuel) n = elim (ltb n 10) [
  | true ↦ (48 + n) ∷ []
  | false ↦ digits_from fuel (n / 10) ++ (48 + n % 10) ∷ []
]

-- `str(n)`
unfoldable pub digits : ℕ → Text
unfolding digits_from
digits n = digits_from (suc n) n

-- The last `width` digits, with leading zeros.
unfoldable pub last_digits : ℕ → ℕ → Text
last_digits zero n = []
last_digits (suc width) n = last_digits width (n / 10) ++ (48 + n % 10) ∷ []

-- Fuel above the number is enough here too.
unfoldable pub grouped_from : ℕ → ℕ → Text
unfolding digits last_digits
grouped_from zero n = []
grouped_from (suc fuel) n = elim (ltb n 1000) [
  | true ↦ digits n
  | false ↦ grouped_from fuel (n / 1000) ++ 32 ∷ last_digits 3 n
]

-- `f"{n:,}".replace(",", " ")`
unfoldable pub grouped : ℕ → Text
unfolding grouped_from
grouped n = grouped_from (suc n) n

-- `text.rstrip("0")`
unfoldable pub strip_zeros : Text → Text
strip_zeros [] = []
strip_zeros (c ∷ s) = let rest = strip_zeros s in if is_empty rest && c == 48 then [] else c ∷ rest

-- The number that a text of digits stands for.
unfoldable pub number_from : ℕ → Text → ℕ
number_from n [] = n
number_from n (c ∷ s) = number_from (n * 10 + (c - 48)) s
