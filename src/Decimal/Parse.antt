-- ===== src/Decimal/Parse.antt =====
-- `Decimal(text)` for a number in plain notation, a sign and digits with at most one point.
use dos_amigos_ops.Base.{
  Bool, Option, Text, [], false, if◌then◌else◌, leb, none, not, pos, some, true, ℕ, ◌&&◌, ◌*◌, ◌+◌,
  ◌-◌, ◌==◌, ◌∷◌,
}
use dos_amigos_ops.Decimal.Numbers.{Decimal, negate}

abbrev pub is_digit : ℕ → Bool
is_digit c = leb 48 c && leb c 57

-- The number and its places, from what is read so far: whether a point was, and whether a digit.
unfoldable pub scan_number : (n places : ℕ) (pointed numbered : Bool) → Text → Option (ℕ × ℕ)
scan_number n places pointed numbered [] = if numbered then some (n, places) else none
scan_number n places pointed numbered (c ∷ s) =
    let next =
      scan_number (n * 10 + (c - 48)) (if pointed then places + 1 else places) pointed true s in
    let behind_point = scan_number n places true numbered s in
    if is_digit c then next else if c == 46 && not pointed then behind_point else none

abbrev pub signed_number : Bool → Option (ℕ × ℕ) → Option Decimal
signed_number negative none = none
signed_number negative (some (n, places)) =
    some (record { coefficient = if negative then negate n else pos n; places = places })

unfoldable pub parse_decimal : Text → Option Decimal
unfolding scan_number
parse_decimal [] = none
parse_decimal (c ∷ s) =
    if c == 45
    then signed_number true (scan_number 0 0 false false s)
    else if c == 43
    then signed_number false (scan_number 0 0 false false s)
    else signed_number false (scan_number 0 0 false false (c ∷ s))
