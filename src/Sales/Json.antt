-- ===== src/Sales/Json.antt =====
-- The values of a row of iiko's OLAP answer, and what integrations/iiko/sales.py reads from them.
use dos_amigos_ops.Base.{
  Bool, List, Text, [], codes, false, if◌then◌else◌, is_empty, leb, length, lookup, not, or_else,
  true, ℕ, ℤ, ◌++◌, ◌+◌, ◌-◌, ◌==◌, ◌∷◌,
}
use dos_amigos_ops.Base.Action.{Exn}
use dos_amigos_ops.Calendar.{isoformat}
use dos_amigos_ops.Decimal.{Decimal, digits, format_f, is_negative, magnitude}

-- What `json` gives for a value, and the decimals and dates that the client may put in its place.
-- A float, a list or a dictionary is `other`, with its `str`.
pub data Json : Type 0 where
  null : Json
  boolean : Bool → Json
  integer : ℤ → Json
  decimal : Decimal → Json
  text : Text → Json
  date : ℕ → Json
  other : Text → Json

abbrev pub Row : Type 0
Row = List (Text × Json)

-- What reading a value gives: the value, a `SalesNormalizationError` with its code and message, or
-- another exception.
pub data Parsed (A : Type 0) : Type 0 where
  parsed : A → Parsed A
  refused : (error_code message : Text) → Parsed A
  threw : Exn → Parsed A

abbrev pub and_then : {A B : Type 0} → Parsed A → (A → Parsed B) → Parsed B
and_then (parsed a) f = f a
and_then (refused code message) f = refused code message
and_then (threw e) f = threw e

-- `row.get(name)`, and `row.get(name, default)`
unfoldable pub get : Row → Text → Json
unfolding lookup
get row name = or_else (lookup name row) Json.null

unfoldable pub get_or : Row → Text → Json → Json
unfolding lookup
get_or row name default = or_else (lookup name row) default

abbrev pub sign_text : ℤ → Text
sign_text n = if is_negative n then codes "-" else []

-- `digits[:1] + "." + digits[1:]`
abbrev pub pointed : Text → Text
pointed [] = []
pointed (d ∷ []) = d ∷ []
pointed (d ∷ e ∷ ds) = d ∷ codes "." ++ e ∷ ds

-- `str(Decimal)`: with an exponent where the first digit stands seven or more places behind the
-- point.
unfoldable pub decimal_str : Decimal → Text
unfolding digits format_f
decimal_str d =
    let ds = digits (magnitude d.coefficient) in
    if leb d.places (length ds + 5)
    then format_f d
    else sign_text d.coefficient ++ pointed ds ++ codes "E-" ++ digits (d.places + 1 - length ds)

-- `str(value)`
unfoldable pub str : Json → Text
unfolding digits decimal_str isoformat
str Json.null = codes "None"
str (Json.boolean b) = if b then codes "True" else codes "False"
str (Json.integer n) = sign_text n ++ digits (magnitude n)
str (Json.decimal d) = decimal_str d
str (Json.text t) = t
str (Json.date d) = isoformat d
str (Json.other t) = t

-- The truth of a value; a float, a list or a dictionary counts as true.
unfoldable pub is_truthy : Json → Bool
is_truthy Json.null = false
is_truthy (Json.boolean b) = b
is_truthy (Json.integer n) = not (magnitude n == 0)
is_truthy (Json.decimal d) = not (magnitude d.coefficient == 0)
is_truthy (Json.text t) = not (is_empty t)
is_truthy (Json.date d) = true
is_truthy (Json.other t) = true
