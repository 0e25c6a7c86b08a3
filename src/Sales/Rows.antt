-- ===== src/Sales/Rows.antt =====
-- The helpers of `normalize_iiko_sales_payload`: fields, scope, and the rows that count.
use dos_amigos_ops.Base.{
  Bool, List, Option, Text, [], codes, drop, if◌then◌else◌, is_empty, leb, lookup, none, not, pos,
  some, take, text_eq, where_rows, ℕ, ℤ, ◌%◌, ◌&&◌, ◌++◌, ◌/◌, ◌==◌, ◌||◌, ◌∷◌,
}
use dos_amigos_ops.Base.Action.{exception}
use dos_amigos_ops.Calendar.{isoformat, to_ordinal}
use dos_amigos_ops.Decimal.{
  Decimal, add, half_even, is_negative, magnitude, number_from, parse_decimal, power_of_ten,
  quantize,
}
use dos_amigos_ops.Models.{PaymentCategory}
use dos_amigos_ops.Redaction.{is_space}
use dos_amigos_ops.Sales.Json.{
  Json, Parsed, Row, and_then, get, get_or, parsed, refused, str, threw,
}

-- `text.strip()`
unfoldable pub strip_left : Text → Text
strip_left [] = []
strip_left (c ∷ s) = let rest = strip_left s in if is_space c then rest else c ∷ s

unfoldable pub strip_right : Text → Text
strip_right [] = []
strip_right (c ∷ s) =
    let rest = strip_right s in if is_empty rest && is_space c then [] else c ∷ rest

abbrev pub invalid_decimal : Text → Parsed Decimal
invalid_decimal field_name =
    refused (codes "invalid_decimal_field")
      (codes "Field " ++ field_name ++ codes " must be Decimal-compatible")

abbrev pub zero_amount : Decimal
zero_amount = record { coefficient = pos 0; places = 0 }

-- `Decimal(text)`, which may raise
abbrev pub decimal_or_raise : Option Decimal → Parsed Decimal
decimal_or_raise none =
    threw (exception (codes "InvalidOperation") (codes "[<class 'decimal.ConversionSyntax'>]"))
decimal_or_raise (some d) = parsed d

-- `decimal_from_value`
unfoldable pub decimal_from_value : Json → Text → Parsed Decimal
unfolding strip_left strip_right parse_decimal
decimal_from_value Json.null field_name = parsed zero_amount
decimal_from_value (Json.decimal d) field_name = parsed d
decimal_from_value (Json.integer n) field_name = parsed (record { coefficient = n; places = 0 })
decimal_from_value (Json.boolean b) field_name =
    parsed (record { coefficient = if b then pos 1 else pos 0; places = 0 })
decimal_from_value (Json.text t) field_name =
    let stripped = strip_right (strip_left t) in
    decimal_or_raise (parse_decimal (if is_empty stripped then codes "0" else stripped))
decimal_from_value (Json.date d) field_name = invalid_decimal field_name
decimal_from_value (Json.other t) field_name = invalid_decimal field_name

-- `date.fromisoformat`, in the extended format of a calendar date: the date that is written so.
unfoldable pub from_isoformat : Text → Option ℕ
unfolding isoformat to_ordinal number_from
from_isoformat t =
    let year = number_from 0 (take 4 t) in
    let month = number_from 0 (take 2 (drop 5 t)) in
    let day = number_from 0 (take 2 (drop 8 t)) in
    let ordinal = to_ordinal (record { year = year; month = month; day = day }) in
    if leb 1 year && leb 1 month && leb month 12 && leb 1 day && text_eq (isoformat ordinal) t
    then some ordinal
    else none

abbrev pub date_or_raise : Text → Option ℕ → Parsed ℕ
date_or_raise t none =
    threw (exception (codes "ValueError") (codes "Invalid isoformat string: '" ++ t ++ codes "'"))
date_or_raise t (some d) = parsed d

-- `date_from_value`
unfoldable pub date_from_value : Json → Text → Parsed ℕ
unfolding from_isoformat
date_from_value (Json.date d) field_name = parsed d
date_from_value (Json.text t) field_name = date_or_raise (take 10 t) (from_isoformat (take 10 t))
date_from_value _ field_name =
    refused (codes "invalid_date_field") (codes "Field " ++ field_name ++ codes " is not a date")

-- `int_from_decimal`
unfoldable pub int_from_decimal : Decimal → Text → Parsed ℕ
unfolding power_of_ten
int_from_decimal value field_name =
    let scale = power_of_ten value.places in
    if not (magnitude value.coefficient % scale == 0)
    then refused (codes "invalid_integer_field")
        (codes "Field " ++ field_name ++ codes " is not integral")
    else if is_negative value.coefficient
    then refused (codes "invalid_integer_field")
        (codes "Field " ++ field_name ++ codes " is negative")
    else parsed (magnitude value.coefficient / scale)

-- `quantize_money`, in cents
unfoldable pub quantize_money : Decimal → ℤ
unfolding quantize half_even
quantize_money value = quantize half_even 2 value

-- `categorize_payment`
unfoldable pub category_of_group : Text → PaymentCategory
category_of_group group =
    if text_eq group (codes "CASH")
    then PaymentCategory.cash
    else if text_eq group (codes "CARD")
    then PaymentCategory.card
    else if text_eq group (codes "NON_CASH")
    then PaymentCategory.other
    else PaymentCategory.unknown

-- `PaymentCategory(value)`
unfoldable pub category_from_value : Text → Parsed PaymentCategory
category_from_value value =
    if text_eq value (codes "cash")
    then parsed PaymentCategory.cash
    else if text_eq value (codes "card")
    then parsed PaymentCategory.card
    else if text_eq value (codes "other")
    then parsed PaymentCategory.other
    else if text_eq value (codes "unknown")
    then parsed PaymentCategory.unknown
    else threw (
        exception (codes "ValueError")
          (codes "'" ++ value ++ codes "' is not a valid PaymentCategory"))

abbrev pub mapped_category : List (Text × Text) → Option Text → Option Text
mapped_category mapping none = none
mapped_category mapping (some guid) = if is_empty guid then none else lookup guid mapping

abbrev pub category_or_group : Option Text → Text → Parsed PaymentCategory
category_or_group none group = parsed (category_of_group group)
category_or_group (some value) group = category_from_value value

unfoldable pub categorize_payment : Text → Option Text → List (Text × Text) → Parsed PaymentCategory
unfolding category_of_group category_from_value lookup
categorize_payment group guid mapping = category_or_group (mapped_category mapping guid) group

abbrev pub storned_of : Row → Text
storned_of row = str (get_or row (codes "Storned") (Json.text []))

abbrev pub deleted_of : Row → Text
deleted_of row = str (get_or row (codes "OrderDeleted") (Json.text []))

-- The condition of a row that counts.
unfoldable pub is_normal : Row → Bool
unfolding str get_or
is_normal row =
    text_eq (storned_of row) (codes "FALSE") && text_eq (deleted_of row) (codes "NOT_DELETED")

-- `_normal_sales_rows`: the rows that count, and whether a row has an unknown value of `Storned` or
-- of `OrderDeleted`.
unfoldable pub normal_sales_rows : List Row → List Row
unfolding is_normal
normal_sales_rows rows = where_rows is_normal rows

unfoldable pub is_unknown_status : Row → Bool
unfolding is_normal str get_or
is_unknown_status row =
    not (is_normal row)
    && (not (text_eq (storned_of row) (codes "FALSE") || text_eq (storned_of row) (codes "TRUE"))
        || not (
            text_eq (deleted_of row) (codes "NOT_DELETED")
            || text_eq (deleted_of row) (codes "DELETED")))

-- `_validate_row_scope`
unfoldable pub validate_row : Text → ℕ → Row → Parsed (Unit {0})
unfolding str get date_from_value
validate_row org day row =
    if not (text_eq (str (get row (codes "Department.Id"))) org)
    then refused (codes "organization_mismatch") (codes "OLAP row organization mismatch")
    else and_then (date_from_value (get row (codes "OpenDate.Typed")) (codes "OpenDate.Typed"))
        (λ (row_date : ℕ).
          if row_date == day
          then parsed tt
          else refused (codes "business_date_mismatch") (codes "OLAP row date mismatch"))

unfoldable pub validate_row_scope : Text → ℕ → List Row → Parsed (Unit {0})
unfolding validate_row
validate_row_scope org day [] = parsed tt
validate_row_scope org day (row ∷ rows) =
    and_then (validate_row org day row) (λ _. validate_row_scope org day rows)

-- `decimal_from_value` of a field
unfoldable pub amount_field : Row → Text → Parsed Decimal
unfolding get decimal_from_value
amount_field row name = decimal_from_value (get row name) name

-- `_sum`, from a sum so far
unfoldable pub sum_from : Decimal → List Row → Text → Parsed Decimal
unfolding amount_field add
sum_from total [] name = parsed total
sum_from total (row ∷ rows) name =
    and_then (amount_field row name) (λ (d : Decimal). sum_from (add total d) rows name)

unfoldable pub sum_field : List Row → Text → Parsed Decimal
unfolding sum_from
sum_field rows name = sum_from zero_amount rows name
