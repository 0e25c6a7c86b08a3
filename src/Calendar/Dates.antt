-- ===== src/Calendar/Dates.antt =====
-- The conversion of CPython's `_ord2ymd` and the two formats that the program uses.
use dos_amigos_ops.Base.{
  Bool, Text, codes, false, if◌then◌else◌, ltb, not, suc, true, zero, ℕ, ◌%◌, ◌&&◌, ◌*◌, ◌++◌, ◌+◌,
  ◌-◌, ◌/◌, ◌==◌, ◌||◌,
}
use dos_amigos_ops.Decimal.{last_digits}

pub record Ymd : Type 0 where
  pub year : ℕ
  pub month : ℕ
  pub day : ℕ

unfoldable pub is_leap : ℕ → Bool
is_leap y = y % 4 == 0 && (not (y % 100 == 0) || y % 400 == 0)

unfoldable pub days_in_month : ℕ → ℕ → ℕ
unfolding is_leap
days_in_month y m =
    if m == 2
    then (if is_leap y then 29 else 28)
    else if m == 4 || m == 6 || m == 9 || m == 11
    then 30
    else 31

unfoldable pub days_before_year : ℕ → ℕ
days_before_year y = let p = y - 1 in p * 365 + p / 4 - p / 100 + p / 400

-- The days of a year before a month of it, January being 1.
unfoldable pub days_before_month : ℕ → ℕ → ℕ
unfolding days_in_month
days_before_month y zero = 0
days_before_month y (suc zero) = 0
days_before_month y (suc (suc m)) = days_before_month y (suc m) + days_in_month y (suc m)

-- `date.toordinal`
unfoldable pub to_ordinal : Ymd → ℕ
unfolding days_before_year days_before_month
to_ordinal t = days_before_year t.year + days_before_month t.year t.month + t.day

-- The month, and the day in it, of a day of the year counted from zero: the first month, at or
-- after this one, that the day falls in, with so many months to go.
unfoldable pub month_from : (y left m n : ℕ) → ℕ × ℕ
unfolding days_in_month
month_from y zero m n = (m, n + 1)
month_from y (suc left) m n = elim (ltb n (days_in_month y m)) [
  | true ↦ (m, n + 1)
  | false ↦ month_from y left (m + 1) (n - days_in_month y m)
]

-- The year of an ordinal, and the day of the year counted from zero.
unfoldable pub year_of : ℕ → ℕ × ℕ
year_of ordinal =
    let n = ordinal - 1 in
    let n400 = n / 146_097 in
    let r400 = n % 146_097 in
    let n100 = r400 / 36_524 in
    let r100 = r400 % 36_524 in
    let n4 = r100 / 1461 in
    let r4 = r100 % 1461 in
    let n1 = r4 / 365 in
    let year = n400 * 400 + n100 * 100 + n4 * 4 + n1 + 1 in
    if n1 == 4 || n100 == 4 then (year - 1, 365) else (year, r4 % 365)

-- `date.fromordinal`
unfoldable pub from_ordinal : ℕ → Ymd
unfolding year_of month_from
from_ordinal ordinal =
    let (year, n) = year_of ordinal in
    let (month, day) = month_from year 11 1 n in record { year = year; month = month; day = day }

-- `date.isoformat()`
unfoldable pub isoformat : ℕ → Text
unfolding from_ordinal last_digits
isoformat ordinal =
    let t = from_ordinal ordinal in
    last_digits 4 t.year ++ codes "-" ++ last_digits 2 t.month ++ codes "-" ++ last_digits 2 t.day

-- `date.strftime("%d.%m.%Y")`, of a year from 1000 on
unfoldable pub day_month_year : ℕ → Text
unfolding from_ordinal last_digits
day_month_year ordinal =
    let t = from_ordinal ordinal in
    last_digits 2 t.day ++ codes "." ++ last_digits 2 t.month ++ codes "." ++ last_digits 4 t.year
