-- ===== src/Coo/Same.antt =====
-- The comparison of a payload with itself.
use dos_amigos_ops.Automation.{
  ReportRows, cents, is_zero, money, payment_entry, product_entry, report_json, ten_thousandths,
}
use dos_amigos_ops.Base.{
  All, Bool-cases, List, Option, Text, [], ap, arith, codes, if◌then◌else◌, inl, inr, is_empty,
  keys, lookup, map, max, none, pos, refl, some, text_eq, text_eq_refl, true, ℕ, ℤ, ◌++◌, ◌-ℤ◌, ◌∙◌,
  ◌∷◌, ◌≡◌,
}
use dos_amigos_ops.Coo.Changes.{
  added, amount_under, append_changes, change_unless_same, count_change, either_entry,
  figure_changes, format_product_change, label_of, money_change, on_some, payload_changes,
  payment_changes, payment_label, payments_between, payments_snapshot, product_changes,
  products_between, products_snapshot, quantity_and_money, sales_changes, sorted_keys,
}
use dos_amigos_ops.Coo.Numerals.{decimal_eq, format_money, format_quantity}
use dos_amigos_ops.Coo.Reading.{parse_decimal-format_f}
use dos_amigos_ops.Decimal.{Decimal, at_places, digits, parse_decimal, scan_number}
use dos_amigos_ops.Models.{
  Change, IikoSalesDailyPayment, IikoSalesDailyProduct, PayloadJson, PaymentEntry, ProductEntry,
  SalesPayload,
}

abbrev Parses : Text → Type 0
Parses t = (d : Decimal) × (parse_decimal t ≡ some d)

money-Parses : (value : ℤ) → Parses (money value)
unfolding money
money-Parses value = elim (Bool-cases (is_zero value)) [
  | inl nothing ↦
      rw nothing
        (record { coefficient = pos 0; places = 0 }, unfold parse_decimal scan_number in refl)
  | inr something ↦ rw something (cents value, parse_decimal-format_f (cents value))
]

money_change-same : (label t : Text) → money_change label t t ≡ some []
unfolding money_change
money_change-same label t = rw (text_eq_refl t) refl

count_change-same : (label : Text) (n : ℕ) → count_change label n n ≡ some []
unfolding count_change
count_change-same label n = rw (text_eq_refl (digits n)) refl

figure_changes-same : (p : SalesPayload) → figure_changes p p ≡ some []
unfolding figure_changes
figure_changes-same p = rw (money_change-same (codes "Выручка") p.net_sales) (
    rw (money_change-same (codes "Валовая выручка") p.gross_sales) (
      rw (money_change-same (codes "Скидки") p.reported_discounts) (
        rw (count_change-same (codes "Чеков") p.checks_count) (
          rw (money_change-same (codes "Средний чек") p.average_check)
            (rw (money_change-same (codes "Возвраты") p.refunds) refl)))))

minus_self : (a : ℤ) → is_zero (a -ℤ a) ≡ true
unfolding ◌-ℤ◌
minus_self a = ground arith

decimal_eq_refl : (d : Decimal) → decimal_eq d d ≡ true
unfolding decimal_eq
decimal_eq_refl d = minus_self (at_places (max d.places d.places) d)

payment_changes-same :
    (totals : List (Text × Decimal)) (labels : List Text)
    → payment_changes totals totals labels ≡ []
unfolding payment_changes
payment_changes-same totals [] = refl
payment_changes-same totals (label ∷ labels) =
    rw (decimal_eq_refl (amount_under label totals)) (payment_changes-same totals labels)

payments_snapshot-some :
    (totals : List (Text × Decimal)) (payments : List PaymentEntry)
    → All (λ (p : PaymentEntry). Parses p.amount) payments
    → (b : List (Text × Decimal)) × (payments_snapshot totals payments ≡ some b)
unfolding payments_snapshot
payments_snapshot-some totals [] h = (totals, refl)
payments_snapshot-some totals (p ∷ payments) ((amount, e), rest) =
    let (b, k) =
      payments_snapshot-some (added (payment_label p.category) amount totals) payments rest in
    (
      b,
      ap
            (on_some (λ (d : Decimal).
              payments_snapshot (added (payment_label p.category) d totals) payments))
            e
          ∙ k,
    )

payments_between-same :
    (payments : List PaymentEntry)
    → All (λ (p : PaymentEntry). Parses p.amount) payments
    → payments_between (payments_snapshot [] payments) (payments_snapshot [] payments) ≡ some []
payments_between-same payments h =
    let (b, e) = payments_snapshot-some [] payments h in
    ap (λ (o : Option (List (Text × Decimal))). payments_between o o) e
    ∙ ap (λ (l : List Change). some l) (payment_changes-same b (sorted_keys (keys b ++ keys b)))

-- The figures of a product are numbers.
abbrev Readable : Text × ProductEntry → Type 0
Readable e = Parses e.1.quantity × Parses e.1.net_sales

abbrev ReadableEntry : ProductEntry → Type 0
ReadableEntry p = Parses p.quantity × Parses p.net_sales

products_snapshot-Readable :
    (entries : List (Text × ProductEntry)) (products : List ProductEntry)
    → All Readable entries
    → All ReadableEntry products
    → All Readable (products_snapshot entries products)
unfolding products_snapshot
products_snapshot-Readable entries [] h k = h
products_snapshot-Readable entries (p ∷ products) h (k, rest) =
    products_snapshot-Readable
      ((p.product_id, record p { name = if is_empty p.name then p.product_id else p.name })
        ∷ entries)
      products (k, h) rest

abbrev Formatted : Option ProductEntry → Type 0
Formatted o = (t : Text) × (format_product_change o ≡ some t)

quantity_and_money-some :
    (a b : Option Decimal) (x y : Decimal)
    → a ≡ some x
    → b ≡ some y
    → (t : Text) × (quantity_and_money a b ≡ some t)
quantity_and_money-some (some a) (some b) x y e k =
    (format_quantity a ++ codes " / " ++ format_money b, refl)
quantity_and_money-some none b x y e k = cc
quantity_and_money-some (some a) none x y e k = cc

Formatted-entry : (p : ProductEntry) → ReadableEntry p → Formatted (some p)
unfolding format_product_change
Formatted-entry p ((q, e), (m, k)) =
    quantity_and_money-some (parse_decimal p.quantity) (parse_decimal p.net_sales) q m e k

Formatted-lookup :
    (id : Text) (entries : List (Text × ProductEntry))
    → All Readable entries
    → Formatted (lookup id entries)
unfolding lookup
Formatted-lookup id [] h = (codes "нет", unfold format_product_change in refl)
Formatted-lookup id ((k, p) ∷ entries) (h, rest) = elim (Bool-cases (text_eq k id)) [
  | inl hit ↦ rw hit (Formatted-entry p h)
  | inr miss ↦ rw miss (Formatted-lookup id entries rest)
]

change_unless_same_self :
    (label : Text) (o : Option Text) (t : Text)
    → o ≡ some t
    → change_unless_same label o o ≡ some []
change_unless_same_self label none t e = cc
change_unless_same_self label (some s) t e = rw (text_eq_refl s) refl

product_changes-same :
    (entries : List (Text × ProductEntry)) (ids : List Text)
    → All Readable entries
    → product_changes entries entries ids ≡ some []
unfolding product_changes
product_changes-same entries [] h = refl
product_changes-same entries (id ∷ ids) h =
    let o = format_product_change (lookup id entries) in
    let (t, e) = Formatted-lookup id entries h in
    let label = label_of (either_entry (lookup id entries) (lookup id entries)) in
    ap (λ (c : Option (List Change)). append_changes c (product_changes entries entries ids))
      (change_unless_same_self label o t e)
    ∙ ap (append_changes (some [])) (product_changes-same entries ids h)

sales_changes-same :
    (p : SalesPayload)
    → All (λ (e : PaymentEntry). Parses e.amount) p.payments
    → All ReadableEntry p.top_products
    → sales_changes p p ≡ some []
unfolding sales_changes
sales_changes-same p h k =
    let b = products_snapshot [] p.top_products in
    ap
      (λ (c : Option (List Change)). append_changes c (
        append_changes
          (payments_between (payments_snapshot [] p.payments) (payments_snapshot [] p.payments))
          (products_between b b)))
      (figure_changes-same p)
    ∙ ap
        (λ (c : Option (List Change)).
          append_changes (some []) (append_changes c (products_between b b)))
        (payments_between-same p.payments h)
    ∙ ap (λ (c : Option (List Change)). append_changes (some []) (append_changes (some []) c))
        (product_changes-same b (sorted_keys (keys b ++ keys b))
          (products_snapshot-Readable [] p.top_products tt k))

entries-Parses :
    (payments : List IikoSalesDailyPayment)
    → All (λ (e : PaymentEntry). Parses e.amount) (map payment_entry payments)
entries-Parses [] = tt
entries-Parses (p ∷ payments) = (money-Parses p.sales_amount, entries-Parses payments)

entries-Readable :
    (products : List IikoSalesDailyProduct) → All ReadableEntry (map product_entry products)
entries-Readable [] = tt
entries-Readable (p ∷ products) = (
  (
    (ten_thousandths p.quantity, parse_decimal-format_f (ten_thousandths p.quantity)),
    money-Parses p.net_sales,
  ),
  entries-Readable products,
)

-- A payload that is built from a day's rows differs in nothing from itself, and comparing it does
-- not raise: every figure in it is read back.
pub payload_changes-same :
    (rows : ReportRows)
    → payload_changes (PayloadJson.sales (report_json rows)) (PayloadJson.sales (report_json rows))
      ≡ some []
unfolding payload_changes report_json
payload_changes-same rows =
    sales_changes-same (report_json rows) (entries-Parses rows.payments)
      (entries-Readable rows.products)
