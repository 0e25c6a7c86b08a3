-- ===== src/Coo/Changes.antt =====
-- `_payload_changes` with its snapshots. Each `Decimal(text)` of a text that is no number raises
-- `decimal.InvalidOperation`, which is `none` here.
use dos_amigos_ops.Base.{
  List, Option, Text, [], codes, if◌then◌else◌, is_empty, keys, lookup, none, or_else, pos, some,
  text_eq, text_leb, ℕ, ◌++◌, ◌∷◌,
}
use dos_amigos_ops.Coo.Numerals.{decimal_eq, format_money, format_quantity}
use dos_amigos_ops.Decimal.{Decimal, add, digits, parse_decimal}
use dos_amigos_ops.Models.{Change, PayloadJson, PaymentEntry, ProductEntry, SalesPayload}

module _ {A B : Type 0} where
  abbrev pub on_some : (A → Option B) → Option A → Option B
  on_some f none = none
  on_some f (some a) = f a

abbrev pub append_changes : Option (List Change) → Option (List Change) → Option (List Change)
append_changes none b = none
append_changes (some xs) none = none
append_changes (some xs) (some ys) = some (xs ++ ys)

abbrev pub change : Text → Text → Text → List Change
change label old new = record { label = label; old = old; new = new } ∷ []

abbrev pub change_between : Text → Option Decimal → Option Decimal → Option (List Change)
change_between label none b = none
change_between label (some a) none = none
change_between label (some a) (some b) = some (change label (format_money a) (format_money b))

-- A figure that is an amount.
unfoldable pub money_change : Text → Text → Text → Option (List Change)
unfolding parse_decimal format_money
money_change label old new =
    if text_eq old new
    then some []
    else change_between label (parse_decimal old) (parse_decimal new)

-- The figure that is an integer.
unfoldable pub count_change : Text → ℕ → ℕ → Option (List Change)
unfolding digits
count_change label old new =
    if text_eq (digits old) (digits new)
    then some []
    else some (change label (digits old) (digits new))

-- `labels`
unfoldable pub figure_changes : SalesPayload → SalesPayload → Option (List Change)
unfolding money_change count_change
figure_changes previous current =
    append_changes (money_change (codes "Выручка") previous.net_sales current.net_sales) (
      append_changes
        (money_change (codes "Валовая выручка") previous.gross_sales current.gross_sales)
        (append_changes
          (money_change (codes "Скидки") previous.reported_discounts current.reported_discounts)
          (append_changes (count_change (codes "Чеков") previous.checks_count current.checks_count)
            (append_changes
              (money_change (codes "Средний чек") previous.average_check current.average_check)
              (money_change (codes "Возвраты") previous.refunds current.refunds)))))

-- `_payment_label`
unfoldable pub payment_label : Text → Text
payment_label category =
    if text_eq category (codes "cash")
    then codes "Наличные"
    else if text_eq category (codes "card")
    then codes "Карта"
    else if text_eq category (codes "other")
    then codes "Другие оплаты"
    else if text_eq category (codes "unknown")
    then codes "Оплаты без категории"
    else category

unfoldable pub insert_key : Text → List Text → List Text
unfolding text_leb
insert_key key [] = key ∷ []
insert_key key (k ∷ ks) =
    let rest = insert_key key ks in
    if text_eq key k then k ∷ ks else if text_leb key k then key ∷ k ∷ ks else k ∷ rest

-- `sorted(set(keys))`
unfoldable pub sorted_keys : List Text → List Text
unfolding insert_key
sorted_keys [] = []
sorted_keys (key ∷ ks) = insert_key key (sorted_keys ks)

abbrev pub zero_decimal : Decimal
zero_decimal = record { coefficient = pos 0; places = 0 }

-- One more amount under a label.
abbrev pub added : Text → Decimal → List (Text × Decimal) → List (Text × Decimal)
added label amount totals =
    (label, add (or_else (lookup label totals) zero_decimal) amount) ∷ totals

-- `_payments_snapshot`: the totals so far, of which the entry in front counts, and those of the
-- other payments.
unfoldable pub payments_snapshot :
    List (Text × Decimal) → List PaymentEntry → Option (List (Text × Decimal))
unfolding parse_decimal payment_label lookup add
payments_snapshot totals [] = some totals
payments_snapshot totals (p ∷ payments) =
    on_some
      (λ (amount : Decimal).
        payments_snapshot (added (payment_label p.category) amount totals) payments)
      (parse_decimal p.amount)

abbrev pub amount_under : Text → List (Text × Decimal) → Decimal
amount_under label totals = or_else (lookup label totals) zero_decimal

unfoldable pub payment_changes :
    List (Text × Decimal) → List (Text × Decimal) → List Text → List Change
unfolding lookup decimal_eq format_money
payment_changes previous current [] = []
payment_changes previous current (label ∷ labels) =
    let old = amount_under label previous in
    let new = amount_under label current in
    (if decimal_eq old new then [] else change label (format_money old) (format_money new))
    ++ payment_changes previous current labels

-- `_products_snapshot`, of which the entry in front counts
unfoldable pub products_snapshot :
    List (Text × ProductEntry) → List ProductEntry → List (Text × ProductEntry)
products_snapshot entries [] = entries
products_snapshot entries (p ∷ products) =
    products_snapshot
      ((p.product_id, record p { name = if is_empty p.name then p.product_id else p.name })
        ∷ entries)
      products

abbrev pub quantity_and_money : Option Decimal → Option Decimal → Option Text
quantity_and_money none b = none
quantity_and_money (some a) none = none
quantity_and_money (some a) (some b) = some (format_quantity a ++ codes " / " ++ format_money b)

-- `_format_product_change`
unfoldable pub format_product_change : Option ProductEntry → Option Text
unfolding parse_decimal format_quantity format_money
format_product_change none = some (codes "нет")
format_product_change (some p) =
    quantity_and_money (parse_decimal p.quantity) (parse_decimal p.net_sales)

-- The label of a product's change; the name stands for the product's id where it is empty.
abbrev pub label_of : Option ProductEntry → Text
label_of none = codes "Товар"
label_of (some p) = if is_empty p.name then codes "Товар" else p.name

abbrev pub either_entry : Option ProductEntry → Option ProductEntry → Option ProductEntry
either_entry none old = old
either_entry (some p) old = some p

abbrev pub change_unless_same : Text → Option Text → Option Text → Option (List Change)
change_unless_same label none b = none
change_unless_same label (some a) none = none
change_unless_same label (some a) (some b) =
    if text_eq a b then some [] else some (change label a b)

unfoldable pub product_changes :
    List (Text × ProductEntry) → List (Text × ProductEntry) → List Text → Option (List Change)
unfolding lookup format_product_change
product_changes previous current [] = some []
product_changes previous current (id ∷ ids) =
    let old = lookup id previous in
    let new = lookup id current in
    append_changes
      (change_unless_same (label_of (either_entry new old)) (format_product_change old)
        (format_product_change new))
      (product_changes previous current ids)

-- The part on the payments, once both are read.
abbrev pub payments_between :
    Option (List (Text × Decimal)) → Option (List (Text × Decimal)) → Option (List Change)
payments_between none b = none
payments_between (some a) none = none
payments_between (some a) (some b) = some (payment_changes a b (sorted_keys (keys a ++ keys b)))

abbrev pub products_between :
    List (Text × ProductEntry) → List (Text × ProductEntry) → Option (List Change)
products_between a b = product_changes a b (sorted_keys (keys a ++ keys b))

-- `_payload_changes` of two sales payloads
unfoldable pub sales_changes : SalesPayload → SalesPayload → Option (List Change)
unfolding figure_changes payments_snapshot payment_changes products_snapshot product_changes
    sorted_keys
sales_changes previous current = append_changes (figure_changes previous current) (
    append_changes
      (payments_between (payments_snapshot [] previous.payments)
        (payments_snapshot [] current.payments))
      (products_between (products_snapshot [] previous.top_products)
        (products_snapshot [] current.top_products)))

-- Where one of the two is no sales payload its figures are `None`, which is no number; where
-- neither is, there is nothing that differs.
unfoldable pub payload_changes : PayloadJson → PayloadJson → Option (List Change)
unfolding sales_changes
payload_changes (PayloadJson.sales previous) (PayloadJson.sales current) =
    sales_changes previous current
payload_changes (PayloadJson.sales previous) _ = none
payload_changes _ (PayloadJson.sales current) = none
payload_changes _ _ = some []
