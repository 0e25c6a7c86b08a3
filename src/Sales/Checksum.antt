-- ===== src/Sales/Checksum.antt =====
-- `_canonicalize` and `calculate_sales_checksum` of integrations/iiko/sales.py.
use dos_amigos_ops.Base.{Bool, List, Text, map, order_by, text_leb, ℕ}
use dos_amigos_ops.Calendar.{isoformat}
use dos_amigos_ops.Decimal.{format_f}
use dos_amigos_ops.Sales.Json.{Json, Row}

-- What `calculate_sales_checksum` dumps, once it is canonical.
pub record CanonicalPayload : Type 0 where
  pub business_date : Text
  pub daily_rows : List Row
  pub organization_id : Text
  pub payment_rows : List Row
  pub product_rows : List Row

-- `_canonicalize` of a value and of a row; a value that is `other` stays as it is.
unfoldable pub canonical_value : Json → Json
unfolding format_f isoformat
canonical_value (Json.decimal d) = Json.text (format_f d)
canonical_value (Json.date d) = Json.text (isoformat d)
canonical_value value = value

abbrev pub key_precedes : Text × Json → Text × Json → Bool
key_precedes a b = text_leb a.0 b.0

unfoldable pub canonical_row : Row → Row
unfolding text_leb canonical_value order_by
canonical_row row =
    order_by key_precedes (map (λ (e : Text × Json). (e.0, canonical_value e.1)) row)

-- `sha256` of the dumped payload, the dump of a row, and the map of payment categories.
pub record Normalizer : Type 0 where
  pub digest : CanonicalPayload → Text
  pub dumps : Row → Text
  pub payment_category_map : List (Text × Text)

module _ (self : Normalizer) (org : Text) (day : ℕ) where
  -- `_canonicalize` of a list of rows
  unfoldable pub canonical_rows : List Row → List Row
  unfolding canonical_row text_leb order_by
  canonical_rows rows =
      order_by (λ (a b : Row). text_leb (self.dumps a) (self.dumps b)) (map canonical_row rows)

  -- `calculate_sales_checksum`
  unfoldable pub calculate_sales_checksum : (daily payments products : List Row) → Text
  unfolding canonical_rows isoformat
  calculate_sales_checksum daily payments products = self.digest (record {
    business_date = isoformat day;
    daily_rows = canonical_rows daily;
    organization_id = org;
    payment_rows = canonical_rows payments;
    product_rows = canonical_rows products;
  })
