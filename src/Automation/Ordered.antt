-- ===== src/Automation/Ordered.antt =====
-- The order of the rows that a report lists.
use mathlib.Core.List.{Perm}
use mathlib.Core.List.Perm
use dos_amigos_ops.Automation.Queries.{list_top_products, product_precedes}
use dos_amigos_ops.Base.{
  Bool, Bool-cases, List, Text, [], arith, false, inl, inr, insert_by, order_by, refl, take, true,
  where_rows, ℕ, ◌∷◌, ◌≡◌,
}
use dos_amigos_ops.Models.{IikoSalesDailyProduct, Tables}
use dos_amigos_ops.Sales.{product_of}

module _ {A : Type 0} (precedes : A → A → Bool) where
  -- Each row may precede the next one.
  abbrev pub IsOrdered : List A → Type 0
  IsOrdered [] = Unit
  IsOrdered (x ∷ []) = Unit
  IsOrdered (x ∷ y ∷ ys) = (precedes x y ≡ true) × IsOrdered (y ∷ ys)

  insert_by-perm : (x : A) (ys : List A) → Perm (insert_by precedes x ys) (x ∷ ys)
  unfolding insert_by
  insert_by-perm x [] = Perm.refl (x ∷ [])
  insert_by-perm x (y ∷ ys) = elim (Bool-cases (precedes x y)) [
    | inl first ↦ rw first (Perm.refl (x ∷ y ∷ ys))
    | inr later ↦ rw later (Perm.trans (Perm.cons y (insert_by-perm x ys)) (Perm.swap x y ys))
  ]

  pub order_by-perm : (xs : List A) → Perm (order_by precedes xs) xs
  unfolding order_by
  order_by-perm [] = Perm.refl []
  order_by-perm (x ∷ xs) =
      Perm.trans (insert_by-perm x (order_by precedes xs)) (Perm.cons x (order_by-perm xs))

  module _ (total : (x y : A) → precedes x y ≡ false → precedes y x ≡ true) where
    -- A row that goes before x and the rest of an ordered list stays before what x is put into.
    insert_by-IsOrdered_after :
        (x y : A) (ys : List A)
        → precedes y x ≡ true
        → IsOrdered (y ∷ ys)
        → IsOrdered (y ∷ insert_by precedes x ys)
    unfolding insert_by
    insert_by-IsOrdered_after x y [] h k = (h, tt)
    insert_by-IsOrdered_after x y (z ∷ zs) h (k, rest) = elim (Bool-cases (precedes x z)) [
      | inl first ↦ rw first (h, (first, rest))
      | inr later ↦ rw later (k, insert_by-IsOrdered_after x z zs (total x z later) rest)
    ]

    insert_by-IsOrdered : (x : A) (ys : List A) → IsOrdered ys → IsOrdered (insert_by precedes x ys)
    unfolding insert_by
    insert_by-IsOrdered x [] h = tt
    insert_by-IsOrdered x (y ∷ ys) h = elim (Bool-cases (precedes x y)) [
      | inl first ↦ rw first (first, h)
      | inr later ↦ rw later (insert_by-IsOrdered_after x y ys (total x y later) h)
    ]

    pub order_by-IsOrdered : (xs : List A) → IsOrdered (order_by precedes xs)
    unfolding order_by
    order_by-IsOrdered [] = tt
    order_by-IsOrdered (x ∷ xs) =
        insert_by-IsOrdered x (order_by precedes xs) (order_by-IsOrdered xs)

module _ (collate : Text → Text → Bool)
    (total : (s t : Text) → collate s t ≡ false → collate t s ≡ true) where
  product_precedes_total :
      (a b : IikoSalesDailyProduct)
      → product_precedes collate a b ≡ false
      → product_precedes collate b a ≡ true
  unfolding product_precedes
  product_precedes_total a b h = ground (
    arith,
    total a.product_id b.product_id,
    total a.product_size_key b.product_size_key,
    total b.product_id a.product_id,
  )

  -- For a collation in which of two texts one goes before the other, the products of a report are
  -- the first ones, ten of them or as many as asked for, of exactly the day's products of the
  -- organization, ordered by the net sales and then the quantity, the largest first, and by their
  -- product's and their size's key where these tie.
  pub list_top_products_lem :
      (org : Text) (day limit : ℕ) (db : Tables)
      → (rows : List IikoSalesDailyProduct) × Perm rows
          (where_rows (product_of org day) db.products)
        × IsOrdered (product_precedes collate) rows
        × (list_top_products collate org day limit db ≡ take limit rows)
  unfolding list_top_products
  list_top_products_lem org day limit db =
      let rows = where_rows (product_of org day) db.products in
      (
        order_by (product_precedes collate) rows,
        order_by-perm (product_precedes collate) rows,
        order_by-IsOrdered (product_precedes collate) product_precedes_total rows,
        refl,
      )
