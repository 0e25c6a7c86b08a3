-- ===== src/Coo/Only.antt =====
-- Rows of which one is the only one with its id.
use dos_amigos_ops.Base.{
  All, Bool, Bool-cases, List, [], arith, false, find, inl, inr, insert_by, order_by, refl, some,
  subst, true, update_where, where_rows, ◌++◌, ◌∷◌, ◌≡◌,
}
use dos_amigos_ops.Coo.Outbox.{first_row}
use dos_amigos_ops.Models.{HermesReportOutbox}

module _ {A : Type 0} (p : A → Bool) where
  pub where_rows-append :
      (xs : List A) (y : A) → p y ≡ false → where_rows p (xs ++ y ∷ []) ≡ where_rows p xs
  unfolding where_rows
  where_rows-append [] y h = rw h refl
  where_rows-append (x ∷ xs) y h = rw (where_rows-append xs y h) refl

  -- Rows that do not meet the condition are written over with one that does not.
  pub where_rows-update :
      (q : A → Bool) (r : A) (xs : List A)
      → p r ≡ false
      → ((x : A) → q x ≡ true → p x ≡ false)
      → where_rows p (update_where q (λ _. r) xs) ≡ where_rows p xs
  unfolding where_rows update_where
  where_rows-update q r [] h k = refl
  where_rows-update q r (x ∷ xs) h k = elim (Bool-cases (q x)) [
    | inl hit ↦ rw hit (rw (where_rows-update q r xs h k) (rw h (rw (k x hit) refl)))
    | inr miss ↦ rw miss (rw (where_rows-update q r xs h k) refl)
  ]

  -- Each row that meets the condition is this one.
  abbrev pub Only : A → List A → Type 0
  Only row = All (λ (x : A). p x ≡ true → x ≡ row)

  none-Only : (row : A) (xs : List A) → where_rows p xs ≡ [] → Only row xs
  unfolding where_rows
  none-Only row [] h = tt
  none-Only row (x ∷ xs) h = elim (Bool-cases (p x)) [
    | inl hit ↦ absurd (ground (arith, h, hit))
    | inr miss ↦ ((λ hit. cc), none-Only row xs (ground (arith, h, miss)))
  ]

  pub one-Only : (row : A) (xs : List A) → where_rows p xs ≡ row ∷ [] → Only row xs
  unfolding where_rows
  one-Only row [] h = cc
  one-Only row (x ∷ xs) h = elim (Bool-cases (p x)) [
    | inl hit ↦ ((λ _. ground (arith, h, hit)), none-Only row xs (ground (arith, h, hit)))
    | inr miss ↦ ((λ hit. cc), one-Only row xs (ground (arith, h, miss)))
  ]

module _ {A : Type 0} (P : A → Type 0) where
  pub All-find : (q : A → Bool) (xs : List A) (x : A) → All P xs → find q xs ≡ some x → P x
  unfolding find
  All-find q [] x h e = cc
  All-find q (y ∷ xs) x (h, rest) e = elim (Bool-cases (q y)) [
    | inl hit ↦ subst P (ground (arith, e, hit)) h
    | inr miss ↦ All-find q xs x rest (ground (arith, e, miss))
  ]

  pub All-where_rows : (q : A → Bool) (xs : List A) → All P xs → All P (where_rows q xs)
  unfolding where_rows
  All-where_rows q [] h = tt
  All-where_rows q (x ∷ xs) (h, rest) = elim (Bool-cases (q x)) [
    | inl hit ↦ rw hit (h, All-where_rows q xs rest)
    | inr miss ↦ rw miss (All-where_rows q xs rest)
  ]

  All-insert_by :
      (precedes : A → A → Bool) (x : A) (ys : List A)
      → P x
      → All P ys
      → All P (insert_by precedes x ys)
  unfolding insert_by
  All-insert_by precedes x [] h k = (h, tt)
  All-insert_by precedes x (y ∷ ys) h (k, rest) = elim (Bool-cases (precedes x y)) [
    | inl first ↦ rw first (h, (k, rest))
    | inr later ↦ rw later (k, All-insert_by precedes x ys h rest)
  ]

  pub All-order_by :
      (precedes : A → A → Bool) (xs : List A) → All P xs → All P (order_by precedes xs)
  unfolding order_by
  All-order_by precedes [] h = tt
  All-order_by precedes (x ∷ xs) (h, rest) =
      All-insert_by precedes x (order_by precedes xs) h (All-order_by precedes xs rest)

module _ (P : HermesReportOutbox → Type 0) where
  pub All-first :
      (rows : List HermesReportOutbox) (x : HermesReportOutbox)
      → All P rows
      → first_row rows ≡ some x
      → P x
  All-first [] x h e = cc
  All-first (y ∷ rows) x (h, rest) e = subst P (cc e) h
