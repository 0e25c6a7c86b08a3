-- ===== src/OutboxApi/Pending.antt =====
-- What `pending_reports` returns, and in which order.
use mathlib.Core.List.{Perm}
use mathlib.Core.List.Perm
use dos_amigos_ops.Base.{
  All, Bool, Bool-cases, List, Option, Text, [], arith, false, inl, inr, map, refl, suc, take, true,
  where_rows, zero, ℕ, ◌||◌, ◌∷◌, ◌≡◌, ◌≢◌, ◌≤◌,
}
use dos_amigos_ops.Base.Action.{ok}
use dos_amigos_ops.Models.{DeliveryStatus, HermesReportOutbox, Session, Tables}
use dos_amigos_ops.OutboxApi.Reports.{
  created_before, insert_row, is_selected, pending_reports, pending_response, select_pending,
  sort_rows, text_leb,
}

text_leb_total : (a b : Text) → (text_leb a b || text_leb b a) ≡ true
unfolding text_leb
text_leb_total [] b = refl
text_leb_total (x ∷ a) [] = refl
text_leb_total (x ∷ a) (y ∷ b) = ground (arith, text_leb_total a b)

text_leb_trans : (a b c : Text) → text_leb a b ≡ true → text_leb b c ≡ true → text_leb a c ≡ true
unfolding text_leb
text_leb_trans [] b c h k = refl
text_leb_trans (x ∷ a) [] c h k = cc
text_leb_trans (x ∷ a) (y ∷ b) [] h k = cc
text_leb_trans (x ∷ a) (y ∷ b) (z ∷ c) h k = ground (arith, text_leb_trans a b c)

pub created_before_total :
    (a b : HermesReportOutbox) → created_before a b ≡ false → created_before b a ≡ true
unfolding created_before
created_before_total a b h = ground (arith, text_leb_total a.id b.id)

pub created_before_trans :
    (a b c : HermesReportOutbox)
    → created_before a b ≡ true
    → created_before b c ≡ true
    → created_before a c ≡ true
unfolding created_before
created_before_trans a b c h k = ground (arith, text_leb_trans a.id b.id c.id)

abbrev pub Before : HermesReportOutbox → List HermesReportOutbox → Type 0
Before x ys = All (λ y. created_before x y ≡ true) ys

-- Every row is created before those behind it, or has an id that comes first.
abbrev pub IsSorted : List HermesReportOutbox → Type 0
IsSorted [] = Unit
IsSorted (x ∷ xs) = Before x xs × IsSorted xs

Before-trans :
    (x y : HermesReportOutbox) (zs : List HermesReportOutbox)
    → created_before x y ≡ true
    → Before y zs
    → Before x zs
Before-trans x y [] h k = tt
Before-trans x y (z ∷ zs) h (k, rest) = (created_before_trans x y z h k, Before-trans x y zs h rest)

Before-insert_row :
    (x y : HermesReportOutbox) (zs : List HermesReportOutbox)
    → created_before y x ≡ true
    → Before y zs
    → Before y (insert_row x zs)
unfolding insert_row
Before-insert_row x y [] h k = (h, tt)
Before-insert_row x y (z ∷ zs) h (k, rest) = elim (Bool-cases (created_before x z)) [
  | inl first ↦ rw first (h, (k, rest))
  | inr later ↦ rw later (k, Before-insert_row x y zs h rest)
]

insert_row-IsSorted :
    (x : HermesReportOutbox) (ys : List HermesReportOutbox)
    → IsSorted ys
    → IsSorted (insert_row x ys)
unfolding insert_row
insert_row-IsSorted x [] h = (tt, tt)
insert_row-IsSorted x (y ∷ ys) (h, rest) = elim (Bool-cases (created_before x y)) [
  | inl first ↦ rw first ((first, Before-trans x y ys first h), (h, rest))
  | inr later ↦
      rw later
        (Before-insert_row x y ys (created_before_total x y later) h, insert_row-IsSorted x ys rest)
]

sort_rows-IsSorted : (xs : List HermesReportOutbox) → IsSorted (sort_rows xs)
unfolding sort_rows
sort_rows-IsSorted [] = tt
sort_rows-IsSorted (x ∷ xs) = insert_row-IsSorted x (sort_rows xs) (sort_rows-IsSorted xs)

insert_row-perm :
    (x : HermesReportOutbox) (ys : List HermesReportOutbox) → Perm (insert_row x ys) (x ∷ ys)
unfolding insert_row
insert_row-perm x [] = Perm.refl (x ∷ [])
insert_row-perm x (y ∷ ys) = elim (Bool-cases (created_before x y)) [
  | inl first ↦ rw first (Perm.refl (x ∷ y ∷ ys))
  | inr later ↦ rw later (Perm.trans (Perm.cons y (insert_row-perm x ys)) (Perm.swap x y ys))
]

sort_rows-perm : (xs : List HermesReportOutbox) → Perm (sort_rows xs) xs
unfolding sort_rows
sort_rows-perm [] = Perm.refl []
sort_rows-perm (x ∷ xs) =
    Perm.trans (insert_row-perm x (sort_rows xs)) (Perm.cons x (sort_rows-perm xs))

selected_waiting :
    (include_failed : Bool) (business_date : Option ℕ) (r : HermesReportOutbox)
    → is_selected include_failed business_date r ≡ true
    → r.delivery_status ≢ DeliveryStatus.delivering
selected_waiting include_failed business_date r h e = ground arith

module _ (P : HermesReportOutbox → Type 0) where
  All-insert_row :
      (x : HermesReportOutbox) (ys : List HermesReportOutbox)
      → P x
      → All P ys
      → All P (insert_row x ys)
  unfolding insert_row
  All-insert_row x [] h k = (h, tt)
  All-insert_row x (y ∷ ys) h (k, rest) = elim (Bool-cases (created_before x y)) [
    | inl first ↦ rw first (h, (k, rest))
    | inr later ↦ rw later (k, All-insert_row x ys h rest)
  ]

  All-sort_rows : (xs : List HermesReportOutbox) → All P xs → All P (sort_rows xs)
  unfolding sort_rows
  All-sort_rows [] h = tt
  All-sort_rows (x ∷ xs) (h, rest) = All-insert_row x (sort_rows xs) h (All-sort_rows xs rest)

  All-take : (n : ℕ) (xs : List HermesReportOutbox) → All P xs → All P (take n xs)
  All-take zero xs h = tt
  All-take (suc n) [] h = tt
  All-take (suc n) (x ∷ xs) (h, rest) = (h, All-take n xs rest)

  All-where_rows :
      (p : HermesReportOutbox → Bool) (xs : List HermesReportOutbox)
      → ((x : HermesReportOutbox) → p x ≡ true → P x)
      → All P (where_rows p xs)
  unfolding where_rows
  All-where_rows p [] f = tt
  All-where_rows p (x ∷ xs) f = elim (Bool-cases (p x)) [
    | inl kept ↦ rw kept (f x kept, All-where_rows p xs f)
    | inr dropped ↦ rw dropped (All-where_rows p xs f)
  ]

-- No row that is with a publisher is selected.
pub select_pending_waiting :
    (limit : ℕ) (business_date : Option ℕ) (include_failed : Bool) (db : Tables)
    → All
        (λ (r : HermesReportOutbox). r.delivery_status ≢ DeliveryStatus.delivering)
        (select_pending limit business_date include_failed db)
unfolding select_pending
select_pending_waiting limit business_date include_failed db =
    let P = λ (r : HermesReportOutbox). r.delivery_status ≢ DeliveryStatus.delivering in
    let chosen = where_rows (is_selected include_failed business_date) db.outbox in
    All-take P limit (sort_rows chosen) (
      All-sort_rows P chosen (
        All-where_rows P (is_selected include_failed business_date) db.outbox
          (λ r h e. selected_waiting include_failed business_date r h e)))

-- For a limit from 1 to 100 the answer lists the first `limit` rows, in the order of their creation
-- and then of their ids, of exactly those rows that are pending, or failed where failed ones are
-- asked for, on the given date, if one is given. The session does not change.
pub pending_reports_lem :
    (limit : ℕ) (business_date : Option ℕ) (include_failed : Bool) (s : Session)
    → 1 ≤ limit
    → limit ≤ 100
    → (sorted : List HermesReportOutbox) × Perm sorted
        (where_rows (is_selected include_failed business_date) s.working.outbox)
      × IsSorted sorted
      × (pending_reports limit business_date include_failed s
          ≡ (ok (map pending_response (take limit sorted)), s))
unfolding pending_reports
pending_reports_lem limit business_date include_failed s low high =
    let rows : List HermesReportOutbox =
      where_rows (is_selected include_failed business_date) s.working.outbox in
    (sort_rows rows, sort_rows-perm rows, sort_rows-IsSorted rows, ground arith)
