-- ===== src/Sales/Persist.antt =====
-- What `persist_report` leaves in the tables of sales.
use dos_amigos_ops.Base.{
  All, Bool, Bool-cases, List, Text, [], ap, append-nil, append_assoc, arith, false, find, inl, inr,
  length, none, refl, suc, true, where_rows, ℕ, ◌++◌, ◌+◌, ◌∙◌, ◌∷◌, ◌≡◌,
}
use dos_amigos_ops.Base.Action.{bind_ok, ok, pure, ◌>>◌}
use dos_amigos_ops.Models.{Env, IikoSalesDailyPayment, IikoSalesDailyProduct, Session, Tables}
use dos_amigos_ops.Sales.Report.{NormalizedSalesReport, SalesPaymentSummary, SalesProductSummary}
use dos_amigos_ops.Sales.Repository.{
  add_payments, add_products, add_sync_run, daily_of, daily_row, delete_where, get_daily,
  payment_of, payment_row, persist_report, product_of, product_row, replace_day, same_checksum,
  sync_run,
}

pub where_rows-append :
    {A : Type 0} (p : A → Bool) (xs ys : List A)
    → where_rows p (xs ++ ys) ≡ where_rows p xs ++ where_rows p ys
unfolding where_rows
where_rows-append p [] ys = refl
where_rows-append p (x ∷ xs) ys = elim (Bool-cases (p x)) [
  | inl here ↦ rw here (ap (λ l. x ∷ l) (where_rows-append p xs ys))
  | inr not_here ↦ rw not_here (where_rows-append p xs ys)
]

pub where_rows_all :
    {A : Type 0} (p : A → Bool) (xs : List A) → All (λ x. p x ≡ true) xs → where_rows p xs ≡ xs
unfolding where_rows
where_rows_all p [] h = refl
where_rows_all p (x ∷ xs) (h, rest) = rw h (ap (λ l. x ∷ l) (where_rows_all p xs rest))

-- No deleted row is left, and rows of another query are.
pub where_rows-delete_where :
    {A : Type 0} (p : A → Bool) (xs : List A) → where_rows p (delete_where p xs) ≡ []
unfolding where_rows delete_where
where_rows-delete_where p [] = refl
where_rows-delete_where p (x ∷ xs) = ground (arith, where_rows-delete_where p xs)

pub where_rows-delete_where_ne :
    {A : Type 0} (p q : A → Bool) (xs : List A)
    → ((x : A) → p x ≡ true → q x ≡ false)
    → where_rows q (delete_where p xs) ≡ where_rows q xs
unfolding where_rows delete_where
where_rows-delete_where_ne p q [] h = refl
where_rows-delete_where_ne p q (x ∷ xs) h = ground (arith, where_rows-delete_where_ne p q xs h, h x)

pub find-delete_where :
    {A : Type 0} (p : A → Bool) (xs : List A) → find p (delete_where p xs) ≡ none
unfolding find delete_where where_rows
find-delete_where p [] = refl
find-delete_where p (x ∷ xs) = ground (arith, find-delete_where p xs)

module _ (env : Env) (lower : Text → Text) (report : NormalizedSalesReport)
    (started_at finished_at : ℕ) where
  abbrev org : Text
  org = report.daily.organization_id

  abbrev day : ℕ
  day = report.daily.business_date

  -- The rows of the payments and of the products, with the ids drawn from here on.
  unfoldable pub payment_rows : ℕ → List SalesPaymentSummary → List IikoSalesDailyPayment
  payment_rows n [] = []
  payment_rows n (p ∷ ps) = payment_row lower (env.uuid n) p finished_at ∷ payment_rows (n + 1) ps

  unfoldable pub product_rows : ℕ → List SalesProductSummary → List IikoSalesDailyProduct
  product_rows n [] = []
  product_rows n (p ∷ ps) = product_row (env.uuid n) p finished_at ∷ product_rows (n + 1) ps

  add_payments_lem :
      (ps : List SalesPaymentSummary) (s : Session)
      → add_payments env lower finished_at ps s ≡ (
        ok tt,
        record s {
          working = record s.working { payments = s.working.payments ++ payment_rows s.draws ps };
          draws = s.draws + length ps;
        },
      )
  unfolding add_payments payment_rows
  add_payments_lem [] s =
      let e : s.working.payments ++ [] ≡ s.working.payments = append-nil s.working.payments in
      let n : s.draws + 0 ≡ s.draws = omega arith in rw (e, n) refl
  add_payments_lem (p ∷ ps) s =
      let row = payment_row lower (env.uuid s.draws) p finished_at in
      let s1 : Session = record s {
        working = record s.working { payments = s.working.payments ++ row ∷ [] };
        draws = s.draws + 1;
      } in
      let e = append_assoc s.working.payments (row ∷ []) (payment_rows (s.draws + 1) ps) in
      let n : s.draws + 1 + length ps ≡ s.draws + suc (length ps) = omega arith in
      add_payments_lem ps s1 ∙ rw (e, n) refl

  add_products_lem :
      (ps : List SalesProductSummary) (s : Session)
      → add_products env lower finished_at ps s ≡ (
        ok tt,
        record s {
          working = record s.working { products = s.working.products ++ product_rows s.draws ps };
          draws = s.draws + length ps;
        },
      )
  unfolding add_products product_rows
  add_products_lem [] s =
      let e : s.working.products ++ [] ≡ s.working.products = append-nil s.working.products in
      let n : s.draws + 0 ≡ s.draws = omega arith in rw (e, n) refl
  add_products_lem (p ∷ ps) s =
      let row = product_row (env.uuid s.draws) p finished_at in
      let s1 : Session = record s {
        working = record s.working { products = s.working.products ++ row ∷ [] };
        draws = s.draws + 1;
      } in
      let e = append_assoc s.working.products (row ∷ []) (product_rows (s.draws + 1) ps) in
      let n : s.draws + 1 + length ps ≡ s.draws + suc (length ps) = omega arith in
      add_products_lem ps s1 ∙ rw (e, n) refl

  -- The tables once the day was replaced.
  abbrev pub day_replaced : Session → Tables
  day_replaced s = record s.working {
    payments =
        delete_where (payment_of org day) s.working.payments
        ++ payment_rows s.draws report.payments;
    products =
        delete_where (product_of org day) s.working.products
        ++ product_rows (s.draws + length report.payments) report.products;
    daily =
        delete_where (daily_of org day) s.working.daily ++ daily_row report.daily finished_at ∷ [];
  }

  replace_day_lem :
      (s : Session)
      → replace_day env lower report finished_at s ≡ (
        ok tt,
        record s {
          working = day_replaced s;
          draws = s.draws + length report.payments + length report.products;
        },
      )
  unfolding replace_day
  replace_day_lem s =
      let s1 : Session = record s {
        working = record s.working {
          payments = delete_where (payment_of org day) s.working.payments;
          products = delete_where (product_of org day) s.working.products;
          daily =
              delete_where (daily_of org day) s.working.daily
              ++ daily_row report.daily finished_at ∷ [];
        };
      } in
      let s2 : Session = record s1 {
        working = record s1.working {
          payments = s1.working.payments ++ payment_rows s1.draws report.payments;
        };
        draws = s1.draws + length report.payments;
      } in
      bind_ok (add_payments env lower finished_at report.payments)
        (λ _. add_products env lower finished_at report.products) s1 s2 tt
        (add_payments_lem report.payments s1)
      ∙ add_products_lem report.products s2

  abbrev pub run_id : Session → Text
  run_id s = env.uuid (s.draws + length report.payments + length report.products)

  abbrev pub row_count : ℕ
  row_count = 1 + length report.payments + length report.products

  -- A changed report replaces the day.
  pub persist_report_changed :
      (s : Session)
      → same_checksum (get_daily org day s.working) report.daily ≡ false
      → persist_report env lower report started_at finished_at s ≡ (
        ok (record { persisted_rows = row_count; unchanged = false }),
        record s {
          working = record (day_replaced s) {
            sync_runs =
                s.working.sync_runs
                ++ sync_run (run_id s) report started_at finished_at row_count ∷ [];
          };
          draws = s.draws + length report.payments + length report.products + 1;
        },
      )
  unfolding persist_report add_sync_run
  persist_report_changed s h =
      let s1 : Session = record s {
        working = day_replaced s;
        draws = s.draws + length report.payments + length report.products;
      } in
      rw h (
        bind_ok (replace_day env lower report finished_at)
          (λ _.
            add_sync_run env lower (λ id. sync_run id report started_at finished_at row_count)
            >> pure (record { persisted_rows = row_count; unchanged = false }))
          s s1 tt (replace_day_lem s))

  -- A report with the checksum of the stored day only adds a run.
  pub persist_report_same :
      (s : Session)
      → same_checksum (get_daily org day s.working) report.daily ≡ true
      → persist_report env lower report started_at finished_at s ≡ (
        ok (record { persisted_rows = 0; unchanged = true }),
        record s {
          working = record s.working {
            sync_runs =
                s.working.sync_runs
                ++ sync_run (env.uuid s.draws) report started_at finished_at 0 ∷ [];
          };
          draws = s.draws + 1;
        },
      )
  unfolding persist_report add_sync_run
  persist_report_same s h = rw h refl
