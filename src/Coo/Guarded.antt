-- ===== src/Coo/Guarded.antt =====
-- The upsert, the corrections and the alerts beside a row that may no longer change.
use dos_amigos_ops.Automation.{HermesPayload, has_key}
use dos_amigos_ops.Base.{
  List, Option, Text, ap, false, find, find_sound, none, not, order_by, refl, some, starts_with,
  subst, sym, text_eq, text_eq_refl, text_eq→eq, true, where_rows, ℕ, ◌∙◌, ◌≡◌,
}
use dos_amigos_ops.Base.Action.{gets, pure}
use dos_amigos_ops.Base.Keeps.{Keeps, Keeps-bind}
use dos_amigos_ops.Coo.Only.{All-find, All-first, All-order_by, All-where_rows, Only, one-Only}
use dos_amigos_ops.Coo.Orchestrator.{Orchestrator}
use dos_amigos_ops.Coo.Outbox.{
  add_row, alert_key, alert_row, correction_key, correction_row, ensure_alert_outbox,
  ensure_correction_outbox, is_later, is_report_of, latest_sales_report, operational_markdown,
  place_alert, place_correction, refreshed_alert, report_row, sales_outbox_is_mutable,
  updated_report, upsert_existing, upsert_for_date, upsert_sales_outbox,
}
use dos_amigos_ops.Coo.Sealed.{
  Sealed, StaysSealed, StaysSealed-refl, StaysSealed-trans, add_row-Sealed, gets-Sealed,
  is_alert_key, now-Sealed, settled_alert, settled_immutable, update-Sealed,
}
use dos_amigos_ops.Models.{Change, HermesReportOutbox, Mode, Session, datetime_now, is_delivered}
use dos_amigos_ops.OutboxApi.{has_id}

module _ {P : Type 0} (self : Orchestrator P) (row : HermesReportOutbox)
    (fresh : (n : ℕ) → text_eq (self.env.uuid n) row.id ≡ false) where
  -- What is found among the rows of the table is this row, if its id is the same.
  row-Only : (s : Session) → Sealed row s → Only (has_id row.id) row s.working.outbox
  row-Only s sealed = one-Only (has_id row.id) row s.working.outbox sealed.only

  locked_report :
      (x : HermesReportOutbox) (s : Session)
      → Sealed row s
      → (has_id row.id x ≡ true → x ≡ row)
      → x.id ≡ row.id
      → sales_outbox_is_mutable s.working x ≡ false
  locked_report x s sealed same e =
      subst (λ (y : HermesReportOutbox). sales_outbox_is_mutable s.working y ≡ false)
        (sym (same (subst (λ (id : Text). text_eq x.id id ≡ true) e (text_eq_refl x.id))))
        (settled_immutable s.working row sealed.settled)

  latest_same :
      (day : ℕ) (s : Session) (x : HermesReportOutbox)
      → Sealed row s
      → latest_sales_report self.collate self.organization_id day s.working ≡ some x
      → has_id row.id x ≡ true
      → x ≡ row
  unfolding latest_sales_report
  latest_same day s x sealed found =
      let Same = λ (y : HermesReportOutbox). has_id row.id y ≡ true → y ≡ row in
      let rows = where_rows (is_report_of self.organization_id day) s.working.outbox in
      All-first Same (order_by (is_later self.collate) rows) x
        (All-order_by Same (is_later self.collate) rows (
          All-where_rows Same (is_report_of self.organization_id day) s.working.outbox
            (row-Only s sealed)))
        found

  pub upsert_for_date-Sealed :
      (payload : HermesPayload) (markdown : Text) (day now : ℕ) (newest : Option HermesReportOutbox)
      (s : Session)
      → latest_sales_report self.collate self.organization_id day s.working ≡ newest
      → Sealed row s
      → Sealed row (upsert_for_date self payload markdown day now newest s).1
  unfolding upsert_for_date
  upsert_for_date-Sealed payload markdown day now none s found sealed =
      ((add_row-Sealed self row fresh) (report_row self payload markdown day now) (λ id t. refl)).at
        s sealed
  upsert_for_date-Sealed payload markdown day now (some x) s found sealed =
      (update-Sealed self row fresh) (sales_outbox_is_mutable s.working x) x
        (updated_report payload.idempotency_key payload markdown now x) s refl
        (locked_report x s sealed (latest_same day s x sealed found)) sealed

  pub upsert_existing-Sealed :
      (payload : HermesPayload) (markdown : Text) (day now : ℕ)
      (existing : Option HermesReportOutbox) (s : Session)
      → find (has_key payload.idempotency_key) s.working.outbox ≡ existing
      → Sealed row s
      → Sealed row (upsert_existing self payload markdown day now existing s).1
  unfolding upsert_existing
  upsert_existing-Sealed payload markdown day now none s found sealed =
      upsert_for_date-Sealed payload markdown day now
        (latest_sales_report self.collate self.organization_id day s.working) s refl sealed
  upsert_existing-Sealed payload markdown day now (some x) s found sealed =
      let Same = λ (y : HermesReportOutbox). has_id row.id y ≡ true → y ≡ row in
      (update-Sealed self row fresh) (sales_outbox_is_mutable s.working x) x
        (updated_report x.idempotency_key payload markdown now x) s refl
        (locked_report x s sealed (
          All-find Same (has_key payload.idempotency_key) s.working.outbox x (row-Only s sealed)
            found))
        sealed

  pub upsert_sales_outbox-Sealed :
      (payload : HermesPayload) (day : ℕ)
      → Keeps (StaysSealed row) (upsert_sales_outbox self payload day)
  unfolding upsert_sales_outbox
  upsert_sales_outbox-Sealed payload day = record {
    at = λ s sealed.
        let t = (datetime_now self.env s).1 in
        upsert_existing-Sealed payload (operational_markdown day payload.payload_markdown) day
          (self.env.now s.ticks) (find (has_key payload.idempotency_key) s.working.outbox) t refl
          ((now-Sealed self row fresh).at s sealed);
  }

  pub place_correction-Sealed :
      (original : HermesReportOutbox) (current : HermesPayload) (changes : List Change) (day : ℕ)
      (existing : Option HermesReportOutbox)
      → Keeps (StaysSealed row) (place_correction self original current changes day existing)
  unfolding place_correction
  place_correction-Sealed original current changes day (some x) = record { at = λ s h. h }
  place_correction-Sealed original current changes day none =
      Keeps-bind (StaysSealed row) (StaysSealed-refl self row fresh)
        (StaysSealed-trans self row fresh) (datetime_now self.env) _ (now-Sealed self row fresh)
        (λ now.
          Keeps-bind (StaysSealed row) (StaysSealed-refl self row fresh)
            (StaysSealed-trans self row fresh)
            (add_row self (correction_row self original current changes day now))
            (λ new. pure (new, true))
            ((add_row-Sealed self row fresh) (correction_row self original current changes day now)
              (λ id t. refl))
            (λ new. record { at = λ s h. h }))

  pub ensure_correction_outbox-Sealed :
      (original : HermesReportOutbox) (current : HermesPayload) (changes : List Change) (day : ℕ)
      → Keeps (StaysSealed row) (ensure_correction_outbox self original current changes day)
  unfolding ensure_correction_outbox
  ensure_correction_outbox-Sealed original current changes day =
      Keeps-bind (StaysSealed row) (StaysSealed-refl self row fresh)
        (StaysSealed-trans self row fresh)
        (gets (λ (s : Session). find (has_key (correction_key self day changes)) s.working.outbox))
        _ ((gets-Sealed self row fresh) _)
        (λ existing. place_correction-Sealed original current changes day existing)

  -- An alert's key begins like one.
  key_of_alert :
      (mode : Mode) (day : ℕ) (error_code : Text)
      → is_alert_key (alert_key self mode day error_code) ≡ true
  unfolding starts_with
  key_of_alert mode day error_code = refl

  pub place_alert-Sealed :
      (mode : Mode) (day : ℕ) (error_code : Text) (now : ℕ) (existing : Option HermesReportOutbox)
      (s : Session)
      → find (has_key (alert_key self mode day error_code)) s.working.outbox ≡ existing
      → Sealed row s
      → Sealed row (place_alert self mode day error_code now existing s).1
  unfolding place_alert
  place_alert-Sealed mode day error_code now none s found sealed =
      ((add_row-Sealed self row fresh) (alert_row self mode day error_code now) (λ id t. refl)).at s
        sealed
  place_alert-Sealed mode day error_code now (some x) s found sealed =
      let Same = λ (y : HermesReportOutbox). has_id row.id y ≡ true → y ≡ row in
      let key = alert_key self mode day error_code in
      let same = All-find Same (has_key key) s.working.outbox x (row-Only s sealed) found in
      let x_key =
        text_eq→eq x.idempotency_key key (find_sound (has_key key) s.working.outbox found) in
      (update-Sealed self row fresh) (not (is_delivered x.delivery_status)) x
        (refreshed_alert self mode day error_code now x) s refl
        (λ e.
          let x_row = same (subst (λ (id : Text). text_eq x.id id ≡ true) e (text_eq_refl x.id)) in
          subst (λ (y : HermesReportOutbox). not (is_delivered y.delivery_status) ≡ false)
            (sym x_row)
            (ap not (
              settled_alert s.working row sealed.settled (
                subst (λ (k : Text). is_alert_key k ≡ true)
                  (sym x_key ∙ ap (λ (y : HermesReportOutbox). y.idempotency_key) x_row)
                  (key_of_alert mode day error_code)))))
        sealed

  pub ensure_alert_outbox-Sealed :
      (mode : Mode) (day : ℕ) (error_code : Text)
      → Keeps (StaysSealed row) (ensure_alert_outbox self mode day error_code)
  unfolding ensure_alert_outbox
  ensure_alert_outbox-Sealed mode day error_code = record {
    at = λ s sealed.
        let t = (datetime_now self.env s).1 in
        place_alert-Sealed mode day error_code (self.env.now s.ticks)
          (find (has_key (alert_key self mode day error_code)) s.working.outbox) t refl
          ((now-Sealed self row fresh).at s sealed);
  }
