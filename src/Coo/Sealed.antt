-- ===== src/Coo/Sealed.antt =====
-- The rows of the outbox that the daily report may no longer change.
use dos_amigos_ops.Base.{
  Bool, Bool-cases, Text, [], ap, arith, codes, false, inl, inr, not, refl, starts_with, subst, sym,
  text_eq, text_eq→eq, true, where_rows, ℕ, ◌&&◌, ◌||◌, ◌∙◌, ◌∷◌, ◌≡◌,
}
use dos_amigos_ops.Base.Action.{gets}
use dos_amigos_ops.Base.Keeps.{Keeps}
use dos_amigos_ops.Coo.Only.{where_rows-append, where_rows-update}
use dos_amigos_ops.Coo.Orchestrator.{DailyCooReportResult, Orchestrator, finish_coo_run}
use dos_amigos_ops.Coo.Outbox.{
  add_row, has_recipient_deliveries, sales_outbox_is_mutable, update_if_mutable,
}
use dos_amigos_ops.Coo.Service.{build_payload, outcome, sync_report_day}
use dos_amigos_ops.Models.{
  DailyCooReportRun, HermesReportOutbox, Session, Tables, datetime_now, is_delivered, rollback,
}
use dos_amigos_ops.OutboxApi.{has_id, save_outbox}
use dos_amigos_ops.Sales.Atomic.{Clean}
use dos_amigos_ops.Sales.Untouched.{Apart, sync_day-apart}

-- A report that is delivered, or that a recipient's delivery was recorded for; of an alert only the
-- first counts.
abbrev pub is_alert_key : Text → Bool
is_alert_key key = starts_with (codes "sales_daily_alert:") key

unfoldable pub is_settled : Tables → HermesReportOutbox → Bool
unfolding has_recipient_deliveries starts_with
is_settled db row =
    is_delivered row.delivery_status
    || has_recipient_deliveries row.id db && not (is_alert_key row.idempotency_key)

-- Nothing is pending, and the row is the only one with its id and is settled.
pub record Sealed (row : HermesReportOutbox) (s : Session) : Type 0 where
  pub clean : Clean s
  pub only : where_rows (has_id row.id) s.working.outbox ≡ row ∷ []
  pub settled : is_settled s.working row ≡ true

abbrev pub StaysSealed : HermesReportOutbox → Session → Session → Type 0
StaysSealed row s t = Sealed row s → Sealed row t

pub settled_immutable :
    (db : Tables) (row : HermesReportOutbox)
    → is_settled db row ≡ true
    → sales_outbox_is_mutable db row ≡ false
unfolding is_settled sales_outbox_is_mutable
settled_immutable db row h = ground (arith, h)

pub settled_alert :
    (db : Tables) (row : HermesReportOutbox)
    → is_settled db row ≡ true
    → is_alert_key row.idempotency_key ≡ true
    → is_delivered row.delivery_status ≡ true
unfolding is_settled
settled_alert db row h k = ground (arith, h, k)

-- What else is settled with a row does not depend on the other tables.
settled_apart :
    (row : HermesReportOutbox) (db db' : Tables)
    → db'.recipients ≡ db.recipients
    → is_settled db row ≡ true
    → is_settled db' row ≡ true
unfolding is_settled has_recipient_deliveries
settled_apart row db db' e h = rw e h

module _ {P : Type 0} (self : Orchestrator P) (row : HermesReportOutbox)
    (fresh : (n : ℕ) → text_eq (self.env.uuid n) row.id ≡ false) where
  pub StaysSealed-refl : (s : Session) → StaysSealed row s s
  StaysSealed-refl s h = h

  pub StaysSealed-trans :
      (s t v : Session) → StaysSealed row s t → StaysSealed row t v → StaysSealed row s v
  StaysSealed-trans s t v h k sealed = k (h sealed)

  -- A step that leaves the outbox and its recipients.
  pub apart_step :
      (s t : Session)
      → Clean t
      → t.working.outbox ≡ s.working.outbox
      → t.working.recipients ≡ s.working.recipients
      → Sealed row s
      → Sealed row t
  apart_step s t clean outbox recipients sealed = record {
    clean = clean;
    only = ap (where_rows (has_id row.id)) outbox ∙ sealed.only;
    settled = settled_apart row s.working t.working recipients sealed.settled;
  }

  pub rollback-Sealed : Keeps (StaysSealed row) rollback
  rollback-Sealed = record {
    at = λ s sealed.
        apart_step s (rollback s).1 refl (ap (λ (db : Tables). db.outbox) (sym sealed.clean))
          (ap (λ (db : Tables). db.recipients) (sym sealed.clean)) sealed;
  }

  pub sync-Sealed :
      (day : ℕ) (dry_run : Bool)
      → Keeps (StaysSealed row) (outcome (sync_report_day self day dry_run))
  unfolding sync_report_day
  sync-Sealed day dry_run = record {
    at = λ s sealed.
        let t = (sync_report_day self day dry_run s).1 in
        let (clean, same) =
          (sync_day-apart self.env self.lower self.fetch self.normalize self.organization_id day
              dry_run).at
            s sealed.clean in
        apart_step s t clean (ap (λ (a : Apart). a.outbox) same)
          (ap (λ (a : Apart). a.recipients) same) sealed;
  }

  pub finish-Sealed :
      (run : DailyCooReportRun) (result : DailyCooReportResult)
      → Keeps (StaysSealed row) (finish_coo_run self run result)
  unfolding finish_coo_run
  finish-Sealed run result = record {
    at = λ s sealed. apart_step s (finish_coo_run self run result s).1 refl refl refl sealed;
  }

  pub gets-Sealed : {A : Type 0} (f : Session → A) → Keeps (StaysSealed row) (gets f)
  gets-Sealed f = record { at = λ s h. h }

  pub build_payload-Sealed : (day : ℕ) → Keeps (StaysSealed row) (build_payload self day)
  unfolding build_payload
  build_payload-Sealed day = record { at = λ s h. h }

  pub now-Sealed : Keeps (StaysSealed row) (datetime_now self.env)
  now-Sealed = record {
    at = λ s sealed. apart_step s (datetime_now self.env s).1 sealed.clean refl refl sealed;
  }

  pub add_row-Sealed :
      (build : Text → ℕ → HermesReportOutbox)
      → ((id : Text) (now : ℕ) → (build id now).id ≡ id)
      → Keeps (StaysSealed row) (add_row self build)
  unfolding add_row
  add_row-Sealed build same = record {
    at = λ s sealed.
        let new = build (self.env.uuid s.draws) (self.env.now s.ticks) in
        record {
          clean = refl;
          only =
              where_rows-append (has_id row.id) s.working.outbox new (
                subst (λ (id : Text). text_eq id row.id ≡ false)
                  (sym (same (self.env.uuid s.draws) (self.env.now s.ticks))) (fresh s.draws))
              ∙ sealed.only;
          settled =
              settled_apart row s.working (add_row self build s).1.working refl sealed.settled;
        };
  }

  -- A row that is written over is another one, or may not be written over.
  pub update-Sealed :
      (mutable : Bool) (x updated : HermesReportOutbox) (s : Session)
      → updated.id ≡ x.id
      → (x.id ≡ row.id → mutable ≡ false)
      → Sealed row s
      → Sealed row (update_if_mutable self mutable x updated s).1
  unfolding update_if_mutable save_outbox
  update-Sealed false x updated s same locked sealed = sealed
  update-Sealed true x updated s same locked sealed = elim (Bool-cases (text_eq x.id row.id)) [
    | inl hit ↦ absurd (cc (locked (text_eq→eq x.id row.id hit)))
    | inr miss ↦
        let other = subst (λ (id : Text). text_eq id row.id ≡ false) (sym same) miss in
        record {
          clean = refl;
          only =
              where_rows-update (has_id row.id) (has_id updated.id) updated s.working.outbox other
                (λ y hit.
                  subst (λ (id : Text). text_eq id row.id ≡ false)
                    (sym (text_eq→eq y.id updated.id hit)) other)
              ∙ sealed.only;
          settled =
              settled_apart row s.working (update_if_mutable self true x updated s).1.working refl
                sealed.settled;
        }
  ]
