-- ===== src/Sales/Untouched.antt =====
-- The tables that an import of a day leaves alone: the outbox with its recipients, and the runs.
use dos_amigos_ops.Base.{
  Bool, Bool-cases, List, Text, ap, false, inl, inr, refl, sym, true, ℕ, ◌&&◌, ◌∙◌, ◌≡◌,
}
use dos_amigos_ops.Base.Action.{Result, err, ok, pure, raise, try_except, ◌>>=◌, ◌>>◌}
use dos_amigos_ops.Base.Keeps.{Keeps, Keeps-bind, Keeps-pure}
use dos_amigos_ops.Models.{
  DailyCooReportRun, Env, HermesReportOutbox, HermesReportRecipientDelivery, IikoSalesAutomationRun,
  Session, Tables, datetime_now, is_proven, rollback,
}
use dos_amigos_ops.Sales.Atomic.{Clean, stored_or_undone}
use dos_amigos_ops.Sales.Persist.{persist_report_changed, persist_report_same}
use dos_amigos_ops.Sales.Report.{NormalizedSalesReport}
use dos_amigos_ops.Sales.Repository.{
  add_sync_run, get_daily, persist_report, record_failed_run, same_checksum,
}
use dos_amigos_ops.Sales.Sync.{
  Normalization, RawResult, commit_accepted, commit_report, record_failure, result_from_normalized,
  sync_day, sync_normalized, sync_raw, unique_payments, unique_products,
}

-- Those tables.
pub record Apart : Type 0 where
  pub outbox : List HermesReportOutbox
  pub recipients : List HermesReportRecipientDelivery
  pub automation_runs : List IikoSalesAutomationRun
  pub coo_runs : List DailyCooReportRun

abbrev pub apart_from_sales : Tables → Apart
apart_from_sales db = record {
  outbox = db.outbox;
  recipients = db.recipients;
  automation_runs = db.automation_runs;
  coo_runs = db.coo_runs;
}

abbrev stored : Session → Apart
stored s = apart_from_sales s.working

-- From a session with nothing pending an action comes to one, and leaves these tables.
abbrev pub KeepsApart : Session → Session → Type 0
KeepsApart s t = Clean s → Clean t × (apart_from_sales t.working ≡ apart_from_sales s.working)

KeepsApart-refl : (s : Session) → KeepsApart s s
KeepsApart-refl s h = (h, refl)

KeepsApart-trans : (s t v : Session) → KeepsApart s t → KeepsApart t v → KeepsApart s v
KeepsApart-trans s t v h k c = let (c', e) = h c in let (c'', e') = k c' in (c'', e' ∙ e)

-- What is stored is kept or undone; either way they are as they were.
settled-apart :
    {A : Type 0} (accepted : Bool) (a : A) (s t : Session)
    → stored t ≡ stored s
    → t.committed ≡ s.committed
    → KeepsApart s
        (try_except
          (◌>>=◌ (λ (_ : Session). (ok a, t)) (λ b. commit_accepted accepted >> pure b))
          (λ e. rollback >> raise e)
          s).1
settled-apart true a s t h k c = (refl, h)
settled-apart false a s t h k c = (refl, ap apart_from_sales (k ∙ sym c))

undone-apart :
    {A : Type 0} (r : Result A) (s t : Session)
    → stored t ≡ stored s
    → t.committed ≡ s.committed
    → KeepsApart s (stored_or_undone (λ (_ : Session). (r, t)) s).1
unfolding commit_report
undone-apart (err e) s t h k = λ c. (refl, ap apart_from_sales (k ∙ sym c))
undone-apart (ok a) s t h k =
    settled-apart (unique_payments t.working.payments && unique_products t.working.products) a s t h
      k

module _ (env : Env) (lower : Text → Text) where
  persist_report-apart :
      (report : NormalizedSalesReport) (started_at finished_at : ℕ) (s : Session)
      → (stored (persist_report env lower report started_at finished_at s).1 ≡ stored s)
        × ((persist_report env lower report started_at finished_at s).1.committed ≡ s.committed)
  persist_report-apart report started_at finished_at s =
      elim (Bool-cases (
        same_checksum (get_daily report.daily.organization_id report.daily.business_date s.working)
          report.daily)) [
            | inl same ↦
                rw (persist_report_same env lower report started_at finished_at s same) (refl, refl)
            | inr new ↦
                rw (persist_report_changed env lower report started_at finished_at s new)
                  (refl, refl)
          ]

  module _ {P : Type 0} (fetch : ℕ → Text → ℕ → Result (RawResult P))
      (normalize : P → Text → ℕ → Normalization) (org : Text) where
    sync_normalized-apart :
        (n : Normalization) (day started_at rows : ℕ) (dry_run : Bool)
        → Keeps KeepsApart
            (sync_normalized env lower fetch normalize org n day started_at rows dry_run)
    unfolding sync_normalized record_failure record_failed_run add_sync_run
    sync_normalized-apart (Normalization.raised e) day started_at rows dry_run = record {
      at = λ s h. (h, refl);
    }
    sync_normalized-apart (Normalization.rejected code message) day started_at rows true = record {
      at = λ s h. (h, refl);
    }
    sync_normalized-apart (Normalization.rejected code message) day started_at rows false = record {
      at = λ s h. (refl, refl);
    }
    sync_normalized-apart (Normalization.normalized report) day started_at rows true = record {
      at = λ s h. (h, refl);
    }
    sync_normalized-apart (Normalization.normalized report) day started_at rows false =
        Keeps-bind KeepsApart KeepsApart-refl KeepsApart-trans (datetime_now env) _
          (record { at = λ s h. (h, refl) })
          (λ finished_at.
            Keeps-bind KeepsApart KeepsApart-refl KeepsApart-trans
              (stored_or_undone (persist_report env lower report started_at finished_at)) _
              (record {
                at = λ s.
                    let stored = persist_report env lower report started_at finished_at s in
                    let (same, kept) = persist_report-apart report started_at finished_at s in
                    undone-apart stored.0 s stored.1 same kept;
              })
              (λ p.
                Keeps-pure KeepsApart KeepsApart-refl KeepsApart-trans
                  (result_from_normalized report false p.persisted_rows p.unchanged)))

    sync_raw-apart :
        (raw : RawResult P) (day started_at : ℕ) (dry_run : Bool)
        → Keeps KeepsApart (sync_raw env lower fetch normalize org raw day started_at dry_run)
    unfolding sync_raw record_failure record_failed_run add_sync_run
    sync_raw-apart raw day started_at true = elim (Bool-cases (is_proven raw.status)) [
      | inl proven ↦ rw proven (
          sync_normalized-apart (normalize raw.payload org day) day started_at raw.records_count
            true)
      | inr other ↦ rw other (record { at = λ s h. (h, refl) })
    ]
    sync_raw-apart raw day started_at false = elim (Bool-cases (is_proven raw.status)) [
      | inl proven ↦ rw proven (
          sync_normalized-apart (normalize raw.payload org day) day started_at raw.records_count
            false)
      | inr other ↦ rw other (record { at = λ s h. (refl, refl) })
    ]

    pub sync_day-apart :
        (day : ℕ) (dry_run : Bool)
        → Keeps KeepsApart (sync_day env lower fetch normalize org day dry_run)
    unfolding sync_day
    sync_day-apart day dry_run =
        Keeps-bind KeepsApart KeepsApart-refl KeepsApart-trans (datetime_now env) _
          (record { at = λ s h. (h, refl) })
          (λ started_at.
            Keeps-bind KeepsApart KeepsApart-refl KeepsApart-trans (λ s. (fetch s.ticks org day, s))
              _ (record { at = λ s h. (h, refl) })
              (λ raw. sync_raw-apart raw day started_at dry_run))
