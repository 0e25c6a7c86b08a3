-- ===== src/Coo/Tests.antt =====
-- The theorems on the daily report at a concrete orchestrator.
use dos_amigos_ops.Automation.{Automation, HermesPayload, has_key, report_json, rows_of}
use dos_amigos_ops.Base.{
  List, [], arith, codes, false, find, is_some, length, none, not, refl, some, text_eq, text_leb,
  true, where_rows, ℕ, ◌==◌, ◌||◌, ◌∷◌, ◌≡◌,
}
use dos_amigos_ops.Base.Action.{err, exception, ok}
use dos_amigos_ops.Coo.Finished.{run_mode-Finished}
use dos_amigos_ops.Coo.Frozen.{report-Sealed}
use dos_amigos_ops.Coo.Lock.{report-Released}
use dos_amigos_ops.Coo.Once.{
  Upserted, ensure_correction_outbox-Once, or_latest, upsert_sales_outbox_lem,
}
use dos_amigos_ops.Coo.Orchestrator.{
  DailyCooReportResult, Orchestrator, coo_result, coo_run_of, first_id, started_run,
}
use dos_amigos_ops.Coo.Outbox.{
  correction_key, ensure_correction_outbox, operational_markdown, upsert_sales_outbox,
}
use dos_amigos_ops.Coo.Sealed.{Sealed, is_settled}
use dos_amigos_ops.Coo.Service.{report, report_reconcile, run_mode}
use dos_amigos_ops.Coo.Unchanged.{report_reconcile-same}
use dos_amigos_ops.Decimal.{digits}
use dos_amigos_ops.Models.{
  Change, CooStatus, DailyCooReportRun, HermesReportOutbox, Mode, PayloadJson,
}
use dos_amigos_ops.Models.Samples.{
  day_session, delivered_sample, sample_day, sample_env, sample_payload, sample_report,
  sample_session,
}
use dos_amigos_ops.Redaction.{Unicode, in_range}
use dos_amigos_ops.Sales.{Normalization}

abbrev ascii : Unicode
ascii = record {
  is_word = λ c. in_range 48 57 c || in_range 65 90 c || c == 95 || in_range 97 122 c;
  is_decimal = in_range 48 57;
}

-- The connection to iiko breaks, and another session holds the lock at the second attempt.
abbrev sample_orchestrator : Orchestrator ℕ
sample_orchestrator = record {
  env = sample_env;
  lower = λ name. name;
  fetch = λ n org day. err (exception (codes "ConnectError") (codes "no route"));
  normalize = λ payload org day. Normalization.rejected (codes "empty") (codes "no rows");
  collate = text_leb;
  sha256 = λ text. text;
  change_hash = λ changes. digits (length changes);
  unicode = ascii;
  site = record { is_locked = λ n. n == 1; astimezone = λ t. record { date = 21; time = t } };
  organization_id = codes "org";
  business_timezone = codes "UTC";
}

abbrev sample_start : Automation
sample_start = record { session = sample_session; is_held = false; attempts = 0; releases = 0 }

abbrev sample_run : DailyCooReportRun
sample_run = started_run sample_orchestrator Mode.reconcile 20 (codes "run") 5

abbrev day_report : HermesReportOutbox
day_report = record sample_report {
  payload_json =
      PayloadJson.sales
        (report_json (rows_of text_leb (codes "org") 20 day_session.working sample_day));
}

abbrev sample_changes : List Change
sample_changes = record { label = codes "Чеков"; old = codes "1"; new = codes "2" } ∷ []

abbrev sample_hermes : HermesPayload
sample_hermes = record {
  source_checksum = codes "sum2";
  idempotency_key = codes "key2";
  payload_json = sample_payload;
  payload_markdown = codes "More sales";
}

delivered_sample-Sealed : Sealed delivered_sample sample_session
unfolding where_rows text_eq is_settled
delivered_sample-Sealed = record { clean = refl; only = refl; settled = refl }

fresh_id : (n : ℕ) → text_eq (sample_env.uuid n) delivered_sample.id ≡ false
unfolding text_eq
fresh_id n = refl

report-Released_example :
    let (r, b) = report sample_orchestrator Mode.closeout (some 5) none false sample_start in
    (result : DailyCooReportResult) × (r ≡ ok result)
    × (false ≡ true
        → (result.status ≡ CooStatus.already_running)
          × (b.session.working ≡ sample_start.session.working))
    × (b.is_held ≡ false)
    × (b.attempts ≡ 1)
    × (b.releases ≡ 1)
report-Released_example =
    report-Released sample_orchestrator Mode.closeout (some 5) none sample_start

run_mode-Finished_example :
    let (r, t) = run_mode sample_orchestrator Mode.reconcile 20 sample_session in
    (result : DailyCooReportResult) × (r ≡ ok result)
    × (row : DailyCooReportRun) × (find (coo_run_of (sample_env.uuid 0)) t.committed.coo_runs
        ≡ some row)
    × (row.status ≡ result.status)
    × (is_some row.finished_at ≡ true)
    × (row.outbox_id ≡ first_id result.outbox_ids)
    × (row.error_code ≡ result.error_code)
    × (row.error_message_redacted ≡ result.error_message_redacted)
run_mode-Finished_example = run_mode-Finished sample_orchestrator Mode.reconcile 20 sample_session

report-Sealed_example :
    Sealed delivered_sample
      (report sample_orchestrator Mode.reconcile none (some 20) false sample_start).1.session
report-Sealed_example =
    report-Sealed sample_orchestrator delivered_sample fresh_id Mode.reconcile none (some 20) false
      sample_start delivered_sample-Sealed

ensure_correction_outbox-Once_example :
    let (r, t) =
      ensure_correction_outbox sample_orchestrator sample_report sample_hermes sample_changes 20
        sample_session in
    (row : HermesReportOutbox) × (r
      ≡ ok (
        row,
        not (
            is_some (
              find
                (has_key (correction_key sample_orchestrator 20 sample_changes))
                sample_session.working.outbox)),
      ))
    × ((other : HermesReportOutbox) (payload : HermesPayload)
        → ensure_correction_outbox sample_orchestrator other payload sample_changes 20 t
          ≡ (ok (row, false), t))
ensure_correction_outbox-Once_example =
    ensure_correction_outbox-Once sample_orchestrator sample_report sample_hermes sample_changes 20
      sample_session

upsert_sales_outbox_lem_example :
    let (r, t) = upsert_sales_outbox sample_orchestrator sample_hermes 20 sample_session in
    let existing = find (has_key (codes "key2")) sample_session.working.outbox in
    (row : HermesReportOutbox) × (r ≡ ok row)
    × Upserted sample_orchestrator sample_hermes
        (operational_markdown 20 (codes "More sales"))
        (or_latest sample_orchestrator 20 sample_session.working existing)
        row
        sample_session.working
        sample_session.committed
        t
upsert_sales_outbox_lem_example =
    upsert_sales_outbox_lem sample_orchestrator sample_hermes 20 sample_session

report_reconcile-same_example :
    let (r, t) = report_reconcile sample_orchestrator sample_run 20 day_report day_session in
    (r ≡ ok (coo_result CooStatus.reconciled Mode.reconcile 20))
    × (t.working.outbox ≡ day_session.working.outbox)
report_reconcile-same_example =
    report_reconcile-same sample_orchestrator sample_run 20 sample_day day_report day_session
      (unfold find text_eq in refl) (omega arith) refl
