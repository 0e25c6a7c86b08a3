-- ===== src/Automation/Tests.antt =====
-- The theorems on the automation at a concrete site.
use dos_amigos_ops.Automation.Build.{
  build_sales_daily_hermes_payload, report_payload, rows_of, sales_daily_key,
}
use dos_amigos_ops.Automation.Finished.{Finished, run_locked-Finished}
use dos_amigos_ops.Automation.Gate.{OnlyRecorded, run_due-OnlyRecorded}
use dos_amigos_ops.Automation.Lock.{run_date-Released}
use dos_amigos_ops.Automation.Outbox.{HermesPayload, ensure_outbox, has_key, outbox_result}
use dos_amigos_ops.Automation.Placed.{Current, ensure_outbox-Current}
use dos_amigos_ops.Automation.Runs.{AutomationStatus, SalesAutomationConfig, SalesAutomationResult}
use dos_amigos_ops.Automation.Service.{
  Automation, Site, find_backfill_days, is_due, run_date, run_due, run_locked,
}
use dos_amigos_ops.Automation.Stable.{ensure_outbox-build}
use dos_amigos_ops.Automation.Total.{run_due_answer}
use dos_amigos_ops.Automation.Window.{find_backfill_days_lem}
use dos_amigos_ops.Base.{
  Bool, Text, [], any, arith, codes, false, find, leb, refl, some, text_eq, true, ℕ, ◌&&◌, ◌==◌,
  ◌∷◌, ◌≡◌,
}
use dos_amigos_ops.Base.Action.{Result, err, exception, ok}
use dos_amigos_ops.Models.{HermesReportOutbox, Tables, TriggerType}
use dos_amigos_ops.Models.Samples.{
  day_session, sample_day, sample_env, sample_payload, sample_session, sample_tables,
}
use dos_amigos_ops.Sales.{Normalization, RawResult}

abbrev sample_config : SalesAutomationConfig
sample_config = record {
  organization_id = codes "org";
  business_timezone = codes "UTC";
  automation_enabled = true;
  scheduled_time = 60;
  backfill_max_days = 3;
  outbox_enabled = true;
}

abbrev sample_site : Site
sample_site = record { is_locked = λ n. n == 1; astimezone = λ t. record { date = 21; time = t } }

abbrev same_case : Text → Text
same_case name = name

-- The connection to iiko breaks.
abbrev fetch_none : ℕ → Text → ℕ → Result (RawResult ℕ)
fetch_none n org day = err (exception (codes "ConnectError") (codes "no route"))

abbrev normalize_none : ℕ → Text → ℕ → Normalization
normalize_none payload org day = Normalization.rejected (codes "empty") (codes "no rows")

abbrev sample_hermes : HermesPayload
sample_hermes = record {
  source_checksum = codes "sum2";
  idempotency_key = codes "key";
  payload_json = sample_payload;
  payload_markdown = codes "More sales";
}

abbrev build_sample : Tables → Text → ℕ → Result HermesPayload
build_sample db org day = ok sample_hermes

abbrev start : Automation
start = record { session = sample_session; is_held = false; attempts = 0; releases = 0 }

run_date-Released_example :
    let (r, b) =
      run_date sample_env same_case fetch_none normalize_none build_sample sample_site sample_config
        TriggerType.manual 20 false false false start in
    ((result : SalesAutomationResult) × (r ≡ ok result)
      × (false ≡ true → result.status ≡ AutomationStatus.already_running))
    × (b.is_held ≡ false)
    × (b.attempts ≡ 1)
    × (b.releases ≡ 1)
run_date-Released_example =
    run_date-Released sample_env same_case fetch_none normalize_none build_sample sample_site
      sample_config TriggerType.manual 20 false false false start

ensure_outbox-Current_example :
    let t = (ensure_outbox sample_env build_sample sample_config 20 false sample_session).1 in
    (row : HermesReportOutbox) × (find (has_key (codes "key")) t.working.outbox ≡ some row)
    × Current sample_hermes row
    × (ensure_outbox sample_env build_sample sample_config 20 false t ≡ (
      ok
          (record (outbox_result sample_env build_sample sample_config AutomationStatus.unchanged 20
            false) { outbox_ids = row.id ∷ [] }),
      t,
    ))
ensure_outbox-Current_example =
    ensure_outbox-Current sample_env build_sample sample_config sample_hermes 20 sample_session refl
      refl refl

find_backfill_days_lem_example :
    any
      (λ x. x == 19)
      (find_backfill_days sample_env same_case fetch_none normalize_none build_sample sample_site
        sample_config 20 5 false sample_tables)
    ≡ ((leb 18 19 && leb 19 20)
        && is_due sample_env same_case fetch_none normalize_none build_sample sample_site
            sample_config false sample_tables 19)
find_backfill_days_lem_example =
    find_backfill_days_lem sample_env same_case fetch_none normalize_none build_sample sample_site
      sample_config 20 5 19 false sample_tables (omega arith)

run_due-OnlyRecorded_example :
    let (r, b) =
      run_due sample_env same_case fetch_none normalize_none build_sample sample_site sample_config
        30 false false false false start in
    OnlyRecorded r AutomationStatus.not_due start b
run_due-OnlyRecorded_example =
    run_due-OnlyRecorded sample_env same_case fetch_none normalize_none build_sample sample_site
      sample_config 30 false false false false AutomationStatus.not_due start refl

run_due_answer_example :
    let (r, b) =
      run_due sample_env same_case fetch_none normalize_none build_sample sample_site sample_config
        90 false false false false start in
    (answer : SalesAutomationResult) × (r ≡ ok answer) × (b.is_held ≡ false)
run_due_answer_example =
    run_due_answer sample_env same_case fetch_none normalize_none build_sample sample_site
      sample_config 90 false false false false start refl

run_locked-Finished_example :
    let (r, b) =
      run_locked sample_env same_case fetch_none normalize_none build_sample sample_site
        sample_config TriggerType.manual 20 false false false
        (record start { is_held = true }) in
    Finished (sample_env.uuid 0) (r, b.session)
run_locked-Finished_example =
    run_locked-Finished sample_env same_case fetch_none normalize_none build_sample sample_site
      sample_config TriggerType.manual 20 false false (record start { is_held = true }) refl

-- A collation for which all texts tie.
abbrev ties : Text → Text → Bool
ties s t = true

ensure_outbox-build_example :
    let build_payload = build_sales_daily_hermes_payload ties in
    let t = (ensure_outbox sample_env build_payload sample_config 20 false day_session).1 in
    let key = sales_daily_key (codes "org") 20 (codes "c1") in
    (row : HermesReportOutbox) × (find (has_key key) t.working.outbox ≡ some row)
    × Current
        (report_payload
          (codes "org")
          20
          (rows_of ties (codes "org") 20 day_session.working sample_day))
        row
    × (ensure_outbox sample_env build_payload sample_config 20 false t ≡ (
      ok
          (record (outbox_result sample_env build_payload sample_config AutomationStatus.unchanged
            20 false) { outbox_ids = row.id ∷ [] }),
      t,
    ))
ensure_outbox-build_example =
    ensure_outbox-build ties sample_env sample_config 20 sample_day day_session refl
      (unfold find text_eq in refl) (omega arith)
