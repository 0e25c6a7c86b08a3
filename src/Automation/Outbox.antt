-- ===== src/Automation/Outbox.antt =====
-- `ensure_outbox` and `rebuild_outbox`. What `build_sales_daily_hermes_payload` reads from the
-- tables for a day is a parameter; it may raise.
use dos_amigos_ops.Automation.Runs.{
  AutomationStatus, SalesAutomationConfig, SalesAutomationResult, all_ids, result_for, sum_of,
}
use dos_amigos_ops.Base.{
  Bool, List, Option, Text, [], false, find, if◌then◌else◌, leb, map, none, not, some, text_eq,
  true, update_where, where_rows, ℕ, ◌&&◌, ◌++◌, ◌==◌, ◌||◌, ◌∷◌,
}
use dos_amigos_ops.Base.Action.{Result, gets, pure, ◌>>=◌, ◌>>◌}
use dos_amigos_ops.Models.{
  DbAction, DeliveryStatus, Env, HermesReportOutbox, IikoSalesDaily, PayloadJson,
  PayloadJson-discrete, ReportType, Tables, TriggerType, commit, datetime_now, is_delivered,
  is_pending, is_sales_daily, set_outbox, uuid4,
}
use dos_amigos_ops.OutboxApi.{save_outbox}

pub record HermesPayload : Type 0 where
  pub source_checksum : Text
  pub idempotency_key : Text
  pub payload_json : PayloadJson
  pub payload_markdown : Text

abbrev pub is_yes : {A : Type 0} → Dec A → Bool
is_yes (yes _) = true
is_yes (no _) = false

-- `a == b` on payloads
unfoldable pub json_eq : PayloadJson → PayloadJson → Bool
json_eq a b = is_yes (PayloadJson-discrete a b)

abbrev pub has_key : Text → HermesReportOutbox → Bool
has_key key row = text_eq row.idempotency_key key

-- The condition under which an existing row is written over.
unfoldable pub is_outdated : HermesPayload → HermesReportOutbox → Bool
is_outdated payload row =
    not (is_delivered row.delivery_status)
    && (not (json_eq row.payload_json payload.payload_json)
        || not (text_eq row.payload_markdown payload.payload_markdown))

abbrev pub refreshed_row : HermesPayload → ℕ → HermesReportOutbox → HermesReportOutbox
refreshed_row payload now row = record row {
  payload_json = payload.payload_json;
  payload_markdown = payload.payload_markdown;
  source_checksum = payload.source_checksum;
  updated_at = now;
}

-- The pending daily reports of the day, which a new one supersedes.
abbrev pub is_superseded : Text → ℕ → HermesReportOutbox → Bool
is_superseded org day row =
    is_sales_daily row.report_type
    && text_eq row.organization_id org
    && row.business_date == day
    && is_pending row.delivery_status

abbrev pub new_report : Text → Text → ℕ → HermesPayload → ℕ → HermesReportOutbox
new_report id org day payload now = record {
  id = id;
  report_type = ReportType.sales_daily;
  organization_id = org;
  business_date = day;
  source_checksum = payload.source_checksum;
  idempotency_key = payload.idempotency_key;
  payload_json = payload.payload_json;
  payload_markdown = payload.payload_markdown;
  delivery_status = DeliveryStatus.pending;
  delivery_attempts = 0;
  next_attempt_at = none;
  last_attempt_at = none;
  delivered_at = none;
  external_message_id = none;
  error_code = none;
  error_message_redacted = none;
  created_at = now;
  updated_at = now;
}

-- Dates in ascending order.
unfoldable pub insert_date : ℕ → List ℕ → List ℕ
insert_date d [] = d ∷ []
insert_date d (e ∷ ds) = if leb d e then d ∷ e ∷ ds else e ∷ insert_date d ds

unfoldable pub sort_dates : List ℕ → List ℕ
sort_dates [] = []
sort_dates (d ∷ ds) = insert_date d (sort_dates ds)

unfoldable pub sales_dates : Text → Tables → List ℕ
sales_dates org db = sort_dates (
    map (λ (r : IikoSalesDaily). r.business_date)
      (where_rows (λ (r : IikoSalesDaily). text_eq r.organization_id org) db.daily))

module _ (env : Env) (build_payload : Tables → Text → ℕ → Result HermesPayload)
    (config : SalesAutomationConfig) where
  abbrev pub outbox_result : AutomationStatus → ℕ → Bool → SalesAutomationResult
  outbox_result status day dry_run =
      result_for status TriggerType.outbox config.organization_id (some day) (some day) dry_run

  -- The branch on an existing row.
  unfoldable pub refresh_outbox :
      HermesPayload → ℕ → HermesReportOutbox → DbAction SalesAutomationResult
  unfolding is_outdated save_outbox
  refresh_outbox payload day row = do
    if is_outdated payload row
        then (do now ← datetime_now env; save_outbox (refreshed_row payload now row); commit)
        else pure tt
    pure (record (outbox_result AutomationStatus.unchanged day false) { outbox_ids = row.id ∷ [] })

  -- The branch that adds a row.
  unfoldable pub create_outbox : HermesPayload → ℕ → DbAction SalesAutomationResult
  create_outbox payload day = do
    superseded_at ← datetime_now env
    rows ← gets (λ s. s.working.outbox)
    set_outbox (
        update_where (is_superseded config.organization_id day)
          (λ row. record row {
            delivery_status = DeliveryStatus.superseded;
            updated_at = superseded_at;
          })
          rows)
    id ← uuid4 env
    now ← datetime_now env
    rows ← gets (λ s. s.working.outbox)
    set_outbox (rows ++ new_report id config.organization_id day payload now ∷ [])
    commit
    pure (record (outbox_result AutomationStatus.created day false) {
      outbox_created = 1;
      outbox_ids = id ∷ [];
    })

  unfoldable pub place_outbox :
      HermesPayload → ℕ → Option HermesReportOutbox → DbAction SalesAutomationResult
  place_outbox payload day none = create_outbox payload day
  place_outbox payload day (some row) = refresh_outbox payload day row

  -- The call once the outbox is known to be enabled.
  unfoldable pub ensure_enabled : ℕ → DbAction SalesAutomationResult
  ensure_enabled day = do
    payload ← λ s. (build_payload s.working config.organization_id day, s)
    existing ← gets (λ s. find (has_key payload.idempotency_key) s.working.outbox)
    place_outbox payload day existing

  unfoldable pub ensure_outbox : ℕ → Bool → DbAction SalesAutomationResult
  ensure_outbox day dry_run =
      if dry_run || not config.outbox_enabled
      then pure (outbox_result AutomationStatus.skipped day dry_run)
      else ensure_enabled day

  unfoldable pub rebuild_dates : Bool → List ℕ → DbAction (List SalesAutomationResult)
  rebuild_dates dry_run [] = pure []
  rebuild_dates dry_run (day ∷ days) = do
    result ← ensure_outbox day dry_run
    rest ← rebuild_dates dry_run days
    pure (result ∷ rest)

  unfoldable pub rebuild_outbox : Bool → DbAction SalesAutomationResult
  unfolding sales_dates
  rebuild_outbox dry_run = do
    days ← gets (λ s. sales_dates config.organization_id s.working)
    results ← rebuild_dates dry_run days
    pure
        (record (result_for AutomationStatus.completed TriggerType.rebuild_outbox
          config.organization_id none none dry_run) {
            outbox_created = sum_of (λ r. r.outbox_created) results;
            outbox_ids = all_ids results;
          })
