-- ===== src/Coo/Outbox.antt =====
-- The rows that the daily report leaves in the outbox: the report, its corrections, and alerts.
use dos_amigos_ops.Automation.{HermesPayload, has_key, join_lines, latest, then_by, titled}
use dos_amigos_ops.Base.{
  Bool, List, Option, Text, [], any, codes, drop, false, find, if◌then◌else◌, leb, length, map,
  none, not, order_by, some, starts_with, text_eq, true, where_rows, ℕ, ◌&&◌, ◌++◌, ◌==◌, ◌∷◌,
}
use dos_amigos_ops.Base.Action.{gets, pure, ◌>>=◌, ◌>>◌}
use dos_amigos_ops.Calendar.{day_month_year, isoformat}
use dos_amigos_ops.Coo.Orchestrator.{Orchestrator}
use dos_amigos_ops.Models.{
  Change, DbAction, DeliveryStatus, HermesReportOutbox, HermesReportRecipientDelivery, Mode,
  PayloadJson, ReportType, Tables, commit, datetime_now, is_delivered, is_sales_daily, set_outbox,
  uuid4,
}
use dos_amigos_ops.OutboxApi.{save_outbox}

-- `_correction_markdown`
unfoldable pub correction_markdown : ℕ → List Change → Text
unfolding day_month_year join_lines
correction_markdown day changes = join_lines (
    titled (codes "Dos Amigos — корректировка итогов") day
    ∷ []
    ∷ codes "Изменившиеся показатели:"
    ∷ map
        (λ (c : Change).
          codes "— " ++ c.label ++ codes ": было " ++ c.old ++ codes ", стало " ++ c.new)
        changes)

abbrev pub mode_text : Mode → Text
mode_text Mode.closeout = codes "оперативных итогов"
mode_text Mode.reconcile = codes "утренней сверки"

-- The value of the mode.
abbrev pub mode_value : Mode → Text
mode_value Mode.closeout = codes "closeout"
mode_value Mode.reconcile = codes "reconcile"

-- `_alert_markdown`
unfoldable pub alert_markdown : Mode → ℕ → Text
unfolding day_month_year join_lines
alert_markdown mode day = join_lines (
    titled (codes "Dos Amigos — техническое уведомление") day
    ∷ []
    ∷ (codes "Не удалось подтвердить данные iiko для " ++ mode_text mode ++ codes ".")
    ∷ codes "Финансовый отчёт не отправлен; требуется ручная проверка импорта."
    ∷ [])

-- `text.replace(old, new, 1)`
unfoldable pub replace_once : Text → Text → Text → Text
unfolding starts_with
replace_once old new [] = if starts_with old [] then new else []
replace_once old new (c ∷ s) =
    let rest = replace_once old new s in
    if starts_with old (c ∷ s) then new ++ drop (length old) (c ∷ s) else c ∷ rest

-- The title of an operational report.
unfoldable pub operational_markdown : ℕ → Text → Text
unfolding replace_once day_month_year
operational_markdown day markdown =
    replace_once (titled (codes "Dos Amigos — итоги") day)
      (titled (codes "Dos Amigos — оперативные итоги") day) markdown

-- `_sales_outbox_has_recipient_deliveries`
unfoldable pub has_recipient_deliveries : Text → Tables → Bool
has_recipient_deliveries report_id db =
    any (λ (r : HermesReportRecipientDelivery). text_eq r.report_id report_id) db.recipients

-- `_sales_outbox_is_mutable`
unfoldable pub sales_outbox_is_mutable : Tables → HermesReportOutbox → Bool
unfolding has_recipient_deliveries
sales_outbox_is_mutable db row =
    not (is_delivered row.delivery_status) && not (has_recipient_deliveries row.id db)

abbrev pub is_report_of : Text → ℕ → HermesReportOutbox → Bool
is_report_of org day row =
    is_sales_daily row.report_type && text_eq row.organization_id org && row.business_date == day

abbrev pub first_row : List HermesReportOutbox → Option HermesReportOutbox
first_row [] = none
first_row (row ∷ rows) = some row

module _ (collate : Text → Text → Bool) where
  -- The latest creation first, then the latest update, then the last id.
  unfoldable pub is_later : HermesReportOutbox → HermesReportOutbox → Bool
  is_later a b = then_by collate (leb b.created_at a.created_at) (leb a.created_at b.created_at) (
      then_by collate (leb b.updated_at a.updated_at) (leb a.updated_at b.updated_at)
        (collate b.id a.id))

  -- `_latest_sales_report`
  unfoldable pub latest_sales_report : Text → ℕ → Tables → Option HermesReportOutbox
  unfolding order_by is_later
  latest_sales_report org day db =
      first_row (order_by is_later (where_rows (is_report_of org day) db.outbox))

-- `_update_sales_outbox`, under a key
abbrev pub updated_report :
    Text → HermesPayload → Text → ℕ → HermesReportOutbox → HermesReportOutbox
updated_report key payload markdown now row = record row {
  idempotency_key = key;
  payload_json = payload.payload_json;
  payload_markdown = markdown;
  source_checksum = payload.source_checksum;
  updated_at = now;
}

-- A row as it is added; the time of its creation is the database's.
abbrev pub added_row :
    Text → ReportType → Text → ℕ → Text → Text → PayloadJson → Text → ℕ → ℕ → HermesReportOutbox
added_row id report_type org day checksum key json markdown created_at now = record {
  id = id;
  report_type = report_type;
  organization_id = org;
  business_date = day;
  source_checksum = checksum;
  idempotency_key = key;
  payload_json = json;
  payload_markdown = markdown;
  delivery_status = DeliveryStatus.pending;
  delivery_attempts = 0;
  next_attempt_at = none;
  last_attempt_at = none;
  delivered_at = none;
  external_message_id = none;
  error_code = none;
  error_message_redacted = none;
  created_at = created_at;
  updated_at = now;
}

module _ {P : Type 0} (self : Orchestrator P) where
  -- `session.add(row)` and the commit, for a row that is still to get its id and its creation time.
  unfoldable pub add_row : (Text → ℕ → HermesReportOutbox) → DbAction HermesReportOutbox
  add_row row = do
    id ← uuid4 self.env
    created_at ← datetime_now self.env
    rows ← gets (λ s. s.working.outbox)
    set_outbox (rows ++ row id created_at ∷ [])
    commit
    pure (row id created_at)

  -- The row is written over where it may still change.
  unfoldable pub update_if_mutable :
      Bool → HermesReportOutbox → HermesReportOutbox → DbAction HermesReportOutbox
  unfolding save_outbox
  update_if_mutable true row updated = do save_outbox updated; commit; pure updated
  update_if_mutable false row updated = pure row

  abbrev pub report_row : HermesPayload → Text → ℕ → ℕ → Text → ℕ → HermesReportOutbox
  report_row payload markdown day now id created_at =
      added_row id ReportType.sales_daily self.organization_id day payload.source_checksum
        payload.idempotency_key payload.payload_json markdown created_at now

  -- Where there is no report under the payload's key: the day's latest one, or a new one.
  unfoldable pub upsert_for_date :
      HermesPayload → Text → ℕ → ℕ → Option HermesReportOutbox → DbAction HermesReportOutbox
  unfolding update_if_mutable sales_outbox_is_mutable add_row
  upsert_for_date payload markdown day now none = add_row (report_row payload markdown day now)
  upsert_for_date payload markdown day now (some row) = do
    mutable ← gets (λ s. sales_outbox_is_mutable s.working row)
    update_if_mutable mutable row (updated_report payload.idempotency_key payload markdown now row)

  unfoldable pub upsert_existing :
      HermesPayload → Text → ℕ → ℕ → Option HermesReportOutbox → DbAction HermesReportOutbox
  unfolding upsert_for_date update_if_mutable sales_outbox_is_mutable latest_sales_report
  upsert_existing payload markdown day now (some row) = do
    mutable ← gets (λ s. sales_outbox_is_mutable s.working row)
    update_if_mutable mutable row (updated_report row.idempotency_key payload markdown now row)
  upsert_existing payload markdown day now none = do
    latest ← gets (λ s. latest_sales_report self.collate self.organization_id day s.working)
    upsert_for_date payload markdown day now latest

  -- `_upsert_sales_outbox`, of an operational report, as its only call is
  unfoldable pub upsert_sales_outbox : HermesPayload → ℕ → DbAction HermesReportOutbox
  unfolding upsert_existing operational_markdown
  upsert_sales_outbox payload day = do
    existing ← gets (λ s. find (has_key payload.idempotency_key) s.working.outbox)
    now ← datetime_now self.env
    upsert_existing payload (operational_markdown day payload.payload_markdown) day now existing

  abbrev pub correction_key : ℕ → List Change → Text
  correction_key day changes =
      codes "sales_daily_correction:"
      ++ self.organization_id
      ++ codes ":"
      ++ isoformat day
      ++ codes ":"
      ++ self.change_hash changes

  abbrev pub correction_row :
      HermesReportOutbox → HermesPayload → List Change → ℕ → ℕ → Text → ℕ → HermesReportOutbox
  correction_row original current changes day now id created_at =
      added_row id ReportType.sales_daily_correction self.organization_id day
        current.source_checksum (correction_key day changes)
        (PayloadJson.correction day original.id changes) (correction_markdown day changes)
        created_at now

  unfoldable pub place_correction :
      HermesReportOutbox
      → HermesPayload
      → List Change
      → ℕ
      → Option HermesReportOutbox
      → DbAction (HermesReportOutbox × Bool)
  unfolding isoformat correction_markdown add_row
  place_correction original current changes day (some row) = pure (row, false)
  place_correction original current changes day none = do
    now ← datetime_now self.env
    row ← add_row (correction_row original current changes day now)
    pure (row, true)

  -- `_ensure_correction_outbox`
  unfoldable pub ensure_correction_outbox :
      HermesReportOutbox → HermesPayload → List Change → ℕ → DbAction (HermesReportOutbox × Bool)
  unfolding isoformat place_correction
  ensure_correction_outbox original current changes day = do
    existing ← gets (λ s. find (has_key (correction_key day changes)) s.working.outbox)
    place_correction original current changes day existing

  abbrev pub alert_key : Mode → ℕ → Text → Text
  alert_key mode day error_code =
      codes "sales_daily_alert:"
      ++ self.organization_id
      ++ codes ":"
      ++ mode_value mode
      ++ codes ":"
      ++ isoformat day
      ++ codes ":"
      ++ error_code

  abbrev pub alert_row : Mode → ℕ → Text → ℕ → Text → ℕ → HermesReportOutbox
  alert_row mode day error_code now id created_at =
      added_row id ReportType.sales_daily_alert self.organization_id day
        (self.sha256 (alert_key mode day error_code)) (alert_key mode day error_code)
        (PayloadJson.alert mode day error_code) (alert_markdown mode day) created_at now

  abbrev pub refreshed_alert : Mode → ℕ → Text → ℕ → HermesReportOutbox → HermesReportOutbox
  refreshed_alert mode day error_code now row = record row {
    payload_markdown = alert_markdown mode day;
    payload_json = PayloadJson.alert mode day error_code;
    updated_at = now;
  }

  unfoldable pub place_alert :
      Mode → ℕ → Text → ℕ → Option HermesReportOutbox → DbAction HermesReportOutbox
  unfolding isoformat alert_markdown add_row update_if_mutable
  place_alert mode day error_code now (some row) =
      update_if_mutable (not (is_delivered row.delivery_status)) row
        (refreshed_alert mode day error_code now row)
  place_alert mode day error_code now none = add_row (alert_row mode day error_code now)

  -- `_ensure_alert_outbox`
  unfoldable pub ensure_alert_outbox : Mode → ℕ → Text → DbAction HermesReportOutbox
  unfolding isoformat place_alert
  ensure_alert_outbox mode day error_code = do
    existing ← gets (λ s. find (has_key (alert_key mode day error_code)) s.working.outbox)
    now ← datetime_now self.env
    place_alert mode day error_code now existing
