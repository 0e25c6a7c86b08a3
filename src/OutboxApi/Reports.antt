-- ===== src/OutboxApi/Reports.antt =====
-- The routes on a report: the pending ones, and the marks `delivered` and `failed`. A handler that
-- mutates a loaded row writes it back to the rows with its primary key.
use dos_amigos_ops.Base.{
  Bool, List, Option, Text, [], false, if◌then◌else◌, is_some, leb, ltb, map, none, not, some, take,
  true, update_where, where_rows, ℕ, ◌&&◌, ◌+◌, ◌==◌, ◌||◌, ◌∷◌,
}
use dos_amigos_ops.Base.Action.{gets, pure, raise_if, ◌>>=◌, ◌>>◌}
use dos_amigos_ops.Models.{
  DbAction, DeliveryStatus, Env, HermesReportOutbox, Tables, commit, datetime_now, is_delivered,
  is_failed, is_pending, set_outbox,
}
use dos_amigos_ops.OutboxApi.Requests.{
  FailedReportRequest, PendingReportResponse, ReportStatusResponse, error_code_or_default,
  failed_request_valid, get_outbox_or_404, has_id, status_response, validation_error,
}
use dos_amigos_ops.Redaction.{Unicode, safe_error_message}

-- Whether a text comes before another or is it, in the order of the code points.
unfoldable pub text_leb : Text → Text → Bool
text_leb [] t = true
text_leb (a ∷ s) [] = false
text_leb (a ∷ s) (b ∷ t) = ltb a b || (a == b && text_leb s t)

-- `order_by(created_at, id)`
unfoldable pub created_before : HermesReportOutbox → HermesReportOutbox → Bool
unfolding text_leb
created_before a b =
    ltb a.created_at b.created_at || (a.created_at == b.created_at && text_leb a.id b.id)

unfoldable pub insert_row : HermesReportOutbox → List HermesReportOutbox → List HermesReportOutbox
unfolding created_before
insert_row x [] = x ∷ []
insert_row x (y ∷ ys) = if created_before x y then x ∷ y ∷ ys else y ∷ insert_row x ys

unfoldable pub sort_rows : List HermesReportOutbox → List HermesReportOutbox
unfolding insert_row
sort_rows [] = []
sort_rows (x ∷ xs) = insert_row x (sort_rows xs)

-- `business_date is None or row.business_date == business_date`
abbrev pub on_date : Option ℕ → HermesReportOutbox → Bool
on_date none row = true
on_date (some day) row = row.business_date == day

-- `delivery_status.in_(statuses)`
abbrev pub is_selected : Bool → Option ℕ → HermesReportOutbox → Bool
is_selected include_failed day row =
    (is_pending row.delivery_status || (include_failed && is_failed row.delivery_status))
    && on_date day row

-- The statement that `pending_reports` and `publish_pending` share.
unfoldable pub select_pending :
    (limit : ℕ) (business_date : Option ℕ) (include_failed : Bool)
    → Tables
    → List HermesReportOutbox
unfolding sort_rows
select_pending limit business_date include_failed db =
    take limit (sort_rows (where_rows (is_selected include_failed business_date) db.outbox))

abbrev pub pending_response : HermesReportOutbox → PendingReportResponse
pending_response row = record {
  id = row.id;
  business_date = row.business_date;
  payload_markdown = row.payload_markdown;
  delivery_attempts = row.delivery_attempts;
}

unfoldable pub pending_reports :
    (limit : ℕ) (business_date : Option ℕ) (include_failed : Bool)
    → DbAction (List PendingReportResponse)
unfolding select_pending
pending_reports limit business_date include_failed = do
  raise_if (not (leb 1 limit && leb limit 100)) validation_error
  gets (λ s. map pending_response (select_pending limit business_date include_failed s.working))

-- Writes a loaded row back.
unfoldable pub save_outbox : HermesReportOutbox → DbAction (Unit {0})
save_outbox row s = set_outbox (update_where (has_id row.id) (λ _. row) s.working.outbox) s

-- What `mark_report_delivered` assigns to the row.
unfoldable pub delivered_report : ℕ → HermesReportOutbox → HermesReportOutbox
delivered_report now row =
    if not (is_delivered row.delivery_status)
    then record row {
      delivery_status = DeliveryStatus.delivered;
      delivered_at = some now;
      error_code = none;
      error_message_redacted = none;
      updated_at = now;
    }
    else if not (is_some row.delivered_at)
    then record row { delivered_at = some now; updated_at = now }
    else record row { updated_at = now }

-- What `mark_report_failed` assigns to the row.
unfoldable pub failed_report :
    Unicode → ℕ → FailedReportRequest → HermesReportOutbox → HermesReportOutbox
failed_report u now request row =
    if not (is_delivered row.delivery_status)
    then record row {
      delivery_status = DeliveryStatus.failed;
      delivery_attempts = row.delivery_attempts + 1;
      last_attempt_at = some now;
      error_code = some (error_code_or_default request.error_code);
      error_message_redacted = safe_error_message u request.error_message;
      updated_at = now;
    }
    else record row { updated_at = now }

module _ (env : Env) where
  unfoldable pub mark_report_delivered : Text → DbAction ReportStatusResponse
  unfolding get_outbox_or_404 delivered_report save_outbox status_response
  mark_report_delivered report_id = do
    outbox ← get_outbox_or_404 report_id
    now ← datetime_now env
    save_outbox (delivered_report now outbox)
    commit
    pure (status_response (delivered_report now outbox))

  unfoldable pub mark_report_failed :
      Unicode → Text → FailedReportRequest → DbAction ReportStatusResponse
  unfolding get_outbox_or_404 failed_report save_outbox status_response
  mark_report_failed u report_id request = do
    raise_if (not (failed_request_valid request)) validation_error
    outbox ← get_outbox_or_404 report_id
    now ← datetime_now env
    save_outbox (failed_report u now request outbox)
    commit
    pure (status_response (failed_report u now request outbox))
