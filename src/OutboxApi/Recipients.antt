-- ===== src/OutboxApi/Recipients.antt =====
-- The routes on the recipients of a report.
use dos_amigos_ops.Base.{
  List, Option, Text, [], find, if◌then◌else◌, none, not, some, update_where, ℕ, ◌&&◌, ◌++◌, ◌+◌,
  ◌∷◌,
}
use dos_amigos_ops.Base.Action.{gets, ok, or_raise, pure, raise_if, ◌>>=◌, ◌>>◌}
use dos_amigos_ops.Models.{
  DbAction, DeliveryStatus, Env, HermesReportRecipientDelivery, commit, datetime_now, is_delivered,
  set_recipients, uuid4,
}
use dos_amigos_ops.OutboxApi.Requests.{
  FailedReportRequest, ReportStatusResponse, error_code_or_default, failed_request_valid,
  get_outbox_or_404, get_recipient_or_404, is_for, is_recipient_key, require_internal_token,
  status_response, validate_recipient_keys, validation_error,
}
use dos_amigos_ops.Redaction.{Unicode, safe_error_message}

unfoldable pub save_recipient : HermesReportRecipientDelivery → DbAction (Unit {0})
save_recipient row s =
    set_recipients
      (update_where (is_for row.report_id row.recipient_key) (λ _. row) s.working.recipients) s

-- What `mark_report_recipient_delivered` assigns to the row.
unfoldable pub delivered_recipient :
    ℕ → HermesReportRecipientDelivery → HermesReportRecipientDelivery
delivered_recipient now row =
    if not (is_delivered row.delivery_status)
    then record row {
      delivery_status = DeliveryStatus.delivered;
      delivery_attempts = row.delivery_attempts + 1;
      delivered_at = some now;
      last_attempt_at = some now;
      error_code = none;
      error_message_redacted = none;
      updated_at = now;
    }
    else record row { updated_at = now }

-- What `mark_report_recipient_failed` assigns to the row.
unfoldable pub failed_recipient :
    Unicode
    → ℕ
    → FailedReportRequest
    → HermesReportRecipientDelivery
    → HermesReportRecipientDelivery
failed_recipient u now request row =
    if not (is_delivered row.delivery_status)
    then record row {
      delivery_status = DeliveryStatus.failed;
      delivery_attempts = row.delivery_attempts + 1;
      last_attempt_at = some now;
      error_code = some (error_code_or_default request.error_code);
      error_message_redacted = safe_error_message u request.error_message;
      updated_at = now;
    }
    else record row { updated_at = now }

abbrev pub new_recipient : Text → Text → Text → ℕ → HermesReportRecipientDelivery
new_recipient id report_id key now = record {
  id = id;
  report_id = report_id;
  recipient_key = key;
  delivery_status = DeliveryStatus.pending;
  delivery_attempts = 0;
  delivered_at = none;
  last_attempt_at = none;
  error_code = none;
  error_message_redacted = none;
  created_at = now;
  updated_at = now;
}

-- `statuses`: the answer of `register_report_recipients`, in the order of insertion.
abbrev pub Statuses : Type 0
Statuses = List (Text × DeliveryStatus)

module _ (env : Env) where
  -- The row of a key, made and added if there is none.
  unfoldable pub register_recipient : Text → ℕ → Text → DbAction HermesReportRecipientDelivery
  register_recipient report_id now key s = elim (find (is_for report_id key) s.working.recipients) [
    | some row ↦ (ok row, s)
    | none ↦
        (do
          id ← uuid4 env
          let row = new_recipient id report_id key now
          rows ← gets (λ t. t.working.recipients)
          set_recipients (rows ++ row ∷ [])
          pure row)
          s
  ]

  -- The loop over `request.recipient_keys`, which are distinct after the validation.
  unfoldable pub register_loop : Text → ℕ → List Text → DbAction Statuses
  register_loop report_id now [] = pure []
  register_loop report_id now (key ∷ keys) = do
    row ← register_recipient report_id now key
    rest ← register_loop report_id now keys
    pure ((key, row.delivery_status) ∷ rest)

  unfoldable pub register_report_recipients : Text → List Text → DbAction Statuses
  unfolding validate_recipient_keys get_outbox_or_404
  register_report_recipients report_id recipient_keys = do
    keys ← or_raise (validate_recipient_keys recipient_keys) validation_error
    outbox ← get_outbox_or_404 report_id
    now ← datetime_now env
    statuses ← register_loop report_id now keys
    commit
    pure statuses

  unfoldable pub mark_report_recipient_delivered : Text → Text → DbAction ReportStatusResponse
  unfolding get_outbox_or_404 get_recipient_or_404 delivered_recipient save_recipient
      status_response
  mark_report_recipient_delivered report_id key = do
    raise_if (not (is_recipient_key key)) validation_error
    outbox ← get_outbox_or_404 report_id
    delivery ← get_recipient_or_404 report_id key
    now ← datetime_now env
    save_recipient (delivered_recipient now delivery)
    commit
    pure (status_response outbox)

  unfoldable pub mark_report_recipient_failed :
      Unicode → Text → Text → FailedReportRequest → DbAction ReportStatusResponse
  unfolding get_outbox_or_404 get_recipient_or_404 failed_recipient save_recipient status_response
  mark_report_recipient_failed u report_id key request = do
    raise_if (not (is_recipient_key key && failed_request_valid request)) validation_error
    outbox ← get_outbox_or_404 report_id
    delivery ← get_recipient_or_404 report_id key
    now ← datetime_now env
    save_recipient (failed_recipient u now request delivery)
    commit
    pure (status_response outbox)

-- A route behind `Depends(require_internal_token)`.
unfoldable pub guarded : {A : Type 0} → Text → Option Text → DbAction A → DbAction A
unfolding require_internal_token
guarded token authorization route = do require_internal_token token authorization; route
