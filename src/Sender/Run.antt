-- ===== src/Sender/Run.antt =====
-- `run_once` of ops/telegram/report_sender.py against the internal API of the outbox. The local
-- variables that outlive an exception stand in the state beside the database.
use dos_amigos_ops.Base.{
  Bool, List, Option, Text, [], all, codes, false, if◌then◌else◌, keys, length, ltb, map, none, not,
  some, text_eq, true, ℕ, ◌%◌, ◌&&◌, ◌++◌, ◌+◌, ◌/◌, ◌∷◌,
}
use dos_amigos_ops.Base.Action.{
  Action, Exn, Result, err, exception, gets, http_exception, modify, ok, pure, try_except, ◌>>=◌,
  ◌>>◌,
}
use dos_amigos_ops.Models.{DbAction, DeliveryStatus, Env, Session, is_delivered}
use dos_amigos_ops.OutboxApi.{
  FailedReportRequest, PendingReportResponse, Statuses, guarded, mark_report_delivered,
  mark_report_failed, mark_report_recipient_delivered, mark_report_recipient_failed,
  pending_reports, register_report_recipients,
}
use dos_amigos_ops.Redaction.{Unicode, safe_exception_message}
use dos_amigos_ops.Sender.Split.{split_telegram_message}

-- How `urlopen` and the reading of its answer fail: by a `URLError`, or by any other exception, such
-- as a time-out or a text that is no JSON.
pub data RequestFailure : Type 0 where
  url_error : RequestFailure
  other_error : Exn → RequestFailure

-- What becomes of a request: the core processes it and the answer arrives, or the core processes
-- it and the sender gets an exception, or the core does not.
pub data RequestOutcome : Type 0 where
  answered : RequestOutcome
  processed unprocessed : RequestFailure → RequestOutcome

-- What becomes of a message: Telegram takes it and the call returns, or Telegram takes it and the
-- call raises, or Telegram does not.
pub data SendOutcome : Type 0 where
  taken : SendOutcome
  taken_raised not_taken : Exn → SendOutcome

-- What the sender asks of its surroundings: what becomes of the n-th `send_message` and of the n-th
-- request to the core API, and HMAC-SHA256 of a chat's id in hexadecimal.
pub record Surroundings : Type 0 where
  pub send_message : ℕ → Text → Text → SendOutcome
  pub request : ℕ → RequestOutcome
  pub hmac_hex : Text → Text → Text

pub record ReportSenderConfig : Type 0 where
  pub allowed_ids : List Text
  pub recipient_key_secret : Text
  pub business_date : Option ℕ
  pub dry_run : Bool
  pub retry_failed : Bool
  pub limit : ℕ

pub data SenderStatus : Type 0 where
  empty dry_run delivered failed : SenderStatus

pub record ReportSenderResult : Type 0 where
  pub status : SenderStatus
  pub considered : ℕ
  pub delivered : ℕ
  pub failed : ℕ
  pub messages_sent : ℕ
  pub dry_run : Bool

-- `sent` lists the messages that Telegram took, also where the call raised then; `sends` counts the
-- attempts and `requests` the requests to the core; the rest are the variables of `run_once`.
pub record Pass : Type 0 where
  pub session : Session
  pub sent : List (Text × Text)
  pub sends : ℕ
  pub requests : ℕ
  pub recipient_statuses : Statuses
  pub failed_recipient_key : Option Text
  pub delivered : ℕ
  pub failed : ℕ
  pub messages_sent : ℕ

-- `recipient_statuses.get(key) == "delivered"`
unfoldable pub status_delivered : Text → Statuses → Bool
status_delivered key [] = false
status_delivered key ((k, status) ∷ rest) =
    if text_eq k key then is_delivered status else status_delivered key rest

-- `recipient_statuses[key] = "delivered"`
unfoldable pub set_delivered : Text → Statuses → Statuses
set_delivered key [] = (key, DeliveryStatus.delivered) ∷ []
set_delivered key ((k, status) ∷ rest) =
    if text_eq k key
    then (k, DeliveryStatus.delivered) ∷ rest
    else (k, status) ∷ set_delivered key rest

-- The assignments to the variables of the pass.
abbrev pub count_message : Pass → Pass
count_message p = record p { messages_sent = p.messages_sent + 1 }

abbrev pub count_failure : Pass → Pass
count_failure p = record p { failed = p.failed + 1 }

abbrev pub count_delivery : Pass → Pass
count_delivery p = record p { delivered = p.delivered + 1 }

abbrev pub begin_pass : Pass → Pass
begin_pass p = record p { delivered = 0; failed = 0; messages_sent = 0 }

abbrev pub begin_report : Statuses → Pass → Pass
begin_report statuses p = record p { recipient_statuses = statuses; failed_recipient_key = none }

abbrev pub begin_recipient : Text → Pass → Pass
begin_recipient key p = record p { failed_recipient_key = some key }

abbrev pub end_recipient : Text → Pass → Pass
end_recipient key p = record p {
  recipient_statuses = set_delivered key p.recipient_statuses;
  failed_recipient_key = none;
}

-- A status code in decimal; the codes have three digits.
abbrev pub code_text : ℕ → Text
code_text n = (48 + n / 100) ∷ (48 + n / 10 % 10) ∷ (48 + n % 10) ∷ []

-- `urllib.error.HTTPError` becomes a `RuntimeError` that names the code, which is 500 for an
-- exception of a route that is no `HTTPException`.
unfoldable pub http_error : Exn → Exn
http_error (http_exception code detail) =
    exception (codes "RuntimeError") (codes "core API returned HTTP " ++ code_text code)
http_error (exception name message) =
    exception (codes "RuntimeError") (codes "core API returned HTTP " ++ code_text 500)

abbrev pub unavailable : Exn
unavailable = exception (codes "RuntimeError") (codes "core API is unavailable")

-- Only a `URLError` is converted.
abbrev pub raised_by : RequestFailure → Exn
raised_by url_error = unavailable
raised_by (other_error e) = e

-- `Authorization`, which is sent if there is a token
abbrev pub authorization_of : Text → Option Text
authorization_of [] = none
authorization_of (c ∷ token) = some (codes "Bearer " ++ c ∷ token)

abbrev pub answer_of : {A : Type 0} → Result A → Result A
answer_of (ok a) = ok a
answer_of (err e) = err (http_error e)

-- The sender's side of a request that leaves the core with this answer and session, if it does.
abbrev pub received : {A : Type 0} → RequestOutcome → Result A × Session → Action Pass A
received answered (answer, session) p =
    (answer_of answer, record p { session = session; requests = p.requests + 1 })
received (processed e) (answer, session) p =
    (err (raised_by e), record p { session = session; requests = p.requests + 1 })
received (unprocessed e) _ p = (err (raised_by e), record p { requests = p.requests + 1 })

abbrev pub attempted : SendOutcome → Text → Text → Action Pass (Unit {0})
attempted taken chat_id text p =
    (ok tt, record p { sent = p.sent ++ (chat_id, text) ∷ []; sends = p.sends + 1 })
attempted (taken_raised e) chat_id text p =
    (err e, record p { sent = p.sent ++ (chat_id, text) ∷ []; sends = p.sends + 1 })
attempted (not_taken e) chat_id text p = (err e, record p { sends = p.sends + 1 })

module _ (env : Env) (u : Unicode) (net : Surroundings) (core_token internal_token : Text) where
  -- `HttpReportOutboxClient._request`: one route of the API behind its token.
  unfoldable pub request : {A : Type 0} → DbAction A → Action Pass A
  request route p =
      received (net.request p.requests)
        (guarded core_token (authorization_of internal_token) route p.session) p

  -- `telegram_client.send_message`
  unfoldable pub send_message : Text → Text → Action Pass (Unit {0})
  send_message chat_id text p = attempted (net.send_message p.sends chat_id text) chat_id text p

  -- `for chunk in chunks`
  unfoldable pub send_chunks : Text → List Text → Action Pass (Unit {0})
  send_chunks chat_id [] = pure tt
  send_chunks chat_id (chunk ∷ chunks) = do
    send_message chat_id chunk
    modify count_message
    send_chunks chat_id chunks

  -- The body of the loop over the chats.
  unfoldable pub deliver_to : Text → List Text → Text → Text → Action Pass (Unit {0})
  deliver_to report_id chunks chat_id key p =
      if status_delivered key p.recipient_statuses
      then (ok tt, p)
      else ((do
        modify (begin_recipient key)
        send_chunks chat_id chunks
        request (mark_report_recipient_delivered env report_id key)
        modify (end_recipient key))
          p)

  -- `for chat_id, recipient_key in zip(...)`
  unfoldable pub deliver_all : Text → List Text → List (Text × Text) → Action Pass (Unit {0})
  deliver_all report_id chunks [] = pure tt
  deliver_all report_id chunks ((chat_id, key) ∷ chats) = do
    deliver_to report_id chunks chat_id key
    deliver_all report_id chunks chats

  abbrev pub failure : Exn → FailedReportRequest
  failure e = record {
    error_code = some (codes "telegram_delivery_failed");
    error_message = some (safe_exception_message u e);
  }

  -- `if failed_recipient_key is not None`
  unfoldable pub report_recipient_failure : Text → Exn → Option Text → Action Pass (Unit {0})
  report_recipient_failure report_id e none = pure tt
  report_recipient_failure report_id e (some key) = do
    request (mark_report_recipient_failed env u report_id key (failure e))
    pure tt

  -- The `except` clause.
  unfoldable pub fail_report : Text → Exn → Action Pass Bool
  fail_report report_id e = do
    failed_key ← gets (λ p. p.failed_recipient_key)
    report_recipient_failure report_id e failed_key
    modify count_failure
    request (mark_report_failed env u report_id (failure e))
    pure true

  abbrev pub lift : {A : Type 0} → Result A → Action Pass A
  lift r p = (r, p)

  abbrev pub telegram_message_limit : ℕ
  telegram_message_limit = 4096

  -- The `try` clause: false if it ran through.
  unfoldable pub try_report : PendingReportResponse → List (Text × Text) → Action Pass Bool
  try_report report chats =
      try_except
        (do
          chunks ← lift (split_telegram_message telegram_message_limit report.payload_markdown)
          deliver_all report.id chunks chats
          pure false)
        (fail_report report.id)

  -- The report is marked delivered once all its recipients are.
  unfoldable pub close_report : Text → List Text → Bool → Action Pass (Unit {0})
  close_report report_id keys report_failed p =
      if not report_failed && all (λ key. status_delivered key p.recipient_statuses) keys
      then ((do modify count_delivery; request (mark_report_delivered env report_id); pure tt) p)
      else (ok tt, p)

  module _ (config : ReportSenderConfig) where
    -- `recipient_key_for_chat_id`
    abbrev pub recipient_key : Text → Text
    recipient_key chat_id = net.hmac_hex config.recipient_key_secret chat_id

    -- The body of the loop over the reports.
    unfoldable pub deliver_report : PendingReportResponse → Action Pass (Unit {0})
    deliver_report report = do
      statuses ←
          request (register_report_recipients env report.id (map recipient_key config.allowed_ids))
      modify (begin_report statuses)
      report_failed ←
          try_report report (map (λ chat. (chat, recipient_key chat)) config.allowed_ids)
      close_report report.id (map recipient_key config.allowed_ids) report_failed

    unfoldable pub deliver_reports : List PendingReportResponse → Action Pass (Unit {0})
    deliver_reports [] = pure tt
    deliver_reports (report ∷ reports) = do deliver_report report; deliver_reports reports

    abbrev pub summary : ℕ → Pass → ReportSenderResult
    summary considered p = record {
      status = if ltb 0 p.failed then SenderStatus.failed else SenderStatus.delivered;
      considered = considered;
      delivered = p.delivered;
      failed = p.failed;
      messages_sent = p.messages_sent;
      dry_run = false;
    }

    abbrev pub quiet : SenderStatus → ℕ → Bool → ReportSenderResult
    quiet status considered is_dry = record {
      status = status;
      considered = considered;
      delivered = 0;
      failed = 0;
      messages_sent = 0;
      dry_run = is_dry;
    }

    unfoldable pub deliver_pending : List PendingReportResponse → Action Pass ReportSenderResult
    deliver_pending [] = pure (quiet SenderStatus.empty 0 config.dry_run)
    deliver_pending (report ∷ reports) =
        if config.dry_run
        then pure (quiet SenderStatus.dry_run (length (report ∷ reports)) true)
        else (do
          modify begin_pass
          deliver_reports (report ∷ reports)
          gets (summary (length (report ∷ reports))))

    unfoldable pub run_once : Action Pass ReportSenderResult
    run_once = do
      reports ← request (pending_reports config.limit config.business_date config.retry_failed)
      deliver_pending reports
