-- ===== src/OutboxApi/Serve.antt =====
-- Any sequence of calls of the five routes that write, each with what it was sent.
use dos_amigos_ops.Base.{List, Text, [], ◌∷◌}
use dos_amigos_ops.Models.{Env, Session}
use dos_amigos_ops.OutboxApi.Recipients.{
  mark_report_recipient_delivered, mark_report_recipient_failed, register_report_recipients,
}
use dos_amigos_ops.OutboxApi.Reports.{mark_report_delivered, mark_report_failed}
use dos_amigos_ops.OutboxApi.Requests.{FailedReportRequest}
use dos_amigos_ops.Redaction.{Unicode}

pub data Call : Type 0 where
  delivered : (report_id : Text) → Call
  failed : (report_id : Text) (request : FailedReportRequest) → Call
  recipients : (report_id : Text) (recipient_keys : List Text) → Call
  recipient_delivered : (report_id key : Text) → Call
  recipient_failed : (report_id key : Text) (request : FailedReportRequest) → Call

module _ (env : Env) (u : Unicode) where
  -- The session that one call leaves.
  unfoldable pub handle : Call → Session → Session
  handle (Call.delivered id) s = (mark_report_delivered env id s).1
  handle (Call.failed id request) s = (mark_report_failed env u id request s).1
  handle (Call.recipients id keys) s = (register_report_recipients env id keys s).1
  handle (Call.recipient_delivered id key) s = (mark_report_recipient_delivered env id key s).1
  handle (Call.recipient_failed id key request) s =
      (mark_report_recipient_failed env u id key request s).1

  unfoldable pub serve : List Call → Session → Session
  unfolding handle
  serve [] s = s
  serve (call ∷ calls) s = serve calls (handle call s)
