-- ===== src/Sender/Tests.antt =====
-- The theorems on the sender at concrete texts and passes.
use dos_amigos_ops.Base.{
  All, List, Text, [], arith, codes, false, if◌then◌else◌, leb, none, true, ◌&&◌, ◌++◌, ◌==◌, ◌∷◌,
  ◌≡◌,
}
use dos_amigos_ops.Base.Action.{exception, ok}
use dos_amigos_ops.Models.Samples.{sample_env, sample_report, sample_session}
use dos_amigos_ops.OutboxApi.{PendingReportResponse, pending_response}
use dos_amigos_ops.Redaction.{Unicode}
use dos_amigos_ops.Sender.Once.{Undelivered, deliver_report-Undelivered}
use dos_amigos_ops.Sender.Progress.{Progress, run_once-Progress}
use dos_amigos_ops.Sender.Run.{
  Pass, ReportSenderConfig, RequestFailure, RequestOutcome, SendOutcome, Surroundings,
  deliver_report, run_once,
}
use dos_amigos_ops.Sender.Split.{split_telegram_message}
use dos_amigos_ops.Sender.SplitLaws.{Splits, split_telegram_message-Splits}

abbrev two_lines : Text
two_lines = codes "ab" ++ 10 ∷ codes "cd"

split_telegram_message-Splits_example :
    (chunks : List Text) × (split_telegram_message 3 two_lines ≡ ok chunks)
    × Splits 3 two_lines chunks
split_telegram_message-Splits_example =
    split_telegram_message-Splits 3 two_lines (omega arith) (omega arith)

abbrev ascii : Unicode
ascii = record { is_word = λ c. leb 97 c && leb c 122; is_decimal = λ c. leb 48 c && leb c 57 }

-- Telegram takes the first message, and the second one though the call raises; the answer to the
-- fourth request is lost.
abbrev surroundings : Surroundings
surroundings = record {
  send_message = λ n chat text.
      if n == 1
      then SendOutcome.taken_raised (exception (codes "TimedOut") (codes "timed out"))
      else SendOutcome.taken;
  request = λ n.
      if n == 3
      then RequestOutcome.processed
          (RequestFailure.other_error (exception (codes "TimeoutError") (codes "timed out")))
      else RequestOutcome.answered;
  hmac_hex = λ secret chat. chat;
}

abbrev config : ReportSenderConfig
config = record {
  allowed_ids = codes "11" ∷ codes "12" ∷ [];
  recipient_key_secret = codes "secret";
  business_date = none;
  dry_run = false;
  retry_failed = true;
  limit = 20;
}

abbrev start : Pass
start = record {
  session = sample_session;
  sent = [];
  sends = 0;
  requests = 0;
  recipient_statuses = [];
  failed_recipient_key = none;
  delivered = 0;
  failed = 0;
  messages_sent = 0;
}

run_once-Progress_example :
    Progress start (run_once sample_env ascii surroundings (codes "t") (codes "t") config start).1
run_once-Progress_example =
    run_once-Progress sample_env ascii surroundings (codes "t") (codes "t") config start

abbrev first_report : PendingReportResponse
first_report = pending_response sample_report

deliver_report-Undelivered_example :
    (new : List (Text × Text)) × ((deliver_report sample_env ascii surroundings
        (codes "t")
        (codes "t")
        config
        first_report
        start).1.sent
      ≡ [] ++ new)
    × All
        (Undelivered sample_env ascii surroundings
          (codes "t")
          (codes "t")
          config
          first_report
          sample_session)
        new
deliver_report-Undelivered_example =
    deliver_report-Undelivered sample_env ascii surroundings (codes "t") (codes "t") config
      first_report start
