-- ===== src/Sender/Progress.antt =====
-- The rows of the outbox before and after `run_once`.
use dos_amigos_ops.Base.{
  Bool, Bool-cases, List, Option, Text, [], all, ap, false, inl, inr, keys, leb, length, none, not,
  refl, some, true, ℕ, ◌&&◌, ◌+◌, ◌∷◌, ◌≡◌,
}
use dos_amigos_ops.Base.Action.{Exn, Result, modify, raise_if, ◌>>=◌}
use dos_amigos_ops.Base.Keeps.{
  Keeps, Keeps-bind, Keeps-gets, Keeps-if, Keeps-modify, Keeps-pure, Keeps-result, Keeps-then,
  Keeps-try_except,
}
use dos_amigos_ops.Models.{DbAction, Env, Session}
use dos_amigos_ops.OutboxApi.{
  FailedReportRequest, PendingReportResponse, guarded, mark_report_delivered, mark_report_failed,
  mark_report_recipient_delivered, mark_report_recipient_failed, pending_reports,
  register_report_recipients,
}
use dos_amigos_ops.OutboxApi.Access.{guarded-cases}
use dos_amigos_ops.OutboxApi.Delivered.{
  RecipientsEvolve, RecipientsEvolve-trans, handle-keeps, same_recipients,
}
use dos_amigos_ops.OutboxApi.Final.{
  ReportsEvolve, ReportsEvolve-trans, handle-evolves, same_reports,
}
use dos_amigos_ops.OutboxApi.Serve.{Call, handle}
use dos_amigos_ops.Redaction.{Unicode}
use dos_amigos_ops.Sender.Run.{
  Pass, ReportSenderConfig, RequestOutcome, SendOutcome, Surroundings, attempted, authorization_of,
  begin_pass, begin_recipient, begin_report, close_report, count_delivery, count_failure,
  count_message, deliver_all, deliver_pending, deliver_report, deliver_reports, deliver_to,
  end_recipient, fail_report, failure, received, report_recipient_failure, request, run_once,
  send_chunks, send_message, status_delivered, summary, telegram_message_limit, try_report,
}
use dos_amigos_ops.Sender.Split.{split_telegram_message}

-- What a pass may change of the stored rows.
pub record Progress (p q : Pass) : Type 0 where
  pub reports : ReportsEvolve p.session q.session
  pub recipients : RecipientsEvolve p.session.working.recipients q.session.working.recipients

abbrev pub SameRows : Pass → Pass → Type 0
SameRows p q = q.session ≡ p.session

pub Progress-same : (p q : Pass) → SameRows p q → Progress p q
Progress-same p q e = record {
  reports = same_reports p.session q.session (ap (λ (s : Session). s.working.outbox) e);
  recipients =
      same_recipients p.session.working.recipients q.session.working.recipients
        (ap (λ (s : Session). s.working.recipients) e);
}

pub Progress-refl : (p : Pass) → Progress p p
Progress-refl p = Progress-same p p refl

pub Progress-trans : (p q r : Pass) → Progress p q → Progress q r → Progress p r
Progress-trans p q r h k = record {
  reports = ReportsEvolve-trans p.session q.session r.session h.reports k.reports;
  recipients =
      RecipientsEvolve-trans p.session.working.recipients q.session.working.recipients
        r.session.working.recipients h.recipients k.recipients;
}

-- The rows that a session shows after another one.
record Moves (s t : Session) : Type 0 where
  reports : ReportsEvolve s t
  recipients : RecipientsEvolve s.working.recipients t.working.recipients

Moves-refl : (s : Session) → Moves s s
Moves-refl s = record {
  reports = same_reports s s refl;
  recipients = same_recipients s.working.recipients s.working.recipients refl;
}

received-Progress :
    {A : Type 0} (o : RequestOutcome) (x : Result A × Session) (p : Pass)
    → Moves p.session x.1
    → Progress p (received o x p).1
received-Progress RequestOutcome.answered x p m = record {
  reports = m.reports;
  recipients = m.recipients;
}
received-Progress (RequestOutcome.processed e) x p m = record {
  reports = m.reports;
  recipients = m.recipients;
}
received-Progress (RequestOutcome.unprocessed e) x p m =
    Progress-same p (record p { requests = p.requests + 1 }) refl

attempted-session :
    (o : SendOutcome) (chat_id text : Text) (p : Pass)
    → (attempted o chat_id text p).1.session ≡ p.session
attempted-session SendOutcome.taken chat_id text p = refl
attempted-session (SendOutcome.taken_raised e) chat_id text p = refl
attempted-session (SendOutcome.not_taken e) chat_id text p = refl

module _ (env : Env) (u : Unicode) (net : Surroundings) (core_token internal_token : Text) where
  request-Keeps :
      {A : Type 0} (route : DbAction A)
      → ((s : Session) → Moves s (route s).1)
      → Keeps Progress (request env u net core_token internal_token route)
  unfolding request
  request-Keeps route h = record {
    at = λ p.
        received-Progress (net.request p.requests)
          (guarded core_token (authorization_of internal_token) route p.session) p
          (guarded-cases (Moves p.session) core_token (authorization_of internal_token) route
            p.session (Moves-refl p.session) (h p.session));
  }

  send_message-Keeps :
      (chat_id text : Text)
      → Keeps Progress (send_message env u net core_token internal_token chat_id text)
  unfolding send_message
  send_message-Keeps chat_id text = record {
    at = λ p.
        let o = net.send_message p.sends chat_id text in
        Progress-same p (attempted o chat_id text p).1 (attempted-session o chat_id text p);
  }

  local : (f : Pass → Pass) → ((p : Pass) → SameRows p (f p)) → Keeps Progress (modify f)
  local f h =
      Keeps-modify Progress Progress-refl Progress-trans f (λ p. Progress-same p (f p) (h p))

  send_chunks-Keeps :
      (chat_id : Text) (chunks : List Text)
      → Keeps Progress (send_chunks env u net core_token internal_token chat_id chunks)
  unfolding send_chunks
  send_chunks-Keeps chat_id [] = Keeps-pure Progress Progress-refl Progress-trans tt
  send_chunks-Keeps chat_id (chunk ∷ chunks) =
      Keeps-then Progress Progress-refl Progress-trans _ _ (send_message-Keeps chat_id chunk) (
        Keeps-then Progress Progress-refl Progress-trans _ _ (local count_message (λ p. refl))
          (send_chunks-Keeps chat_id chunks))

  handle-Moves : (call : Call) (s : Session) → Moves s (handle env u call s)
  handle-Moves call s = record {
    reports = handle-evolves env u call s;
    recipients = handle-keeps env u call s;
  }

  mark_report_recipient_delivered-Keeps :
      (id key : Text)
      → Keeps Progress
          (request env u net core_token internal_token (mark_report_recipient_delivered env id key))
  mark_report_recipient_delivered-Keeps id key =
      request-Keeps (mark_report_recipient_delivered env id key)
        (λ s. unfold handle in handle-Moves (Call.recipient_delivered id key) s)

  mark_report_recipient_failed-Keeps :
      (id key : Text) (r : FailedReportRequest)
      → Keeps Progress (
          request env u net core_token internal_token (mark_report_recipient_failed env u id key r))
  mark_report_recipient_failed-Keeps id key r =
      request-Keeps (mark_report_recipient_failed env u id key r)
        (λ s. unfold handle in handle-Moves (Call.recipient_failed id key r) s)

  mark_report_delivered-Keeps :
      (id : Text)
      → Keeps Progress (request env u net core_token internal_token (mark_report_delivered env id))
  mark_report_delivered-Keeps id =
      request-Keeps (mark_report_delivered env id)
        (λ s. unfold handle in handle-Moves (Call.delivered id) s)

  mark_report_failed-Keeps :
      (id : Text) (r : FailedReportRequest)
      → Keeps Progress (request env u net core_token internal_token (mark_report_failed env u id r))
  mark_report_failed-Keeps id r =
      request-Keeps (mark_report_failed env u id r)
        (λ s. unfold handle in handle-Moves (Call.failed id r) s)

  register_report_recipients-Keeps :
      (id : Text) (keys : List Text)
      → Keeps Progress
          (request env u net core_token internal_token (register_report_recipients env id keys))
  register_report_recipients-Keeps id keys =
      request-Keeps (register_report_recipients env id keys)
        (λ s. unfold handle in handle-Moves (Call.recipients id keys) s)

  deliver_to-Keeps :
      (id : Text) (chunks : List Text) (chat_id key : Text)
      → Keeps Progress (deliver_to env u net core_token internal_token id chunks chat_id key)
  unfolding deliver_to
  deliver_to-Keeps id chunks chat_id key =
      let delivery =
        Keeps-then Progress Progress-refl Progress-trans _ _
          (local (begin_recipient key) (λ p. refl))
          (Keeps-then Progress Progress-refl Progress-trans _ _ (send_chunks-Keeps chat_id chunks) (
            Keeps-then Progress Progress-refl Progress-trans _ _
              (mark_report_recipient_delivered-Keeps id key)
              (local (end_recipient key) (λ p. refl)))) in
      record {
        at = λ p. elim (Bool-cases (status_delivered key p.recipient_statuses)) [
          | inl done ↦ rw (done, deliver_to) (Progress-refl p)
          | inr open_still ↦ rw (open_still, deliver_to) (delivery.at p)
        ];
      }

  deliver_all-Keeps :
      (id : Text) (chunks : List Text) (chats : List (Text × Text))
      → Keeps Progress (deliver_all env u net core_token internal_token id chunks chats)
  unfolding deliver_all
  deliver_all-Keeps id chunks [] = Keeps-pure Progress Progress-refl Progress-trans tt
  deliver_all-Keeps id chunks ((chat_id, key) ∷ chats) =
      Keeps-then Progress Progress-refl Progress-trans _ _ (deliver_to-Keeps id chunks chat_id key)
        (deliver_all-Keeps id chunks chats)

  report_recipient_failure-Keeps :
      (id : Text) (e : Exn) (key : Option Text)
      → Keeps Progress (report_recipient_failure env u net core_token internal_token id e key)
  unfolding report_recipient_failure
  report_recipient_failure-Keeps id e none = Keeps-pure Progress Progress-refl Progress-trans tt
  report_recipient_failure-Keeps id e (some key) =
      Keeps-then Progress Progress-refl Progress-trans _ _
        (mark_report_recipient_failed-Keeps id key (failure env u net core_token internal_token e))
        (Keeps-pure Progress Progress-refl Progress-trans tt)

  fail_report-Keeps :
      (id : Text) (e : Exn) → Keeps Progress (fail_report env u net core_token internal_token id e)
  unfolding fail_report
  fail_report-Keeps id e =
      Keeps-bind Progress Progress-refl Progress-trans _ _
        (Keeps-gets Progress Progress-refl Progress-trans (λ (p : Pass). p.failed_recipient_key))
        (λ key.
          Keeps-then Progress Progress-refl Progress-trans _ _
            (report_recipient_failure-Keeps id e key)
            (Keeps-then Progress Progress-refl Progress-trans _ _ (local count_failure (λ p. refl))
              (Keeps-then Progress Progress-refl Progress-trans _ _
                (mark_report_failed-Keeps id (failure env u net core_token internal_token e))
                (Keeps-pure Progress Progress-refl Progress-trans true))))

  try_report-Keeps :
      (report : PendingReportResponse) (chats : List (Text × Text))
      → Keeps Progress (try_report env u net core_token internal_token report chats)
  unfolding try_report
  try_report-Keeps report chats =
      Keeps-try_except Progress Progress-refl Progress-trans _ _
        (Keeps-bind Progress Progress-refl Progress-trans _ _
          (Keeps-result Progress Progress-refl Progress-trans (
            split_telegram_message (telegram_message_limit env u net core_token internal_token)
              report.payload_markdown))
          (λ chunks.
            Keeps-then Progress Progress-refl Progress-trans _ _
              (deliver_all-Keeps report.id chunks chats)
              (Keeps-pure Progress Progress-refl Progress-trans false)))
        (fail_report-Keeps report.id)

  close_report-Keeps :
      (id : Text) (keys : List Text) (report_failed : Bool)
      → Keeps Progress (close_report env u net core_token internal_token id keys report_failed)
  unfolding close_report
  close_report-Keeps id keys report_failed =
      let closing =
        Keeps-then Progress Progress-refl Progress-trans _ _ (local count_delivery (λ p. refl)) (
          Keeps-then Progress Progress-refl Progress-trans _ _ (mark_report_delivered-Keeps id)
            (Keeps-pure Progress Progress-refl Progress-trans tt)) in
      record {
        at = λ p.
            elim (Bool-cases
              (not report_failed && all (λ key. status_delivered key p.recipient_statuses) keys)) [
                | inl closed ↦ rw (closed, close_report) (closing.at p)
                | inr left_open ↦ rw (left_open, close_report) (Progress-refl p)
              ];
      }

  deliver_report-Keeps :
      (config : ReportSenderConfig) (report : PendingReportResponse)
      → Keeps Progress (deliver_report env u net core_token internal_token config report)
  unfolding deliver_report
  deliver_report-Keeps config report =
      Keeps-bind Progress Progress-refl Progress-trans _ _
        (register_report_recipients-Keeps report.id _)
        (λ statuses.
          Keeps-then Progress Progress-refl Progress-trans _ _
            (local (begin_report statuses) (λ p. refl))
            (Keeps-bind Progress Progress-refl Progress-trans _ _ (try_report-Keeps report _)
              (λ report_failed. close_report-Keeps report.id _ report_failed)))

  deliver_reports-Keeps :
      (config : ReportSenderConfig) (reports : List PendingReportResponse)
      → Keeps Progress (deliver_reports env u net core_token internal_token config reports)
  unfolding deliver_reports
  deliver_reports-Keeps config [] = Keeps-pure Progress Progress-refl Progress-trans tt
  deliver_reports-Keeps config (report ∷ reports) =
      Keeps-then Progress Progress-refl Progress-trans _ _ (deliver_report-Keeps config report)
        (deliver_reports-Keeps config reports)

  deliver_pending-Keeps :
      (config : ReportSenderConfig) (reports : List PendingReportResponse)
      → Keeps Progress (deliver_pending env u net core_token internal_token config reports)
  unfolding deliver_pending
  deliver_pending-Keeps config [] = Keeps-pure Progress Progress-refl Progress-trans _
  deliver_pending-Keeps config (report ∷ reports) =
      Keeps-if Progress Progress-refl Progress-trans config.dry_run _ _
        (Keeps-pure Progress Progress-refl Progress-trans _)
        (Keeps-then Progress Progress-refl Progress-trans _ _ (local begin_pass (λ p. refl)) (
          Keeps-then Progress Progress-refl Progress-trans _ _
            (deliver_reports-Keeps config (report ∷ reports))
            (Keeps-gets Progress Progress-refl Progress-trans
              (summary env u net core_token internal_token config (length (report ∷ reports))))))

  pending_reports-Moves :
      (limit : ℕ) (day : Option ℕ) (failed_too : Bool) (s : Session)
      → Moves s (pending_reports limit day failed_too s).1
  unfolding pending_reports
  pending_reports-Moves limit day failed_too s = elim (Bool-cases (leb 1 limit && leb limit 100)) [
    | inl v ↦ rw (v, raise_if, ◌>>=◌) (Moves-refl s)
    | inr v ↦ rw (v, raise_if, ◌>>=◌) (Moves-refl s)
  ]

  -- Whatever Telegram and the network do, where a request may be processed by the core and its
  -- answer lost, or not be processed, a delivery pass that ends or is cut off by an exception
  -- keeps every stored report with its payload and its text, and every report and every recipient
  -- that was delivered before it is delivered after it.
  pub run_once-Progress :
      (config : ReportSenderConfig) (p : Pass)
      → Progress p (run_once env u net core_token internal_token config p).1
  unfolding run_once
  run_once-Progress config =
      (Keeps-bind Progress Progress-refl Progress-trans _ _
        (request-Keeps _
          (pending_reports-Moves config.limit config.business_date config.retry_failed))
        (λ reports. deliver_pending-Keeps config reports)).at
