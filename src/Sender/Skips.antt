-- ===== src/Sender/Skips.antt =====
-- The chats that a delivery of one report sends to.
use dos_amigos_ops.Base.{
  All, Bool, Bool-cases, List, Option, Text, [], all, false, inl, inr, map, none, not, refl, some,
  true, ◌&&◌, ◌+◌, ◌∷◌, ◌≡◌,
}
use dos_amigos_ops.Base.Action.{Exn, Result, modify, ◌>>=◌}
use dos_amigos_ops.Base.Keeps.{
  Keeps, Keeps-bind, Keeps-gets, Keeps-modify, Keeps-pure, Keeps-result, Keeps-then,
  Keeps-try_except,
}
use dos_amigos_ops.Models.{DbAction, Env, Session}
use dos_amigos_ops.OutboxApi.{
  PendingReportResponse, guarded, mark_report_delivered, mark_report_failed,
  mark_report_recipient_delivered, mark_report_recipient_failed,
}
use dos_amigos_ops.Redaction.{Unicode}
use dos_amigos_ops.Sender.Messages.{
  Adds-refl, Steps, Steps-refl, Steps-same, Steps-trans, To, To-Steps, To-refl, To-same, To-trans,
  set_delivered-Grows,
}
use dos_amigos_ops.Sender.Run.{
  Pass, RequestOutcome, SendOutcome, Surroundings, attempted, authorization_of, begin_recipient,
  close_report, count_delivery, count_failure, count_message, deliver_all, deliver_to,
  end_recipient, fail_report, failure, received, report_recipient_failure, request, send_chunks,
  send_message, status_delivered, telegram_message_limit, try_report,
}
use dos_amigos_ops.Sender.Split.{split_telegram_message}

received-sent :
    {A : Type 0} (o : RequestOutcome) (x : Result A × Session) (p : Pass)
    → (received o x p).1.sent ≡ p.sent
received-sent RequestOutcome.answered x p = refl
received-sent (RequestOutcome.processed e) x p = refl
received-sent (RequestOutcome.unprocessed e) x p = refl

received-statuses :
    {A : Type 0} (o : RequestOutcome) (x : Result A × Session) (p : Pass)
    → (received o x p).1.recipient_statuses ≡ p.recipient_statuses
received-statuses RequestOutcome.answered x p = refl
received-statuses (RequestOutcome.processed e) x p = refl
received-statuses (RequestOutcome.unprocessed e) x p = refl

attempted-To :
    (chat text : Text) (o : SendOutcome) (p : Pass) → To chat p (attempted o chat text p).1
attempted-To chat text SendOutcome.taken p = record {
  adds = ((chat, text) ∷ [], refl, (refl, tt));
  grows = λ k h. h;
}
attempted-To chat text (SendOutcome.taken_raised e) p = record {
  adds = ((chat, text) ∷ [], refl, (refl, tt));
  grows = λ k h. h;
}
attempted-To chat text (SendOutcome.not_taken e) p =
    To-same chat p (record p { sends = p.sends + 1 }) refl refl

module _ (env : Env) (u : Unicode) (net : Surroundings) (core_token internal_token : Text) where
  pub request-sent :
      {A : Type 0} (route : DbAction A) (p : Pass)
      → (request env u net core_token internal_token route p).1.sent ≡ p.sent
  unfolding request
  request-sent route p =
      received-sent (net.request p.requests)
        (guarded core_token (authorization_of internal_token) route p.session) p

  request-statuses :
      {A : Type 0} (route : DbAction A) (p : Pass)
      → (request env u net core_token internal_token route p).1.recipient_statuses
        ≡ p.recipient_statuses
  unfolding request
  request-statuses route p =
      received-statuses (net.request p.requests)
        (guarded core_token (authorization_of internal_token) route p.session) p

  module _ (chat : Text) where
    request-To :
        {A : Type 0} (route : DbAction A)
        → Keeps (To chat) (request env u net core_token internal_token route)
    request-To route = record {
      at = λ p.
          To-same chat p (request env u net core_token internal_token route p).1
            (request-sent route p) (request-statuses route p);
    }

    send_message-To :
        (text : Text) → Keeps (To chat) (send_message env u net core_token internal_token chat text)
    unfolding send_message
    send_message-To text = record {
      at = λ p. attempted-To chat text (net.send_message p.sends chat text) p;
    }

    send_chunks-To :
        (chunks : List Text)
        → Keeps (To chat) (send_chunks env u net core_token internal_token chat chunks)
    unfolding send_chunks
    send_chunks-To [] = Keeps-pure (To chat) (To-refl chat) (To-trans chat) tt
    send_chunks-To (chunk ∷ chunks) =
        Keeps-then (To chat) (To-refl chat) (To-trans chat) _ _ (send_message-To chunk) (
          Keeps-then (To chat) (To-refl chat) (To-trans chat) _ _
            (Keeps-modify (To chat) (To-refl chat) (To-trans chat) count_message
              (λ p. To-same chat p (count_message p) refl refl))
            (send_chunks-To chunks))

    -- The part of `deliver_to` behind its test.
    delivery-To :
        (id : Text) (chunks : List Text) (key : Text) (p : Pass)
        → status_delivered key p.recipient_statuses ≡ false
        → To chat p (deliver_to env u net core_token internal_token id chunks chat key p).1
    unfolding deliver_to
    delivery-To id chunks key p missing =
        let delivery =
          Keeps-then (To chat) (To-refl chat) (To-trans chat) _ _
            (Keeps-modify (To chat) (To-refl chat) (To-trans chat) (begin_recipient key)
              (λ q. To-same chat q (begin_recipient key q) refl refl))
            (Keeps-then (To chat) (To-refl chat) (To-trans chat) _ _ (send_chunks-To chunks) (
              Keeps-then (To chat) (To-refl chat) (To-trans chat) _ _
                (request-To (mark_report_recipient_delivered env id key))
                (Keeps-modify (To chat) (To-refl chat) (To-trans chat) (end_recipient key) (λ q.
                  record {
                    adds = Adds-refl (λ m. m.0 ≡ chat) q (end_recipient key q) refl;
                    grows = set_delivered-Grows key q.recipient_statuses;
                  })))) in
        rw (missing, deliver_to) (delivery.at p)

  module _ (allowed : Text → Bool) (keys : Text → Text) where
    abbrev pub R : Pass → Pass → Type 0
    R = Steps allowed keys

    request-Steps :
        {A : Type 0} (route : DbAction A)
        → Keeps R (request env u net core_token internal_token route)
    request-Steps route = record {
      at = λ p.
          Steps-same allowed keys p (request env u net core_token internal_token route p).1
            (request-sent route p) (request-statuses route p);
    }

    deliver_to-Steps :
        (id : Text) (chunks : List Text) (chat : Text)
        → allowed chat ≡ true
        → Keeps R (deliver_to env u net core_token internal_token id chunks chat (keys chat))
    deliver_to-Steps id chunks chat listed = record {
      at = λ p. elim (Bool-cases (status_delivered (keys chat) p.recipient_statuses)) [
        | inl done ↦ unfold deliver_to in rw (done, deliver_to) (Steps-refl allowed keys p)
        | inr missing ↦
            To-Steps allowed keys chat p _ listed missing
              (delivery-To chat id chunks (keys chat) p missing)
      ];
    }

    deliver_all-Steps :
        (id : Text) (chunks : List Text) (chats : List Text)
        → All (λ chat. allowed chat ≡ true) chats
        → Keeps R (
            deliver_all env u net core_token internal_token id chunks
              (map (λ (chat : Text). (chat, keys chat)) chats))
    unfolding deliver_all
    deliver_all-Steps id chunks [] listed =
        Keeps-pure R (Steps-refl allowed keys) (Steps-trans allowed keys) tt
    deliver_all-Steps id chunks (chat ∷ chats) (listed, rest) =
        Keeps-then R (Steps-refl allowed keys) (Steps-trans allowed keys) _ _
          (deliver_to-Steps id chunks chat listed) (deliver_all-Steps id chunks chats rest)

    local :
        (f : Pass → Pass)
        → ((p : Pass) → (f p).sent ≡ p.sent)
        → ((p : Pass) → (f p).recipient_statuses ≡ p.recipient_statuses)
        → Keeps R (modify f)
    local f h k = record { at = λ p. Steps-same allowed keys p (f p) (h p) (k p) }

    report_recipient_failure-Steps :
        (id : Text) (e : Exn) (key : Option Text)
        → Keeps R (report_recipient_failure env u net core_token internal_token id e key)
    unfolding report_recipient_failure
    report_recipient_failure-Steps id e none =
        Keeps-pure R (Steps-refl allowed keys) (Steps-trans allowed keys) tt
    report_recipient_failure-Steps id e (some key) =
        Keeps-then R (Steps-refl allowed keys) (Steps-trans allowed keys) _ _
          (request-Steps (
            mark_report_recipient_failed env u id key
              (failure env u net core_token internal_token e)))
          (Keeps-pure R (Steps-refl allowed keys) (Steps-trans allowed keys) tt)

    fail_report-Steps :
        (id : Text) (e : Exn) → Keeps R (fail_report env u net core_token internal_token id e)
    unfolding fail_report
    fail_report-Steps id e =
        Keeps-bind R (Steps-refl allowed keys) (Steps-trans allowed keys) _ _
          (Keeps-gets R (Steps-refl allowed keys) (Steps-trans allowed keys)
            (λ (p : Pass). p.failed_recipient_key))
          (λ key.
            Keeps-then R (Steps-refl allowed keys) (Steps-trans allowed keys) _ _
              (report_recipient_failure-Steps id e key)
              (Keeps-then R (Steps-refl allowed keys) (Steps-trans allowed keys) _ _
                (local count_failure (λ p. refl) (λ p. refl))
                (Keeps-then R (Steps-refl allowed keys) (Steps-trans allowed keys) _ _
                  (request-Steps
                    (mark_report_failed env u id (failure env u net core_token internal_token e)))
                  (Keeps-pure R (Steps-refl allowed keys) (Steps-trans allowed keys) true))))

    try_report-Steps :
        (report : PendingReportResponse) (chats : List Text)
        → All (λ chat. allowed chat ≡ true) chats
        → Keeps R (
            try_report env u net core_token internal_token report
              (map (λ (chat : Text). (chat, keys chat)) chats))
    unfolding try_report
    try_report-Steps report chats listed =
        Keeps-try_except R (Steps-refl allowed keys) (Steps-trans allowed keys) _ _
          (Keeps-bind R (Steps-refl allowed keys) (Steps-trans allowed keys) _ _
            (Keeps-result R (Steps-refl allowed keys) (Steps-trans allowed keys) (
              split_telegram_message (telegram_message_limit env u net core_token internal_token)
                report.payload_markdown))
            (λ chunks.
              Keeps-then R (Steps-refl allowed keys) (Steps-trans allowed keys) _ _
                (deliver_all-Steps report.id chunks chats listed)
                (Keeps-pure R (Steps-refl allowed keys) (Steps-trans allowed keys) false)))
          (fail_report-Steps report.id)

    close_report-Steps :
        (id : Text) (report_keys : List Text) (report_failed : Bool)
        → Keeps R (close_report env u net core_token internal_token id report_keys report_failed)
    unfolding close_report
    close_report-Steps id report_keys report_failed =
        let closing =
          Keeps-then R (Steps-refl allowed keys) (Steps-trans allowed keys) _ _
            (local count_delivery (λ p. refl) (λ p. refl))
            (Keeps-then R (Steps-refl allowed keys) (Steps-trans allowed keys) _ _
              (request-Steps (mark_report_delivered env id))
              (Keeps-pure R (Steps-refl allowed keys) (Steps-trans allowed keys) tt)) in
        record {
          at = λ p.
              elim (Bool-cases (
                not report_failed
                && all (λ key. status_delivered key p.recipient_statuses) report_keys)) [
                  | inl closed ↦ rw (closed, close_report) (closing.at p)
                  | inr left_open ↦ rw (left_open, close_report) (Steps-refl allowed keys p)
                ];
        }

    -- What happens to a report once its recipients are registered.
    pub after_registration :
        (report : PendingReportResponse) (chats report_keys : List Text)
        → All (λ chat. allowed chat ≡ true) chats
        → Keeps R (
            try_report env u net core_token internal_token report
              (map (λ (chat : Text). (chat, keys chat)) chats)
            >>= close_report env u net core_token internal_token report.id report_keys)
    after_registration report chats report_keys listed =
        Keeps-bind R (Steps-refl allowed keys) (Steps-trans allowed keys) _ _
          (try_report-Steps report chats listed) (close_report-Steps report.id report_keys)
