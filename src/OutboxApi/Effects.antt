-- ===== src/OutboxApi/Effects.antt =====
-- What each route does to the session, by whether its rows are there.
use dos_amigos_ops.Base.{
  Bool-cases, List, Option-cases, Text, [], arith, codes, false, if◌then◌else◌, inl, inr, is_some,
  none, or_else, refl, some, true, update_where, ℕ, ◌&&◌, ◌++◌, ◌+◌, ◌∷◌, ◌≡◌,
}
use dos_amigos_ops.Base.Action.{Exn, err, http_exception, ok}
use dos_amigos_ops.Models.{Env, HermesReportOutbox, HermesReportRecipientDelivery, Session, Tables}
use dos_amigos_ops.OutboxApi.Lookup.{recipient, report}
use dos_amigos_ops.OutboxApi.Recipients.{
  Statuses, delivered_recipient, failed_recipient, mark_report_recipient_delivered,
  mark_report_recipient_failed, new_recipient, register_loop, register_recipient,
  register_report_recipients,
}
use dos_amigos_ops.OutboxApi.Reports.{
  delivered_report, failed_report, mark_report_delivered, mark_report_failed,
}
use dos_amigos_ops.OutboxApi.Requests.{
  FailedReportRequest, failed_request_valid, has_id, is_for, is_recipient_key, status_response,
  validate_recipient_keys, validation_error,
}
use dos_amigos_ops.Redaction.{Unicode}

-- The session after a row of the outbox was written and committed, at one reading of the clock.
abbrev pub wrote_report : HermesReportOutbox → Session → Session
wrote_report row s =
    let db : Tables = record s.working {
      outbox = update_where (has_id row.id) (λ _. row) s.working.outbox;
    } in
    record s { working = db; committed = db; ticks = s.ticks + 1 }

abbrev pub wrote_recipient : HermesReportRecipientDelivery → Session → Session
wrote_recipient row s =
    let db : Tables = record s.working {
      recipients =
          update_where (is_for row.report_id row.recipient_key) (λ _. row) s.working.recipients;
    } in
    record s { working = db; committed = db; ticks = s.ticks + 1 }

abbrev pub not_found : Exn
not_found = http_exception 404 (codes "report not found")

abbrev pub recipient_not_found : Exn
recipient_not_found = http_exception 404 (codes "recipient delivery not found")

module _ (env : Env) (u : Unicode) (id : Text) (s : Session) where
  pub mark_report_delivered_missing :
      report id s.working ≡ none → mark_report_delivered env id s ≡ (err not_found, s)
  unfolding mark_report_delivered
  mark_report_delivered_missing h = ground arith

  pub mark_report_delivered_found :
      (x : HermesReportOutbox)
      → report id s.working ≡ some x
      → let b = delivered_report (env.now s.ticks) x in
        mark_report_delivered env id s ≡ (ok (status_response b), wrote_report b s)
  unfolding mark_report_delivered
  mark_report_delivered_found x h = ground arith

  pub mark_report_failed_invalid :
      (request : FailedReportRequest)
      → failed_request_valid request ≡ false
      → mark_report_failed env u id request s ≡ (err validation_error, s)
  unfolding mark_report_failed
  mark_report_failed_invalid request v = ground arith

  pub mark_report_failed_missing :
      (request : FailedReportRequest)
      → failed_request_valid request ≡ true
      → report id s.working ≡ none
      → mark_report_failed env u id request s ≡ (err not_found, s)
  unfolding mark_report_failed
  mark_report_failed_missing request v h = ground arith

  pub mark_report_failed_found :
      (request : FailedReportRequest) (x : HermesReportOutbox)
      → failed_request_valid request ≡ true
      → report id s.working ≡ some x
      → let b = failed_report u (env.now s.ticks) request x in
        mark_report_failed env u id request s ≡ (ok (status_response b), wrote_report b s)
  unfolding mark_report_failed
  mark_report_failed_found request x v h = ground arith

module _ (env : Env) (u : Unicode) (id key : Text) (s : Session) where
  pub mark_report_recipient_delivered_invalid :
      is_recipient_key key ≡ false
      → mark_report_recipient_delivered env id key s ≡ (err validation_error, s)
  unfolding mark_report_recipient_delivered
  mark_report_recipient_delivered_invalid v = ground arith

  pub mark_report_recipient_delivered_missing :
      is_recipient_key key ≡ true
      → report id s.working ≡ none
      → mark_report_recipient_delivered env id key s ≡ (err not_found, s)
  unfolding mark_report_recipient_delivered
  mark_report_recipient_delivered_missing v h = ground arith

  pub mark_report_recipient_delivered_unregistered :
      (x : HermesReportOutbox)
      → is_recipient_key key ≡ true
      → report id s.working ≡ some x
      → recipient id key s.working ≡ none
      → mark_report_recipient_delivered env id key s ≡ (err recipient_not_found, s)
  unfolding mark_report_recipient_delivered
  mark_report_recipient_delivered_unregistered x v h k = ground arith

  pub mark_report_recipient_delivered_found :
      (x : HermesReportOutbox) (r : HermesReportRecipientDelivery)
      → is_recipient_key key ≡ true
      → report id s.working ≡ some x
      → recipient id key s.working ≡ some r
      → mark_report_recipient_delivered env id key s
        ≡ (ok (status_response x), wrote_recipient (delivered_recipient (env.now s.ticks) r) s)
  unfolding mark_report_recipient_delivered
  mark_report_recipient_delivered_found x r v h k = ground arith

  pub mark_report_recipient_failed_invalid :
      (request : FailedReportRequest)
      → (is_recipient_key key && failed_request_valid request) ≡ false
      → mark_report_recipient_failed env u id key request s ≡ (err validation_error, s)
  unfolding mark_report_recipient_failed
  mark_report_recipient_failed_invalid request v = ground arith

  pub mark_report_recipient_failed_missing :
      (request : FailedReportRequest)
      → (is_recipient_key key && failed_request_valid request) ≡ true
      → report id s.working ≡ none
      → mark_report_recipient_failed env u id key request s ≡ (err not_found, s)
  unfolding mark_report_recipient_failed
  mark_report_recipient_failed_missing request v h = ground arith

  pub mark_report_recipient_failed_unregistered :
      (request : FailedReportRequest) (x : HermesReportOutbox)
      → (is_recipient_key key && failed_request_valid request) ≡ true
      → report id s.working ≡ some x
      → recipient id key s.working ≡ none
      → mark_report_recipient_failed env u id key request s ≡ (err recipient_not_found, s)
  unfolding mark_report_recipient_failed
  mark_report_recipient_failed_unregistered request x v h k = ground arith

  pub mark_report_recipient_failed_found :
      (request : FailedReportRequest) (x : HermesReportOutbox) (r : HermesReportRecipientDelivery)
      → (is_recipient_key key && failed_request_valid request) ≡ true
      → report id s.working ≡ some x
      → recipient id key s.working ≡ some r
      → mark_report_recipient_failed env u id key request s ≡ (
        ok (status_response x),
        wrote_recipient (failed_recipient u (env.now s.ticks) request r) s,
      )
  unfolding mark_report_recipient_failed
  mark_report_recipient_failed_found request x r v h k = ground arith

module _ (env : Env) (id key : Text) (now : ℕ) (s : Session) where
  -- The session after the row of a new recipient was added.
  abbrev pub added_recipient : Session
  added_recipient = record s {
    working = record s.working {
      recipients = s.working.recipients ++ new_recipient (env.uuid s.draws) id key now ∷ [];
    };
    draws = s.draws + 1;
  }

  -- The row of the key afterwards.
  abbrev pub registered_row : HermesReportRecipientDelivery
  registered_row =
      or_else (recipient id key s.working) (new_recipient (env.uuid s.draws) id key now)

  abbrev pub registered : Session
  registered = if is_some (recipient id key s.working) then s else added_recipient

  pub register_recipient_lem : register_recipient env id now key s ≡ (ok registered_row, registered)
  unfolding register_recipient
  register_recipient_lem = ground arith

module _ (env : Env) (id : Text) (now : ℕ) where
  -- The session and the answer of the loop over the keys.
  unfoldable pub all_registered : List Text → Session → Session
  all_registered [] s = s
  all_registered (key ∷ keys) s = all_registered keys (registered env id key now s)

  unfoldable pub answers : List Text → Session → Statuses
  answers [] s = []
  answers (key ∷ keys) s =
      (key, (registered_row env id key now s).delivery_status)
      ∷ answers keys (registered env id key now s)

  pub register_loop_lem :
      (keys : List Text) (s : Session)
      → register_loop env id now keys s ≡ (ok (answers keys s), all_registered keys s)
  unfolding register_loop all_registered answers
  register_loop_lem [] s = refl
  register_loop_lem (key ∷ keys) s = ground (
    arith,
    register_recipient_lem env id key now s,
    register_loop_lem keys (registered env id key now s),
  )

  -- What every newly added recipient keeps holds after the loop.
  pub all_registered-induction {ℓ} :
      (P : Session → Type ℓ)
      → ((key : Text) (s : Session)
          → recipient id key s.working ≡ none
          → P s
          → P (added_recipient env id key now s))
      → (keys : List Text) (s : Session) → P s
      → P (all_registered keys s)
  unfolding all_registered
  all_registered-induction P step [] s h = h
  all_registered-induction P step (key ∷ keys) s h =
      elim (Option-cases (recipient id key s.working)) [
        | inl fresh ↦
            all_registered-induction P step keys (registered env id key now s)
              (rw (fresh) (step key s fresh h))
        | inr (row, known) ↦
            all_registered-induction P step keys (registered env id key now s) (rw known h)
      ]

-- A session whose changes are committed, at one more reading of the clock.
abbrev pub committed_at : Session → Session
committed_at s = record s { committed = s.working }

module _ (env : Env) (id : Text) (keys : List Text) (s : Session) where
  abbrev ticked : Session
  ticked = record s { ticks = s.ticks + 1 }

  -- The session after the recipients were registered.
  abbrev pub recipients_registered : List Text → Session
  recipients_registered valid =
      let t = all_registered env id (env.now s.ticks) valid ticked in
      record t { committed = t.working }

  pub register_report_recipients_invalid :
      validate_recipient_keys keys ≡ none
      → register_report_recipients env id keys s ≡ (err validation_error, s)
  unfolding register_report_recipients
  register_report_recipients_invalid v = ground arith

  pub register_report_recipients_missing :
      (valid : List Text)
      → validate_recipient_keys keys ≡ some valid
      → report id s.working ≡ none
      → register_report_recipients env id keys s ≡ (err not_found, s)
  unfolding register_report_recipients
  register_report_recipients_missing valid v h = ground arith

  pub register_report_recipients_found :
      (valid : List Text) (x : HermesReportOutbox)
      → validate_recipient_keys keys ≡ some valid
      → report id s.working ≡ some x
      → register_report_recipients env id keys s
        ≡ (ok (answers env id (env.now s.ticks) valid ticked), recipients_registered valid)
  unfolding register_report_recipients
  register_report_recipients_found valid x v h =
      ground (arith, register_loop_lem env id (env.now s.ticks) valid ticked)

-- What holds of the session before, and of one with the recipient's row written, holds after.
module _ {ℓ} (P : Session → Type ℓ) (env : Env) (u : Unicode) (id key : Text) (s : Session)
    (before : P s) where
  pub mark_report_recipient_delivered-cases :
      ((r : HermesReportRecipientDelivery)
        → recipient id key s.working ≡ some r
        → P (wrote_recipient (delivered_recipient (env.now s.ticks) r) s))
      → P (mark_report_recipient_delivered env id key s).1
  mark_report_recipient_delivered-cases written = elim (Bool-cases (is_recipient_key key)) [
    | inr v ↦ rw (mark_report_recipient_delivered_invalid env u id key s v) before
    | inl v ↦ elim (Option-cases (report id s.working)) [
      | inl h ↦ rw (mark_report_recipient_delivered_missing env u id key s v h) before
      | inr (x, h) ↦ elim (Option-cases (recipient id key s.working)) [
        | inl k ↦ rw (mark_report_recipient_delivered_unregistered env u id key s x v h k) before
        | inr (r, k) ↦
            rw (mark_report_recipient_delivered_found env u id key s x r v h k) (written r k)
      ]
    ]
  ]

  pub mark_report_recipient_failed-cases :
      (request : FailedReportRequest)
      → ((r : HermesReportRecipientDelivery)
          → recipient id key s.working ≡ some r
          → P (wrote_recipient (failed_recipient u (env.now s.ticks) request r) s))
      → P (mark_report_recipient_failed env u id key request s).1
  mark_report_recipient_failed-cases request written =
      elim (Bool-cases (is_recipient_key key && failed_request_valid request)) [
        | inr v ↦ rw (mark_report_recipient_failed_invalid env u id key s request v) before
        | inl v ↦ elim (Option-cases (report id s.working)) [
          | inl h ↦ rw (mark_report_recipient_failed_missing env u id key s request v h) before
          | inr (x, h) ↦ elim (Option-cases (recipient id key s.working)) [
            | inl k ↦
                rw (mark_report_recipient_failed_unregistered env u id key s request x v h k) before
            | inr (r, k) ↦
                rw (mark_report_recipient_failed_found env u id key s request x r v h k)
                  (written r k)
          ]
        ]
      ]

module _ {ℓ} (P : Session → Type ℓ) (env : Env) (id : Text) (keys : List Text) (s : Session)
    (before : P s) where
  pub register_report_recipients-cases :
      ((valid : List Text) (x : HermesReportOutbox)
        → report id s.working ≡ some x
        → P (recipients_registered env id keys s valid))
      → P (register_report_recipients env id keys s).1
  register_report_recipients-cases registered_too =
      elim (Option-cases (validate_recipient_keys keys)) [
        | inl v ↦ rw (register_report_recipients_invalid env id keys s v) before
        | inr (valid, v) ↦ elim (Option-cases (report id s.working)) [
          | inl h ↦ rw (register_report_recipients_missing env id keys s valid v h) before
          | inr (x, h) ↦
              rw (register_report_recipients_found env id keys s valid x v h)
                (registered_too valid x h)
        ]
      ]
