-- ===== src/OutboxApi/Final.antt =====
-- The rows of reports before and after any calls of the routes.
use dos_amigos_ops.Base.{
  Bool-cases, List, Option-cases, Text, [], arith, find, inl, inr, is_some, refl, some, text_eq,
  text_eq→eq, true, update_where, ℕ, ◌+◌, ◌∙◌, ◌∷◌, ◌≡◌, ◌≤◌,
}
use dos_amigos_ops.Models.{DeliveryStatus, Env, HermesReportOutbox, Session}
use dos_amigos_ops.OutboxApi.Effects.{
  all_registered-induction, mark_report_delivered_found, mark_report_delivered_missing,
  mark_report_failed_found, mark_report_failed_invalid, mark_report_failed_missing,
  register_report_recipients_found, register_report_recipients_invalid,
  register_report_recipients_missing,
}
use dos_amigos_ops.OutboxApi.Lookup.{id-of-report, report, report-save}
use dos_amigos_ops.OutboxApi.Recipients.{
  mark_report_recipient_delivered, mark_report_recipient_failed, register_report_recipients,
}
use dos_amigos_ops.OutboxApi.Reports.{
  delivered_report, failed_report, mark_report_delivered, mark_report_failed,
}
use dos_amigos_ops.OutboxApi.Requests.{
  FailedReportRequest, failed_request_valid, has_id, validate_recipient_keys,
}
use dos_amigos_ops.OutboxApi.Serve.{Call, handle, serve}
use dos_amigos_ops.Redaction.{Unicode}

-- What calls may change of a report's row, from `a` to `b`.
pub record Evolves (a b : HermesReportOutbox) : Type 0 where
  pub payload_json : b.payload_json ≡ a.payload_json
  pub payload_markdown : b.payload_markdown ≡ a.payload_markdown
  pub idempotency_key : b.idempotency_key ≡ a.idempotency_key
  pub attempts : a.delivery_attempts ≤ b.delivery_attempts
  pub stays_delivered :
      a.delivery_status ≡ DeliveryStatus.delivered → b.delivery_status ≡ DeliveryStatus.delivered
  pub attempts_end :
      a.delivery_status ≡ DeliveryStatus.delivered → b.delivery_attempts ≡ a.delivery_attempts
  pub errors_end : a.delivery_status ≡ DeliveryStatus.delivered → b.error_code ≡ a.error_code
  pub delivered_at :
      a.delivery_status ≡ DeliveryStatus.delivered
      → is_some a.delivered_at ≡ true
      → b.delivered_at ≡ a.delivered_at

Evolves-refl : (a : HermesReportOutbox) → Evolves a a
Evolves-refl a = ground arith

pub Evolves-trans : {a b c : HermesReportOutbox} → Evolves a b → Evolves b c → Evolves a c
Evolves-trans {a} {b} {c} h k = record {
  payload_json = k.payload_json ∙ h.payload_json;
  payload_markdown = k.payload_markdown ∙ h.payload_markdown;
  idempotency_key = k.idempotency_key ∙ h.idempotency_key;
  attempts = omega (arith, h.attempts, k.attempts);
  stays_delivered = λ d. k.stays_delivered (h.stays_delivered d);
  attempts_end = λ d. k.attempts_end (h.stays_delivered d) ∙ h.attempts_end d;
  errors_end = λ d. k.errors_end (h.stays_delivered d) ∙ h.errors_end d;
  delivered_at = λ d some_at.
      k.delivered_at (h.stays_delivered d) (rw (h.delivered_at d some_at) some_at)
      ∙ h.delivered_at d some_at;
}

delivered_report-Evolves :
    (now : ℕ) (row : HermesReportOutbox) → Evolves row (delivered_report now row)
unfolding delivered_report
delivered_report-Evolves now row = ground arith

failed_report-Evolves :
    (u : Unicode) (now : ℕ) (request : FailedReportRequest) (row : HermesReportOutbox)
    → Evolves row (failed_report u now request row)
unfolding failed_report
failed_report-Evolves u now request row = ground arith

delivered_report-id : (now : ℕ) (row : HermesReportOutbox) → (delivered_report now row).id ≡ row.id
unfolding delivered_report
delivered_report-id now row = ground arith

failed_report-id :
    (u : Unicode) (now : ℕ) (request : FailedReportRequest) (row : HermesReportOutbox)
    → (failed_report u now request row).id ≡ row.id
unfolding failed_report
failed_report-id u now request row = ground arith

-- Every report of `s` is in `t`, and has evolved.
abbrev pub ReportsEvolve : Session → Session → Type 0
ReportsEvolve s t =
    (k : Text) (row : HermesReportOutbox)
    → report k s.working ≡ some row
    → (b : HermesReportOutbox) × (report k t.working ≡ some b) × Evolves row b

pub same_reports : (s t : Session) → t.working.outbox ≡ s.working.outbox → ReportsEvolve s t
same_reports s t e k row h = (row, rw e h, Evolves-refl row)

-- Writing back a row that has evolved from the one that its id leads to.
saved_report :
    (id : Text) (x b : HermesReportOutbox) (s : Session)
    → find (has_id id) s.working.outbox ≡ some x
    → b.id ≡ x.id
    → Evolves x b
    → (k : Text) (row : HermesReportOutbox) → report k s.working ≡ some row
    → (c : HermesReportOutbox) × (find
          (has_id k)
          (update_where (has_id b.id) (λ _. b) s.working.outbox)
        ≡ some c)
      × Evolves row c
saved_report id x b s found same ev k row h =
    let at_id : x.id ≡ id = id-of-report id s.working.outbox found in
    let found' : find (has_id b.id) s.working.outbox ≡ some x = rw (same ∙ at_id) found in
    elim (Bool-cases (text_eq b.id k)) [
      | inl hit ↦
          let found_k : find (has_id k) s.working.outbox ≡ some x =
            rw (← text_eq→eq b.id k hit) found' in
          let row_eq : row ≡ x = cc in
          (b, rw (report-save k b x s.working.outbox found', hit), rw row_eq ev)
      | inr miss ↦ (row, rw (report-save k b x s.working.outbox found', miss) h, Evolves-refl row)
    ]

pub ReportsEvolve-trans :
    (s t v : Session) → ReportsEvolve s t → ReportsEvolve t v → ReportsEvolve s v
ReportsEvolve-trans s t v h k id row found =
    let (b, found', ev) = h id row found in
    let (c, found'', ev') = k id b found' in (c, found'', Evolves-trans ev ev')

module _ (env : Env) (u : Unicode) where
  mark_report_delivered-evolves :
      (id : Text) (s : Session) → ReportsEvolve s (mark_report_delivered env id s).1
  mark_report_delivered-evolves id s = elim (Option-cases (report id s.working)) [
    | inl missing ↦ rw (mark_report_delivered_missing env u id s missing) (same_reports s s refl)
    | inr (x, found) ↦ rw (mark_report_delivered_found env u id s x found) (
        saved_report id x (delivered_report (env.now s.ticks) x) s found
          (delivered_report-id (env.now s.ticks) x) (delivered_report-Evolves (env.now s.ticks) x))
  ]

  mark_report_failed-evolves :
      (id : Text) (request : FailedReportRequest) (s : Session)
      → ReportsEvolve s (mark_report_failed env u id request s).1
  mark_report_failed-evolves id request s = elim (Bool-cases (failed_request_valid request)) [
    | inr v ↦ rw (mark_report_failed_invalid env u id s request v) (same_reports s s refl)
    | inl v ↦ elim (Option-cases (report id s.working)) [
      | inl missing ↦
          rw (mark_report_failed_missing env u id s request v missing) (same_reports s s refl)
      | inr (x, found) ↦ rw (mark_report_failed_found env u id s request x v found) (
          saved_report id x (failed_report u (env.now s.ticks) request x) s found
            (failed_report-id u (env.now s.ticks) request x)
            (failed_report-Evolves u (env.now s.ticks) request x))
    ]
  ]

  outbox-mark_report_recipient_delivered :
      (id key : Text) (s : Session)
      → (mark_report_recipient_delivered env id key s).1.working.outbox ≡ s.working.outbox
  unfolding mark_report_recipient_delivered
  outbox-mark_report_recipient_delivered id key s = ground arith

  outbox-mark_report_recipient_failed :
      (id key : Text) (request : FailedReportRequest) (s : Session)
      → (mark_report_recipient_failed env u id key request s).1.working.outbox ≡ s.working.outbox
  unfolding mark_report_recipient_failed
  outbox-mark_report_recipient_failed id key request s = ground arith

  outbox-register_report_recipients :
      (id : Text) (keys : List Text) (s : Session)
      → (register_report_recipients env id keys s).1.working.outbox ≡ s.working.outbox
  outbox-register_report_recipients id keys s = elim (Option-cases (validate_recipient_keys keys)) [
    | inl v ↦ rw (register_report_recipients_invalid env id keys s v)
    | inr (valid, v) ↦ elim (Option-cases (report id s.working)) [
      | inl missing ↦ rw (register_report_recipients_missing env id keys s valid v missing)
      | inr (x, found) ↦ rw (register_report_recipients_found env id keys s valid x v found) (
          all_registered-induction env id (env.now s.ticks)
            (λ t. t.working.outbox ≡ s.working.outbox) (λ key t fresh h. h) valid
            (record s { ticks = s.ticks + 1 }) refl)
    ]
  ]

  pub handle-evolves : (call : Call) (s : Session) → ReportsEvolve s (handle env u call s)
  unfolding handle
  handle-evolves (Call.delivered id) s = mark_report_delivered-evolves id s
  handle-evolves (Call.failed id request) s = mark_report_failed-evolves id request s
  handle-evolves (Call.recipients id keys) s =
      same_reports s (register_report_recipients env id keys s).1
        (outbox-register_report_recipients id keys s)
  handle-evolves (Call.recipient_delivered id key) s =
      same_reports s (mark_report_recipient_delivered env id key s).1
        (outbox-mark_report_recipient_delivered id key s)
  handle-evolves (Call.recipient_failed id key request) s =
      same_reports s (mark_report_recipient_failed env u id key request s).1
        (outbox-mark_report_recipient_failed id key request s)

  -- Whatever calls of the five writing routes are made, in any order, a stored report stays
  -- stored; its payload, text and idempotency key do not change; its attempts never go down; and
  -- once it is delivered it stays delivered, with its attempts, its error code and its time of
  -- delivery, if that was set, as they are.
  pub serve-evolves : (calls : List Call) (s : Session) → ReportsEvolve s (serve env u calls s)
  unfolding serve
  serve-evolves [] s = same_reports s s refl
  serve-evolves (call ∷ calls) s =
      ReportsEvolve-trans s (handle env u call s) (serve env u (call ∷ calls) s)
        (handle-evolves call s) (serve-evolves calls (handle env u call s))
