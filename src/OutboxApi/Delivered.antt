-- ===== src/OutboxApi/Delivered.antt =====
-- The rows of recipients before and after any calls of the routes.
use dos_amigos_ops.Base.{
  Bool-cases, List, Text, [], arith, find, find-append, find-update_ne, find-update_self,
  find_sound, inl, inr, refl, some, text_eq_iff, true, update_where, ℕ, ◌+◌, ◌∙◌, ◌∷◌, ◌≡◌, ◌≤◌,
}
use dos_amigos_ops.Models.{DbAction, DeliveryStatus, Env, HermesReportRecipientDelivery, Session}
use dos_amigos_ops.OutboxApi.Effects.{
  all_registered-induction, mark_report_recipient_delivered-cases,
  mark_report_recipient_failed-cases, register_report_recipients-cases,
}
use dos_amigos_ops.OutboxApi.Recipients.{
  delivered_recipient, failed_recipient, mark_report_recipient_delivered,
  mark_report_recipient_failed, register_report_recipients,
}
use dos_amigos_ops.OutboxApi.Reports.{mark_report_delivered, mark_report_failed}
use dos_amigos_ops.OutboxApi.Requests.{FailedReportRequest, is_for}
use dos_amigos_ops.OutboxApi.Serve.{Call, handle, serve}
use dos_amigos_ops.Redaction.{Unicode}

-- What calls may change of a recipient's row, from `a` to `b`.
pub record RecipientEvolves (a b : HermesReportRecipientDelivery) : Type 0 where
  pub id : b.id ≡ a.id
  pub attempts : a.delivery_attempts ≤ b.delivery_attempts
  pub stays_delivered :
      a.delivery_status ≡ DeliveryStatus.delivered → b.delivery_status ≡ DeliveryStatus.delivered
  pub attempts_end :
      a.delivery_status ≡ DeliveryStatus.delivered → b.delivery_attempts ≡ a.delivery_attempts
  pub delivered_at_end :
      a.delivery_status ≡ DeliveryStatus.delivered → b.delivered_at ≡ a.delivered_at

RecipientEvolves-refl : (a : HermesReportRecipientDelivery) → RecipientEvolves a a
RecipientEvolves-refl a = ground arith

RecipientEvolves-trans :
    {a b c : HermesReportRecipientDelivery}
    → RecipientEvolves a b
    → RecipientEvolves b c
    → RecipientEvolves a c
RecipientEvolves-trans h k = record {
  id = k.id ∙ h.id;
  attempts = omega (arith, h.attempts, k.attempts);
  stays_delivered = λ d. k.stays_delivered (h.stays_delivered d);
  attempts_end = λ d. k.attempts_end (h.stays_delivered d) ∙ h.attempts_end d;
  delivered_at_end = λ d. k.delivered_at_end (h.stays_delivered d) ∙ h.delivered_at_end d;
}

-- Every recipient of `s` is in `t`, and has evolved.
abbrev pub RecipientsEvolve :
    List HermesReportRecipientDelivery → List HermesReportRecipientDelivery → Type 0
RecipientsEvolve rows rows' =
    (report_id key : Text) (row : HermesReportRecipientDelivery)
    → find (is_for report_id key) rows ≡ some row
    → (b : HermesReportRecipientDelivery) × (find (is_for report_id key) rows' ≡ some b)
      × RecipientEvolves row b

pub same_recipients :
    (rows rows' : List HermesReportRecipientDelivery) → rows' ≡ rows → RecipientsEvolve rows rows'
same_recipients rows rows' e id key row h = (row, rw e h, RecipientEvolves-refl row)

pub RecipientsEvolve-trans :
    (xs ys zs : List HermesReportRecipientDelivery)
    → RecipientsEvolve xs ys
    → RecipientsEvolve ys zs
    → RecipientsEvolve xs zs
RecipientsEvolve-trans xs ys zs h k id key row found =
    let (b, found', ev) = h id key row found in
    let (c, found'', ev') = k id key b found' in (c, found'', RecipientEvolves-trans ev ev')

pub is_for_refl :
    (id key : Text) (row : HermesReportRecipientDelivery)
    → row.report_id ≡ id
    → row.recipient_key ≡ key
    → is_for id key row ≡ true
is_for_refl id key row e k =
    ground (arith, text_eq_iff row.report_id id, text_eq_iff row.recipient_key key)

pub is_for-eq :
    (id key : Text) (row : HermesReportRecipientDelivery)
    → is_for id key row ≡ true
    → (row.report_id ≡ id) × (row.recipient_key ≡ key)
is_for-eq id key row h =
    ground (arith, text_eq_iff row.report_id id, text_eq_iff row.recipient_key key)

-- Writing over the row of a recipient, seen from every pair.
saved_recipient :
    (id key : Text) (x b : HermesReportRecipientDelivery)
    (rows : List HermesReportRecipientDelivery)
    → find (is_for id key) rows ≡ some x
    → b.report_id ≡ x.report_id
    → b.recipient_key ≡ x.recipient_key
    → RecipientEvolves x b
    → RecipientsEvolve rows (update_where (is_for b.report_id b.recipient_key) (λ _. b) rows)
saved_recipient id key x b rows found same_id same_key ev j k row h =
    let at : is_for id key x ≡ true = find_sound (is_for id key) rows found in
    let (at_id, at_key) = is_for-eq id key x at in
    let found' : find (is_for b.report_id b.recipient_key) rows ≡ some x =
      rw (same_id ∙ at_id, same_key ∙ at_key) found in
    elim (Bool-cases (is_for j k b)) [
      | inl hit ↦
          let (b_id, b_key) = is_for-eq j k b hit in
          let found_k : find (is_for j k) rows ≡ some x = rw (← b_id, ← b_key) found' in
          let row_eq : row ≡ x = cc in
          (
            b,
            rw (← b_id, ← b_key)
                (find-update_self (is_for b.report_id b.recipient_key) b rows
                  (is_for_refl b.report_id b.recipient_key b refl refl) found'),
            rw row_eq ev,
          )
      | inr miss ↦ (
        row,
        find-update_ne (is_for b.report_id b.recipient_key) (is_for j k) b rows
              (λ y e. let (p, q) = is_for-eq b.report_id b.recipient_key y e in rw (p, q) miss) miss
            ∙ h,
        RecipientEvolves-refl row,
      )
    ]

delivered_recipient-Evolves :
    (now : ℕ) (row : HermesReportRecipientDelivery)
    → RecipientEvolves row (delivered_recipient now row)
unfolding delivered_recipient
delivered_recipient-Evolves now row = ground arith

failed_recipient-Evolves :
    (u : Unicode) (now : ℕ) (request : FailedReportRequest) (row : HermesReportRecipientDelivery)
    → RecipientEvolves row (failed_recipient u now request row)
unfolding failed_recipient
failed_recipient-Evolves u now request row = ground arith

-- The columns that tell a row apart.
abbrev SameKey : HermesReportRecipientDelivery → HermesReportRecipientDelivery → Type 0
SameKey a b = (b.report_id ≡ a.report_id) × (b.recipient_key ≡ a.recipient_key)

pub delivered_recipient-key :
    (now : ℕ) (row : HermesReportRecipientDelivery) → SameKey row (delivered_recipient now row)
unfolding delivered_recipient
delivered_recipient-key now row = ground arith

pub failed_recipient-key :
    (u : Unicode) (now : ℕ) (request : FailedReportRequest) (row : HermesReportRecipientDelivery)
    → SameKey row (failed_recipient u now request row)
unfolding failed_recipient
failed_recipient-key u now request row = ground arith

module _ (env : Env) (u : Unicode) where
  -- The recipients' table that a call leaves has evolved from the one before.
  abbrev Keeps : {A : Type 0} → DbAction A → Session → Type 0
  Keeps m s = RecipientsEvolve s.working.recipients (m s).1.working.recipients

  pub mark_report_delivered-recipients :
      (id : Text) (s : Session)
      → (mark_report_delivered env id s).1.working.recipients ≡ s.working.recipients
  unfolding mark_report_delivered
  mark_report_delivered-recipients id s = ground arith

  pub mark_report_failed-recipients :
      (id : Text) (request : FailedReportRequest) (s : Session)
      → (mark_report_failed env u id request s).1.working.recipients ≡ s.working.recipients
  unfolding mark_report_failed
  mark_report_failed-recipients id request s = ground arith

  mark_report_recipient_delivered-Keeps :
      (id key : Text) (s : Session) → Keeps (mark_report_recipient_delivered env id key) s
  mark_report_recipient_delivered-Keeps id key s =
      let rows : List HermesReportRecipientDelivery = s.working.recipients in
      mark_report_recipient_delivered-cases (λ t. RecipientsEvolve rows t.working.recipients) env u
        id key s (same_recipients rows rows refl)
        (λ r k.
          let (i, j) = delivered_recipient-key (env.now s.ticks) r in
          saved_recipient id key r (delivered_recipient (env.now s.ticks) r) rows k i j
            (delivered_recipient-Evolves (env.now s.ticks) r))

  mark_report_recipient_failed-Keeps :
      (id key : Text) (request : FailedReportRequest) (s : Session)
      → Keeps (mark_report_recipient_failed env u id key request) s
  mark_report_recipient_failed-Keeps id key request s =
      let rows : List HermesReportRecipientDelivery = s.working.recipients in
      mark_report_recipient_failed-cases (λ t. RecipientsEvolve rows t.working.recipients) env u id
        key s (same_recipients rows rows refl) request
        (λ r k.
          let (i, j) = failed_recipient-key u (env.now s.ticks) request r in
          saved_recipient id key r (failed_recipient u (env.now s.ticks) request r) rows k i j
            (failed_recipient-Evolves u (env.now s.ticks) request r))

  pub register_report_recipients-Keeps :
      (id : Text) (keys : List Text) (s : Session)
      → Keeps (register_report_recipients env id keys) s
  register_report_recipients-Keeps id keys s =
      let rows : List HermesReportRecipientDelivery = s.working.recipients in
      register_report_recipients-cases (λ t. RecipientsEvolve rows t.working.recipients) env id keys
        s (same_recipients rows rows refl)
        (λ valid x h.
          all_registered-induction env id (env.now s.ticks)
            (λ t. RecipientsEvolve rows t.working.recipients)
            (λ key t fresh ev j k row found.
              let (b, found', e) = ev j k row found in
              (b, find-append (is_for j k) t.working.recipients _ found', e))
            valid (record s { ticks = s.ticks + 1 }) (same_recipients rows rows refl))

  pub handle-keeps :
      (call : Call) (s : Session)
      → RecipientsEvolve s.working.recipients (handle env u call s).working.recipients
  unfolding handle
  handle-keeps (Call.delivered id) s = same_recipients _ _ (mark_report_delivered-recipients id s)
  handle-keeps (Call.failed id request) s =
      same_recipients _ _ (mark_report_failed-recipients id request s)
  handle-keeps (Call.recipients id keys) s = register_report_recipients-Keeps id keys s
  handle-keeps (Call.recipient_delivered id key) s = mark_report_recipient_delivered-Keeps id key s
  handle-keeps (Call.recipient_failed id key request) s =
      mark_report_recipient_failed-Keeps id key request s

  -- Whatever calls of the five writing routes are made, in any order, a registered recipient of a
  -- report stays registered under its id; its attempts never go down; and once it is delivered it
  -- stays delivered, with its attempts and its time of delivery as they are.
  pub serve-RecipientsEvolve :
      (calls : List Call) (s : Session)
      → RecipientsEvolve s.working.recipients (serve env u calls s).working.recipients
  unfolding serve
  serve-RecipientsEvolve [] s = same_recipients _ _ refl
  serve-RecipientsEvolve (call ∷ calls) s =
      RecipientsEvolve-trans _ (handle env u call s).working.recipients _ (handle-keeps call s)
        (serve-RecipientsEvolve calls (handle env u call s))
