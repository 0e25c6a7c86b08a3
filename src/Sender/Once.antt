-- ===== src/Sender/Once.antt =====
-- The messages of `run_once` for one report, and the deliveries stored before.
use dos_amigos_ops.Base.{
  All, Bool, Bool-cases, List, Option-cases, Text, [], any, ap, append-nil, arith, false, inl, inr,
  map, refl, some, subst, sym, text_eq, text_eq_refl, text_eq→eq, true, ◌++◌, ◌∙◌, ◌∷◌, ◌≡◌, ◌≢◌,
}
use dos_amigos_ops.Base.Action.{Action, Result, err, modify, ok, ◌>>=◌, ◌>>◌}
use dos_amigos_ops.Models.{DbAction, DeliveryStatus, Env, HermesReportRecipientDelivery, Session}
use dos_amigos_ops.OutboxApi.{
  PendingReportResponse, Statuses, guarded, register_report_recipients, validate_recipient_keys,
  validation_error,
}
use dos_amigos_ops.OutboxApi.Access.{guarded_ok}
use dos_amigos_ops.OutboxApi.Delivered.{register_report_recipients-Keeps}
use dos_amigos_ops.OutboxApi.Effects.{
  not_found, register_report_recipients_invalid, register_report_recipients_missing,
}
use dos_amigos_ops.OutboxApi.Lookup.{recipient, report}
use dos_amigos_ops.OutboxApi.Registration.{register_report_recipients-Answers}
use dos_amigos_ops.OutboxApi.Validation.{validate_recipient_keys-keeps}
use dos_amigos_ops.Redaction.{Unicode}
use dos_amigos_ops.Sender.Messages.{Adds, Adds-weaken, Due, status_delivered-Answers}
use dos_amigos_ops.Sender.Run.{
  Pass, ReportSenderConfig, RequestOutcome, Surroundings, answer_of, authorization_of, begin_report,
  close_report, deliver_report, received, recipient_key, request, status_delivered, try_report,
}
use dos_amigos_ops.Sender.Skips.{after_registration, request-sent}

any-map :
    (f : Text → Text) (x : Text) (xs : List Text)
    → any (text_eq x) xs ≡ true
    → any (text_eq (f x)) (map f xs) ≡ true
unfolding any
any-map f x [] h = cc
any-map f x (y ∷ xs) h = elim (Bool-cases (text_eq x y)) [
  | inl same ↦ rw (text_eq→eq x y same, text_eq_refl (f y)) refl
  | inr other ↦ ground (arith, any-map f x xs)
]

All-listed : (xs : List Text) → All (λ x. any (text_eq x) xs ≡ true) xs
All-listed xs = go xs (λ x h. h)
  where
    go :
        (ys : List Text)
        → ((x : Text) → any (text_eq x) ys ≡ true → any (text_eq x) xs ≡ true)
        → All (λ x. any (text_eq x) xs ≡ true) ys
    go [] f = tt
    go (y ∷ ys) f =
        (f y (unfold any in rw (text_eq_refl y)), go ys (λ x h. f x (unfold any in ground arith)))

answer_of_ok : {A : Type 0} (r : Result A) (a : A) → answer_of r ≡ ok a → r ≡ ok a
answer_of_ok (ok b) a h = h
answer_of_ok (err e) a h = cc

received_ok :
    {A : Type 0} (o : RequestOutcome) (x : Result A × Session) (p : Pass) (a : A)
    → (received o x p).0 ≡ ok a
    → x.0 ≡ ok a
received_ok RequestOutcome.answered x p a h = answer_of_ok x.0 a h
received_ok (RequestOutcome.processed e) x p a h = cc
received_ok (RequestOutcome.unprocessed e) x p a h = cc

module _ (env : Env) (u : Unicode) (net : Surroundings) (core_token internal_token : Text) where
  request_ok :
      {A : Type 0} (route : DbAction A) (p : Pass) (a : A)
      → (request env u net core_token internal_token route p).0 ≡ ok a
      → (route p.session).0 ≡ ok a
  unfolding request
  request_ok route p a h =
      let x = guarded core_token (authorization_of internal_token) route p.session in
      guarded_ok core_token (authorization_of internal_token) route p.session a
        (received_ok (net.request p.requests) x p a h)

  -- A registration that is answered records what is delivered.
  registration_records :
      (id key : Text) (keys : List Text) (s : Session) (statuses : Statuses)
      (row : HermesReportRecipientDelivery)
      → (register_report_recipients env id keys s).0 ≡ ok statuses
      → any (text_eq key) keys ≡ true
      → recipient id key s.working ≡ some row
      → row.delivery_status ≡ DeliveryStatus.delivered
      → status_delivered key statuses ≡ true
  registration_records id key keys s statuses row answered listed found d =
      elim (Option-cases (validate_recipient_keys keys)) [
        | inl v ↦
            let impossible : err validation_error ≡ ok statuses =
              ap (λ (x : Result Statuses × Session). x.0)
                (sym (register_report_recipients_invalid env id keys s v))
              ∙ answered in
            cc
        | inr (valid, v) ↦ elim (Option-cases (report id s.working)) [
          | inl h ↦
              let impossible : err not_found ≡ ok statuses =
                ap (λ (x : Result Statuses × Session). x.0)
                  (sym (register_report_recipients_missing env id keys s valid v h))
                ∙ answered in
              cc
          | inr (x, h) ↦
              let (l, answered', their_keys, there) =
                register_report_recipients-Answers env id keys s valid x v h in
              let same : l ≡ statuses = cc in
              let (b, found', ev) =
                register_report_recipients-Keeps env u id keys s id key row found in
              subst (λ (l : Statuses). status_delivered key l ≡ true) same
                (status_delivered-Answers id key l (register_report_recipients env id keys s).1 b
                  there
                  (rw their_keys ((validate_recipient_keys-keeps keys valid v).1 key ∙ listed))
                  found' (ev.stays_delivered d))
        ]
      ]

  module _ (config : ReportSenderConfig) (report : PendingReportResponse) where
    abbrev key_of : Text → Text
    key_of = recipient_key env u net core_token internal_token config

    abbrev listed : Text → Bool
    listed chat = any (text_eq chat) config.allowed_ids

    -- No delivery of this report to the message's chat is stored.
    abbrev pub Undelivered : Session → Text × Text → Type 0
    Undelivered s m =
        (listed m.0 ≡ true)
        × ((row : HermesReportRecipientDelivery)
            → recipient report.id (key_of m.0) s.working ≡ some row
            → row.delivery_status ≢ DeliveryStatus.delivered)

    due-Undelivered :
        (p : Pass) (statuses : Statuses) (m : Text × Text)
        → (register_report_recipients env report.id (map key_of config.allowed_ids) p.session).0
          ≡ ok statuses
        → (listed m.0 ≡ true) × (status_delivered (key_of m.0) statuses ≡ false)
        → Undelivered p.session m
    due-Undelivered p statuses m answered (on_list, missing) = (
      on_list,
      λ row found d. cc (
          registration_records report.id (key_of m.0) (map key_of config.allowed_ids) p.session
            statuses row answered (any-map key_of m.0 config.allowed_ids on_list) found d),
    )

    -- What follows the registration.
    abbrev delivery : Action Pass (Unit {0})
    delivery =
        try_report env u net core_token internal_token report
          (map (λ (chat : Text). (chat, key_of chat)) config.allowed_ids)
        >>= close_report env u net core_token internal_token report.id
            (map key_of config.allowed_ids)

    registered_result :
        (r : Result Statuses) (p q : Pass)
        → q.sent ≡ p.sent
        → ((statuses : Statuses)
            → r ≡ ok statuses
            → (register_report_recipients env report.id (map key_of config.allowed_ids) p.session).0
              ≡ ok statuses)
        → Adds
            (Undelivered p.session)
            p
            (◌>>=◌
              (λ (_ : Pass). (r, q))
              (λ statuses. modify (begin_report statuses) >> delivery)
              p).1
    registered_result (err e) p q same f = ([], same ∙ sym (append-nil p.sent), tt)
    registered_result (ok statuses) p q same f =
        let start : Pass = begin_report statuses q in
        let steps =
          (after_registration env u net core_token internal_token listed key_of report
              config.allowed_ids (map key_of config.allowed_ids) (All-listed config.allowed_ids)).at
            start in
        let (new, e, due) =
          Adds-weaken (Due listed key_of start) (Undelivered p.session) start (delivery start).1
            (λ m h. due-Undelivered p statuses m (f statuses refl) h) steps.adds in
        (new, e ∙ ap (λ (l : List (Text × Text)). l ++ new) same, due)

    -- Whatever Telegram and the network do, every message that Telegram takes for a report, also
    -- where the call raises then, goes to a chat on the list of allowed ids for whose key no
    -- delivered row of that report was stored before. A request may be processed and its answer
    -- lost, or not be processed.
    pub deliver_report-Undelivered :
        (p : Pass)
        → (new : List (Text × Text)) × ((deliver_report env u net core_token internal_token config
              report p).1.sent
            ≡ p.sent ++ new)
          × All (Undelivered p.session) new
    deliver_report-Undelivered p =
        let route = register_report_recipients env report.id (map key_of config.allowed_ids) in
        let answer = request env u net core_token internal_token route p in
        unfold deliver_report in
        registered_result answer.0 p answer.1
          (request-sent env u net core_token internal_token route p)
          (λ statuses e. request_ok route p statuses e)
