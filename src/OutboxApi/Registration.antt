-- ===== src/OutboxApi/Registration.antt =====
-- The answers of `register_report_recipients`, and a second call of it.
use dos_amigos_ops.Base.{
  All, List, Option-cases, Text, [], ap, find, find-append, find-append_none, inl, inr, is_some,
  map, refl, some, subst, ℕ, ◌+◌, ◌∙◌, ◌∷◌, ◌≡◌,
}
use dos_amigos_ops.Base.Action.{ok}
use dos_amigos_ops.Models.{
  DeliveryStatus, Env, HermesReportOutbox, HermesReportRecipientDelivery, Session,
}
use dos_amigos_ops.OutboxApi.Delivered.{is_for_refl}
use dos_amigos_ops.OutboxApi.Effects.{
  all_registered, all_registered-induction, answers, recipients_registered,
  register_report_recipients_found, registered, registered_row,
}
use dos_amigos_ops.OutboxApi.Lookup.{recipient, report}
use dos_amigos_ops.OutboxApi.Recipients.{Statuses, new_recipient, register_report_recipients}
use dos_amigos_ops.OutboxApi.Requests.{is_for, validate_recipient_keys}

module _ (id : Text) where
  -- An answer names a row that is there, with its status.
  abbrev pub Answers : Session → Text × DeliveryStatus → Type 0
  Answers t (key, status) =
      (row : HermesReportRecipientDelivery) × (recipient id key t.working ≡ some row)
      × (row.delivery_status ≡ status)

  -- The key has a row.
  abbrev pub Known : Session → Text → Type 0
  Known s key = (row : HermesReportRecipientDelivery) × (recipient id key s.working ≡ some row)

module _ (env : Env) (id : Text) (now : ℕ) where
  -- A recipient that is there stays as it is.
  all_registered-known :
      (keys : List Text) (j k : Text) (row : HermesReportRecipientDelivery) (s : Session)
      → recipient j k s.working ≡ some row
      → recipient j k (all_registered env id now keys s).working ≡ some row
  all_registered-known keys j k row s h =
      all_registered-induction env id now (λ t. recipient j k t.working ≡ some row)
        (λ key t fresh found. find-append (is_for j k) t.working.recipients _ found) keys s h

  -- The row of a key is there once the key was registered.
  registered-there :
      (key : Text) (s : Session)
      → recipient id key (registered env id key now s).working
        ≡ some (registered_row env id key now s)
  registered-there key s = elim (Option-cases (recipient id key s.working)) [
    | inl fresh ↦ rw fresh (
        find-append_none (is_for id key) s.working.recipients _ fresh
        ∙ unfold find in
          rw (is_for_refl id key (new_recipient (env.uuid s.draws) id key now) refl refl))
    | inr (row, known) ↦ rw known known
  ]

  answers-Answers :
      (keys : List Text) (s : Session)
      → All (Answers id (all_registered env id now keys s)) (answers env id now keys s)
  unfolding all_registered answers
  answers-Answers [] s = tt
  answers-Answers (key ∷ keys) s = (
    (
      registered_row env id key now s,
      all_registered-known keys id key _ (registered env id key now s) (registered-there key s),
      refl,
    ),
    answers-Answers keys (registered env id key now s),
  )

  answers-keys :
      (keys : List Text) (s : Session)
      → map (λ (a : Text × DeliveryStatus). a.0) (answers env id now keys s) ≡ keys
  unfolding answers
  answers-keys [] s = refl
  answers-keys (key ∷ keys) s =
      ap (λ (l : List Text). key ∷ l) (answers-keys keys (registered env id key now s))

  -- Keys that are all there change nothing, and are answered by their rows.
  all_registered_again :
      (keys : List Text) (s : Session)
      → All (Known id s) keys
      → all_registered env id now keys s ≡ s
  unfolding all_registered
  all_registered_again [] s h = refl
  all_registered_again (key ∷ keys) s ((row, known), h) =
      rw (known, is_some) (all_registered_again keys s h)

  answers_again :
      (l : Statuses) (t : Session)
      → All (Answers id t) l
      → answers env id now (map (λ (a : Text × DeliveryStatus). a.0) l) t ≡ l
  unfolding answers
  answers_again [] t h = refl
  answers_again ((key, status) ∷ l) t ((row, known, same), h) =
      rw (known, is_some) (rw (same, answers_again l t h))

  Answers-Known :
      (l : Statuses) (t : Session)
      → All (Answers id t) l
      → All (Known id t) (map (λ (a : Text × DeliveryStatus). a.0) l)
  Answers-Known [] t h = tt
  Answers-Known ((key, status) ∷ l) t ((row, known, same), h) = ((row, known), Answers-Known l t h)

module _ (env : Env) (id : Text) (keys : List Text) (s : Session) (valid : List Text)
    (x : HermesReportOutbox) (accepted : validate_recipient_keys keys ≡ some valid)
    (stored : report id s.working ≡ some x) where
  -- Registering recipients of a stored report answers each accepted key, in order, with the status
  -- of its row, and that row is there afterwards.
  pub register_report_recipients-Answers :
      let (r, t) = register_report_recipients env id keys s in
      (statuses : Statuses) × (r ≡ ok statuses)
      × (map (λ (a : Text × DeliveryStatus). a.0) statuses ≡ valid)
      × All (Answers id t) statuses
  register_report_recipients-Answers =
      rw (register_report_recipients_found env id keys s valid x accepted stored) (
        answers env id (env.now s.ticks) valid (record s { ticks = s.ticks + 1 }),
        refl,
        answers-keys env id (env.now s.ticks) valid (record s { ticks = s.ticks + 1 }),
        answers-Answers env id (env.now s.ticks) valid (record s { ticks = s.ticks + 1 }),
      )

  abbrev first_answers : Statuses
  first_answers = answers env id (env.now s.ticks) valid (record s { ticks = s.ticks + 1 })

  abbrev after_first : Session
  after_first = recipients_registered env id keys s valid

  first_there :
      All (Answers id (record after_first { ticks = after_first.ticks + 1 })) first_answers
  first_there = answers-Answers env id (env.now s.ticks) valid (record s { ticks = s.ticks + 1 })

  first_keys : map (λ (a : Text × DeliveryStatus). a.0) first_answers ≡ valid
  first_keys = answers-keys env id (env.now s.ticks) valid (record s { ticks = s.ticks + 1 })

  second_answers :
      answers env id
        (env.now after_first.ticks)
        valid
        (record after_first { ticks = after_first.ticks + 1 })
      ≡ first_answers
  second_answers =
      subst
        (λ (ks : List Text).
          answers env id (env.now after_first.ticks) ks
            (record after_first { ticks = after_first.ticks + 1 })
          ≡ first_answers)
        first_keys
        (answers_again env id (env.now after_first.ticks) first_answers
          (record after_first { ticks = after_first.ticks + 1 }) first_there)

  second_session :
      all_registered env id
        (env.now after_first.ticks)
        valid
        (record after_first { ticks = after_first.ticks + 1 })
      ≡ record after_first { ticks = after_first.ticks + 1 }
  second_session =
      all_registered_again env id (env.now after_first.ticks) valid
        (record after_first { ticks = after_first.ticks + 1 })
        (subst (All (Known id (record after_first { ticks = after_first.ticks + 1 }))) first_keys (
          Answers-Known env id 0 first_answers
            (record after_first { ticks = after_first.ticks + 1 }) first_there))

  still_stored : report id after_first.working ≡ some x
  still_stored =
      all_registered-induction env id (env.now s.ticks) (λ t. report id t.working ≡ some x)
        (λ key t fresh h. h) valid (record s { ticks = s.ticks + 1 }) stored

  -- Registering the same recipients of a stored report once more answers the same and leaves every
  -- table as it was.
  pub register_report_recipients_twice :
      let (r, t) = register_report_recipients env id keys s in
      let (r', t') = register_report_recipients env id keys t in (r' ≡ r) × (t'.working ≡ t.working)
  register_report_recipients_twice =
      rw (register_report_recipients_found env id keys s valid x accepted stored) (
        rw (register_report_recipients_found env id keys after_first valid x accepted still_stored)
          (ap ok second_answers, ap (λ (t : Session). t.working) second_session))
