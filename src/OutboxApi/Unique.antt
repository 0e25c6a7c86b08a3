-- ===== src/OutboxApi/Unique.antt =====
-- The report and the key of a recipient's row, and the constraint
-- uq_hermes_report_recipient_delivery_report_recipient.
use dos_amigos_ops.Base.{
  Bool-cases, List, Text, [], arith, false, find, find-append_none, inl, inr, none, refl,
  update_where, ℕ, ◌++◌, ◌+◌, ◌∙◌, ◌∷◌, ◌≡◌,
}
use dos_amigos_ops.Models.{Env, HermesReportRecipientDelivery, Session}
use dos_amigos_ops.OutboxApi.Delivered.{
  is_for-eq, is_for_refl, mark_report_delivered-recipients, mark_report_failed-recipients,
}
use dos_amigos_ops.OutboxApi.Effects.{
  all_registered, all_registered-induction, mark_report_recipient_delivered-cases,
  mark_report_recipient_failed-cases, register_report_recipients-cases,
}
use dos_amigos_ops.OutboxApi.Recipients.{delivered_recipient, failed_recipient, new_recipient}
use dos_amigos_ops.OutboxApi.Requests.{is_for}
use dos_amigos_ops.OutboxApi.Serve.{Call, handle, serve}
use dos_amigos_ops.Redaction.{Unicode}

abbrev pub Unique : List HermesReportRecipientDelivery → Type 0
Unique [] = Unit
Unique (row ∷ rows) = (find (is_for row.report_id row.recipient_key) rows ≡ none) × Unique rows

-- A row written over one with its report and key leaves every look-up that fails failing.
find-update_none :
    (b : HermesReportRecipientDelivery) (j k : Text) (rows : List HermesReportRecipientDelivery)
    → find (is_for j k) rows ≡ none
    → find (is_for j k) (update_where (is_for b.report_id b.recipient_key) (λ _. b) rows) ≡ none
unfolding find update_where
find-update_none b j k [] h = refl
find-update_none b j k (y ∷ rows) h =
    ground (arith, find-update_none b j k rows, is_for-eq b.report_id b.recipient_key y)

update-Unique :
    (b : HermesReportRecipientDelivery) (rows : List HermesReportRecipientDelivery)
    → Unique rows
    → Unique (update_where (is_for b.report_id b.recipient_key) (λ _. b) rows)
unfolding update_where
update-Unique b [] h = tt
update-Unique b (y ∷ rows) (h, rest) = elim (Bool-cases (is_for b.report_id b.recipient_key y)) [
  | inl hit ↦
      let (i, j) = is_for-eq b.report_id b.recipient_key y hit in
      rw (hit) (
        find-update_none b b.report_id b.recipient_key rows (rw (← i, ← j) h),
        update-Unique b rows rest,
      )
  | inr miss ↦
      rw (miss) (find-update_none b y.report_id y.recipient_key rows h, update-Unique b rows rest)
]

find-snoc_none :
    (row y : HermesReportRecipientDelivery) (rows : List HermesReportRecipientDelivery)
    → find (is_for y.report_id y.recipient_key) rows ≡ none
    → is_for row.report_id row.recipient_key y ≡ false
    → find (is_for y.report_id y.recipient_key) (rows ++ row ∷ []) ≡ none
find-snoc_none row y rows h k =
    find-append_none (is_for y.report_id y.recipient_key) rows (row ∷ []) h
    ∙ unfold find in
      ground (
        arith,
        is_for-eq y.report_id y.recipient_key row,
        is_for_refl row.report_id row.recipient_key y,
      )

append-Unique :
    (row : HermesReportRecipientDelivery) (rows : List HermesReportRecipientDelivery)
    → Unique rows
    → find (is_for row.report_id row.recipient_key) rows ≡ none
    → Unique (rows ++ row ∷ [])
append-Unique row [] h k = ((unfold find in refl), tt)
append-Unique row (y ∷ rows) (h, rest) k = (
  find-snoc_none row y rows h (unfold find in ground arith),
  append-Unique row rows rest (unfold find in ground arith),
)

abbrev pub IsUnique : Session → Type 0
IsUnique s = Unique s.working.recipients

module _ (env : Env) (u : Unicode) where
  all_registered-Unique :
      (id : Text) (now : ℕ) (keys : List Text) (s : Session)
      → IsUnique s
      → IsUnique (all_registered env id now keys s)
  all_registered-Unique id now = all_registered-induction env id now IsUnique λ key t fresh h.
      append-Unique (new_recipient (env.uuid t.draws) id key now) t.working.recipients h fresh

  handle-Unique : (call : Call) (s : Session) → IsUnique s → IsUnique (handle env u call s)
  unfolding handle
  handle-Unique (Call.delivered id) s h = rw (mark_report_delivered-recipients env u id s) h
  handle-Unique (Call.failed id request) s h =
      rw (mark_report_failed-recipients env u id request s) h
  handle-Unique (Call.recipients id keys) s h =
      register_report_recipients-cases IsUnique env id keys s h λ valid x found.
        all_registered-Unique id (env.now s.ticks) valid (record s { ticks = s.ticks + 1 }) h
  handle-Unique (Call.recipient_delivered id key) s h =
      mark_report_recipient_delivered-cases IsUnique env u id key s h
        λ r found. update-Unique (delivered_recipient (env.now s.ticks) r) s.working.recipients h
  handle-Unique (Call.recipient_failed id key request) s h =
      mark_report_recipient_failed-cases IsUnique env u id key s h request λ r found.
        update-Unique (failed_recipient u (env.now s.ticks) request r) s.working.recipients h

  -- If no two rows of recipients share a report and a key, none do after any calls of the five
  -- writing routes.
  pub serve-Unique : (calls : List Call) (s : Session) → IsUnique s → IsUnique (serve env u calls s)
  unfolding serve
  serve-Unique [] s h = h
  serve-Unique (call ∷ calls) s h =
      serve-Unique calls (handle env u call s) (handle-Unique call s h)
