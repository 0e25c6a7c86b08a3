-- ===== src/Coo/Once.antt =====
-- What the corrections and the reports add to the outbox.
use dos_amigos_ops.Automation.{HermesPayload, has_key}
use dos_amigos_ops.Base.{
  Bool, List, Option, Text, [], ap, false, find, find-append_none, find_sound, is_some, none, not,
  refl, some, text_eq_refl, text_eq→eq, true, update_where, ℕ, ◌++◌, ◌+◌, ◌∙◌, ◌∷◌, ◌≡◌,
}
use dos_amigos_ops.Base.Action.{Result, ok}
use dos_amigos_ops.Coo.Orchestrator.{Orchestrator}
use dos_amigos_ops.Coo.Outbox.{
  add_row, correction_key, correction_row, ensure_correction_outbox, latest_sales_report,
  operational_markdown, place_correction, report_row, sales_outbox_is_mutable, update_if_mutable,
  updated_report, upsert_existing, upsert_for_date, upsert_sales_outbox,
}
use dos_amigos_ops.Models.{Change, HermesReportOutbox, Session, Tables, datetime_now}
use dos_amigos_ops.OutboxApi.{has_id, save_outbox}

module _ {P : Type 0} (self : Orchestrator P) where
  correction_again :
      (original : HermesReportOutbox) (current : HermesPayload) (changes : List Change) (day : ℕ)
      (t : Session) (row : HermesReportOutbox)
      → find (has_key (correction_key self day changes)) t.working.outbox ≡ some row
      → ensure_correction_outbox self original current changes day t ≡ (ok (row, false), t)
  unfolding ensure_correction_outbox place_correction
  correction_again original current changes day t row found =
      ap
        (λ (existing : Option HermesReportOutbox).
          place_correction self original current changes day existing t)
        found

  -- What is promised of a correction.
  abbrev CorrectedOnce :
      List Change → ℕ → Session → Result (HermesReportOutbox × Bool) × Session → Type 0
  CorrectedOnce changes day s p =
      (row : HermesReportOutbox) × (p.0
        ≡ ok (
          row,
          not (is_some (find (has_key (correction_key self day changes)) s.working.outbox)),
        ))
      × (find (has_key (correction_key self day changes)) p.1.working.outbox ≡ some row)

  place_correction-CorrectedOnce :
      (original : HermesReportOutbox) (current : HermesPayload) (changes : List Change) (day : ℕ)
      (existing : Option HermesReportOutbox) (s : Session)
      → find (has_key (correction_key self day changes)) s.working.outbox ≡ existing
      → CorrectedOnce changes day s (place_correction self original current changes day existing s)
  unfolding place_correction add_row
  place_correction-CorrectedOnce original current changes day (some row) s found =
      (row, rw found refl, found)
  place_correction-CorrectedOnce original current changes day none s found =
      let key = correction_key self day changes in
      let new =
        correction_row self original current changes day (self.env.now s.ticks)
          (self.env.uuid s.draws) (self.env.now (s.ticks + 1)) in
      (
        new,
        rw found refl,
        find-append_none (has_key key) s.working.outbox (new ∷ []) found
            ∙ unfold find in rw (text_eq_refl key) refl,
      )

  -- A correction of the same changes to a day is made once: the answer is the correction that is
  -- stored under their key, and whether there was none before; each later call for these changes,
  -- whatever report and payload it is given, answers the same row, creates nothing and leaves the
  -- session as it is.
  pub ensure_correction_outbox-Once :
      (original : HermesReportOutbox) (current : HermesPayload) (changes : List Change) (day : ℕ)
      (s : Session)
      → let (r, t) = ensure_correction_outbox self original current changes day s in
        (row : HermesReportOutbox) × (r
          ≡ ok (
            row,
            not (is_some (find (has_key (correction_key self day changes)) s.working.outbox)),
          ))
        × ((report : HermesReportOutbox) (payload : HermesPayload)
            → ensure_correction_outbox self report payload changes day t ≡ (ok (row, false), t))
  unfolding ensure_correction_outbox
  ensure_correction_outbox-Once original current changes day s =
      let key = correction_key self day changes in
      let existing = find (has_key key) s.working.outbox in
      let t = (place_correction self original current changes day existing s).1 in
      let (row, answered, found) =
        place_correction-CorrectedOnce original current changes day existing s refl in
      (row, answered, (λ other payload. correction_again other payload changes day t row found))

  -- The row that an upsert may write over: the one under the payload's key, else the latest daily
  -- report of the organization for the date.
  abbrev pub or_latest : ℕ → Tables → Option HermesReportOutbox → Option HermesReportOutbox
  or_latest day db none = latest_sales_report self.collate self.organization_id day db
  or_latest day db (some x) = some x

  -- The row is the payload's, under its key.
  abbrev pub Written : HermesPayload → Text → HermesReportOutbox → Type 0
  Written payload markdown row =
      (row.idempotency_key ≡ payload.idempotency_key)
      × (row.payload_json ≡ payload.payload_json)
      × (row.payload_markdown ≡ markdown)

  -- What becomes of that row, from these working and committed tables to `t`, where `row` is
  -- answered.
  abbrev pub Upserted :
      HermesPayload
      → Text
      → Option HermesReportOutbox
      → HermesReportOutbox
      → (working committed : Tables) → Session
      → Type 0
  Upserted payload markdown none row working committed t =
      Written payload markdown row × (t.committed.outbox ≡ working.outbox ++ row ∷ [])
  Upserted payload markdown (some x) row working committed t =
      (sales_outbox_is_mutable working x ≡ true
        → Written payload markdown row
          × (row.id ≡ x.id)
          × (t.committed.outbox ≡ update_where (has_id x.id) (λ _. row) working.outbox))
      × (sales_outbox_is_mutable working x ≡ false
          → (row ≡ x) × (t.working ≡ working) × (t.committed ≡ committed))

  abbrev Answered :
      HermesPayload
      → Text
      → Option HermesReportOutbox
      → Session
      → Result HermesReportOutbox × Session
      → Type 0
  Answered payload markdown existing s p =
      (row : HermesReportOutbox) × (p.0 ≡ ok row)
      × Upserted payload markdown existing row s.working s.committed p.1

  update-Answered :
      (mutable : Bool) (x : HermesReportOutbox) (key : Text) (payload : HermesPayload)
      (markdown : Text) (now : ℕ) (s : Session)
      → key ≡ payload.idempotency_key
      → sales_outbox_is_mutable s.working x ≡ mutable
      → Answered payload markdown
          (some x)
          s
          (update_if_mutable self mutable x (updated_report key payload markdown now x) s)
  unfolding update_if_mutable save_outbox
  update-Answered true x key payload markdown now s keyed h = (
    updated_report key payload markdown now x,
    refl,
    (λ open_still. ((keyed, refl, refl), refl, refl), λ settled. cc),
  )
  update-Answered false x key payload markdown now s keyed h =
      (x, refl, (λ open_still. cc, λ settled. (refl, refl, refl)))

  upsert_for_date-Answered :
      (payload : HermesPayload) (markdown : Text) (day now : ℕ) (newest : Option HermesReportOutbox)
      (s : Session)
      → Answered payload markdown newest s (upsert_for_date self payload markdown day now newest s)
  unfolding upsert_for_date add_row
  upsert_for_date-Answered payload markdown day now none s =
      let new =
        report_row self payload markdown day now (self.env.uuid s.draws) (self.env.now s.ticks) in
      (new, refl, ((refl, refl, refl), refl))
  upsert_for_date-Answered payload markdown day now (some x) s =
      update-Answered (sales_outbox_is_mutable s.working x) x payload.idempotency_key payload
        markdown now s refl refl

  upsert_existing-Answered :
      (payload : HermesPayload) (markdown : Text) (day now : ℕ)
      (existing : Option HermesReportOutbox) (s : Session)
      → find (has_key payload.idempotency_key) s.working.outbox ≡ existing
      → Answered payload markdown
          (or_latest day s.working existing)
          s
          (upsert_existing self payload markdown day now existing s)
  unfolding upsert_existing
  upsert_existing-Answered payload markdown day now none s found =
      upsert_for_date-Answered payload markdown day now
        (latest_sales_report self.collate self.organization_id day s.working) s
  upsert_existing-Answered payload markdown day now (some x) s found =
      update-Answered (sales_outbox_is_mutable s.working x) x x.idempotency_key payload markdown now
        s
        (text_eq→eq x.idempotency_key payload.idempotency_key
          (find_sound (has_key payload.idempotency_key) s.working.outbox found))
        refl

  -- A close-out's report is the row under the payload's key, else the latest daily report of the
  -- organization for the date. Where there is neither, a new row is answered and committed behind
  -- the others. Where the row may still change, which it may not once it is delivered or a
  -- recipient of it is registered, the answer is a row under its id, and that is what is committed
  -- in its place. In both cases the answered row has the payload, its key, and its text with the
  -- operational title. Where the row may not change it is answered as it is, and no table changes.
  pub upsert_sales_outbox_lem :
      (payload : HermesPayload) (day : ℕ) (s : Session)
      → let (r, t) = upsert_sales_outbox self payload day s in
        let existing = find (has_key payload.idempotency_key) s.working.outbox in
        (row : HermesReportOutbox) × (r ≡ ok row)
        × Upserted payload
            (operational_markdown day payload.payload_markdown)
            (or_latest day s.working existing)
            row
            s.working
            s.committed
            t
  unfolding upsert_sales_outbox
  upsert_sales_outbox_lem payload day s =
      upsert_existing-Answered payload (operational_markdown day payload.payload_markdown) day
        (self.env.now s.ticks) (find (has_key payload.idempotency_key) s.working.outbox)
        (datetime_now self.env s).1 refl
