-- ===== src/Publish/Outcome.antt =====
-- What a publication leaves in the outbox.
use dos_amigos_ops.Base.{
  Option, Text, find-update_self, none, refl, some, text_eq_refl, update_where, ◌+◌, ◌≡◌,
}
use dos_amigos_ops.Base.Action.{ok}
use dos_amigos_ops.Models.{DeliveryStatus, Env, HermesReportOutbox, Session}
use dos_amigos_ops.OutboxApi.{has_id, save_outbox}
use dos_amigos_ops.OutboxApi.Lookup.{report}
use dos_amigos_ops.Publish.Service.{
  PublishResult, PublishStatus, Publisher, delivering_row, failure_code, publish_row, settle, stamp,
}

-- The delivery status that a result ends in.
abbrev pub status_after : PublishStatus → DeliveryStatus
status_after PublishStatus.disabled = DeliveryStatus.pending
status_after PublishStatus.delivered = DeliveryStatus.delivered
status_after PublishStatus.failed = DeliveryStatus.failed

-- The error code that a result leaves.
abbrev pub code_after : PublishStatus → Option Text → Option Text
code_after PublishStatus.disabled code = code
code_after PublishStatus.delivered code = none
code_after PublishStatus.failed code = some (failure_code code)

-- A row `b` that was published as `a`, with this result.
pub record Published (status : PublishStatus) (code : Option Text) (a b : HermesReportOutbox)
    : Type 0 where
  pub delivery_status : b.delivery_status ≡ status_after status
  pub error_code : b.error_code ≡ code_after status code
  pub attempts : b.delivery_attempts ≡ a.delivery_attempts + 1
  pub payload_json : b.payload_json ≡ a.payload_json
  pub payload_markdown : b.payload_markdown ≡ a.payload_markdown

module _ (env : Env) (publisher : Publisher) where
  stamp_lem :
      (row x : HermesReportOutbox) (s : Session)
      → report row.id s.working ≡ some x
      → report row.id (stamp env publisher row s).1.committed
        ≡ some (record row { updated_at = env.now s.ticks })
  unfolding stamp
  stamp_lem row x s h =
      find-update_self (has_id row.id) (record row { updated_at = env.now s.ticks })
        s.working.outbox (text_eq_refl row.id) h

  settle-Published :
      (status : PublishStatus) (result : PublishResult) (row x : HermesReportOutbox) (s : Session)
      → report row.id s.working ≡ some x
      → (b : HermesReportOutbox) × (report row.id
            (settle env publisher status result row s).1.committed
          ≡ some b)
        × (b.delivery_status ≡ status_after status)
        × (b.error_code ≡ code_after status result.error_code)
        × (b.delivery_attempts ≡ row.delivery_attempts)
        × (b.payload_json ≡ row.payload_json)
        × (b.payload_markdown ≡ row.payload_markdown)
  unfolding settle
  settle-Published PublishStatus.disabled result row x s h =
      let r = record row {
        delivery_status = DeliveryStatus.pending;
        error_code = result.error_code;
      } in
      (record r { updated_at = env.now s.ticks }, stamp_lem r x s h, refl, refl, refl, refl, refl)
  settle-Published PublishStatus.delivered result row x s h =
      let r = record row {
        delivery_status = DeliveryStatus.delivered;
        delivered_at = some (env.now s.ticks);
        external_message_id = result.external_message_id;
        error_code = none;
        error_message_redacted = none;
      } in
      let s1 = record s { ticks = s.ticks + 1 } in
      (record r { updated_at = env.now s1.ticks }, stamp_lem r x s1 h, refl, refl, refl, refl, refl)
  settle-Published PublishStatus.failed result row x s h =
      let r = record row {
        delivery_status = DeliveryStatus.failed;
        error_code = some (failure_code result.error_code);
        error_message_redacted = result.error_message_redacted;
      } in
      (record r { updated_at = env.now s.ticks }, stamp_lem r x s h, refl, refl, refl, refl, refl)

  settle-answer :
      (status : PublishStatus) (result : PublishResult) (row : HermesReportOutbox) (s : Session)
      → (settle env publisher status result row s).0 ≡ ok status
  unfolding settle
  settle-answer PublishStatus.disabled result row s = refl
  settle-answer PublishStatus.delivered result row s = refl
  settle-answer PublishStatus.failed result row s = refl

  -- One row goes to the publisher with the status `delivering` and one more attempt, and the
  -- result decides what is committed for it then: a disabled publisher leaves it pending (the attempt
  -- stays counted), a success delivered and without an error code, anything else failed with the
  -- result's code or the default one. The payload and the text never change.
  pub publish_row-Published :
      (result : PublishResult) (row x : HermesReportOutbox) (s : Session)
      → report row.id s.working ≡ some x
      → publisher (delivering_row (env.now s.ticks) row) ≡ ok result
      → (b : HermesReportOutbox) × (report row.id (publish_row env publisher row s).1.committed
          ≡ some b)
        × Published result.status result.error_code row b
        × ((publish_row env publisher row s).0 ≡ ok result.status)
  unfolding publish_row save_outbox
  publish_row-Published result row x s h e =
      let started = env.now s.ticks in
      let row1 = delivering_row started row in
      let rows1 = update_where (has_id row.id) (λ _. row1) s.working.outbox in
      let tables1 = record s.working { outbox = rows1 } in
      let s1 : Session = record {
        working = tables1;
        committed = tables1;
        draws = s.draws;
        ticks = s.ticks + 1;
      } in
      let found = find-update_self (has_id row.id) row1 s.working.outbox (text_eq_refl row.id) h in
      let (b, in_b, ds, code, attempts, json, markdown) =
        settle-Published result.status result row1 row1 s1 found in
      rw e (
        b,
        in_b,
        record {
          delivery_status = ds;
          error_code = code;
          attempts = attempts;
          payload_json = json;
          payload_markdown = markdown;
        },
        settle-answer result.status result row1 s1,
      )

  -- The session while a row is with the publisher.
  abbrev handed_over : HermesReportOutbox → Session → Session
  handed_over row s =
      let rows =
        update_where (has_id row.id) (λ _. delivering_row (env.now s.ticks) row) s.working.outbox in
      let tables = record s.working { outbox = rows } in
      record { working = tables; committed = tables; draws = s.draws; ticks = s.ticks + 1 }
