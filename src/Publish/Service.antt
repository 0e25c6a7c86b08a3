-- ===== src/Publish/Service.antt =====
-- The publishers, and `publish_pending`.
use dos_amigos_ops.Base.{
  Bool, List, Option, Text, [], codes, false, if◌then◌else◌, length, ltb, none, some, true, ℕ, ◌+◌,
  ◌∷◌,
}
use dos_amigos_ops.Base.Action.{Result, gets, ok, pure, ◌>>=◌, ◌>>◌}
use dos_amigos_ops.Models.{DbAction, DeliveryStatus, Env, HermesReportOutbox, commit, datetime_now}
use dos_amigos_ops.OutboxApi.{save_outbox, select_pending}

pub data PublishStatus : Type 0 where
  disabled delivered failed : PublishStatus

-- Any status but `disabled` and `delivered` counts as a failure.
pub record PublishResult : Type 0 where
  pub status : PublishStatus
  pub external_message_id : Option Text
  pub error_code : Option Text
  pub error_message_redacted : Option Text

-- `HermesReportPublisher.publish`, which may raise
abbrev pub Publisher : Type 0
Publisher = HermesReportOutbox → Result PublishResult

-- `DisabledHermesReportPublisher`
unfoldable pub disabled_publisher : Publisher
disabled_publisher row = ok (record {
  status = PublishStatus.disabled;
  external_message_id = none;
  error_code = some (codes "hermes_delivery_disabled");
  error_message_redacted = none;
})

pub data PublishSummaryStatus : Type 0 where
  empty dry_run disabled failed delivered : PublishSummaryStatus

pub record HermesPublishSummary : Type 0 where
  pub status : PublishSummaryStatus
  pub considered : ℕ
  pub delivered : ℕ
  pub failed : ℕ
  pub dry_run : Bool
  pub error_code : Option Text

-- The variables of the loop.
pub record Tally : Type 0 where
  pub delivered : ℕ
  pub failed : ℕ
  pub disabled : Bool

-- The row while it is with the publisher.
abbrev pub delivering_row : ℕ → HermesReportOutbox → HermesReportOutbox
delivering_row now row = record row {
  delivery_status = DeliveryStatus.delivering;
  delivery_attempts = row.delivery_attempts + 1;
  last_attempt_at = some now;
}

-- `result.error_code or "hermes_delivery_failed"`
abbrev pub failure_code : Option Text → Text
failure_code none = codes "hermes_delivery_failed"
failure_code (some []) = codes "hermes_delivery_failed"
failure_code (some (c ∷ code)) = c ∷ code

unfoldable pub count_outcome : PublishStatus → Tally → Tally
count_outcome PublishStatus.disabled t = record t { disabled = true }
count_outcome PublishStatus.delivered t = record t { delivered = t.delivered + 1 }
count_outcome PublishStatus.failed t = record t { failed = t.failed + 1 }

module _ (env : Env) (publisher : Publisher) where
  -- `row.updated_at = datetime.now(UTC)` and the commit
  unfoldable pub stamp : HermesReportOutbox → DbAction (Unit {0})
  unfolding save_outbox
  stamp row = do
    updated_at ← datetime_now env
    save_outbox (record row { updated_at = updated_at })
    commit

  -- The branches on the result's status; the status tells the counters.
  unfoldable pub settle :
      PublishStatus → PublishResult → HermesReportOutbox → DbAction PublishStatus
  unfolding stamp
  settle PublishStatus.disabled result row = do
    stamp (record row { delivery_status = DeliveryStatus.pending; error_code = result.error_code })
    pure PublishStatus.disabled
  settle PublishStatus.delivered result row = do
    delivered_at ← datetime_now env
    stamp (record row {
      delivery_status = DeliveryStatus.delivered;
      delivered_at = some delivered_at;
      external_message_id = result.external_message_id;
      error_code = none;
      error_message_redacted = none;
    })
    pure PublishStatus.delivered
  settle PublishStatus.failed result row = do
    stamp (record row {
      delivery_status = DeliveryStatus.failed;
      error_code = some (failure_code result.error_code);
      error_message_redacted = result.error_message_redacted;
    })
    pure PublishStatus.failed

  -- The body of the loop for one row.
  unfoldable pub publish_row : HermesReportOutbox → DbAction PublishStatus
  unfolding save_outbox
  publish_row row = do
    started ← datetime_now env
    let delivering = delivering_row started row
    save_outbox delivering
    commit
    result ← λ s. (publisher delivering, s)
    settle result.status result delivering

  unfoldable pub publish_rows : Tally → List HermesReportOutbox → DbAction Tally
  publish_rows t [] = pure t
  publish_rows t (row ∷ rows) = do
    status ← publish_row row
    publish_rows (count_outcome status t) rows

  abbrev pub summary : PublishSummaryStatus → ℕ → ℕ → ℕ → Bool → Option Text → HermesPublishSummary
  summary status considered delivered_count failed_count is_dry code = record {
    status = status;
    considered = considered;
    delivered = delivered_count;
    failed = failed_count;
    dry_run = is_dry;
    error_code = code;
  }

  unfoldable pub summarize : ℕ → Tally → HermesPublishSummary
  summarize considered t =
      if t.disabled
      then summary PublishSummaryStatus.disabled considered t.delivered t.failed false
          (some (codes "hermes_delivery_disabled"))
      else if ltb 0 t.failed
      then summary PublishSummaryStatus.failed considered t.delivered t.failed false none
      else summary PublishSummaryStatus.delivered considered t.delivered t.failed false none

  unfoldable pub publish_selected : Bool → List HermesReportOutbox → DbAction HermesPublishSummary
  publish_selected is_dry [] = pure (summary PublishSummaryStatus.empty 0 0 0 false none)
  publish_selected is_dry (row ∷ rows) =
      if is_dry
      then pure (summary PublishSummaryStatus.dry_run (length (row ∷ rows)) 0 0 true none)
      else (do
        tally ← publish_rows (record { delivered = 0; failed = 0; disabled = false }) (row ∷ rows)
        pure (summarize (length (row ∷ rows)) tally))

  unfoldable pub publish_pending :
      (limit : ℕ) (business_date : Option ℕ) (retry_failed dry_run : Bool)
      → DbAction HermesPublishSummary
  publish_pending limit business_date retry_failed is_dry = do
    rows ← gets (λ s. select_pending limit business_date retry_failed s.working)
    publish_selected is_dry rows
