-- ===== src/Publish/Tests.antt =====
-- The theorems on the publication at a concrete row.
use dos_amigos_ops.Base.{codes, false, find, none, refl, some, text_eq, ◌≡◌}
use dos_amigos_ops.Base.Action.{Exn, exception, ok}
use dos_amigos_ops.Models.{HermesReportOutbox}
use dos_amigos_ops.Models.Samples.{sample_env, sample_report, sample_session, sample_tables}
use dos_amigos_ops.OutboxApi.Lookup.{report}
use dos_amigos_ops.Publish.Outcome.{Published, publish_row-Published}
use dos_amigos_ops.Publish.Service.{PublishResult, PublishStatus, Tally, publish_row}

abbrev refused : PublishResult
refused = record {
  status = PublishStatus.failed;
  external_message_id = none;
  error_code = none;
  error_message_redacted = some (codes "no route");
}

sample_stored : report (codes "r1") sample_tables ≡ some sample_report
unfolding find text_eq
sample_stored = refl

publish_row-Published_example :
    (b : HermesReportOutbox) × (report
        (codes "r1")
        (publish_row sample_env (λ row. ok refused) sample_report sample_session).1.committed
      ≡ some b)
    × Published PublishStatus.failed none sample_report b
    × ((publish_row sample_env (λ row. ok refused) sample_report sample_session).0
        ≡ ok PublishStatus.failed)
publish_row-Published_example =
    publish_row-Published sample_env (λ row. ok refused) refused sample_report sample_report
      sample_session sample_stored refl

abbrev no_tally : Tally
no_tally = record { delivered = 0; failed = 0; disabled = false }

abbrev broken : Exn
broken = exception (codes "OSError") (codes "down")
