-- ===== src/Publish.antt =====
-- The publication of the outbox to Hermes: the publishers of
-- apps/core/app/services/iiko_sales_automation.py and `HermesOutboxPublishService` of
-- apps/core/app/services/publish_hermes_reports.py.
mod Service
pub mod Outcome
mod Tests
unfoldable pub use Service.*
