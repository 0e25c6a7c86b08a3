-- ===== src/OutboxApi.antt =====
-- The internal API of the report outbox, apps/core/app/api/routes/report_outbox.py: the requests
-- and their validation, the access check, and one action for each route.
mod Requests
mod Reports
mod Recipients
pub mod Lookup
pub mod Effects
pub mod Serve
pub mod Final
pub mod Delivered
pub mod Registration
pub mod Unique
pub mod Access
pub mod Validation
pub mod Pending
mod Tests
unfoldable pub use Requests.*
unfoldable pub use Reports.*
unfoldable pub use Recipients.*
