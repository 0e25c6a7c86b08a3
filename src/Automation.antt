-- ===== src/Automation.antt =====
-- `IikoSalesAutomationService` of apps/core/app/services/iiko_sales_automation.py: the outbox of
-- daily reports, the records of its runs, and the scheduled, manual and back-fill imports.
mod Runs
mod Outbox
mod Service
mod Format
mod Queries
mod Facts
mod Build
pub mod Lock
pub mod Placed
pub mod Window
pub mod Gate
pub mod Total
pub mod Recorded
pub mod Finished
pub mod Stable
pub mod Ordered
pub mod Totals
mod Tests
unfoldable pub use Runs.*
unfoldable pub use Outbox.*
unfoldable pub use Format.*
unfoldable pub use Queries.*
unfoldable pub use Facts.*
unfoldable pub use Build.*
unfoldable pub use Service.*
