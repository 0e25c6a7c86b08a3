-- ===== src/Coo.antt =====
-- The daily report of apps/core/app/services/daily_coo_report.py: the close-out of a day and its
-- reconciliation on the next one, with the corrections and the technical alerts they leave in the
-- outbox.
mod Numerals
mod Changes
mod Orchestrator
mod Outbox
mod Service
pub mod Lock
pub mod Kept
pub mod Ends
pub mod Finished
pub mod Only
pub mod Sealed
pub mod Guarded
pub mod Frozen
pub mod Once
pub mod Reading
pub mod Same
pub mod Unchanged
mod Tests
unfoldable pub use Numerals.*
unfoldable pub use Changes.*
unfoldable pub use Orchestrator.*
unfoldable pub use Outbox.*
unfoldable pub use Service.*
