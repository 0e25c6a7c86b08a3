-- ===== src/Sales.antt =====
-- The import of a day's sales: the normalised report of integrations/iiko/sales.py, the
-- repository of apps/core/app/repositories/iiko_sales.py, and the synchronisation of
-- apps/core/app/services/iiko_sales.py.
mod Json
mod Report
mod Rows
mod Repository
mod Sync
mod Checksum
mod Checks
mod Normalize
pub mod Persist
pub mod Contents
pub mod Day
pub mod DryRun
pub mod Atomic
pub mod Range
pub mod Untouched
pub mod Refined
pub mod Committed
pub mod Parsing
pub mod Reconciled
pub mod Scope
mod Tests
unfoldable pub use Json.*
unfoldable pub use Report.*
unfoldable pub use Rows.*
unfoldable pub use Repository.*
unfoldable pub use Sync.*
unfoldable pub use Checksum.*
unfoldable pub use Checks.*
unfoldable pub use Normalize.*
