-- ===== src/Models.antt =====
-- The database of apps/core/app/models/sales.py: the columns of its tables, and a session over
-- them. A date is its proleptic ordinal, a time its microseconds, and an amount of money its
-- cents (`Numeric(18, 2)`) or its ten-thousandths (`Numeric(18, 4)`).
mod Status
mod Payload
mod Rows
mod Database
pub mod Samples
unfoldable pub use Status.*
unfoldable pub use Payload.*
unfoldable pub use Rows.*
unfoldable pub use Database.*
