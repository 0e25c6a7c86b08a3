-- ===== src/Decimal.antt =====
-- Python's decimal numbers as the program uses them: their digits, rounding, and division.
mod Digits
mod Numbers
mod Parse
pub mod DigitsLaws
unfoldable pub use Digits.*
unfoldable pub use Numbers.*
unfoldable pub use Parse.*
