-- ===== src/Redaction.antt =====
-- The redaction of error messages: `_safe_error_message` of
-- apps/core/app/api/routes/report_outbox.py and of apps/core/app/services/daily_coo_report.py, and
-- `safe_error_message` of ops/telegram/report_sender.py. Each regular expression is a function
-- from the character before a position and the text from there on to the length of the match.
-- Sensitive is `redact` of integrations/iiko/redaction.py.
mod Chars
mod Patterns
mod Sensitive
pub mod Fragments
pub mod Safe
mod Tests
unfoldable pub use Chars.*
unfoldable pub use Patterns.*
unfoldable pub use Sensitive.*
