-- ===== src/Sender.antt =====
-- The Telegram sender, ops/telegram/report_sender.py: how a text is split into messages, and one
-- delivery pass over the pending reports.
mod Split
mod Run
pub mod SplitLaws
pub mod Progress
pub mod Messages
pub mod Skips
pub mod Once
mod Tests
unfoldable pub use Split.*
unfoldable pub use Run.*
