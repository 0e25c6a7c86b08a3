-- ===== src/Calendar.antt =====
-- `datetime.date` at its proleptic ordinal: the year, the month and the day, and their texts.
mod Dates
unfoldable pub use Dates.*
