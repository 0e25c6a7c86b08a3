-- ===== src/Lib.antt =====
-- Dos Amigos Ops: the report outbox and its deliveries.
--
-- The program imports the sales of a restaurant day by day, puts a report of each day into an
-- outbox table, and delivers the reports: a Telegram sender asks an internal HTTP API for the
-- pending reports, sends each one to every allowed chat, and reports the outcome for each
-- recipient and for the report; a publication service hands the same rows to Hermes. At the end of a
-- day a close-out puts the day's report into the outbox, and on the next day a reconciliation
-- imports the day again and adds a correction where the figures changed.
--
-- The files, and the code that they model:
--   Base         shared names; lists, texts and integers; actions that change a state and may
--                raise (Base/Action), and what an action keeps (Base/Keeps)
--   Models       apps/core/app/models/sales.py: a record for each table, a data type for each
--                closed set of strings, the session (Models/Database), rows for tests
--   Redaction    the regular expressions and `_safe_error_message` of
--                apps/core/app/api/routes/report_outbox.py and of
--                apps/core/app/services/daily_coo_report.py, `safe_error_message` of
--                ops/telegram/report_sender.py; Sensitive, integrations/iiko/redaction.py, with its
--                proofs in Fragments and Safe
--   Decimal      Python's decimal numbers: Digits (texts of digits), Numbers (rounding, division,
--                `format`); the proofs in DigitsLaws
--   Calendar     dates at their proleptic ordinals and their two texts
--   OutboxApi    apps/core/app/api/routes/report_outbox.py: Requests (the models, the validation,
--                the access check), Reports and Recipients (an action for each route); Serve, any
--                sequence of calls; the proofs in Lookup, Effects, Final, Delivered, Registration,
--                Unique, Access, Validation and Pending
--   Publish      apps/core/app/services/publish_hermes_reports.py and the publishers of
--                apps/core/app/services/iiko_sales_automation.py; the proofs in Outcome
--   Sales        the import of a day: Json, Rows, Checks, Checksum and Normalize
--                (`normalize_iiko_sales_payload` of integrations/iiko/sales.py), Report (the
--                normalised report), Repository (apps/core/app/repositories/iiko_sales.py), Sync
--                (`sync_day` and `sync_range` of apps/core/app/services/iiko_sales.py); the proofs
--                in Persist, Contents, Day, DryRun, Atomic, Range, Untouched, Refined, Committed,
--                Parsing, Reconciled and Scope
--   Automation   `IikoSalesAutomationService` of apps/core/app/services/iiko_sales_automation.py:
--                Runs (results and the rows of runs), Outbox (`ensure_outbox`, `rebuild_outbox`),
--                Service (`run_date` under the advisory lock, `run_backfill`, `run_due`); the
--                report of a day in Format (amounts and percentages), Queries (the ordered rows),
--                Facts and Build (`build_sales_daily_hermes_payload`); the proofs in Lock, Placed,
--                Window, Gate, Total, Recorded, Finished, Stable, Ordered and Totals
--   Coo          apps/core/app/services/daily_coo_report.py: Numerals and Changes (the comparison
--                of two payloads), Orchestrator (results and the rows of runs), Outbox (the report,
--                corrections, alerts), Service (`closeout`, `reconcile`, by their mode); the proofs
--                in Lock, Kept, Ends, Finished, Only, Sealed, Guarded, Frozen, Once, Reading, Same and
--                Unchanged
--   Sender       ops/telegram/report_sender.py: Split (`split_telegram_message`) and Run
--                (`run_once`, which calls the routes of OutboxApi behind their token); the proofs
--                in SplitLaws, Progress, Messages, Skips and Once
-- The tests of a component, with the theorems at concrete inputs, are its module Tests.
--
-- State. A session holds the tables that it sees and the tables that it committed last; a route is
-- an action on it, which answers or raises, and what was written before a raise stays written. A
-- date is a number of days, a time a number of microseconds, an amount of money a number of cents.
-- The value of each call of `uuid4` and of the clock, what becomes of each
-- message to Telegram and of each request to the core, whose answer may be lost, HMAC, iiko's answers, whether the advisory lock is free, the timezone,
-- `str.lower`, the database's collation, sha256 and the Unicode tables of `\w` and `\d` are
-- parameters, and so is the text that `json.dumps` makes of a value. The synchronisation of Sales
-- takes the normalisation as a parameter, for any one; the program's is in Normalize. The service
-- of Automation takes the builder of reports as a parameter, which Stable fills with Build's; Coo
-- uses Build's. A decimal number is a coefficient
-- and its places, with no negative zero; its text is read in plain notation, a sign and digits with
-- at most one point.
--
-- Fuel. Only the loop of `split_telegram_message` runs on fuel, the length of the text and one
-- more: every round cuts off a character. The digits of a number are written on fuel that is one
-- more than the number. The loops over days are recursions on the number of days.
-- The window of a back-fill begins at the first of all dates at the earliest.
--
-- Not modelled: the requests to iiko, HTTP and JSON, the command lines, the settings, the
-- migrations and logging; the diagnostics of a normalised report, which nothing stores. A commit
-- fails only where the unique keys of payments and products of a day do. The server's time of a
-- recipient's creation is the clock of the call. A negative limit of a message, which is refused as
-- zero is, does not occur. Concurrent requests are sequences of whole calls.
pub mod Base
pub mod Models
pub mod Redaction
pub mod Decimal
pub mod Calendar
pub mod OutboxApi
pub mod Sender
pub mod Publish
pub mod Sales
pub mod Automation
pub mod Coo
