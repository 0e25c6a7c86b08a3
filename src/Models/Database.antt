-- ===== src/Models/Database.antt =====
-- The session over the database, and what the code asks of its surroundings.
use dos_amigos_ops.Base.{List, Text, ℕ, ◌+◌}
use dos_amigos_ops.Base.Action.{Action, ok}
use dos_amigos_ops.Models.Rows.{
  DailyCooReportRun, HermesReportOutbox, HermesReportRecipientDelivery, IikoSalesAutomationRun,
  IikoSalesDaily, IikoSalesDailyPayment, IikoSalesDailyProduct, IikoSalesSyncRun,
}

pub record Tables : Type 0 where
  pub outbox : List HermesReportOutbox
  pub recipients : List HermesReportRecipientDelivery
  pub daily : List IikoSalesDaily
  pub payments : List IikoSalesDailyPayment
  pub products : List IikoSalesDailyProduct
  pub sync_runs : List IikoSalesSyncRun
  pub automation_runs : List IikoSalesAutomationRun
  pub coo_runs : List DailyCooReportRun

-- `working` is what the session sees, `committed` what a rollback returns to. `draws` counts the
-- calls of `uuid4`, `ticks` those of `datetime.now`.
pub record Session : Type 0 where
  pub working : Tables
  pub committed : Tables
  pub draws : ℕ
  pub ticks : ℕ

-- `uuid4` and the clock: the value of each call.
pub record Env : Type 0 where
  pub uuid : ℕ → Text
  pub now : ℕ → ℕ

abbrev pub DbAction : Type 0 → Type 0
DbAction = Action Session

abbrev pub commit : DbAction (Unit {0})
commit s = (ok tt, record s { committed = s.working })

abbrev pub rollback : DbAction (Unit {0})
rollback s = (ok tt, record s { working = s.committed })

-- `datetime.now(UTC)`
abbrev pub datetime_now : Env → DbAction ℕ
datetime_now env s = (ok (env.now s.ticks), record s { ticks = s.ticks + 1 })

-- `str(uuid4())`, the default of a primary key
abbrev pub uuid4 : Env → DbAction Text
uuid4 env s = (ok (env.uuid s.draws), record s { draws = s.draws + 1 })

abbrev pub set_outbox : List HermesReportOutbox → DbAction (Unit {0})
set_outbox rows s = (ok tt, record s { working = record s.working { outbox = rows } })

abbrev pub set_recipients : List HermesReportRecipientDelivery → DbAction (Unit {0})
set_recipients rows s = (ok tt, record s { working = record s.working { recipients = rows } })

abbrev pub set_daily : List IikoSalesDaily → DbAction (Unit {0})
set_daily rows s = (ok tt, record s { working = record s.working { daily = rows } })

abbrev pub set_payments : List IikoSalesDailyPayment → DbAction (Unit {0})
set_payments rows s = (ok tt, record s { working = record s.working { payments = rows } })

abbrev pub set_products : List IikoSalesDailyProduct → DbAction (Unit {0})
set_products rows s = (ok tt, record s { working = record s.working { products = rows } })

abbrev pub set_sync_runs : List IikoSalesSyncRun → DbAction (Unit {0})
set_sync_runs rows s = (ok tt, record s { working = record s.working { sync_runs = rows } })

abbrev pub set_automation_runs : List IikoSalesAutomationRun → DbAction (Unit {0})
set_automation_runs rows s =
    (ok tt, record s { working = record s.working { automation_runs = rows } })

abbrev pub set_coo_runs : List DailyCooReportRun → DbAction (Unit {0})
set_coo_runs rows s = (ok tt, record s { working = record s.working { coo_runs = rows } })
