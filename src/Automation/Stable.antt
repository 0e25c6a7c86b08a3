-- ===== src/Automation/Stable.antt =====
-- `ensure_outbox` with the reports that `build_sales_daily_hermes_payload` makes.
use dos_amigos_ops.Automation.Build.{
  build_sales_daily_hermes_payload, report_payload, rows_of, sales_daily_key,
}
use dos_amigos_ops.Automation.Outbox.{
  HermesPayload, create_outbox, ensure_outbox, has_key, is_outdated, outbox_result, place_outbox,
  refresh_outbox,
}
use dos_amigos_ops.Automation.Placed.{Current, built_call, enabled_call, ensure_outbox-Current}
use dos_amigos_ops.Automation.Queries.{list_payments, list_top_products}
use dos_amigos_ops.Automation.Runs.{AutomationStatus, SalesAutomationConfig, SalesAutomationResult}
use dos_amigos_ops.Base.{
  Bool, Bool-cases, List, Option, Text, [], ap, false, find, inl, inr, lt→ltb, none, refl, some,
  subst, sym, true, ℕ, ◌<◌, ◌∙◌, ◌∷◌, ◌≡◌,
}
use dos_amigos_ops.Base.Action.{Result, ok}
use dos_amigos_ops.Models.{
  Env, HermesReportOutbox, IikoSalesDaily, IikoSalesDailyPayment, IikoSalesDailyProduct, Session,
  Tables,
}
use dos_amigos_ops.OutboxApi.{save_outbox}
use dos_amigos_ops.Sales.{get_daily}

-- The tables that a report is made from, alone.
abbrev sales_tables :
    List IikoSalesDaily → List IikoSalesDailyPayment → List IikoSalesDailyProduct → Tables
sales_tables daily payments products = record {
  outbox = [];
  recipients = [];
  daily = daily;
  payments = payments;
  products = products;
  sync_runs = [];
  automation_runs = [];
  coo_runs = [];
}

abbrev sales_of : Tables → Tables
sales_of db = sales_tables db.daily db.payments db.products

module _ (collate : Text → Text → Bool) where
  build-sales_of :
      (db : Tables) (org : Text) (day : ℕ)
      → build_sales_daily_hermes_payload collate db org day
        ≡ build_sales_daily_hermes_payload collate (sales_of db) org day
  unfolding build_sales_daily_hermes_payload rows_of list_payments list_top_products
  build-sales_of db org day = refl

  pub build-some :
      (db : Tables) (org : Text) (day : ℕ) (daily : IikoSalesDaily)
      → get_daily org day db ≡ some daily
      → 7 < day
      → build_sales_daily_hermes_payload collate db org day
        ≡ ok (report_payload org day (rows_of collate org day db daily))
  unfolding build_sales_daily_hermes_payload
  build-some db org day daily found late =
      rw (found, build_sales_daily_hermes_payload) (rw (lt→ltb 7 day late) refl)

  key_of :
      (org : Text) (day : ℕ) (db : Tables) (daily : IikoSalesDaily)
      → (report_payload org day (rows_of collate org day db daily)).idempotency_key
        ≡ sales_daily_key org day daily.source_checksum
  unfolding report_payload rows_of
  key_of org day db daily = refl

  place_outbox-sales_of :
      (env : Env) (config : SalesAutomationConfig) (payload : HermesPayload) (day : ℕ)
      (existing : Option HermesReportOutbox) (s : Session)
      → sales_of
          (place_outbox env
            (build_sales_daily_hermes_payload collate)
            config
            payload
            day
            existing
            s).1.working
        ≡ sales_of s.working
  unfolding place_outbox create_outbox refresh_outbox save_outbox
  place_outbox-sales_of env config payload day none s = refl
  place_outbox-sales_of env config payload day (some row) s =
      elim (Bool-cases (is_outdated payload row)) [
        | inl outdated ↦ rw outdated refl
        | inr current ↦ rw current refl
      ]

  -- A call leaves what the builder reads.
  build_again :
      (env : Env) (config : SalesAutomationConfig) (day : ℕ) (payload : HermesPayload) (s : Session)
      → config.outbox_enabled ≡ true
      → build_sales_daily_hermes_payload collate s.working config.organization_id day ≡ ok payload
      → let build_payload = build_sales_daily_hermes_payload collate in
        build_payload
          (ensure_outbox env build_payload config day false s).1.working
          config.organization_id
          day
        ≡ build_payload s.working config.organization_id day
  build_again env config day payload s enabled built =
      let org = config.organization_id in
      let build_payload = build_sales_daily_hermes_payload collate in
      let t = (ensure_outbox env build_payload config day false s).1 in
      let existing = find (has_key payload.idempotency_key) s.working.outbox in
      let kept : sales_of t.working ≡ sales_of s.working =
        subst
          (λ (r : Result SalesAutomationResult × Session).
            sales_of r.1.working ≡ sales_of s.working)
          (sym (
            enabled_call env build_payload config payload day s enabled
            ∙ built_call env build_payload config payload day s built))
          (place_outbox-sales_of env config payload day existing s) in
      build-sales_of t.working org day
      ∙ ap (λ (db : Tables). build_payload db org day) kept
      ∙ sym (build-sales_of s.working org day)

  -- Where the outbox is enabled and the day is imported and not one of the first seven of all days,
  -- a call leaves a row under the key made of the organization, the day and the checksum of its
  -- rows. Unless that row is delivered, its payload and text are those of the day's rows. A second
  -- call changes nothing and answers `unchanged` with the id of that row. The recipients are not
  -- looked at: an undelivered report is written over also where rows of recipients exist, where
  -- docs/s1-6-2-daily-coo-report.md (Stage B) calls its payload immutable.
  pub ensure_outbox-build :
      (env : Env) (config : SalesAutomationConfig) (day : ℕ) (daily : IikoSalesDaily) (s : Session)
      → config.outbox_enabled ≡ true
      → get_daily config.organization_id day s.working ≡ some daily
      → 7 < day
      → let build_payload = build_sales_daily_hermes_payload collate in
        let t = (ensure_outbox env build_payload config day false s).1 in
        let key = sales_daily_key config.organization_id day daily.source_checksum in
        (row : HermesReportOutbox) × (find (has_key key) t.working.outbox ≡ some row)
        × Current
            (report_payload config.organization_id day
              (rows_of collate config.organization_id day s.working daily))
            row
        × (ensure_outbox env build_payload config day false t ≡ (
          ok (record (outbox_result env build_payload config AutomationStatus.unchanged day false) {
            outbox_ids = row.id ∷ [];
          }),
          t,
        ))
  ensure_outbox-build env config day daily s enabled found late =
      let org = config.organization_id in
      let build_payload = build_sales_daily_hermes_payload collate in
      let payload = report_payload org day (rows_of collate org day s.working daily) in
      let built = build-some s.working org day daily found late in
      let t = (ensure_outbox env build_payload config day false s).1 in
      subst
        (λ (key : Text).
          (row : HermesReportOutbox) × (find (has_key key) t.working.outbox ≡ some row)
          × Current payload row
          × (ensure_outbox env build_payload config day false t ≡ (
            ok
                (record (outbox_result env build_payload config AutomationStatus.unchanged day
                  false) { outbox_ids = row.id ∷ [] }),
            t,
          )))
        (key_of org day s.working daily)
        (ensure_outbox-Current env build_payload config payload day s enabled built
          (build_again env config day payload s enabled built ∙ built))
