-- ===== src/Automation/Gate.antt =====
-- The guards at the start of `run_due`.
use dos_amigos_ops.Automation.Outbox.{HermesPayload}
use dos_amigos_ops.Automation.Runs.{
  AutomationStatus, SalesAutomationConfig, SalesAutomationResult, finish_run, record_skipped,
  result_for, start_run,
}
use dos_amigos_ops.Automation.Service.{
  Automation, Site, on_session, run_due, successful_scheduled_run_exists,
}
use dos_amigos_ops.Base.{
  Bool, Option, Text, false, if◌then◌else◌, ltb, none, not, refl, some, subst, true, ℕ, ◌-◌, ◌≡◌,
}
use dos_amigos_ops.Base.Action.{Result, ok}
use dos_amigos_ops.Models.{Env, Tables, TriggerType}
use dos_amigos_ops.Sales.{Normalization, RawResult}

-- What a run that is only recorded leaves: an answer without work, and every table but that of the
-- runs.
pub record OnlyRecorded (result : Result SalesAutomationResult) (status : AutomationStatus)
    (a b : Automation) : Type 0 where
  pub answer : SalesAutomationResult
  pub answered : result ≡ ok answer
  pub status_is : answer.status ≡ status
  pub no_day : answer.days_processed ≡ 0
  pub no_report : answer.outbox_created ≡ 0
  pub outbox : b.session.working.outbox ≡ a.session.working.outbox
  pub daily : b.session.working.daily ≡ a.session.working.daily
  pub payments : b.session.working.payments ≡ a.session.working.payments
  pub products : b.session.working.products ≡ a.session.working.products
  pub sync_runs : b.session.working.sync_runs ≡ a.session.working.sync_runs
  pub attempts : b.attempts ≡ a.attempts

gated :
    {X : Type 0} (R : X → AutomationStatus → Type 0) (status : AutomationStatus)
    (enabled early done : Bool) (skip : AutomationStatus → X) (work : X)
    → ((st : AutomationStatus) → R (skip st) st)
    → (if not enabled
        then some AutomationStatus.skipped
        else if early
        then some AutomationStatus.not_due
        else if done
        then some AutomationStatus.already_completed
        else none)
      ≡ some status
    → R
        (if not enabled
          then skip AutomationStatus.skipped
          else if early
          then skip AutomationStatus.not_due
          else if done
          then skip AutomationStatus.already_completed
          else work)
        status
gated R status false early done skip work f h =
    let same : AutomationStatus.skipped ≡ status = cc h in
    subst (R (skip AutomationStatus.skipped)) same (f AutomationStatus.skipped)
gated R status true true done skip work f h =
    let same : AutomationStatus.not_due ≡ status = cc h in
    subst (R (skip AutomationStatus.not_due)) same (f AutomationStatus.not_due)
gated R status true false true skip work f h =
    let same : AutomationStatus.already_completed ≡ status = cc h in
    subst (R (skip AutomationStatus.already_completed)) same (f AutomationStatus.already_completed)
gated R status true false false skip work f h = cc h

module _ (env : Env) (lower : Text → Text) {P : Type 0}
    (fetch : ℕ → Text → ℕ → Result (RawResult P)) (normalize : P → Text → ℕ → Normalization)
    (build_payload : Tables → Text → ℕ → Result HermesPayload) (site : Site)
    (config : SalesAutomationConfig) where
  recorded_only :
      (status : AutomationStatus) (day : ℕ) (dry_run : Bool) (a : Automation)
      → let (r, b) =
          on_session (record_skipped env config TriggerType.scheduled status day dry_run) a in
        OnlyRecorded r status a b
  unfolding record_skipped start_run finish_run
  recorded_only status day true a = record {
    answer =
        result_for status TriggerType.scheduled config.organization_id (some day) (some day) true;
    answered = refl;
    status_is = refl;
    no_day = refl;
    no_report = refl;
    outbox = refl;
    daily = refl;
    payments = refl;
    products = refl;
    sync_runs = refl;
    attempts = refl;
  }
  recorded_only status day false a = record {
    answer =
        result_for status TriggerType.scheduled config.organization_id (some day) (some day) false;
    answered = refl;
    status_is = refl;
    no_day = refl;
    no_report = refl;
    outbox = refl;
    daily = refl;
    payments = refl;
    products = refl;
    sync_runs = refl;
    attempts = refl;
  }

  -- The reason why a scheduled run does nothing, if there is one.
  abbrev pub reason : (now : ℕ) → Tables → Option AutomationStatus
  reason now db =
      let local = site.astimezone now in
      if not config.automation_enabled
      then some AutomationStatus.skipped
      else if ltb local.time config.scheduled_time
      then some AutomationStatus.not_due
      else if successful_scheduled_run_exists env lower fetch normalize build_payload site config
          local.date (local.date - 1) db
      then some AutomationStatus.already_completed
      else none

  -- A scheduled run that is disabled, that comes before its time of day, or that a successful
  -- scheduled run came before, says so in this order of precedence, tries no lock, imports no day,
  -- and leaves the sales and the outbox as they were.
  pub run_due-OnlyRecorded :
      (now : ℕ) (dry_run force no_publish retry_partial : Bool) (status : AutomationStatus)
      (a : Automation)
      → reason now a.session.working ≡ some status
      → let (r, b) =
          run_due env lower fetch normalize build_payload site config now dry_run force no_publish
            retry_partial a in
        OnlyRecorded r status a b
  unfolding run_due
  run_due-OnlyRecorded now dry_run force no_publish retry_partial status a h =
      let local = site.astimezone now in
      let day = local.date - 1 in
      gated (λ p st. OnlyRecorded p.0 st a p.1) status config.automation_enabled
        (ltb local.time config.scheduled_time)
        (successful_scheduled_run_exists env lower fetch normalize build_payload site config
          local.date day a.session.working)
        (λ st. on_session (record_skipped env config TriggerType.scheduled st day dry_run) a) _
        (λ st. recorded_only st day dry_run a) h
