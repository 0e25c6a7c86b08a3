-- ===== src/Automation/Total.antt =====
-- The answers of back-fills and scheduled runs, and the lock after them.
use dos_amigos_ops.Automation.Lock.{run_date-Released}
use dos_amigos_ops.Automation.Outbox.{HermesPayload}
use dos_amigos_ops.Automation.Runs.{
  AutomationStatus, SalesAutomationConfig, SalesAutomationResult, finish_run, merge_results,
  record_skipped, start_run,
}
use dos_amigos_ops.Automation.Service.{
  Automation, Site, backfill_result, find_backfill_days, finish_due, on_session, run_backfill,
  run_date, run_days, run_due, successful_scheduled_run_exists,
}
use dos_amigos_ops.Base.{
  Bool, List, Text, [], any, ap, false, if◌then◌else◌, ltb, not, refl, subst, sym, true, ℕ, ◌-◌,
  ◌==◌, ◌∷◌, ◌≡◌,
}
use dos_amigos_ops.Base.Action.{Action, Result, bind_ok, ok, pure, ◌>>=◌}
use dos_amigos_ops.Models.{Env, Tables, TriggerType}
use dos_amigos_ops.Sales.{Normalization, RawResult}

same_step : {S A : Type 0} (m : Action S A) (s : S) (a : A) → (m s).0 ≡ ok a → m s ≡ (ok a, (m s).1)
same_step m s a e = ap (λ (r : Result _). (r, (m s).1)) e

-- A property of every branch of the guards of a scheduled run.
every_branch :
    {X : Type 0} (R : X → Type 0) (enabled early done : Bool) (skip : AutomationStatus → X)
    (work : X)
    → ((st : AutomationStatus) → R (skip st))
    → R work
    → R (
        if not enabled
        then skip AutomationStatus.skipped
        else if early
        then skip AutomationStatus.not_due
        else if done
        then skip AutomationStatus.already_completed
        else work)
every_branch R false early done skip work f h = f AutomationStatus.skipped
every_branch R true true done skip work f h = f AutomationStatus.not_due
every_branch R true false true skip work f h = f AutomationStatus.already_completed
every_branch R true false false skip work f h = h

module _ (env : Env) (lower : Text → Text) {P : Type 0}
    (fetch : ℕ → Text → ℕ → Result (RawResult P)) (normalize : P → Text → ℕ → Normalization)
    (build_payload : Tables → Text → ℕ → Result HermesPayload) (site : Site)
    (config : SalesAutomationConfig) where
  -- An action that answers and leaves the lock free.
  abbrev AnswersFree : {A : Type 0} → Result A × Automation → Type 0
  AnswersFree {A} p = (answer : A) × (p.0 ≡ ok answer) × (p.1.is_held ≡ false)

  bind-AnswersFree :
      {A B : Type 0} (m : Action Automation A) (f : A → Action Automation B) (a : Automation)
      → AnswersFree (m a)
      → ((x : A) (b : Automation) → b.is_held ≡ false → AnswersFree (f x b))
      → AnswersFree (◌>>=◌ m f a)
  bind-AnswersFree m f a (x, e, free) k =
      subst AnswersFree (sym (bind_ok m f a (m a).1 x (same_step m a x e))) (k x (m a).1 free)

  run_date-AnswersFree :
      (trigger : TriggerType) (day : ℕ) (dry_run force no_publish : Bool) (a : Automation)
      → AnswersFree (
          run_date env lower fetch normalize build_payload site config trigger day dry_run force
            no_publish a)
  run_date-AnswersFree trigger day dry_run force no_publish a =
      let (answer, free, _, _) =
        run_date-Released env lower fetch normalize build_payload site config trigger day dry_run
          force no_publish a in
      (answer.0, answer.1, free)

  run_days-AnswersFree :
      (dry_run no_publish : Bool) (days : List ℕ) (a : Automation)
      → a.is_held ≡ false
      → AnswersFree
          (run_days env lower fetch normalize build_payload site config dry_run no_publish days a)
  unfolding run_days
  run_days-AnswersFree dry_run no_publish [] a h = ([], refl, h)
  run_days-AnswersFree dry_run no_publish (day ∷ days) a h =
      let first =
        run_date env lower fetch normalize build_payload site config TriggerType.backfill day
          dry_run true no_publish in
      let others =
        run_days env lower fetch normalize build_payload site config dry_run no_publish days in
      bind-AnswersFree first (λ result. others >>= λ rest. pure (result ∷ rest)) a
        (run_date-AnswersFree TriggerType.backfill day dry_run true no_publish a)
        (λ result b free.
          bind-AnswersFree others (λ rest. pure (result ∷ rest)) b
            (run_days-AnswersFree dry_run no_publish days b free)
            (λ rest c free'. (result ∷ rest, refl, free')))

  run_backfill-AnswersFree :
      (target backfill_days : ℕ) (dry_run no_publish retry_partial : Bool) (a : Automation)
      → a.is_held ≡ false
      → AnswersFree (
          run_backfill env lower fetch normalize build_payload site config target backfill_days
            dry_run no_publish retry_partial a)
  unfolding run_backfill
  run_backfill-AnswersFree target backfill_days dry_run no_publish retry_partial a h =
      let days =
        find_backfill_days env lower fetch normalize build_payload site config target backfill_days
          retry_partial a.session.working in
      let answer : List SalesAutomationResult → SalesAutomationResult = λ results.
        backfill_result env lower fetch normalize build_payload site config backfill_days dry_run
          (merge_results config.organization_id TriggerType.backfill results) in
      bind-AnswersFree
        (run_days env lower fetch normalize build_payload site config dry_run no_publish days)
        (λ results. pure (answer results)) a (run_days-AnswersFree dry_run no_publish days a h)
        (λ results b free. (answer results, refl, free))

  recorded-AnswersFree :
      (status : AutomationStatus) (day : ℕ) (dry_run : Bool) (a : Automation)
      → a.is_held ≡ false
      → AnswersFree
          (on_session (record_skipped env config TriggerType.scheduled status day dry_run) a)
  unfolding record_skipped start_run finish_run
  recorded-AnswersFree status day true a h = (_, refl, h)
  recorded-AnswersFree status day false a h = (_, refl, h)

  finish_due-AnswersFree :
      (is_target_due : Bool) (target : ℕ) (backfill : SalesAutomationResult)
      (dry_run force no_publish : Bool) (a : Automation)
      → a.is_held ≡ false
      → AnswersFree (
          finish_due env lower fetch normalize build_payload site config is_target_due target
            backfill dry_run force no_publish a)
  unfolding finish_due start_run finish_run
  finish_due-AnswersFree true target backfill true force no_publish a h = (_, refl, h)
  finish_due-AnswersFree true target backfill false force no_publish a h = (_, refl, h)
  finish_due-AnswersFree false target backfill dry_run force no_publish a h =
      let answer : SalesAutomationResult → SalesAutomationResult = λ today.
        merge_results config.organization_id TriggerType.scheduled (backfill ∷ today ∷ []) in
      bind-AnswersFree
        (run_date env lower fetch normalize build_payload site config TriggerType.scheduled target
          dry_run force no_publish)
        (λ today. pure (answer today)) a
        (run_date-AnswersFree TriggerType.scheduled target dry_run force no_publish a)
        (λ today b free. (answer today, refl, free))

  -- A scheduled run that starts without the lock always answers, whatever iiko, the normalisation
  -- and the builder of reports do on any of its days and whenever another session holds the lock,
  -- and it ends without the lock.
  pub run_due_answer :
      (now : ℕ) (dry_run force no_publish retry_partial : Bool) (a : Automation)
      → a.is_held ≡ false
      → let (r, b) =
          run_due env lower fetch normalize build_payload site config now dry_run force no_publish
            retry_partial a in
        (answer : SalesAutomationResult) × (r ≡ ok answer) × (b.is_held ≡ false)
  unfolding run_due
  run_due_answer now dry_run force no_publish retry_partial a h =
      let local = site.astimezone now in
      let day = local.date - 1 in
      let due =
        find_backfill_days env lower fetch normalize build_payload site config day
          config.backfill_max_days retry_partial a.session.working in
      every_branch AnswersFree config.automation_enabled (ltb local.time config.scheduled_time)
        (successful_scheduled_run_exists env lower fetch normalize build_payload site config
          local.date day a.session.working)
        (λ st. on_session (record_skipped env config TriggerType.scheduled st day dry_run) a) _
        (λ st. recorded-AnswersFree st day dry_run a h)
        (bind-AnswersFree
          (run_backfill env lower fetch normalize build_payload site config day
            config.backfill_max_days dry_run no_publish retry_partial)
          (λ backfill.
            finish_due env lower fetch normalize build_payload site config (any (λ d. d == day) due)
              day backfill dry_run force no_publish)
          a
          (run_backfill-AnswersFree day config.backfill_max_days dry_run no_publish retry_partial a
            h)
          (λ backfill b free.
            finish_due-AnswersFree (any (λ d. d == day) due) day backfill dry_run force no_publish b
              free))
