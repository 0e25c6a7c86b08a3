-- ===== src/Automation/Lock.antt =====
-- The lock around an import.
use dos_amigos_ops.Automation.Outbox.{HermesPayload}
use dos_amigos_ops.Automation.Runs.{
  AutomationStatus, SalesAutomationConfig, SalesAutomationResult, finish_run, record_skipped,
  result_for, start_run,
}
use dos_amigos_ops.Automation.Service.{
  Automation, Site, acquire, import_day, import_or_fail, raised_import, release, run_date,
  run_locked,
}
use dos_amigos_ops.Base.{
  Bool, Bool-cases, Option, Text, false, if◌then◌else◌, inl, inr, none, refl, some, true, ℕ, ◌+◌,
  ◌≡◌,
}
use dos_amigos_ops.Base.Action.{
  Action, Exn, Result, err, exn_message, ok, pure, try_except, ◌>>=◌, ◌>>◌,
}
use dos_amigos_ops.Models.{DbAction, Env, IikoSalesAutomationRun, Session, Tables, TriggerType}
use dos_amigos_ops.Sales.{Normalization, RawResult}

pub try_answer :
    {S A : Type 0} (r : Result A) (h : Exn → Action S A) (s t : S)
    → ((e : Exn) (v : S) → (a : A) × ((h e v).0 ≡ ok a))
    → (a : A) × ((try_except (λ (_ : S). (r, t)) h s).0 ≡ ok a)
try_answer (ok a) h s t f = (a, refl)
try_answer (err e) h s t f = f e t

module _ (env : Env) (lower : Text → Text) {P : Type 0}
    (fetch : ℕ → Text → ℕ → Result (RawResult P)) (normalize : P → Text → ℕ → Normalization)
    (build_payload : Tables → Text → ℕ → Result HermesPayload) (site : Site)
    (config : SalesAutomationConfig) where
  -- A recorded result is the answer, whatever was the run.
  recorded :
      (run : Option IikoSalesAutomationRun) (result : SalesAutomationResult) (dry_run : Bool)
      (message : Option Text) (s : Session)
      → (◌>>◌ (finish_run env config run result dry_run message) (pure result) s).0 ≡ ok result
  unfolding finish_run
  recorded none result dry_run message s = refl
  recorded (some run) result true message s = refl
  recorded (some run) result false message s = refl

  import_or_fail-answer :
      (run : Option IikoSalesAutomationRun) (trigger : TriggerType) (day : ℕ)
      (dry_run force no_publish : Bool) (s : Session)
      → (result : SalesAutomationResult) × ((import_or_fail env lower fetch normalize build_payload
            site config run trigger day dry_run force no_publish s).0
          ≡ ok result)
  unfolding import_or_fail
  import_or_fail-answer run trigger day dry_run force no_publish s =
      let m : DbAction SalesAutomationResult = do
        result ←
            import_day env lower fetch normalize build_payload site config trigger day dry_run force
              no_publish
        finish_run env config run result dry_run none
        pure result
      in let handler : Exn → DbAction SalesAutomationResult = λ e.
        finish_run env config run
          (raised_import env lower fetch normalize build_payload site config trigger day dry_run e)
          dry_run (some (exn_message e))
        >> pure (
            raised_import env lower fetch normalize build_payload site config trigger day dry_run
              e) in
        try_answer (m s).0 handler s (m s).1 (λ e v.
          let result =
            raised_import env lower fetch normalize build_payload site config trigger day dry_run
              e in
          (result, recorded run result dry_run (some (exn_message e)) v))

  -- What is promised of an import that has the lock.
  abbrev Freed : Automation → Result SalesAutomationResult × Automation → Type 0
  Freed a p =
      (result : SalesAutomationResult) × (p.0 ≡ ok result)
      × (p.1.is_held ≡ false)
      × (p.1.attempts ≡ a.attempts)
      × (p.1.releases ≡ a.releases + 1)

  run_locked-Freed :
      (trigger : TriggerType) (day : ℕ) (dry_run force no_publish : Bool) (a : Automation)
      → a.is_held ≡ true
      → Freed a (
          run_locked env lower fetch normalize build_payload site config trigger day dry_run force
            no_publish a)
  unfolding run_locked start_run release
  run_locked-Freed trigger day true force no_publish a held =
      let (result, e) = import_or_fail-answer none trigger day true force no_publish a.session in
      rw held (result, e, refl, refl, refl)
  run_locked-Freed trigger day false force no_publish a held =
      let (result, e) = import_or_fail-answer _ trigger day false force no_publish _ in
      rw held (result, e, refl, refl, refl)

  skipped_answer :
      (trigger : TriggerType) (status : AutomationStatus) (day : ℕ) (dry_run : Bool) (s : Session)
      → (record_skipped env config trigger status day dry_run s).0
        ≡ ok (result_for status trigger config.organization_id (some day) (some day) dry_run)
  unfolding record_skipped
  skipped_answer trigger status day true s = refl
  skipped_answer trigger status day false s = refl

  -- An import of a day always answers, whatever iiko, the normalisation and the builder of reports
  -- do, and it does not hold the lock afterwards. Where another session holds the lock, it answers
  -- `already_running` and releases nothing; else it releases the lock once.
  pub run_date-Released :
      (trigger : TriggerType) (day : ℕ) (dry_run force no_publish : Bool) (a : Automation)
      → let (r, b) =
          run_date env lower fetch normalize build_payload site config trigger day dry_run force
            no_publish a in
        ((result : SalesAutomationResult) × (r ≡ ok result)
          × (site.is_locked a.attempts ≡ true → result.status ≡ AutomationStatus.already_running))
        × (b.is_held ≡ false)
        × (b.attempts ≡ a.attempts + 1)
        × (b.releases ≡ (if site.is_locked a.attempts then a.releases else a.releases + 1))
  unfolding run_date acquire release
  run_date-Released trigger day dry_run force no_publish a =
      elim (Bool-cases (site.is_locked a.attempts)) [
        | inl locked ↦ rw locked (
          (
            result_for AutomationStatus.already_running trigger config.organization_id (some day)
                (some day) dry_run,
            skipped_answer trigger AutomationStatus.already_running day dry_run a.session,
            λ _. refl,
          ),
          refl,
          refl,
          refl,
        )
        | inr open_lock ↦
            let b : Automation = record a { is_held = true; attempts = a.attempts + 1 } in
            let (result, answered, free, attempts, releases) =
              run_locked-Freed trigger day dry_run force no_publish b refl in
            rw open_lock ((result, answered, λ held. cc), free, attempts, releases)
      ]
