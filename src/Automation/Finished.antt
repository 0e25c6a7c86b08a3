-- ===== src/Automation/Finished.antt =====
-- The rows of the runs that `run_date` starts under the lock, once it is through.
use dos_amigos_ops.Automation.Outbox.{HermesPayload}
use dos_amigos_ops.Automation.Recorded.{import_day-runs, stored_runs}
use dos_amigos_ops.Automation.Runs.{
  SalesAutomationConfig, SalesAutomationResult, finish_run, finished_run, run_status, start_run,
}
use dos_amigos_ops.Automation.Service.{
  Automation, Site, import_day, import_or_fail, raised_import, release, run_locked,
}
use dos_amigos_ops.Base.{
  Bool, List, Option, Option-cases, Text, [], false, find, find-append, find-append_none,
  find-update_self, inl, inr, is_some, none, refl, some, text_eq, text_eq_refl, true, ℕ, ◌++◌, ◌+◌,
  ◌∙◌, ◌∷◌, ◌≡◌,
}
use dos_amigos_ops.Base.Action.{Exn, Result, err, exn_message, ok, pure, try_except, ◌>>=◌, ◌>>◌}
use dos_amigos_ops.Models.{
  DbAction, Env, IikoSalesAutomationRun, RunStatus, Session, Tables, TriggerType,
}
use dos_amigos_ops.Sales.{Normalization, RawResult}
use dos_amigos_ops.Sales.Atomic.{Clean}

abbrev pub run_of : Text → IikoSalesAutomationRun → Bool
run_of id r = text_eq r.id id

-- The committed run says what the answer says.
abbrev pub Finished : Text → Result SalesAutomationResult × Session → Type 0
Finished id p =
    (result : SalesAutomationResult) × (p.0 ≡ ok result)
    × (row : IikoSalesAutomationRun) × (find (run_of id) p.1.committed.automation_runs ≡ some row)
    × (row.status ≡ run_status result.status)
    × (is_some row.finished_at ≡ true)
    × (row.days_considered ≡ result.days_considered)
    × (row.days_processed ≡ result.days_processed)
    × (row.days_unchanged ≡ result.days_unchanged)
    × (row.days_partial ≡ result.days_partial)
    × (row.days_failed ≡ result.days_failed)
    × (row.outbox_created ≡ result.outbox_created)
    × (row.error_code ≡ result.error_code)

module _ (env : Env) (lower : Text → Text) {P : Type 0}
    (fetch : ℕ → Text → ℕ → Result (RawResult P)) (normalize : P → Text → ℕ → Normalization)
    (build_payload : Tables → Text → ℕ → Result HermesPayload) (site : Site)
    (config : SalesAutomationConfig) where
  finish_run-Finished :
      (run x : IikoSalesAutomationRun) (result : SalesAutomationResult) (message : Option Text)
      (t : Session)
      → find (run_of run.id) (stored_runs t) ≡ some x
      → Finished run.id
          (◌>>◌ (finish_run env config (some run) result false message) (pure result) t)
  unfolding finish_run
  finish_run-Finished run x result message t found = (
    result,
    refl,
    finished_run env config run result (env.now t.ticks) message,
    find-update_self (run_of run.id) (finished_run env config run result (env.now t.ticks) message)
        (stored_runs t) (text_eq_refl run.id) found,
    refl,
    refl,
    refl,
    refl,
    refl,
    refl,
    refl,
    refl,
    refl,
  )

  abbrev on_error : IikoSalesAutomationRun → TriggerType → ℕ → Exn → DbAction SalesAutomationResult
  on_error run trigger day e =
      finish_run env config (some run)
        (raised_import env lower fetch normalize build_payload site config trigger day false e)
        false (some (exn_message e))
      >> pure
          (raised_import env lower fetch normalize build_payload site config trigger day false e)

  outcome-Finished :
      (r : Result SalesAutomationResult) (run x : IikoSalesAutomationRun) (trigger : TriggerType)
      (day : ℕ) (s t : Session)
      → find (run_of run.id) (stored_runs t) ≡ some x
      → Finished run.id (
          try_except
            (◌>>=◌
              (λ (_ : Session). (r, t))
              (λ result. finish_run env config (some run) result false none >> pure result))
            (on_error run trigger day)
            s)
  unfolding finish_run
  outcome-Finished (ok result) run x trigger day s t found =
      finish_run-Finished run x result none t found
  outcome-Finished (err e) run x trigger day s t found =
      finish_run-Finished run x
        (raised_import env lower fetch normalize build_payload site config trigger day false e)
        (some (exn_message e)) t found

  import_or_fail-Finished :
      (run x : IikoSalesAutomationRun) (trigger : TriggerType) (day : ℕ) (force no_publish : Bool)
      (s : Session)
      → Clean s
      → find (run_of run.id) (stored_runs s) ≡ some x
      → Finished run.id (
          import_or_fail env lower fetch normalize build_payload site config
            (some run)
            trigger
            day
            false
            force
            no_publish
            s)
  unfolding import_or_fail
  import_or_fail-Finished run x trigger day force no_publish s clean found =
      let m =
        import_day env lower fetch normalize build_payload site config trigger day false force
          no_publish s in
      let kept =
        (import_day-runs env build_payload config lower fetch normalize site trigger day false force
            no_publish).at
          s clean in
      outcome-Finished m.0 run x trigger day s m.1 (rw (kept.1) found)

  started_found :
      (run : IikoSalesAutomationRun) (rows : List IikoSalesAutomationRun)
      → (x : IikoSalesAutomationRun) × (find (run_of run.id) (rows ++ run ∷ []) ≡ some x)
  started_found run rows = elim (Option-cases (find (run_of run.id) rows)) [
    | inl fresh ↦ (
      run,
      find-append_none (run_of run.id) rows (run ∷ []) fresh
          ∙ unfold find in rw (text_eq_refl run.id) refl,
    )
    | inr (x, found) ↦ (x, find-append (run_of run.id) rows (run ∷ []) found)
  ]

  -- An import under the lock that is no dry run leaves no run behind that is still running: it
  -- answers, whatever happens on the way, and the committed row of its run is finished, with the
  -- status that the answer stands for, with each of the answer's six counts and its error code.
  pub run_locked-Finished :
      (trigger : TriggerType) (day : ℕ) (force no_publish : Bool) (a : Automation)
      → a.is_held ≡ true
      → let (r, b) =
          run_locked env lower fetch normalize build_payload site config trigger day false force
            no_publish a in
        Finished (env.uuid a.session.draws) (r, b.session)
  unfolding run_locked start_run release
  run_locked-Finished trigger day force no_publish a held =
      let s = a.session in
      let run : IikoSalesAutomationRun = record {
        id = env.uuid s.draws;
        trigger_type = trigger;
        requested_date_from = some day;
        requested_date_to = some day;
        business_timezone = config.business_timezone;
        scheduled_local_time = some config.scheduled_time;
        started_at = env.now s.ticks;
        finished_at = none;
        status = RunStatus.running;
        days_considered = 0;
        days_processed = 0;
        days_unchanged = 0;
        days_partial = 0;
        days_failed = 0;
        outbox_created = 0;
        error_code = none;
        error_message_redacted = none;
      } in
      let tables : Tables = record s.working { automation_runs = stored_runs s ++ run ∷ [] } in
      let s1 : Session = record {
        working = tables;
        committed = tables;
        draws = s.draws + 1;
        ticks = s.ticks + 1;
      } in
      let (x, found) = started_found run (stored_runs s) in
      rw held (import_or_fail-Finished run x trigger day force no_publish s1 refl found)
