-- ===== src/Coo/Lock.antt =====
-- The lock around the daily report.
use dos_amigos_ops.Automation.{Automation, acquire, release}
use dos_amigos_ops.Automation.Lock.{try_answer}
use dos_amigos_ops.Base.{
  Bool, Bool-cases, Option, [], ap, false, if◌then◌else◌, inl, inr, none, refl, some, subst, sym,
  true, ℕ, ◌++◌, ◌+◌, ◌∙◌, ◌∷◌, ◌≡◌,
}
use dos_amigos_ops.Base.Action.{Exn, Result, ok, try_except}
use dos_amigos_ops.Coo.Orchestrator.{
  DailyCooReportResult, Orchestrator, coo_result, daily_coo_business_date, fail_coo_run, failure_of,
  finish_coo_run, resolve_date, start_coo_run, started_run,
}
use dos_amigos_ops.Coo.Service.{day_of_mode, report, report_day, run_mode}
use dos_amigos_ops.Models.{CooStatus, DailyCooReportRun, Mode, Session, Tables}

module _ {P : Type 0} (self : Orchestrator P) where
  pub finish_coo_run_answer :
      (run : DailyCooReportRun) (result : DailyCooReportResult) (s : Session)
      → (finish_coo_run self run result s).0 ≡ ok result
  unfolding finish_coo_run
  finish_coo_run_answer run result s = refl

  pub fail_coo_run_answer :
      (run : DailyCooReportRun) (mode : Mode) (day : ℕ) (e : Exn) (s : Session)
      → (fail_coo_run self run mode day e s).0 ≡ ok (failure_of self mode day e)
  unfolding fail_coo_run
  fail_coo_run_answer run mode day e s =
      finish_coo_run_answer run (failure_of self mode day e) (record s { working = s.committed })

  -- The run that a call under the lock starts, and the session once it is stored.
  abbrev pub run_started : Mode → ℕ → Session → DailyCooReportRun
  run_started mode day s = started_run self mode day (self.env.uuid s.draws) (self.env.now s.ticks)

  abbrev pub tables_started : Mode → ℕ → Session → Tables
  tables_started mode day s = record s.working {
    coo_runs = s.working.coo_runs ++ run_started mode day s ∷ [];
  }

  abbrev pub session_started : Mode → ℕ → Session → Session
  session_started mode day s = record {
    working = tables_started mode day s;
    committed = tables_started mode day s;
    draws = s.draws + 1;
    ticks = s.ticks + 1;
  }

  pub run_mode_started :
      (mode : Mode) (day : ℕ) (s : Session)
      → run_mode self mode day s
        ≡ try_except
            (day_of_mode self mode (run_started mode day s) day)
            (fail_coo_run self (run_started mode day s) mode day)
            (session_started mode day s)
  unfolding run_mode start_coo_run
  run_mode_started mode day s = refl

  run_mode_answer :
      (mode : Mode) (day : ℕ) (s : Session)
      → (result : DailyCooReportResult) × ((run_mode self mode day s).0 ≡ ok result)
  run_mode_answer mode day s =
      let run = run_started mode day s in
      let t = session_started mode day s in
      let m = day_of_mode self mode run day t in
      let (result, e) =
        try_answer m.0 (fail_coo_run self run mode day) t m.1
          (λ e v. (failure_of self mode day e, fail_coo_run_answer run mode day e v)) in
      (
        result,
        ap (λ (p : Result DailyCooReportResult × Session). p.0) (run_mode_started mode day s) ∙ e,
      )

  resolve_date_answer :
      (mode : Mode) (now business_date : Option ℕ) (s : Session)
      → (day : ℕ) × ((resolve_date self mode now business_date s).0 ≡ ok day)
        × ((resolve_date self mode now business_date s).1.working ≡ s.working)
  unfolding resolve_date
  resolve_date_answer mode now (some day) s = (day, refl, refl)
  resolve_date_answer mode (some now) none s = (daily_coo_business_date self mode now, refl, refl)
  resolve_date_answer mode none none s =
      (daily_coo_business_date self mode (self.env.now s.ticks), refl, refl)

  -- Where the date is resolved, a call goes on with it.
  pub report_resolved :
      (mode : Mode) (now business_date : Option ℕ) (dry_run : Bool) (a : Automation)
      → (day : ℕ) × (t : Session) × (t.working ≡ a.session.working)
        × (t.committed ≡ a.session.committed)
        × (report self mode now business_date dry_run a
            ≡ report_day self mode day dry_run (record a { session = t }))
  unfolding report resolve_date
  report_resolved mode now (some day) dry_run a = (day, a.session, refl, refl, refl)
  report_resolved mode (some now) none dry_run a =
      (daily_coo_business_date self mode now, a.session, refl, refl, refl)
  report_resolved mode none none dry_run a = (
    daily_coo_business_date self mode (self.env.now a.session.ticks),
    record a.session { ticks = a.session.ticks + 1 },
    refl,
    refl,
    refl,
  )

  -- What is promised of a call that is no dry run.
  abbrev pub LockReleased : Automation → Result DailyCooReportResult × Automation → Type 0
  LockReleased a (r, b) =
      (result : DailyCooReportResult) × (r ≡ ok result)
      × (self.site.is_locked a.attempts ≡ true
          → (result.status ≡ CooStatus.already_running) × (b.session.working ≡ a.session.working))
      × (b.is_held ≡ false)
      × (b.attempts ≡ a.attempts + 1)
      × (b.releases ≡ (if self.site.is_locked a.attempts then a.releases else a.releases + 1))

  report_day-LockReleased :
      (mode : Mode) (day : ℕ) (a : Automation) → LockReleased a (report_day self mode day false a)
  unfolding report_day acquire release
  report_day-LockReleased mode day a = elim (Bool-cases (self.site.is_locked a.attempts)) [
    | inl locked ↦
        rw locked (
          coo_result CooStatus.already_running mode day,
          refl,
          (λ _. (refl, refl)),
          refl,
          refl,
          refl,
        )
    | inr open_lock ↦ rw open_lock (
      (run_mode_answer mode day a.session).0,
      (run_mode_answer mode day a.session).1,
      (λ held. cc),
      refl,
      refl,
      refl,
    )
  ]

  -- A close-out or a reconciliation that is no dry run always answers, whatever iiko, the
  -- normalisation and the stored rows are, and it does not hold the lock afterwards. Where another
  -- session holds the lock, it answers `already_running`, releases nothing and leaves every table
  -- as it is; else it releases the lock once.
  pub report-Released :
      (mode : Mode) (now business_date : Option ℕ) (a : Automation)
      → let (r, b) = report self mode now business_date false a in
        (result : DailyCooReportResult) × (r ≡ ok result)
        × (self.site.is_locked a.attempts ≡ true
            → (result.status ≡ CooStatus.already_running) × (b.session.working ≡ a.session.working))
        × (b.is_held ≡ false)
        × (b.attempts ≡ a.attempts + 1)
        × (b.releases ≡ (if self.site.is_locked a.attempts then a.releases else a.releases + 1))
  report-Released mode now business_date a =
      let (day, t, same, undone, e) = report_resolved mode now business_date false a in
      let (result, answered, locked, held, attempts, releases) =
        report_day-LockReleased mode day (record a { session = t }) in
      subst (LockReleased a) (sym e) (
        result,
        answered,
        (λ taken. let (status, kept) = locked taken in (status, kept ∙ same)),
        held,
        attempts,
        releases,
      )
