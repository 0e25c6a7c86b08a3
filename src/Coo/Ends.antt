-- ===== src/Coo/Ends.antt =====
-- A run of the daily report, from the start of its work to its end.
use dos_amigos_ops.Base.{
  Bool, List, Text, ap, false, find, find-update_self, find_sound, if◌then◌else◌, is_some, refl,
  some, subst, sym, text_eq, text_eq_refl, text_eq→eq, true, update_where, ℕ, ◌∙◌, ◌≡◌,
}
use dos_amigos_ops.Base.Action.{Exn, Result, err, ok, try_except, ◌>>=◌}
use dos_amigos_ops.Base.Keeps.{Keeps}
use dos_amigos_ops.Coo.Kept.{KeepsCooRuns, coo_runs_of}
use dos_amigos_ops.Coo.Lock.{finish_coo_run_answer}
use dos_amigos_ops.Coo.Orchestrator.{
  DailyCooReportResult, Orchestrator, coo_run_of, fail_coo_run, failure_of, finish_coo_run,
  finished_coo_run, first_id,
}
use dos_amigos_ops.Models.{DailyCooReportRun, DbAction, Mode, Session, Tables, rollback}
use dos_amigos_ops.Sales.Atomic.{Clean}

-- Nothing is pending, and the run is stored.
abbrev pub Going : Text → Session → Type 0
Going id s = Clean s × (x : DailyCooReportRun) × (find (coo_run_of id) (coo_runs_of s) ≡ some x)

-- The stored run says what the answer says, and nothing is pending.
abbrev pub CooFinished : Text → DailyCooReportResult → Session → Type 0
CooFinished id result t =
    (row : DailyCooReportRun) × (find (coo_run_of id) (coo_runs_of t) ≡ some row)
    × (row.status ≡ result.status)
    × (is_some row.finished_at ≡ true)
    × (row.outbox_id ≡ first_id result.outbox_ids)
    × (row.error_code ≡ result.error_code)
    × (row.error_message_redacted ≡ result.error_message_redacted)
    × Clean t

-- An answer comes with a finished run; an exception leaves it stored.
abbrev pub Ends : Text → Result DailyCooReportResult → Session → Type 0
Ends id (ok result) t = CooFinished id result t
Ends id (err e) t = Going id t

Going-kept : (id : Text) (s t : Session) → KeepsCooRuns s t → Going id s → Going id t
Going-kept id s t kept (clean, x, found) =
    let (clean', same) = kept clean in (clean', x, rw same found)

result_bind :
    {A : Type 0} (id : Text) (r : Result A) (f : A → DbAction DailyCooReportResult) (s t : Session)
    → Going id t
    → ((a : A) → Ends id (f a t).0 (f a t).1)
    → Ends id (◌>>=◌ (λ (_ : Session). (r, t)) f s).0 (◌>>=◌ (λ (_ : Session). (r, t)) f s).1
result_bind id (ok a) f s t going ends = ends a
result_bind id (err e) f s t going ends = going

-- A step that keeps the runs, and what follows it.
pub Ends-bind :
    {A : Type 0} (id : Text) (m : DbAction A) (f : A → DbAction DailyCooReportResult) (s : Session)
    → Keeps KeepsCooRuns m
    → Going id s
    → ((a : A) (t : Session) → Going id t → Ends id (f a t).0 (f a t).1)
    → Ends id (◌>>=◌ m f s).0 (◌>>=◌ m f s).1
Ends-bind id m f s kept going ends =
    let t = (m s).1 in
    let going' = Going-kept id s t (kept.at s) going in
    result_bind id (m s).0 f s t going' (λ a. ends a t going')

pub result_except :
    (id : Text) (r : Result DailyCooReportResult) (handler : Exn → DbAction DailyCooReportResult)
    (s t : Session)
    → Ends id r t
    → ((e : Exn) → Going id t → Ends id (handler e t).0 (handler e t).1)
    → Ends id
        (try_except (λ (_ : Session). (r, t)) handler s).0
        (try_except (λ (_ : Session). (r, t)) handler s).1
result_except id (ok result) handler s t ends handled = ends
result_except id (err e) handler s t ends handled = handled e ends

pub ok_except :
    {A : Type 0} (r : Result A) (handler : Exn → DbAction A) (s t : Session) (a : A)
    → r ≡ ok a
    → try_except (λ (_ : Session). (r, t)) handler s ≡ (r, t)
ok_except (ok b) handler s t a h = refl
ok_except (err e) handler s t a h = cc

pub if-Ends :
    (id : Text) (b : Bool) (m n : DbAction DailyCooReportResult) (s : Session)
    → Ends id (m s).0 (m s).1
    → Ends id (n s).0 (n s).1
    → Ends id ((if b then m else n) s).0 ((if b then m else n) s).1
if-Ends id true m n s h k = h
if-Ends id false m n s h k = k

module _ {P : Type 0} (self : Orchestrator P) where
  -- The row that is found is the one that is written over.
  finish_found :
      (run x : DailyCooReportRun) (result : DailyCooReportResult) (s : Session)
      → find (coo_run_of run.id) (coo_runs_of s) ≡ some x
      → coo_runs_of (finish_coo_run self run result s).1
        ≡ update_where
            (coo_run_of x.id)
            (λ _. finished_coo_run result (self.env.now s.ticks) x)
            (coo_runs_of s)
  unfolding finish_coo_run finished_coo_run
  finish_found run x result s found = rw found refl

  -- A finish ends with its commit.
  finish_committed :
      (run x : DailyCooReportRun) (result : DailyCooReportResult) (s : Session)
      → find (coo_run_of run.id) (coo_runs_of s) ≡ some x
      → Clean (finish_coo_run self run result s).1
  unfolding finish_coo_run
  finish_committed run x result s found = rw found refl

  written_found :
      (id : Text) (x row : DailyCooReportRun) (runs : List DailyCooReportRun)
      → x.id ≡ id
      → row.id ≡ x.id
      → find (coo_run_of id) runs ≡ some x
      → find (coo_run_of id) (update_where (coo_run_of x.id) (λ _. row) runs) ≡ some row
  written_found id x row runs e same found = rw e (
      find-update_self (coo_run_of id) row runs
        (subst (λ (key : Text). text_eq row.id key ≡ true) (same ∙ e) (text_eq_refl row.id)) found)

  pub finish_coo_run-Finished :
      (run x : DailyCooReportRun) (result : DailyCooReportResult) (s : Session)
      → find (coo_run_of run.id) (coo_runs_of s) ≡ some x
      → CooFinished run.id result (finish_coo_run self run result s).1
  unfolding finished_coo_run
  finish_coo_run-Finished run x result s found =
      let row = finished_coo_run result (self.env.now s.ticks) x in
      let same = text_eq→eq x.id run.id (find_sound (coo_run_of run.id) (coo_runs_of s) found) in
      (
        row,
        ap (find (coo_run_of run.id)) (finish_found run x result s found)
            ∙ written_found run.id x row (coo_runs_of s) same refl found,
        refl,
        refl,
        refl,
        refl,
        refl,
        finish_committed run x result s found,
      )

  pub finish_coo_run-Ends :
      (run : DailyCooReportRun) (result : DailyCooReportResult) (s : Session)
      → Going run.id s
      → Ends run.id (finish_coo_run self run result s).0 (finish_coo_run self run result s).1
  finish_coo_run-Ends run result s (clean, x, found) =
      subst
        (λ (r : Result DailyCooReportResult). Ends run.id r (finish_coo_run self run result s).1)
        (sym (finish_coo_run_answer self run result s))
        (finish_coo_run-Finished run x result s found)

  pub rolled_back : (id : Text) (s : Session) → Going id s → Going id (rollback s).1
  rolled_back id s (clean, x, found) =
      (refl, x, ap (λ (db : Tables). find (coo_run_of id) db.coo_runs) (sym clean) ∙ found)

  pub fail_coo_run-Ends :
      (run : DailyCooReportRun) (mode : Mode) (day : ℕ) (e : Exn) (s : Session)
      → Going run.id s
      → CooFinished run.id (failure_of self mode day e) (fail_coo_run self run mode day e s).1
  unfolding fail_coo_run
  fail_coo_run-Ends run mode day e s going =
      let (clean, x, found) = rolled_back run.id s going in
      finish_coo_run-Finished run x (failure_of self mode day e) (rollback s).1 found
