-- ===== src/Coo/Orchestrator.antt =====
-- `DailyCooReportOrchestrator`: its parts, its results, and the rows of its runs.
use dos_amigos_ops.Automation.{Site}
use dos_amigos_ops.Base.{
  Bool, List, Option, Text, [], false, find, if◌then◌else◌, is_some, none, or_else, some, text_eq,
  true, update_where, ℕ, ◌&&◌, ◌++◌, ◌-◌, ◌∷◌,
}
use dos_amigos_ops.Base.Action.{Exn, Result, gets, pure, type_name, ◌>>=◌, ◌>>◌}
use dos_amigos_ops.Models.{
  Change, CooStatus, DailyCooReportRun, DbAction, Env, Mode, commit, datetime_now, rollback,
  set_coo_runs, uuid4,
}
use dos_amigos_ops.Redaction.{Unicode, safe_report_message}
use dos_amigos_ops.Sales.{Normalization, RawResult}

-- What the methods use: the session's surroundings, the client and the normalisation of sales, the
-- database's collation, `sha256` of a text and of the dumped changes, the Unicode tables of `re`,
-- and the configuration.
pub record Orchestrator (P : Type 0) : Type 0 where
  pub env : Env
  pub lower : Text → Text
  pub fetch : ℕ → Text → ℕ → Result (RawResult P)
  pub normalize : P → Text → ℕ → Normalization
  pub collate : Text → Text → Bool
  pub sha256 : Text → Text
  pub change_hash : List Change → Text
  pub unicode : Unicode
  pub site : Site
  pub organization_id : Text
  pub business_timezone : Text

pub record DailyCooReportResult : Type 0 where
  pub status : CooStatus
  pub mode : Mode
  pub business_date : ℕ
  pub outbox_ids : List Text
  pub dry_run : Bool
  pub error_code : Option Text
  pub error_message_redacted : Option Text

-- `_result`, with its defaults
abbrev pub coo_result : CooStatus → Mode → ℕ → DailyCooReportResult
coo_result status mode day = record {
  status = status;
  mode = mode;
  business_date = day;
  outbox_ids = [];
  dry_run = false;
  error_code = none;
  error_message_redacted = none;
}

abbrev pub is_correction_created : CooStatus → Bool
is_correction_created CooStatus.correction_created = true
is_correction_created _ = false

-- `ids[0] if ids else None`
abbrev pub first_id : List Text → Option Text
first_id [] = none
first_id (id ∷ ids) = some id

abbrev pub coo_run_of : Text → DailyCooReportRun → Bool
coo_run_of id run = text_eq run.id id

-- What `_finish_run` assigns to the row.
unfoldable pub finished_coo_run : DailyCooReportResult → ℕ → DailyCooReportRun → DailyCooReportRun
finished_coo_run result now run = record run {
  status = result.status;
  finished_at = some now;
  outbox_id = first_id result.outbox_ids;
  correction_outbox_id =
      if is_correction_created result.status && is_some (first_id result.outbox_ids)
      then first_id result.outbox_ids
      else run.correction_outbox_id;
  error_code = result.error_code;
  error_message_redacted = result.error_message_redacted;
}

-- The row of a run written over, or added where it is gone.
abbrev pub merged_runs :
    DailyCooReportRun → Option DailyCooReportRun → List DailyCooReportRun → List DailyCooReportRun
merged_runs run none runs = runs ++ run ∷ []
merged_runs run (some row) runs = update_where (coo_run_of run.id) (λ _. run) runs

module _ {P : Type 0} (self : Orchestrator P) where
  -- `daily_coo_business_date`
  unfoldable pub daily_coo_business_date : Mode → ℕ → ℕ
  daily_coo_business_date Mode.closeout now = (self.site.astimezone now).date
  daily_coo_business_date Mode.reconcile now = (self.site.astimezone now).date - 1

  -- The date that a call is for, given or from the time.
  unfoldable pub resolve_date : Mode → Option ℕ → Option ℕ → DbAction ℕ
  unfolding daily_coo_business_date
  resolve_date mode now (some day) = pure day
  resolve_date mode (some now) none = pure (daily_coo_business_date mode now)
  resolve_date mode none none = do
    now ← datetime_now self.env
    pure (daily_coo_business_date mode now)

  -- The row as it is added.
  abbrev pub started_run : Mode → ℕ → Text → ℕ → DailyCooReportRun
  started_run mode day id started_at = record {
    id = id;
    mode = mode;
    organization_id = self.organization_id;
    business_date = day;
    business_timezone = self.business_timezone;
    status = CooStatus.running;
    started_at = started_at;
    finished_at = none;
    dry_run = false;
    outbox_id = none;
    correction_outbox_id = none;
    error_code = none;
    error_message_redacted = none;
  }

  -- `_start_run`
  unfoldable pub start_coo_run : Mode → ℕ → DbAction DailyCooReportRun
  start_coo_run mode day = do
    started_at ← datetime_now self.env
    id ← uuid4 self.env
    let run = started_run mode day id started_at
    runs ← gets (λ s. s.working.coo_runs)
    set_coo_runs (runs ++ run ∷ [])
    commit
    pure run

  -- `_finish_run`
  unfoldable pub finish_coo_run :
      DailyCooReportRun → DailyCooReportResult → DbAction DailyCooReportResult
  unfolding finished_coo_run
  finish_coo_run run result = do
    row ← gets (λ s. find (coo_run_of run.id) s.working.coo_runs)
    now ← datetime_now self.env
    runs ← gets (λ s. s.working.coo_runs)
    set_coo_runs (merged_runs (finished_coo_run result now (or_else row run)) row runs)
    commit
    pure result

  -- The result of `_fail_run`.
  abbrev pub failure_of : Mode → ℕ → Exn → DailyCooReportResult
  failure_of mode day e = record (coo_result CooStatus.failed mode day) {
    error_code = some (type_name e);
    error_message_redacted = some (safe_report_message self.unicode e);
  }

  -- `_fail_run`
  unfoldable pub fail_coo_run : DailyCooReportRun → Mode → ℕ → Exn → DbAction DailyCooReportResult
  unfolding finish_coo_run safe_report_message
  fail_coo_run run mode day e = rollback >> finish_coo_run run (failure_of mode day e)
