-- ===== src/Sales/Committed.antt =====
-- The import of a normalised report with the constraints of its commit: `sync_day` from the report on.
use mathlib.Core.Path.{fun_ext}
use dos_amigos_ops.Base.{
  All, Bool, Bool-cases, List, Text, [], ap, codes, false, if◌then◌else◌, inl, inr, length, sym,
  true, ℕ, ◌&&◌, ◌+◌, ◌∙◌, ◌∷◌, ◌≡◌,
}
use dos_amigos_ops.Base.Action.{
  Exn, Result, err, exception, ok, pure, raise, try_except, ◌>>=◌, ◌>>◌,
}
use dos_amigos_ops.Models.{DbAction, Env, Session, Tables, rollback}
use dos_amigos_ops.OutboxApi.Lookup.{report}
use dos_amigos_ops.Sales.Atomic.{Clean, stored_or_undone}
use dos_amigos_ops.Sales.Contents.{OfDay}
use dos_amigos_ops.Sales.Persist.{persist_report_changed, persist_report_same}
use dos_amigos_ops.Sales.Refined.{Import, persist_report-view, put, replay, view}
use dos_amigos_ops.Sales.Report.{NormalizedSalesReport}
use dos_amigos_ops.Sales.Repository.{
  SalesPersistenceResult, get_daily, persist_report, same_checksum,
}
use dos_amigos_ops.Sales.Sync.{
  IikoSalesSyncResult, Normalization, RawResult, commit_accepted, commit_report,
  result_from_normalized, sync_normalized, unique_payments, unique_products,
}

abbrev pub integrity_error : Exn
integrity_error = exception (codes "IntegrityError") (codes "unique constraint")

abbrev pub keys_unique : Session → Bool
keys_unique t = unique_payments t.working.payments && unique_products t.working.products

-- The commit of what a persistence that answered left, and the end of the attempt.
abbrev committed_as :
    {A : Type 0} → A → Session → Session → Result (Unit {0}) × Session → Result A × Session
committed_as a s t c =
    try_except (λ (_ : Session). ◌>>◌ (λ (_ : Session). c) (pure a) t) (λ e. rollback >> raise e) s

stored_accepted :
    {A : Type 0} (m : DbAction A) (s t : Session) (a : A)
    → m s ≡ (ok a, t)
    → keys_unique t ≡ true
    → stored_or_undone m s ≡ (ok a, record t { committed = t.working })
unfolding commit_report
stored_accepted {A} m s t a h unique =
    ap (λ (p : Result A × Session). stored_or_undone (λ (_ : Session). p) s) h
    ∙ ap (λ (b : Bool). committed_as a s t (commit_accepted b t)) unique

stored_refused :
    {A : Type 0} (m : DbAction A) (s t : Session) (a : A)
    → m s ≡ (ok a, t)
    → keys_unique t ≡ false
    → stored_or_undone m s ≡ (err integrity_error, record t { working = t.committed })
unfolding commit_report
stored_refused {A} m s t a h unique =
    ap (λ (p : Result A × Session). stored_or_undone (λ (_ : Session). p) s) h
    ∙ ap (λ (b : Bool). committed_as a s t (commit_accepted b t)) unique

module _ (env : Env) (lower : Text → Text) where
  -- A persistence answers, and leaves the commit to its caller.
  persist_report_answer :
      (report : NormalizedSalesReport) (started_at finished_at : ℕ) (s : Session)
      → let (r, t) = persist_report env lower report started_at finished_at s in
        (p : SalesPersistenceResult) × (r ≡ ok p) × (t.committed ≡ s.committed)
  persist_report_answer report started_at finished_at s =
      elim (Bool-cases (
        same_checksum (get_daily report.daily.organization_id report.daily.business_date s.working)
          report.daily)) [
            | inl same ↦
                let e = persist_report_same env lower report started_at finished_at s same in
                (
                  record { persisted_rows = 0; unchanged = true },
                  ap (λ (p : Result SalesPersistenceResult × Session). p.0) e,
                  ap (λ (p : Result SalesPersistenceResult × Session). p.1.committed) e,
                )
            | inr new ↦
                let e = persist_report_changed env lower report started_at finished_at s new in
                (
                  record {
                    persisted_rows = 1 + length report.payments + length report.products;
                    unchanged = false;
                  },
                  ap (λ (p : Result SalesPersistenceResult × Session). p.0) e,
                  ap (λ (p : Result SalesPersistenceResult × Session). p.1.committed) e,
                )
          ]

  -- What the commit of a report sees: the session after `persist_report`.
  abbrev pub before_commit :
      NormalizedSalesReport → ℕ → Session → Result SalesPersistenceResult × Session
  before_commit report started_at s =
      persist_report env lower report started_at (env.now s.ticks)
        (record s { ticks = s.ticks + 1 })

  abbrev pub is_accepted : NormalizedSalesReport → ℕ → Session → Bool
  is_accepted report started_at s = keys_unique (before_commit report started_at s).1

  module _ {P : Type 0} (fetch : ℕ → Text → ℕ → Result (RawResult P))
      (normalize : P → Text → ℕ → Normalization) (org : Text) where
    -- An import is stored as a whole or not at all. Where no two payments and no two products of
    -- the tables have one key after `persist_report`, it answers with the count of the rows and
    -- whether the day is unchanged, and what `persist_report` wrote is committed. Otherwise the
    -- IntegrityError of the commit is raised, and the tables, committed and not, are as before.
    pub sync_normalized-Atomic :
        (report : NormalizedSalesReport) (day started_at rows : ℕ) (s : Session)
        → Clean s
        → let (r, t) =
            sync_normalized env lower fetch normalize org
              (Normalization.normalized report)
              day
              started_at
              rows
              false
              s in
          let stored = before_commit report started_at s in
          (is_accepted report started_at s ≡ true
            → (p : SalesPersistenceResult) × (stored.0 ≡ ok p)
              × (r ≡ ok (result_from_normalized report false p.persisted_rows p.unchanged))
              × (t.working ≡ stored.1.working)
              × (t.committed ≡ stored.1.working))
          × (is_accepted report started_at s ≡ false
              → (r ≡ err integrity_error) × (t.working ≡ s.working) × (t.committed ≡ s.working))
    unfolding sync_normalized
    sync_normalized-Atomic report day started_at rows s clean =
        let s1 = record s { ticks = s.ticks + 1 } in
        let m = persist_report env lower report started_at (env.now s.ticks) in
        let (p, answered, kept) = persist_report_answer report started_at (env.now s.ticks) s1 in
        let e : m s1 ≡ (ok p, (m s1).1) = λ j. (answered j, (m s1).1) in
        let finish : Result SalesPersistenceResult × Session
            → Result IikoSalesSyncResult × Session =
          λ x.
            ◌>>=◌ (λ (_ : Session). x)
              (λ p. pure (result_from_normalized report false p.persisted_rows p.unchanged)) s1 in
        (
          λ unique.
              let whole = ap finish (stored_accepted m s1 (m s1).1 p e unique) in
              (
                p,
                answered,
                ap (λ x. x.0) whole,
                ap (λ x. x.1.working) whole,
                ap (λ x. x.1.committed) whole,
              ),
          λ twice.
              let whole = ap finish (stored_refused m s1 (m s1).1 p e twice) in
              (
                ap (λ x. x.0) whole,
                ap (λ x. x.1.working) whole ∙ kept ∙ sym clean,
                ap (λ x. x.1.committed) whole ∙ kept ∙ sym clean,
              ),
        )

    -- A report that was fetched and normalised, and when its import began.
    abbrev pub Fetched : Type 0
    Fetched = NormalizedSalesReport × ℕ

    abbrev pub import_one : Fetched → DbAction IikoSalesSyncResult
    import_one (report, started_at) =
        sync_normalized env lower fetch normalize org (Normalization.normalized report)
          report.daily.business_date started_at report.daily.source_rows_count false

    -- The imports one after another, whether each of them answers or raises.
    unfoldable pub import_all : List Fetched → Session → Session
    import_all [] s = s
    import_all (i ∷ imports) s = import_all imports (import_one i s).1

    -- Those of them that the constraints accept, with the times of their ends.
    unfoldable pub accepted_imports : List Fetched → Session → List Import
    accepted_imports [] s = []
    accepted_imports ((report, started_at) ∷ imports) s =
        let rest = accepted_imports imports (import_one (report, started_at) s).1 in
        if is_accepted report started_at s
        then record { report = report; started_at = started_at; finished_at = env.now s.ticks }
          ∷ rest
        else rest

    -- Any sequence of imports, each of a report all entries of which are of its day, leaves
    -- committed tables that read, at every organization and day, as those of the imports that the
    -- unique constraints accept replayed on the function that the tables read as before: a day
    -- holds the report that was accepted last for it under a new checksum, a refused report
    -- changes no day, and no import changes another day.
    pub import_all_refines :
        (imports : List Fetched) (s : Session)
        → Clean s
        → All (λ (i : Fetched). OfDay i.0) imports
        → view (import_all imports s).committed
          ≡ replay (accepted_imports imports s) (view s.working)
    unfolding import_all accepted_imports replay
    import_all_refines [] s clean h = ap view (sym clean)
    import_all_refines ((report, started_at) ∷ imports) s clean (entries, rest) =
        let t = (import_one (report, started_at) s).1 in
        let whole =
          sync_normalized-Atomic report report.daily.business_date started_at
            report.daily.source_rows_count s clean in
        elim (Bool-cases (is_accepted report started_at s)) [
          | inl unique ↦
              let i : Import = record {
                report = report;
                started_at = started_at;
                finished_at = env.now s.ticks;
              } in
              let (p, answered, answer, working, committed) = whole.0 unique in
              let more = import_all_refines imports t (working ∙ sym committed) rest in
              let viewed : view t.working ≡ put i (view s.working) =
                ap view working
                ∙ fun_ext (λ (o : Text). fun_ext (λ (d : ℕ).
                  persist_report-view env lower i (record s { ticks = s.ticks + 1 }) o d
                    entries)) in
              rw unique (more ∙ ap (replay (accepted_imports imports t)) viewed)
          | inr twice ↦
              let (answer, working, committed) = whole.1 twice in
              let more = import_all_refines imports t (working ∙ sym committed) rest in
              rw twice
                (more ∙ ap (λ (db : Tables). replay (accepted_imports imports t) (view db)) working)
        ]
