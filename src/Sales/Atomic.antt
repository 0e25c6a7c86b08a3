-- ===== src/Sales/Atomic.antt =====
-- What `sync_day` and `sync_range` leave uncommitted.
use dos_amigos_ops.Base.{Bool, Bool-cases, Text, false, inl, inr, refl, true, ℕ, ◌&&◌, ◌≡◌}
use dos_amigos_ops.Base.Action.{Result, err, ok, pure, raise, try_except, ◌>>=◌, ◌>>◌}
use dos_amigos_ops.Base.Keeps.{Keeps, Keeps-bind, Keeps-pure}
use dos_amigos_ops.Models.{DbAction, Env, Session, datetime_now, is_proven, rollback}
use dos_amigos_ops.OutboxApi.Lookup.{report}
use dos_amigos_ops.Sales.Repository.{add_sync_run, persist_report, record_failed_run}
use dos_amigos_ops.Sales.Sync.{
  Normalization, RawResult, commit_accepted, commit_report, record_failure, result_from_normalized,
  sync_day, sync_normalized, sync_raw, unique_payments, unique_products,
}

abbrev pub Clean : Session → Type 0
Clean s = s.working ≡ s.committed

abbrev pub StaysClean : Session → Session → Type 0
StaysClean s t = Clean s → Clean t

StaysClean-refl : (s : Session) → StaysClean s s
StaysClean-refl s h = h

StaysClean-trans : (s t v : Session) → StaysClean s t → StaysClean t v → StaysClean s v
StaysClean-trans s t v h k = λ c. k (h c)

-- `try: ...; commit() except Exception: rollback(); raise`
abbrev pub stored_or_undone : {A : Type 0} → DbAction A → DbAction A
stored_or_undone m = try_except (m >>= λ a. commit_report >> pure a) (λ e. rollback >> raise e)

settled :
    {A : Type 0} (accepted : Bool) (a : A) (s t : Session)
    → Clean
        (try_except
          (◌>>=◌ (λ (_ : Session). (ok a, t)) (λ b. commit_accepted accepted >> pure b))
          (λ e. rollback >> raise e)
          s).1
settled true a s t = refl
settled false a s t = refl

undone :
    {A : Type 0} (r : Result A) (s t : Session)
    → Clean (stored_or_undone (λ (_ : Session). (r, t)) s).1
unfolding commit_report
undone (err e) s t = refl
undone (ok a) s t =
    settled (unique_payments t.working.payments && unique_products t.working.products) a s t

module _ (env : Env) (lower : Text → Text) {P : Type 0}
    (fetch : ℕ → Text → ℕ → Result (RawResult P)) (normalize : P → Text → ℕ → Normalization)
    (org : Text) where
  sync_normalized-Clean :
      (n : Normalization) (day started_at rows : ℕ) (dry_run : Bool)
      → Keeps StaysClean
          (sync_normalized env lower fetch normalize org n day started_at rows dry_run)
  unfolding sync_normalized record_failure record_failed_run add_sync_run
  sync_normalized-Clean (Normalization.raised e) day started_at rows dry_run = record {
    at = λ s h. h;
  }
  sync_normalized-Clean (Normalization.rejected code message) day started_at rows true = record {
    at = λ s h. h;
  }
  sync_normalized-Clean (Normalization.rejected code message) day started_at rows false = record {
    at = λ s h. refl;
  }
  sync_normalized-Clean (Normalization.normalized report) day started_at rows true = record {
    at = λ s h. h;
  }
  sync_normalized-Clean (Normalization.normalized report) day started_at rows false =
      Keeps-bind StaysClean StaysClean-refl StaysClean-trans (datetime_now env) _
        (record { at = λ s h. h })
        (λ finished_at.
          Keeps-bind StaysClean StaysClean-refl StaysClean-trans
            (stored_or_undone (persist_report env lower report started_at finished_at)) _
            (record {
              at = λ s h.
                  let stored = persist_report env lower report started_at finished_at s in
                  undone stored.0 s stored.1;
            })
            (λ p.
              Keeps-pure StaysClean StaysClean-refl StaysClean-trans
                (result_from_normalized report false p.persisted_rows p.unchanged)))

  sync_raw-Clean :
      (raw : RawResult P) (day started_at : ℕ) (dry_run : Bool)
      → Keeps StaysClean (sync_raw env lower fetch normalize org raw day started_at dry_run)
  unfolding sync_raw record_failure record_failed_run add_sync_run
  sync_raw-Clean raw day started_at true = elim (Bool-cases (is_proven raw.status)) [
    | inl proven ↦ rw proven (
        sync_normalized-Clean (normalize raw.payload org day) day started_at raw.records_count true)
    | inr other ↦ rw other (record { at = λ s h. h })
  ]
  sync_raw-Clean raw day started_at false = elim (Bool-cases (is_proven raw.status)) [
    | inl proven ↦ rw proven (
        sync_normalized-Clean (normalize raw.payload org day) day started_at raw.records_count
          false)
    | inr other ↦ rw other (record { at = λ s h. refl })
  ]

  pub sync_day-Clean :
      (day : ℕ) (dry_run : Bool)
      → Keeps StaysClean (sync_day env lower fetch normalize org day dry_run)
  unfolding sync_day
  sync_day-Clean day dry_run =
      Keeps-bind StaysClean StaysClean-refl StaysClean-trans (datetime_now env) _
        (record { at = λ s h. h })
        (λ started_at.
          Keeps-bind StaysClean StaysClean-refl StaysClean-trans (λ s. (fetch s.ticks org day, s)) _
            (record { at = λ s h. h }) (λ raw. sync_raw-Clean raw day started_at dry_run))
