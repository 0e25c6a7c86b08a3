-- ===== src/Sales/DryRun.antt =====
-- The tables before and after a dry run of `sync_range`.
use dos_amigos_ops.Base.{
  Bool, Bool-cases, Option-cases, Text, inl, inr, refl, suc, true, zero, ℕ, ◌+◌, ◌-◌, ◌∙◌, ◌≡◌,
}
use dos_amigos_ops.Base.Action.{Result}
use dos_amigos_ops.Base.Keeps.{Keeps, Keeps-bind, Keeps-pure}
use dos_amigos_ops.Models.{Env, Session, datetime_now, is_proven}
use dos_amigos_ops.Sales.Sync.{
  Normalization, RangeTotals, RawResult, merge_day, no_days, record_failure, sync_day, sync_days,
  sync_normalized, sync_range, sync_raw, validate_date_range,
}

abbrev pub SameTables : Session → Session → Type 0
SameTables s t = (t.working ≡ s.working) × (t.committed ≡ s.committed)

SameTables-refl : (s : Session) → SameTables s s
SameTables-refl s = (refl, refl)

SameTables-trans : (s t v : Session) → SameTables s t → SameTables t v → SameTables s v
SameTables-trans s t v (h, h') (k, k') = (k ∙ h, k' ∙ h')

module _ (env : Env) (lower : Text → Text) {P : Type 0}
    (fetch : ℕ → Text → ℕ → Result (RawResult P)) (normalize : P → Text → ℕ → Normalization)
    (org : Text) where
  sync_normalized-Keeps :
      (n : Normalization) (day started_at rows : ℕ)
      → Keeps SameTables (sync_normalized env lower fetch normalize org n day started_at rows true)
  unfolding sync_normalized record_failure
  sync_normalized-Keeps (Normalization.normalized report) day started_at rows = record {
    at = λ s. (refl, refl);
  }
  sync_normalized-Keeps (Normalization.rejected code message) day started_at rows = record {
    at = λ s. (refl, refl);
  }
  sync_normalized-Keeps (Normalization.raised e) day started_at rows = record {
    at = λ s. (refl, refl);
  }

  sync_raw-Keeps :
      (raw : RawResult P) (day started_at : ℕ)
      → Keeps SameTables (sync_raw env lower fetch normalize org raw day started_at true)
  unfolding sync_raw record_failure
  sync_raw-Keeps raw day started_at = elim (Bool-cases (is_proven raw.status)) [
    | inl proven ↦
        rw proven
          (sync_normalized-Keeps (normalize raw.payload org day) day started_at raw.records_count)
    | inr other ↦ rw other (record { at = λ s. (refl, refl) })
  ]

  sync_day-Keeps : (day : ℕ) → Keeps SameTables (sync_day env lower fetch normalize org day true)
  unfolding sync_day
  sync_day-Keeps day =
      Keeps-bind SameTables SameTables-refl SameTables-trans (datetime_now env) _
        (record { at = λ s. (refl, refl) })
        (λ started_at.
          Keeps-bind SameTables SameTables-refl SameTables-trans (λ s. (fetch s.ticks org day, s)) _
            (record { at = λ s. (refl, refl) }) (λ raw. sync_raw-Keeps raw day started_at))

  sync_days-Keeps :
      (days current : ℕ) (totals : RangeTotals)
      → Keeps SameTables (sync_days env lower fetch normalize org days current true totals)
  unfolding sync_days
  sync_days-Keeps zero current totals =
      Keeps-pure SameTables SameTables-refl SameTables-trans totals
  sync_days-Keeps (suc days) current totals =
      Keeps-bind SameTables SameTables-refl SameTables-trans _ _ (sync_day-Keeps current)
        (λ result. sync_days-Keeps days (current + 1) (merge_day totals result))

  -- A dry run over a range of days, whatever iiko answers and even if it raises, leaves all tables
  -- as they were, those that the session sees and the committed ones.
  pub sync_range-SameTables :
      (today date_from date_to : ℕ) (allow_open_day : Bool) (s : Session)
      → SameTables s
          (sync_range env lower fetch normalize org today date_from date_to true allow_open_day s).1
  unfolding sync_range
  sync_range-SameTables today date_from date_to allow_open_day s =
      elim (Option-cases (validate_date_range today date_from date_to allow_open_day)) [
        | inr (e, refused) ↦ rw refused (refl, refl)
        | inl fine ↦ rw fine (
            (Keeps-bind SameTables SameTables-refl SameTables-trans _ _
                (sync_days-Keeps (date_to + 1 - date_from) date_from no_days)
                (λ totals. Keeps-pure SameTables SameTables-refl SameTables-trans _)).at
              s)
      ]
